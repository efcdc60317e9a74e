-- ===== src/Matmul/Tests.antt =====
-- Matrices of three rows.
use cs140e_final_parallel_co.Base.{◌+◌, ◌≡◌, refl, arith}
use cs140e_final_parallel_co.Matmul.{
  Matrix, matmul, matrix_multiply, generate_matrices, verify_result, same_rows, same_row,
  multiply_rows, put_elem, row_loop, accumulate, fill_rows, fill_row,
}
use cs140e_final_parallel_co.Matmul.Product.{matmul-matrix_multiply}

abbrev empty : Matrix
empty i j = 0

abbrev made : Matrix × Matrix × Matrix
made = generate_matrices 3 empty empty empty

verifies : verify_result 3 (matrix_multiply 3 (made.0) (made.1) empty) (made.2) ≡ 1
unfolding verify_result matrix_multiply generate_matrices same_rows same_row multiply_rows put_elem
    row_loop accumulate fill_rows fill_row
verifies = refl

differs : verify_result 3 empty (made.2) ≡ 0
unfolding verify_result generate_matrices same_rows same_row fill_rows put_elem fill_row
differs = refl

abbrev sums : Matrix
sums i j = i + j

matmul-matrix_multiply_example :
    matmul 3 (sums 1) sums (sums 0) 2 ≡ matrix_multiply 3 sums sums empty 1 2
matmul-matrix_multiply_example =
    matmul-matrix_multiply 3 sums sums empty (sums 0) 1 2 (omega arith) (omega arith)
