-- ===== src/Matmul.antt =====
-- The matrix program src/tests/1-matmul/matmul-hard.c: the row product `matmul` that each rank
-- computes, and the matrices that the root makes and compares.
mod Bytes
mod Check
mod Generated
mod Product
mod Ranks
mod Tests
use cs140e_final_parallel_co.Base.{
  ℕ, zero, suc, ◌+◌, ◌*◌, Bool, true, ◌&&◌, if◌then◌else◌, ◌==◌, u32,
}

-- A row of `int32_t` in two's complement, each a number below 2 ^ 32.
abbrev pub Row : Type 0
Row = ℕ → ℕ

abbrev pub Matrix : Type 0
Matrix = ℕ → Row

-- `c[i] = v`, of an element or of a row.
unfoldable pub put_elem {ℓ} : {A : Type ℓ} → (ℕ → A) → ℕ → A → ℕ → A
put_elem c i v j = if j == i then v else c j

-- `C[j] += A[k] * B[k][j]` for `left` values of `k`.
unfoldable pub accumulate : (left k : ℕ) → Row → Matrix → (j acc : ℕ) → ℕ
accumulate zero k a b j acc = acc
accumulate (suc left) k a b j acc = accumulate left (k + 1) a b j (u32 (acc + a k * b k j))

unfoldable pub row_loop : (n left j : ℕ) → Row → Matrix → Row → Row
row_loop n zero j a b c = c
row_loop n (suc left) j a b c = row_loop n left (j + 1) a b (put_elem c j (accumulate n 0 a b j 0))

-- `n` is the `N` of the source.
unfoldable pub matmul : (n : ℕ) → Row → Matrix → Row → Row
matmul n a b c = row_loop n n 0 a b c

unfoldable pub multiply_rows : (n left i : ℕ) → (a b c : Matrix) → Matrix
multiply_rows n zero i a b c = c
multiply_rows n (suc left) i a b c =
    multiply_rows n left (i + 1) a b (put_elem c i (row_loop n n 0 (a i) b (c i)))

unfoldable pub matrix_multiply : (n : ℕ) → (a b c : Matrix) → Matrix
matrix_multiply n a b c = multiply_rows n n 0 a b c

-- The inner loop of `generate_matrices`, which writes one value along a row.
unfoldable pub fill_row : (left j v : ℕ) → Row → Row
fill_row zero j v c = c
fill_row (suc left) j v c = fill_row left (j + 1) v (put_elem c j v)

-- The outer loop, with the value of each row.
unfoldable pub fill_rows : (n left i : ℕ) → (ℕ → ℕ) → Matrix → Matrix
fill_rows n zero i v m = m
fill_rows n (suc left) i v m = fill_rows n left (i + 1) v (put_elem m i (fill_row n 0 (v i) (m i)))

-- `A`, `B` and `result` after the call. They are three arrays, so `A` and `B`, which the source fills in
-- one pass, are filled one after the other.
unfoldable pub generate_matrices : (n : ℕ) → (a b result : Matrix) → Matrix × Matrix × Matrix
generate_matrices n a b result = (
  fill_rows n n 0 (λ i. i + 1) a,
  fill_rows n n 0 (λ i. 1) b,
  fill_rows n n 0 (λ i. u32 ((i + 1) * n)) result,
)

unfoldable pub same_row : (left j : ℕ) → (c expected : Row) → Bool
same_row zero j c expected = true
same_row (suc left) j c expected = (c j == expected j) && same_row left (j + 1) c expected

unfoldable pub same_rows : (n left i : ℕ) → (c expected : Matrix) → Bool
same_rows n zero i c expected = true
same_rows n (suc left) i c expected =
    same_row n 0 (c i) (expected i) && same_rows n left (i + 1) c expected

-- What the program prints on a mismatch is left out.
unfoldable pub verify_result : (n : ℕ) → (c expected : Matrix) → ℕ
verify_result n c expected = if same_rows n n 0 c expected then 1 else 0
