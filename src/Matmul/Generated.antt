-- ===== src/Matmul/Generated.antt =====
-- The matrices that `generate_matrices` of matmul-hard.c makes, and their product.
use cs140e_final_parallel_co.Base.{
  ℕ, zero, suc, ◌+◌, ◌*◌, ◌≤◌, ◌<◌, ◌≡◌, refl, sym, ap, ◌∙◌, true, false, arith, u32, ◌==◌, ◌&&◌,
  ltb, leb, Bool-cases, inl, inr, ==→eq,
}
use cs140e_final_parallel_co.Matmul.{
  Matrix, put_elem, fill_row, fill_rows, generate_matrices, matrix_multiply, verify_result,
}
use cs140e_final_parallel_co.Matmul.Check.{verify_result_ext, verify_result_refl}
use cs140e_final_parallel_co.Matmul.Product.{dot, dot_ext, fill_row_lem, product_lem}

fill_rows_keeps :
    (n left i : ℕ) (v : ℕ → ℕ) (m : Matrix) (r : ℕ) → r < i → fill_rows n left i v m r ≡ m r
unfolding fill_rows put_elem
fill_rows_keeps n zero i v m r h = refl
fill_rows_keeps n (suc left) i v m r h =
    let other : (r == i) ≡ false = ground arith in
    fill_rows_keeps n left (i + 1) v (put_elem m i (fill_row n 0 (v i) (m i))) r (omega arith)
    ∙ rw other refl

fill_rows_lem :
    (n left i : ℕ) (v : ℕ → ℕ) (m : Matrix) (r j : ℕ)
    → i ≤ r
    → r < i + left
    → j < n
    → fill_rows n left i v m r j ≡ v r
unfolding fill_rows put_elem
fill_rows_lem n zero i v m r j low high h = absurd (omega arith)
fill_rows_lem n (suc left) i v m r j low high h =
    let w = fill_row n 0 (v i) (m i) in
    let inside : (leb 0 j && ltb j (0 + n)) ≡ true = ground arith in
    elim (Bool-cases (r == i)) [
      | inl e ↦
          ap (λ q. q j) (fill_rows_keeps n left (i + 1) v (put_elem m i w) r (ground arith))
          ∙ rw e (fill_row_lem n 0 (v i) (m i) j ∙ rw inside (ap v (sym (==→eq r i e))))
      | inr e ↦ fill_rows_lem n left (i + 1) v (put_elem m i w) r j (ground arith) (omega arith) h
    ]

module _ (n : ℕ) (a b expected : Matrix) (r j : ℕ) (row : r < n) (column : j < n) where
  pub generated_a : (generate_matrices n a b expected).0 r j ≡ r + 1
  unfolding generate_matrices
  generated_a = fill_rows_lem n n 0 (λ i. i + 1) a r j (omega arith) (omega arith) column

  pub generated_b : (generate_matrices n a b expected).1 r j ≡ 1
  unfolding generate_matrices
  generated_b = fill_rows_lem n n 0 (λ i. 1) b r j (omega arith) (omega arith) column

  pub generated_expected : (generate_matrices n a b expected).2 r j ≡ u32 ((r + 1) * n)
  unfolding generate_matrices
  generated_expected =
      fill_rows_lem n n 0 (λ i. u32 ((i + 1) * n)) expected r j (omega arith) (omega arith) column

dot_ones : (left k x j : ℕ) → dot left k (λ _. x) (λ _ _. 1) j ≡ x * left
dot_ones zero k x j = omega arith
dot_ones (suc left) k x j = omega (arith, dot_ones left (k + 1) x j)

-- The product of the generated matrices is the generated result: each element of row `r` is
-- `(r + 1) * n` modulo 2 ^ 32, and the check finds no difference.
pub verify_result-generated :
    (n : ℕ) (a b expected : Matrix)
    → let made = generate_matrices n a b expected in
      verify_result n (matrix_multiply n (made.0) (made.1) (λ _ _. 0)) (made.2) ≡ 1
verify_result-generated n a b expected =
    let made = generate_matrices n a b expected in
    let product = matrix_multiply n (made.0) (made.1) (λ _ _. 0) in
    verify_result_ext n product (made.2) (made.2) (λ r j hr hj.
      product_lem n (made.0) (made.1) r j hr hj
      ∙ ap u32 (
          dot_ext n 0 (made.0 r) (λ _. r + 1) (made.1) (λ _ _. 1) j
            (λ k h. generated_a n a b expected r k hr (omega arith))
            (λ k h. generated_b n a b expected k j (omega arith) hj)
          ∙ dot_ones n 0 (r + 1) j)
      ∙ sym (generated_expected n a b expected r j hr hj))
    ∙ verify_result_refl n (made.2)
