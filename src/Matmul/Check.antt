-- ===== src/Matmul/Check.antt =====
-- `verify_result` of matmul-hard.c on matrices that agree.
use cs140e_final_parallel_co.Base.{
  ℕ, zero, suc, ◌+◌, ◌<◌, ◌≡◌, refl, ap, true, arith, if◌then◌else◌, ==_refl,
}
use cs140e_final_parallel_co.Matmul.{Row, Matrix, verify_result, same_rows, same_row}

same_row_ext :
    (left j : ℕ) (r r' e : Row)
    → ((q : ℕ) → q < j + left → r q ≡ r' q)
    → same_row left j r e ≡ same_row left j r' e
unfolding same_row
same_row_ext zero j r r' e h = refl
same_row_ext (suc left) j r r' e h =
    rw (h j (omega arith), same_row_ext left (j + 1) r r' e (λ q l. h q (omega arith)))

same_rows_ext :
    (n left i : ℕ) (m m' e : Matrix)
    → ((q j : ℕ) → q < i + left → j < n → m q j ≡ m' q j)
    → same_rows n left i m e ≡ same_rows n left i m' e
unfolding same_rows
same_rows_ext n zero i m m' e h = refl
same_rows_ext n (suc left) i m m' e h = rw (
  same_row_ext n 0 (m i) (m' i) (e i) (λ q l. h i q (omega arith) (omega arith)),
  same_rows_ext n left (i + 1) m m' e (λ q j l. h q j (omega arith)),
)

pub verify_result_ext :
    (n : ℕ) (m m' e : Matrix)
    → ((q j : ℕ) → q < n → j < n → m q j ≡ m' q j)
    → verify_result n m e ≡ verify_result n m' e
unfolding verify_result
verify_result_ext n m m' e h =
    ap (λ t. if t then 1 else 0) (same_rows_ext n n 0 m m' e (λ q j l. h q j (omega arith)))

same_row_refl : (left j : ℕ) (r : Row) → same_row left j r r ≡ true
unfolding same_row
same_row_refl zero j r = refl
same_row_refl (suc left) j r = rw (==_refl (r j), same_row_refl left (j + 1) r)

same_rows_refl : (n left i : ℕ) (m : Matrix) → same_rows n left i m m ≡ true
unfolding same_rows
same_rows_refl n zero i m = refl
same_rows_refl n (suc left) i m = rw (same_row_refl n 0 (m i), same_rows_refl n left (i + 1) m)

pub verify_result_refl : (n : ℕ) (m : Matrix) → verify_result n m m ≡ 1
unfolding verify_result
verify_result_refl n m = ap (λ t. if t then 1 else 0) (same_rows_refl n n 0 m)
