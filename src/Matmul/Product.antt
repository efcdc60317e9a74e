-- ===== src/Matmul/Product.antt =====
-- What the rows of matmul-hard.c hold: `matmul`, `generate_matrices` and `verify_result`.
use cs140e_final_parallel_co.Base.{
  ℕ, zero, suc, ◌+◌, ◌*◌, ◌%◌, ◌^◌, ◌<◌, ◌≤◌, ◌≡◌, refl, ==→eq, false, sym, ap, ◌∙◌, true, ◌&&◌,
  if◌then◌else◌, ◌==◌, ltb, leb, u32, arith, Bool-cases, inl, inr,
}
use native.Mathlib.Nat.{mod-add-mod, mod-eq_of_lt, mod-mod}
use cs140e_final_parallel_co.Matmul.{
  Row, Matrix, put_elem, accumulate, row_loop, matmul, multiply_rows, matrix_multiply, fill_row,
}

-- The sum of `a k * b k j` over `left` values of the index.
abbrev pub dot : (left k : ℕ) → Row → Matrix → (j : ℕ) → ℕ
dot zero k a b j = 0
dot (suc left) k a b j = a k * b k j + dot left (k + 1) a b j

accumulate-dot :
    (left k : ℕ) (a : Row) (b : Matrix) (j acc : ℕ)
    → acc < 2 ^ 32
    → accumulate left k a b j acc ≡ u32 (acc + dot left k a b j)
unfolding accumulate
accumulate-dot zero k a b j acc h =
    let same : acc + 0 < 2 ^ 32 = omega arith in sym (mod-eq_of_lt same ∙ omega arith)
accumulate-dot (suc left) k a b j acc h =
    let step = acc + a k * b k j in
    let rest = dot left (k + 1) a b j in
    accumulate-dot left (k + 1) a b j (u32 step) (omega arith)
    ∙ mod-add-mod step (2 ^ 32) rest
    ∙ ap (λ v. v % 2 ^ 32) (omega arith)

-- A loop that writes `f i` at `i` and the rest of the range has written the whole range.
range_put {ℓ} :
    {A : Type ℓ} (left i j : ℕ) (f c : ℕ → A) (w : A)
    → w ≡ f i
    → (if leb (i + 1) j && ltb j (i + 1 + left) then f j else put_elem c i w j)
      ≡ (if leb i j && ltb j (i + suc left) then f j else c j)
unfolding put_elem
range_put left i j f c w h = elim (Bool-cases (j == i)) [
  | inl e ↦
      let out : (leb (i + 1) j && ltb j (i + 1 + left)) ≡ false = ground arith in
      let within : (leb i j && ltb j (i + suc left)) ≡ true = ground arith in
      rw (out, within, e) (h ∙ ap f (sym (==→eq j i e)))
  | inr e ↦
      let same : (leb (i + 1) j && ltb j (i + 1 + left)) ≡ (leb i j && ltb j (i + suc left)) =
        ground arith in
      rw (same, e) refl
]

empty_range {ℓ} : {A : Type ℓ} (i j : ℕ) (x y : A) → (if leb i j && ltb j (i + 0) then x else y) ≡ y
empty_range i j x y = let out : (leb i j && ltb j (i + 0)) ≡ false = ground arith in rw out refl

row_loop_lem :
    (n left i : ℕ) (a : Row) (b : Matrix) (c : Row) (j : ℕ)
    → row_loop n left i a b c j ≡ (if leb i j && ltb j (i + left) then u32 (dot n 0 a b j) else c j)
unfolding row_loop
row_loop_lem n zero i a b c j = sym (empty_range i j (u32 (dot n 0 a b j)) (c j))
row_loop_lem n (suc left) i a b c j =
    let w = accumulate n 0 a b i 0 in
    row_loop_lem n left (i + 1) a b (put_elem c i w) j
    ∙ range_put left i j (λ q. u32 (dot n 0 a b q)) c w
        (accumulate-dot n 0 a b i 0 (omega arith) ∙ ap u32 (omega arith))

pub fill_row_lem :
    (left i v : ℕ) (c : Row) (j : ℕ)
    → fill_row left i v c j ≡ (if leb i j && ltb j (i + left) then v else c j)
unfolding fill_row
fill_row_lem zero i v c j = sym (empty_range i j v (c j))
fill_row_lem (suc left) i v c j =
    fill_row_lem left (i + 1) v (put_elem c i v) j ∙ range_put left i j (λ q. v) c v refl

-- `matmul` writes the first `n` elements of its row: each is the product of the row and the column,
-- modulo 2 ^ 32. The rest stays.
pub matmul-dot :
    (n : ℕ) (a : Row) (b : Matrix) (c : Row) (j : ℕ)
    → matmul n a b c j ≡ (if ltb j n then u32 (dot n 0 a b j) else c j)
unfolding matmul
matmul-dot n a b c j =
    let whole : (leb 0 j && ltb j (0 + n)) ≡ ltb j n = ground arith in
    row_loop_lem n n 0 a b c j ∙ ap (λ t. if t then u32 (dot n 0 a b j) else c j) whole

multiply_rows_keeps :
    (n left i : ℕ) (a b c : Matrix) (r : ℕ) → r < i → multiply_rows n left i a b c r ≡ c r
unfolding multiply_rows put_elem
multiply_rows_keeps n zero i a b c r h = refl
multiply_rows_keeps n (suc left) i a b c r h =
    let other : (r == i) ≡ false = ground arith in
    multiply_rows_keeps n left (i + 1) a b (put_elem c i (row_loop n n 0 (a i) b (c i))) r
      (omega arith)
    ∙ rw other refl

multiply_rows_lem :
    (n left i : ℕ) (a b c : Matrix) (r : ℕ)
    → i ≤ r
    → r < i + left
    → multiply_rows n left i a b c r ≡ matmul n (a r) b (c r)
unfolding multiply_rows put_elem matmul
multiply_rows_lem n zero i a b c r low high = absurd (omega arith)
multiply_rows_lem n (suc left) i a b c r low high =
    let w = row_loop n n 0 (a i) b (c i) in
    elim (Bool-cases (r == i)) [
      | inl e ↦
          multiply_rows_keeps n left (i + 1) a b (put_elem c i w) r (ground arith)
          ∙ rw e (ap (λ q. row_loop n n 0 (a q) b (c q)) (sym (==→eq r i e)))
      | inr e ↦
          multiply_rows_lem n left (i + 1) a b (put_elem c i w) r (ground arith) (omega arith)
          ∙ rw e refl
    ]

-- The rows that the ranks compute one by one with `matmul`, into any buffer, are the rows of
-- `matrix_multiply` on the whole matrices, for every size `n`.
pub matmul-matrix_multiply :
    (n : ℕ) (a b c : Matrix) (sub : Row) (r j : ℕ)
    → r < n
    → j < n
    → matmul n (a r) b sub j ≡ matrix_multiply n a b c r j
unfolding matrix_multiply
matmul-matrix_multiply n a b c sub r j row column =
    let inside : ltb j n ≡ true = ground arith in
    let rows = multiply_rows_lem n n 0 a b c r (omega arith) (omega arith) in
    matmul-dot n (a r) b sub j
    ∙ ap (λ t. if t then u32 (dot n 0 (a r) b j) else sub j) inside
    ∙ sym (ap (λ t. if t then u32 (dot n 0 (a r) b j) else c r j) inside)
    ∙ sym (matmul-dot n (a r) b (c r) j)
    ∙ sym (ap (λ q. q j) rows)

pub dot_ext :
    (left k : ℕ) (a a' : Row) (b b' : Matrix) (j : ℕ)
    → ((q : ℕ) → q < k + left → a q ≡ a' q)
    → ((q : ℕ) → q < k + left → b q j ≡ b' q j)
    → dot left k a b j ≡ dot left k a' b' j
dot_ext zero k a a' b b' j ea eb = refl
dot_ext (suc left) k a a' b b' j ea eb = rw (
  ea k (omega arith),
  eb k (omega arith),
  dot_ext left (k + 1) a a' b b' j (λ q h. ea q (omega arith)) (λ q h. eb q (omega arith)),
)

pub matmul_in :
    (n : ℕ) (a : Row) (b : Matrix) (c : Row) (j : ℕ)
    → j < n
    → matmul n a b c j ≡ u32 (dot n 0 a b j)
matmul_in n a b c j h =
    let inside : ltb j n ≡ true = ground arith in
    matmul-dot n a b c j ∙ ap (λ t. if t then u32 (dot n 0 a b j) else c j) inside

pub product_lem :
    (n : ℕ) (a b : Matrix) (r j : ℕ)
    → r < n
    → j < n
    → matrix_multiply n a b (λ _ _. 0) r j ≡ u32 (dot n 0 (a r) b j)
product_lem n a b r j hr hj =
    sym (matmul-matrix_multiply n a b (λ _ _. 0) (λ _. 0) r j hr hj)
    ∙ matmul_in n (a r) b (λ _. 0) j hj

-- An element of the product is an `int32_t`.
pub u32-product :
    (n : ℕ) (a b : Matrix) (r j : ℕ)
    → r < n
    → j < n
    → u32 (matrix_multiply n a b (λ _ _. 0) r j) ≡ matrix_multiply n a b (λ _ _. 0) r j
u32-product n a b r j hr hj =
    let value = product_lem n a b r j hr hj in
    ap u32 value ∙ mod-mod (dot n 0 (a r) b j) (2 ^ 32) ∙ sym value
