-- ===== src/Matmul/Ranks/Share.antt =====
-- A rank's share of the product in matmul-hard.c is its rows of the whole product.
use cs140e_final_parallel_co.Base.{
  ℕ, zero, suc, ◌+◌, ◌*◌, ◌^◌, ◌≤◌, ◌<◌, ◌≡◌, refl, sym, ap, ◌∙◌, false, List, ◌++◌, arith, u32,
  ◌==◌, Bool-cases, inl, inr, ==→eq, length, slice, length-slice,
}
use native.Mathlib.Nat.{mod-eq_of_lt}
use cs140e_final_parallel_co.Fmpi.Collective.Scatter.{chunk_fits}
use cs140e_final_parallel_co.Matmul.{Row, Matrix, put_elem, matmul, matrix_multiply}
use cs140e_final_parallel_co.Matmul.Product.{dot, dot_ext, product_lem, matmul_in}
use cs140e_final_parallel_co.Matmul.Bytes.{
  row_bytes, load, store, load-store, load-slice, load-front, length-store,
}
use cs140e_final_parallel_co.Matmul.Ranks.{multiply_share}

-- Each element of the `n` by `n` matrix is an `int32_t`.
abbrev pub IsInt32 : ℕ → Matrix → Type 0
IsInt32 n m = (i j : ℕ) → i < n → j < n → m i j < 2 ^ 32

share_keeps :
    (n left i : ℕ) (a b c : Matrix) (q : ℕ) → q < i → multiply_share n left i a b c q ≡ c q
unfolding multiply_share put_elem
share_keeps n zero i a b c q h = refl
share_keeps n (suc left) i a b c q h =
    let other : (q == i) ≡ false = ground arith in
    share_keeps n left (i + 1) a b (put_elem c i (matmul n (a i) b (c i))) q (omega arith)
    ∙ rw other refl

share_lem :
    (n left i : ℕ) (a b c : Matrix) (q j : ℕ)
    → i ≤ q
    → q < i + left
    → j < n
    → multiply_share n left i a b c q j ≡ u32 (dot n 0 (a q) b j)
unfolding multiply_share put_elem
share_lem n zero i a b c q j low high h = absurd (omega arith)
share_lem n (suc left) i a b c q j low high h =
    let w = matmul n (a i) b (c i) in
    elim (Bool-cases (q == i)) [
      | inl e ↦
          ap (λ r. r j) (share_keeps n left (i + 1) a b (put_elem c i w) q (ground arith))
          ∙ rw e (
              matmul_in n (a i) b (c i) j h ∙ ap (λ k. u32 (dot n 0 (a k) b j)) (sym (==→eq q i e)))
      | inr e ↦ share_lem n left (i + 1) a b (put_elem c i w) q j (ground arith) (omega arith) h
    ]

row_bytes_ext :
    (left j : ℕ) (r r' : Row)
    → ((q : ℕ) → q < j + left → r q ≡ r' q)
    → row_bytes left j r ≡ row_bytes left j r'
unfolding row_bytes
row_bytes_ext zero j r r' e = refl
row_bytes_ext (suc left) j r r' e =
    rw (e j (omega arith), row_bytes_ext left (j + 1) r r' (λ q h. e q (omega arith)))

store_ext :
    (n rows i : ℕ) (m m' : Matrix)
    → ((q j : ℕ) → q < i + rows → j < n → m q j ≡ m' q j)
    → store n rows i m ≡ store n rows i m'
unfolding store
store_ext n zero i m m' e = refl
store_ext n (suc rows) i m m' e = rw (
  row_bytes_ext n 0 (m i) (m' i) (λ q h. e i q (omega arith) (omega arith)),
  store_ext n rows (i + 1) m m' (λ q j h. e q j (omega arith)),
)

-- The rows of rank `i` in the product.
abbrev pub part : (n rows : ℕ) → (a b : Matrix) → (i : ℕ) → Matrix
part n rows a b i q = matrix_multiply n a b (λ _ _. 0) (i * rows + q)

pub rank_fits : (i size q rows : ℕ) → i < size → q < rows → i * rows + q < size * rows
rank_fits i size q rows h k = grind arith

pub chunks_whole : (n rows size : ℕ) → size * rows ≡ n → size * (rows * n * 4) ≡ n * n * 4
chunks_whole n rows size e =
    let whole : size * (rows * n * 4) ≡ size * rows * n * 4 = omega arith in
    whole ∙ ap (λ k. k * n * 4) e

pub chunk_length :
    (n rows size i : ℕ) (bs : List ℕ)
    → size * rows ≡ n
    → i < size
    → length bs ≡ 4 * (n * n)
    → length (slice bs (i * (rows * n * 4)) (rows * n * 4)) ≡ rows * n * 4
chunk_length n rows size i bs e h len =
    length-slice bs (i * (rows * n * 4)) (rows * n * 4)
      (omega (arith, chunk_fits i size (rows * n * 4) h, chunks_whole n rows size e))

-- What rank `i` sends in the gather, from the bytes that it received.
pub store-share :
    (n rows size i : ℕ) (a b c_sub : Matrix) (a_rest b_rest : List ℕ)
    → size * rows ≡ n
    → i < size
    → IsInt32 n a
    → IsInt32 n b
    → let chunk = rows * n * 4 in
      store n rows 0 (
        multiply_share n rows 0
          (load n (slice (store n n 0 a) (i * chunk) chunk ++ a_rest))
          (load n (store n n 0 b ++ b_rest))
          c_sub)
      ≡ store n rows 0 (part n rows a b i)
store-share n rows size i a b c_sub a_rest b_rest whole lt ia ib =
    let chunk = rows * n * 4 in
    let a_bytes = slice (store n n 0 a) (i * chunk) chunk ++ a_rest in
    let b_bytes = store n n 0 b ++ b_rest in
    let in_a : (q k : ℕ) → q < rows → k < n → load n a_bytes q k ≡ a (i * rows + q) k = λ q k hq hk.
      let row : i * rows + q < n = rw (sym whole) (rank_fits i size q rows lt hq) in
      load-front n rows (slice (store n n 0 a) (i * chunk) chunk) a_rest q k
        (chunk_length n rows size i (store n n 0 a) whole lt (length-store n n 0 a)) hq hk
      ∙ load-slice n rows i (store n n 0 a) q k hq hk
      ∙ load-store n n a (i * rows + q) k row hk
      ∙ mod-eq_of_lt (ia (i * rows + q) k row hk) in
    let in_b : (k j : ℕ) → k < n → j < n → load n b_bytes k j ≡ b k j = λ k j hk hj.
      load-front n n (store n n 0 b) b_rest k j (omega (arith, length-store n n 0 b)) hk hj
      ∙ load-store n n b k j hk hj
      ∙ mod-eq_of_lt (ib k j hk hj) in
    store_ext n rows 0 (multiply_share n rows 0 (load n a_bytes) (load n b_bytes) c_sub)
      (part n rows a b i)
      (λ q j hq hj.
        let row : i * rows + q < n = rw (sym whole) (rank_fits i size q rows lt (omega arith)) in
        share_lem n rows 0 (load n a_bytes) (load n b_bytes) c_sub q j (omega arith) hq hj
        ∙ ap u32 (
            dot_ext n 0 (load n a_bytes q) (a (i * rows + q)) (load n b_bytes) b j
              (λ k h. in_a q k (omega arith) (omega arith)) (λ k h. in_b k j (omega arith) hj))
        ∙ sym (product_lem n a b (i * rows + q) j row hj))
