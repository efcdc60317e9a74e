-- ===== src/Matmul/Bytes.antt =====
-- The matrices of matmul-hard.c in memory: an `int32_t` is four bytes, the low one first, and the
-- rows follow one another. The collectives of fmpi.c move these bytes.
use cs140e_final_parallel_co.Base.{
  ℕ, zero, suc, ◌+◌, ◌*◌, ◌^◌, ◌≤◌, ◌<◌, ◌≡◌, refl, ap, ap₂, ◌∙◌, List, [], ◌∷◌, ◌++◌, arith, u32,
  length, take, drop, slice, get_or, length-append,
}
use native.Mathlib.Nat.{zero-add, suc-add}
use cs140e_final_parallel_co.Circular.{word_bytes}
use cs140e_final_parallel_co.Matmul.{Row, Matrix}

-- The `int32_t` at a byte offset.
abbrev pub word_at : List ℕ → ℕ → ℕ
word_at bs k =
    get_or bs k 0
    + get_or bs (k + 1) 0 * 2 ^ 8
    + get_or bs (k + 2) 0 * 2 ^ 16
    + get_or bs (k + 3) 0 * 2 ^ 24

-- The matrix whose rows of `n` elements a buffer holds.
unfoldable pub load : (n : ℕ) → List ℕ → Matrix
load n bs i j = word_at bs (4 * (i * n + j))

unfoldable pub row_bytes : (left j : ℕ) → Row → List ℕ
row_bytes zero j r = []
row_bytes (suc left) j r = word_bytes (r j) ++ row_bytes left (j + 1) r

-- The bytes of `rows` rows from row `i` on.
unfoldable pub store : (n rows i : ℕ) → Matrix → List ℕ
store n zero i m = []
store n (suc rows) i m = row_bytes n 0 (m i) ++ store n rows (i + 1) m

get_or-right : (xs ys : List ℕ) (k : ℕ) → get_or (xs ++ ys) (length xs + k) 0 ≡ get_or ys k 0
get_or-right [] ys k = rw zero-add
get_or-right (x ∷ xs) ys k = rw suc-add (get_or-right xs ys k)

get_or-left : (xs ys : List ℕ) (k : ℕ) → k < length xs → get_or (xs ++ ys) k 0 ≡ get_or xs k 0
get_or-left [] ys k h = absurd (omega arith)
get_or-left (x ∷ xs) ys zero h = refl
get_or-left (x ∷ xs) ys (suc k) h = get_or-left xs ys k (omega arith)

get_or-take : (n : ℕ) (xs : List ℕ) (k : ℕ) → k < n → get_or (take n xs) k 0 ≡ get_or xs k 0
get_or-take zero xs k h = absurd (omega arith)
get_or-take (suc n) [] k h = refl
get_or-take (suc n) (x ∷ xs) zero h = refl
get_or-take (suc n) (x ∷ xs) (suc k) h = get_or-take n xs k (omega arith)

get_or-drop : (o : ℕ) (xs : List ℕ) (k : ℕ) → get_or (drop o xs) k 0 ≡ get_or xs (o + k) 0
get_or-drop zero xs k = rw zero-add
get_or-drop (suc o) [] k = refl
get_or-drop (suc o) (x ∷ xs) k = rw suc-add (get_or-drop o xs k)

get_or-slice : (xs : List ℕ) (o n k : ℕ) → k < n → get_or (slice xs o n) k 0 ≡ get_or xs (o + k) 0
get_or-slice xs o n k h = get_or-take n (drop o xs) k h ∙ get_or-drop o xs k

-- Four bytes that agree make one word.
word_at_ext :
    (xs ys : List ℕ) (a b : ℕ)
    → ((t : ℕ) → t < 4 → get_or xs (a + t) 0 ≡ get_or ys (b + t) 0)
    → word_at xs a ≡ word_at ys b
word_at_ext xs ys a b same =
    let first : get_or xs a 0 ≡ get_or ys b 0 =
      ap (λ k. get_or xs k 0) (omega arith)
      ∙ same 0 (omega arith)
      ∙ ap (λ k. get_or ys k 0) (omega arith) in
    rw (first, same 1 (omega arith), same 2 (omega arith), same 3 (omega arith))

pub word_at-slice :
    (xs : List ℕ) (o n k : ℕ) → k + 4 ≤ n → word_at (slice xs o n) k ≡ word_at xs (o + k)
word_at-slice xs o n k h =
    word_at_ext (slice xs o n) xs k (o + k)
      λ t lt. get_or-slice xs o n (k + t) (omega arith) ∙ ap (λ i. get_or xs i 0) (omega arith)

pub word_at-left :
    (xs ys : List ℕ) (k : ℕ) → k + 4 ≤ length xs → word_at (xs ++ ys) k ≡ word_at xs k
word_at-left xs ys k h =
    word_at_ext (xs ++ ys) xs k k λ t lt. get_or-left xs ys (k + t) (omega arith)

word_at-right :
    (xs ys : List ℕ) (n k : ℕ) → length xs ≡ n → word_at (xs ++ ys) (n + k) ≡ word_at ys k
word_at-right xs ys n k e =
    word_at_ext (xs ++ ys) ys (n + k) k
      λ t lt. ap (λ i. get_or (xs ++ ys) i 0) (omega arith) ∙ get_or-right xs ys (k + t)

length-word_bytes : (w : ℕ) → length (word_bytes w) ≡ 4
unfolding word_bytes
length-word_bytes w = refl

word_at-word_bytes : (w : ℕ) (rest : List ℕ) → word_at (word_bytes w ++ rest) 0 ≡ u32 w
unfolding word_bytes
word_at-word_bytes w rest = omega arith

length-row_bytes : (left j : ℕ) (r : Row) → length (row_bytes left j r) ≡ 4 * left
unfolding row_bytes
length-row_bytes zero j r = refl
length-row_bytes (suc left) j r =
    length-append (word_bytes (r j)) (row_bytes left (j + 1) r)
    ∙ omega (arith, length-word_bytes (r j), length-row_bytes left (j + 1) r)

pub length-store : (n rows i : ℕ) (m : Matrix) → length (store n rows i m) ≡ 4 * (rows * n)
unfolding store
length-store n zero i m = omega arith
length-store n (suc rows) i m =
    length-append (row_bytes n 0 (m i)) (store n rows (i + 1) m)
    ∙ omega (arith, length-row_bytes n 0 (m i), length-store n rows (i + 1) m)

word_at-row_bytes :
    (left j : ℕ) (r : Row) (q : ℕ)
    → q < left
    → word_at (row_bytes left j r) (4 * q) ≡ u32 (r (j + q))
unfolding row_bytes
word_at-row_bytes zero j r q h = absurd (omega arith)
word_at-row_bytes (suc left) j r zero h =
    word_at-word_bytes (r j) (row_bytes left (j + 1) r) ∙ ap (λ k. u32 (r k)) (omega arith)
word_at-row_bytes (suc left) j r (suc q) h =
    let rest = row_bytes left (j + 1) r in
    ap (word_at (word_bytes (r j) ++ rest)) (omega arith)
    ∙ word_at-right (word_bytes (r j)) rest 4 (4 * q) (length-word_bytes (r j))
    ∙ word_at-row_bytes left (j + 1) r q (omega arith)
    ∙ ap (λ k. u32 (r k)) (omega arith)

row_fits : (q rows n : ℕ) → q < rows → q * n + n ≤ rows * n
row_fits q rows n h = grind arith

word_at-store :
    (n rows i : ℕ) (m : Matrix) (q j : ℕ)
    → q < rows
    → j < n
    → word_at (store n rows i m) (4 * (q * n + j)) ≡ u32 (m (i + q) j)
unfolding store
word_at-store n zero i m q j h k = absurd (omega arith)
word_at-store n (suc rows) i m zero j h k =
    let row = row_bytes n 0 (m i) in
    ap (word_at (row ++ store n rows (i + 1) m)) (omega arith)
    ∙ word_at-left row (store n rows (i + 1) m) (4 * j) (omega (arith, length-row_bytes n 0 (m i)))
    ∙ word_at-row_bytes n 0 (m i) j k
    ∙ ap₂ (λ a b. u32 (m a b)) (omega arith) (omega arith)
word_at-store n (suc rows) i m (suc q) j h k =
    let row = row_bytes n 0 (m i) in
    ap (word_at (row ++ store n rows (i + 1) m)) (omega arith)
    ∙ word_at-right row (store n rows (i + 1) m) (4 * n) (4 * (q * n + j))
        (length-row_bytes n 0 (m i))
    ∙ word_at-store n rows (i + 1) m q j (omega arith) k
    ∙ ap (λ a. u32 (m a j)) (omega arith)

-- A matrix that is stored and loaded again has the same elements.
pub load-store :
    (n rows : ℕ) (m : Matrix) (q j : ℕ)
    → q < rows
    → j < n
    → load n (store n rows 0 m) q j ≡ u32 (m q j)
unfolding load
load-store n rows m q j h k = word_at-store n rows 0 m q j h k ∙ ap (λ a. u32 (m a j)) (omega arith)

-- Row `q` of chunk `i` is row `i * rows + q` of the whole.
pub load-slice :
    (n rows i : ℕ) (bs : List ℕ) (q j : ℕ)
    → q < rows
    → j < n
    → load n (slice bs (i * (rows * n * 4)) (rows * n * 4)) q j ≡ load n bs (i * rows + q) j
unfolding load
load-slice n rows i bs q j h k =
    word_at-slice bs (i * (rows * n * 4)) (rows * n * 4) (4 * (q * n + j))
      (omega (arith, row_fits q rows n h))
    ∙ ap (word_at bs) (omega arith)

-- The rows at the front of a buffer.
pub load-front :
    (n rows : ℕ) (xs ys : List ℕ) (q j : ℕ)
    → length xs ≡ rows * n * 4
    → q < rows
    → j < n
    → load n (xs ++ ys) q j ≡ load n xs q j
unfolding load
load-front n rows xs ys q j e h k =
    word_at-left xs ys (4 * (q * n + j)) (omega (arith, row_fits q rows n h))
