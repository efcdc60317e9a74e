-- ===== src/Circular/Words.antt =====
-- 32-bit words in the queue, checkpoints, and the queue that `cq_init` makes.
use cs140e_final_parallel_co.Base.{
  ℕ, ◌+◌, ◌*◌, ◌%◌, ◌^◌, ◌≤◌, ◌<◌, ◌≡◌, refl, ap, ◌∙◌, sym, Bool, true, false, List, [], ◌∷◌, ◌++◌,
  some, arith, ltb, length, take, drop, append_assoc, length-append, append-nil, lt→ltb,
  le→ltb_false,
}
use native.Mathlib.Nat.{zero-mod, mod-eq_of_lt}
use cs140e_final_parallel_co.Circular.{
  Cq, cq_pop_n, cq_push32, cq_pop32_noblk, cq_pop32, cq_pop_n_noblk, word_bytes, bytes_word,
  cq_init, cleared, cq_ckpt, cq_restore, cq_full, cq_empty, cq_nelem, cq_pop_nonblock,
}
use cs140e_final_parallel_co.Circular.Window.{InRange, contents}
use cs140e_final_parallel_co.Circular.Fifo.{at_tail, cq_nelem-contents}
use cs140e_final_parallel_co.Circular.Fifo.Batch.{cq_pop_n_lem, cq_push_n_lem}

-- The bytes of some words in order.
abbrev pub words : List ℕ → List ℕ
words [] = []
words (x ∷ xs) = word_bytes x ++ words xs

words-append : (xs ys : List ℕ) → words (xs ++ ys) ≡ words xs ++ words ys
words-append [] ys = refl
words-append (x ∷ xs) ys =
    ap (λ l. word_bytes x ++ l) (words-append xs ys)
    ∙ sym (append_assoc (word_bytes x) (words xs) (words ys))

bytes_word-word_bytes : (x : ℕ) → x < 2 ^ 32 → bytes_word (word_bytes x) ≡ x
unfolding bytes_word word_bytes
bytes_word-word_bytes x h = omega arith

length-word_bytes : (x : ℕ) → length (word_bytes x) ≡ 4
unfolding word_bytes
length-word_bytes x = refl

-- With room for four bytes, `cq_push32` appends the word to the words in the queue.
pub cq_push32_lem :
    (cq_n m : ℕ) (q : Cq) (x : ℕ) (ws : List ℕ)
    → cq_n * m ≡ 2 ^ 32
    → InRange cq_n q
    → contents cq_n q ≡ words ws
    → length (words ws) + 4 < cq_n
    → (q' : Cq) × (cq_push32 cq_n q x ≡ some (true, q'))
      × InRange cq_n q'
      × (contents cq_n q' ≡ words (ws ++ (x ∷ [])))
unfolding cq_push32
cq_push32_lem cq_n m q x ws size range held room =
    let (q', e, r, c) =
      cq_push_n_lem cq_n m q (word_bytes x) size range (omega (arith, length-word_bytes x)) in
    let fits : ltb (length (contents cq_n q) + length (word_bytes x)) cq_n ≡ true =
      rw (held, length-word_bytes x) (lt→ltb (length (words ws) + 4) cq_n room) in
    (
      q',
      rw fits at e,
      r,
      (rw fits at c)
          ∙ ap (λ l. l ++ word_bytes x) held
          ∙ ap (λ l. words ws ++ l) (sym (append-nil (word_bytes x)))
          ∙ sym (words-append ws (x ∷ [])),
    )

take-word : (x : ℕ) (rest : List ℕ) → take 4 (word_bytes x ++ rest) ≡ word_bytes x
unfolding word_bytes
take-word x rest = refl

drop-word : (x : ℕ) (rest : List ℕ) → drop 4 (word_bytes x ++ rest) ≡ rest
unfolding word_bytes
drop-word x rest = refl

-- Where words are in the queue, `cq_pop32` and `cq_pop32_noblk` take the oldest one.
pub cq_pop32_lem :
    (cq_n m : ℕ) (q : Cq) (x : ℕ) (ws : List ℕ)
    → cq_n * m ≡ 2 ^ 32
    → InRange cq_n q
    → contents cq_n q ≡ words (x ∷ ws)
    → x < 2 ^ 32
    → (q' : Cq) × (cq_pop32 cq_n q ≡ some (x, q'))
      × (cq_pop32_noblk cq_n q ≡ some (some (x, q')))
      × InRange cq_n q'
      × (contents cq_n q' ≡ words ws)
unfolding cq_pop32 cq_pop32_noblk cq_pop_n_noblk
cq_pop32_lem cq_n m q x ws size range held word =
    let four : length (contents cq_n q) ≡ 4 + length (words ws) =
      ap (λ l. length l) held
      ∙ length-append (word_bytes x) (words ws)
      ∙ ap (λ k. k + length (words ws)) (length-word_bytes x) in
    let (t, e, lt, rest) = cq_pop_n_lem cq_n m q 4 size range (omega (arith, four)) in
    let enough : ltb (length (contents cq_n q)) 4 ≡ false =
      le→ltb_false (length (contents cq_n q)) 4 (omega (arith, four)) in
    let read : bytes_word (take 4 (contents cq_n q)) ≡ x =
      ap (λ l. bytes_word (take 4 l)) held
      ∙ ap bytes_word (take-word x (words ws))
      ∙ bytes_word-word_bytes x word in
    (
      at_tail q t,
      rw (e, read) refl,
      rw (cq_nelem-contents cq_n m q size range, enough, e, read) refl,
      (range.0, lt),
      rest ∙ ap (drop 4) held ∙ drop-word x (words ws),
    )

-- Going back to a checkpoint undoes the pops since.
pub cq_restore-cq_ckpt :
    (cq_n m : ℕ) (q : Cq) (n : ℕ)
    → cq_n * m ≡ 2 ^ 32
    → InRange cq_n q
    → n ≤ length (contents cq_n q)
    → (bytes : List ℕ) × (q' : Cq) × (cq_pop_n cq_n q n ≡ some (bytes, q'))
      × (cq_restore q' (cq_ckpt q) ≡ q)
cq_restore-cq_ckpt cq_n m q n size range le =
    let (t, e, lt, rest) = cq_pop_n_lem cq_n m q n size range le in
    (take n (contents cq_n q), at_tail q t, e, refl)

-- With a size of two or more that divides 2 ^ 32 the assertions of `cq_init` hold, and the queue that
-- it makes is in range and empty.
pub cq_init_lem :
    (cq_n m : ℕ) (errors_fatal_p : Bool)
    → cq_n * m ≡ 2 ^ 32
    → 1 < cq_n
    → (q : Cq) × (cq_init cq_n errors_fatal_p ≡ some q) × InRange cq_n q × (contents cq_n q ≡ [])
unfolding cq_init cq_full cq_nelem cq_empty cq_pop_nonblock contents
cq_init_lem cq_n m errors_fatal_p size big =
    let fits : 1 % cq_n ≡ 1 = mod-eq_of_lt big in
    rw (fits, zero-mod cq_n) (cleared errors_fatal_p, refl, (omega arith, omega arith), refl)
