-- ===== src/Circular/Fifo.antt =====
-- The queue is a first-in first-out list of at most `cq_n - 1` bytes, for a size that divides 2 ^ 32:
-- `cq_nelem` takes a difference of `unsigned` modulo the size.
pub mod Batch
use cs140e_final_parallel_co.Base.{
  ℕ, zero, suc, ◌+◌, ◌-◌, ◌*◌, ◌%◌, ◌^◌, ◌≤◌, ◌<◌, ◌≡◌, refl, ap, ◌∙◌, sym, Bool, true, false, List,
  [], ◌∷◌, ◌++◌, Option, none, some, arith, ltb, leb, ◌==◌, if◌then◌else◌, u32, length, Bool-cases,
  inl, inr, ==→eq, ne→==, ◌≢◌, ==_refl, lt→ltb,
}
use cs140e_final_parallel_co.Base.Results.{◌>>=◌, ◌>>◌, require}
use cs140e_final_parallel_co.Circular.{
  Cq, poke, cq_nelem, cq_nspace, cq_empty, cq_full, cq_pop_nonblock, cq_push, cq_peek,
}
use cs140e_final_parallel_co.Circular.Window.{
  InRange, next, next_lem, elems, nelem_lem, window, contents, length-window, window-pushed,
  size_bounds,
}

module _ (cq_n m : ℕ) (q : Cq) (size : cq_n * m ≡ 2 ^ 32) (range : InRange cq_n q) where
  pub length-contents : length (contents cq_n q) ≡ elems cq_n q
  unfolding contents
  length-contents = length-window cq_n q.c_buf q.tail (elems cq_n q)

  pub elems-lt : elems cq_n q < cq_n
  elems-lt = ground (arith, range.0, range.1)

  pub cq_nelem-contents : cq_nelem cq_n q ≡ length (contents cq_n q)
  cq_nelem-contents = nelem_lem cq_n m q size range ∙ sym length-contents

  pub cq_nspace-contents : cq_nspace cq_n q ≡ cq_n - 1 - length (contents cq_n q)
  unfolding cq_nspace
  cq_nspace-contents =
      rw cq_nelem-contents (omega (arith, length-contents, elems-lt, (size_bounds cq_n m size).0))

  pub cq_empty-contents : cq_empty q ≡ (length (contents cq_n q) == 0)
  unfolding cq_empty
  cq_empty-contents = rw length-contents (ground (arith, range.0, range.1))

  pub cq_full-contents : cq_full cq_n q ≡ (length (contents cq_n q) == cq_n - 1)
  unfolding cq_full
  cq_full-contents =
      rw (length-contents, next_lem cq_n q.head range.0 (size_bounds cq_n m size).0)
        (ground (arith, range.0, range.1))

pushed :
    (cq_n : ℕ) (q : Cq) (x : ℕ)
    → InRange cq_n q
    → elems cq_n q + 1 < cq_n
    → contents cq_n (record q { c_buf = poke q.c_buf q.head x; head = next cq_n q.head })
      ≡ contents cq_n q ++ (x ∷ [])
unfolding contents
pushed cq_n q x (h, t) few = window-pushed cq_n q.head q.tail q.c_buf x h t few

-- `cq_push` appends the byte and returns 1 as long as there are fewer than `cq_n - 1`, and else
-- returns 0 and leaves the queue. Its `assert` holds.
pub cq_push_lem :
    (cq_n m : ℕ) (q : Cq) (x : ℕ)
    → cq_n * m ≡ 2 ^ 32
    → InRange cq_n q
    → let room = ltb (length (contents cq_n q)) (cq_n - 1) in
      (q' : Cq) × (cq_push cq_n q x ≡ some (room, q'))
      × InRange cq_n q'
      × (contents cq_n q' ≡ (if room then contents cq_n q ++ (x ∷ []) else contents cq_n q))
unfolding cq_push
cq_push_lem cq_n m q x size range = elim (Bool-cases (length (contents cq_n q) == cq_n - 1)) [
  | inl full ↦
      let no_room : ltb (length (contents cq_n q)) (cq_n - 1) ≡ false = ground arith in
      rw (cq_full-contents cq_n m q size range, full, no_room) (q, refl, range, refl)
  | inr free ↦
      let len = length-contents cq_n m q size range in
      let few = elems-lt cq_n m q size range in
      let room : ltb (length (contents cq_n q)) (cq_n - 1) ≡ true = ground (arith, len, few) in
      let space : ltb 0 (cq_nspace cq_n q) ≡ true =
        ground (arith, cq_nspace-contents cq_n m q size range, room) in
      let at = next_lem cq_n q.head range.0 (size_bounds cq_n m size).0 in
      let q' : Cq = record q { c_buf = poke q.c_buf q.head x; head = next cq_n q.head } in
      rw (cq_full-contents cq_n m q size range, free, room, space, at)
        (q', refl, (ground (arith, range.0), range.1), pushed cq_n q x range (ground (arith, len)))
]

-- The queue behind a pop differs in its tail alone.
abbrev pub at_tail : Cq → ℕ → Cq
at_tail q t = record q { tail = t }

-- What a pop yields of a queue with these contents.
abbrev pub Pops : ℕ → Cq → List ℕ → Option (ℕ × Cq) → Type 0
Pops cq_n q [] r = r ≡ none
Pops cq_n q (x ∷ xs) r =
    (t : ℕ) × (r ≡ some (x, at_tail q t)) × (t < cq_n) × (contents cq_n (at_tail q t) ≡ xs)

-- `cq_pop_nonblock` takes the oldest byte, and fails on the empty queue.
pub cq_pop_nonblock_lem :
    (cq_n m : ℕ) (q : Cq)
    → cq_n * m ≡ 2 ^ 32
    → InRange cq_n q
    → Pops cq_n q (contents cq_n q) (cq_pop_nonblock cq_n q)
unfolding cq_pop_nonblock contents cq_empty
cq_pop_nonblock_lem cq_n m q size (h, t) = go (elems cq_n q) refl
  where
    go :
        (k : ℕ)
        → elems cq_n q ≡ k
        → Pops cq_n q (window cq_n q.c_buf q.tail k) (cq_pop_nonblock cq_n q)
    go zero e = rw empty refl
      where
        empty : (q.head == q.tail) ≡ true
        empty = ground arith
    go (suc k) e =
        rw (used, next_lem cq_n q.tail t (size_bounds cq_n m size).0)
          (next cq_n q.tail, refl, ground arith, ap (window cq_n q.c_buf (next cq_n q.tail)) less)
      where
        used : (q.head == q.tail) ≡ false
        used = ground arith

        less : elems cq_n (record q { tail = next cq_n q.tail }) ≡ k
        less = ground arith
