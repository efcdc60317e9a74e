-- ===== src/Circular/Fifo/Batch.antt =====
-- The operations on `n` bytes at once.
use cs140e_final_parallel_co.Base.{
  ℕ, zero, suc, ◌+◌, ◌-◌, ◌*◌, ◌^◌, ◌≤◌, ◌<◌, ◌≡◌, refl, ap, ◌∙◌, sym, true, false, List, [], ◌∷◌,
  ◌++◌, none, some, arith, ltb, ◌==◌, if◌then◌else◌, length, Bool-cases, inl, inr, ==_refl, take,
  drop, append_assoc, length-append, append-nil, ltb→lt, not,
}
use cs140e_final_parallel_co.Base.Results.{◌>>◌, require}
use cs140e_final_parallel_co.Circular.{
  Cq, cq_nelem, cq_nspace, cq_pop_nonblock, cq_pop, cq_pop_n, cq_pop_n_noblk, cq_peek_n, push_all,
  cq_push_n,
}
use cs140e_final_parallel_co.Circular.Window.{InRange, contents}
use cs140e_final_parallel_co.Circular.Fifo.{
  Pops, at_tail, cq_push_lem, cq_pop_nonblock_lem, cq_nelem-contents, cq_nspace-contents, elems-lt,
  length-contents,
}

-- With `n` bytes in the queue the loop of `cq_pop_n` takes the oldest `n`, and changes the tail alone.
pub cq_pop_n_lem :
    (cq_n m : ℕ) (q : Cq) (n : ℕ)
    → cq_n * m ≡ 2 ^ 32
    → InRange cq_n q
    → n ≤ length (contents cq_n q)
    → (t : ℕ) × (cq_pop_n cq_n q n ≡ some (take n (contents cq_n q), at_tail q t))
      × (t < cq_n)
      × (contents cq_n (at_tail q t) ≡ drop n (contents cq_n q))
unfolding cq_pop_n cq_pop
cq_pop_n_lem cq_n m q zero size range le = (q.tail, refl, range.1, refl)
cq_pop_n_lem cq_n m q (suc n) size range le =
    go (contents cq_n q) le (cq_pop_nonblock_lem cq_n m q size range)
      (λ t lt. cq_pop_n_lem cq_n m (at_tail q t) n size (range.0, lt))
  where
    go :
        (xs : List ℕ)
        → suc n ≤ length xs
        → Pops cq_n q xs (cq_pop_nonblock cq_n q)
        → ((t : ℕ)
            → t < cq_n
            → n ≤ length (contents cq_n (at_tail q t))
            → (t' : ℕ) × (cq_pop_n cq_n (at_tail q t) n
                ≡ some (take n (contents cq_n (at_tail q t)), at_tail q t'))
              × (t' < cq_n)
              × (contents cq_n (at_tail q t') ≡ drop n (contents cq_n (at_tail q t))))
        → (t : ℕ) × (cq_pop_n cq_n q (suc n) ≡ some (take (suc n) xs, at_tail q t))
          × (t < cq_n)
          × (contents cq_n (at_tail q t) ≡ drop (suc n) xs)
    go [] le' p ih = absurd (omega arith)
    go (x ∷ xs) le' (t, e, lt, rest) ih =
        let (t', e', lt', rest') = ih t lt (omega (arith, ap (λ l. length l) rest)) in
        (
          t',
          rw (e, e') (ap (λ l. some (x ∷ take n l, at_tail q t')) rest),
          lt',
          rest' ∙ ap (drop n) rest,
        )

-- The loop of `cq_push_n` appends all of the bytes where there is room for them.
push_all_lem :
    (cq_n m : ℕ) (q : Cq) (xs : List ℕ)
    → cq_n * m ≡ 2 ^ 32
    → InRange cq_n q
    → length (contents cq_n q) + length xs < cq_n
    → (q' : Cq) × (push_all cq_n q xs ≡ some q')
      × InRange cq_n q'
      × (contents cq_n q' ≡ contents cq_n q ++ xs)
unfolding push_all
push_all_lem cq_n m q [] size range le = (q, refl, range, sym (append-nil (contents cq_n q)))
push_all_lem cq_n m q (x ∷ xs) size range le =
    let (q1, e1, r1, c1) = cq_push_lem cq_n m q x size range in
    let fits : ltb (length (contents cq_n q)) (cq_n - 1) ≡ true = ground arith in
    let c1' : contents cq_n q1 ≡ contents cq_n q ++ (x ∷ []) = rw fits at c1 in
    let (q2, e2, r2, c2) =
      push_all_lem cq_n m q1 xs size r1
        (omega (arith, ap (λ l. length l) c1', length-append (contents cq_n q) (x ∷ []))) in
    (
      q2,
      rw (e1, fits) e2,
      r2,
      c2 ∙ ap (λ l. l ++ xs) c1' ∙ append_assoc (contents cq_n q) (x ∷ []) xs,
    )

-- `cq_pop_n_noblk` takes the oldest `n` bytes where there are as many, and else returns 0.
pub cq_pop_n_noblk_lem :
    (cq_n m : ℕ) (q : Cq) (n : ℕ)
    → cq_n * m ≡ 2 ^ 32
    → InRange cq_n q
    → (t : ℕ) × (cq_pop_n_noblk cq_n q n
        ≡ some (
            if ltb (length (contents cq_n q)) n
            then none
            else some (take n (contents cq_n q), at_tail q t)))
      × (t < cq_n)
      × (contents cq_n (at_tail q t) ≡ (
          if ltb (length (contents cq_n q)) n then contents cq_n q else drop n (contents cq_n q)))
unfolding cq_pop_n_noblk
cq_pop_n_noblk_lem cq_n m q n size range = elim (Bool-cases (ltb (length (contents cq_n q)) n)) [
  | inl few ↦ rw (cq_nelem-contents cq_n m q size range, few) (q.tail, refl, range.1, refl)
  | inr enough ↦
      let (t, e, lt, rest) = cq_pop_n_lem cq_n m q n size range (ground arith) in
      rw (cq_nelem-contents cq_n m q size range, enough, e) (t, refl, lt, rest)
]

-- `cq_peek_n` reads the oldest `n` bytes where there are as many and leaves the queue as it was. Its
-- `assert` holds.
pub cq_peek_n_lem :
    (cq_n m : ℕ) (q : Cq) (n : ℕ)
    → cq_n * m ≡ 2 ^ 32
    → InRange cq_n q
    → cq_peek_n cq_n q n
      ≡ some (if ltb (length (contents cq_n q)) n then none else some (take n (contents cq_n q), q))
unfolding cq_peek_n
cq_peek_n_lem cq_n m q n size range = elim (Bool-cases (ltb (length (contents cq_n q)) n)) [
  | inl few ↦ rw (cq_nelem-contents cq_n m q size range, few)
  | inr enough ↦
      let (t, e, lt, rest) = cq_pop_n_lem cq_n m q n size range (ground arith) in
      rw (cq_nelem-contents cq_n m q size range, enough, e)
        (ap (λ b. require b >> some (some (take n (contents cq_n q), q)))
          (==_refl (cq_nelem cq_n q)))
]

-- `cq_push_n` appends all of the bytes and returns 1 where there is room for them, and else leaves
-- the queue and returns 0; it never panics.
pub cq_push_n_lem :
    (cq_n m : ℕ) (q : Cq) (xs : List ℕ)
    → cq_n * m ≡ 2 ^ 32
    → InRange cq_n q
    → 0 < length xs
    → let room = ltb (length (contents cq_n q) + length xs) cq_n in
      (q' : Cq) × (cq_push_n cq_n q xs ≡ some (room, q'))
      × InRange cq_n q'
      × (contents cq_n q' ≡ (if room then contents cq_n q ++ xs else contents cq_n q))
unfolding cq_push_n
cq_push_n_lem cq_n m q xs size range some_bytes =
    elim (Bool-cases (ltb (length (contents cq_n q) + length xs) cq_n)) [
      | inl room ↦
          let (q', e, r, c) =
            push_all_lem cq_n m q xs size range
              (ltb→lt (length (contents cq_n q) + length xs) cq_n room) in
          let space : ltb (cq_nspace cq_n q) (length xs) ≡ false =
            ground (arith, cq_nspace-contents cq_n m q size range) in
          rw (room, given, space, e) (q', refl, r, c)
      | inr full ↦
          let space : ltb (cq_nspace cq_n q) (length xs) ≡ true = ground (
            arith,
            cq_nspace-contents cq_n m q size range,
            elems-lt cq_n m q size range,
            length-contents cq_n m q size range,
          ) in
          rw (full, given, space) (q, refl, range, refl)
    ]
  where
    given : not (length xs == 0) ≡ true
    given = ground arith
