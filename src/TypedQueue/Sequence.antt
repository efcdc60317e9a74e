-- ===== src/TypedQueue/Sequence.antt =====
-- The queue of circular-T.h as a list of at most `n - 1` elements, for a size that divides 2 ^ 32.
use cs140e_final_parallel_co.Base.{
  ℕ, zero, suc, ◌+◌, ◌-◌, ◌*◌, ◌%◌, ◌^◌, ◌≤◌, ◌<◌, ◌≡◌, refl, sym, ap, ◌∙◌, true, false, List, [],
  ◌∷◌, ◌++◌, Option, none, some, arith, ltb, leb, ◌==◌, if◌then◌else◌, u32, length, get_elem?,
  get_elem?-none, Bool-cases, inl, inr,
}
use native.Mathlib.Nat.{mod-eq_of_lt, add-mod_right}
use cs140e_final_parallel_co.Circular.Window.{
  next, next_lem, span, span_lem, size_bounds, window, length-window, window-pushed, wrap,
}
use cs140e_final_parallel_co.TypedQueue.{Queue, empty, full, cnt, pop_nonblk, pop, push, get, mk}

-- The index of the element `i` places behind the tail.
index_lem : (n m t i : ℕ) → n * m ≡ 2 ^ 32 → t < n → i < n → u32 (t + i) % n ≡ wrap n (t + i)
index_lem n m t i size ht hi =
    let le = (size_bounds n m size).0 in
    elim (Bool-cases (leb n (t + i))) [
      | inr e ↦
          let low : t + i < n = ground arith in
          let fits : t + i < 2 ^ 32 = omega arith in rw (e, mod-eq_of_lt fits) (mod-eq_of_lt low)
      | inl e ↦
          let high : n ≤ t + i = ground arith in
          let low : t + i - n < n = omega arith in
          rw e (elim (Bool-cases (ltb (t + i) (2 ^ 32))) [
            | inl f ↦
                let fits : t + i < 2 ^ 32 = ground arith in
                rw (mod-eq_of_lt fits)
                  (ap (λ k. k % n) (omega arith) ∙ add-mod_right (t + i - n) n ∙ mod-eq_of_lt low)
            | inr f ↦
                let over : 2 ^ 32 ≤ t + i = ground arith in
                let all : n ≡ 2 ^ 32 = whole n m size (omega arith) in
                let at : u32 (t + i) ≡ t + i - n = omega arith in rw at (mod-eq_of_lt low)
          ])
    ]
  where
    -- Half of 2 ^ 32 and more is all of it.
    whole : (n m : ℕ) → n * m ≡ 2 ^ 32 → 2 ^ 32 < 2 * n → n ≡ 2 ^ 32
    whole n zero e h = absurd (omega arith)
    whole n (suc zero) e h = omega arith
    whole n (suc (suc m)) e h = absurd (omega arith)

module _ {A : Type 0} where
  abbrev pub IsInRange : ℕ → Queue A → Type 0
  IsInRange n q = (q.head < n) × (q.tail < n)

  abbrev pub elems : ℕ → Queue A → ℕ
  elems n q = span n q.head q.tail

  -- The queue as a list, oldest first.
  unfoldable pub contents : ℕ → Queue A → List A
  contents n q = window n q.c_buf q.tail (elems n q)

  pub length-contents : (n : ℕ) (q : Queue A) → length (contents n q) ≡ elems n q
  unfolding contents
  length-contents n q = length-window n q.c_buf q.tail (elems n q)

  pub elems-lt : (n : ℕ) (q : Queue A) → IsInRange n q → elems n q < n
  elems-lt n q (h, t) = ground (arith, h, t)

  pub full_lem :
      (n m : ℕ) (q : Queue A)
      → n * m ≡ 2 ^ 32
      → IsInRange n q
      → full n q ≡ (length (contents n q) == n - 1)
  unfolding full
  full_lem n m q size (h, t) =
      rw (length-contents n q, next_lem n q.head h (size_bounds n m size).0) (ground (arith, h, t))

  -- A push appends the element and returns 1 as long as there are fewer than `n - 1`, and else returns
  -- 0 and leaves the queue.
  pub push_lem :
      (n m : ℕ) (q : Queue A) (x : A)
      → n * m ≡ 2 ^ 32
      → IsInRange n q
      → let room = ltb (length (contents n q)) (n - 1) in
        ((push n q x).0 ≡ room)
        × IsInRange n ((push n q x).1)
        × (contents n ((push n q x).1) ≡ (if room then contents n q ++ (x ∷ []) else contents n q))
  unfolding push contents
  push_lem n m q x size (h, t) = elim (Bool-cases (length (contents n q) == n - 1)) [
    | inl e ↦
        let room : ltb (length (contents n q)) (n - 1) ≡ false = ground arith in
        rw (full_lem n m q size (h, t), e, room) (refl, (h, t), refl)
    | inr e ↦
        let few = elems-lt n q (h, t) in
        let len = length-contents n q in
        let room : ltb (length (contents n q)) (n - 1) ≡ true = ground (arith, len, few) in
        rw (full_lem n m q size (h, t), e, room, next_lem n q.head h (size_bounds n m size).0)
          (
            refl,
            (ground (arith, h), t),
            window-pushed n q.head q.tail q.c_buf x h t (ground (arith, len)),
          )
  ]

  -- What a pop yields of a queue with these contents.
  abbrev pub Pops : ℕ → List A → Option (A × Queue A) → Type 0
  Pops n [] r = r ≡ none
  Pops n (x ∷ xs) r = (q' : Queue A) × (r ≡ some (x, q')) × IsInRange n q' × (contents n q' ≡ xs)

  -- A pop takes the oldest element, and fails on the empty queue.
  pub pop_lem :
      (n m : ℕ) (q : Queue A) → n * m ≡ 2 ^ 32 → IsInRange n q → Pops n (contents n q) (pop n q)
  unfolding pop pop_nonblk contents empty
  pop_lem n m q size (h, t) = go (elems n q) refl
    where
      go : (k : ℕ) → elems n q ≡ k → Pops n (window n q.c_buf q.tail k) (pop n q)
      go zero e = rw none_left refl
        where
          none_left : (q.head == q.tail) ≡ true
          none_left = ground arith
      go (suc k) e =
          rw (used, next_lem n q.tail t (size_bounds n m size).0)
            (
              record q { tail = next n q.tail },
              refl,
              (h, ground arith),
              ap (window n q.c_buf (next n q.tail)) less,
            )
        where
          used : (q.head == q.tail) ≡ false
          used = ground arith

          less : span n q.head (next n q.tail) ≡ k
          less = ground arith

  get_elem?-window :
      (n : ℕ) (mem : ℕ → A) (start left i : ℕ)
      → start < n
      → left ≤ n
      → i < left
      → get_elem? (window n mem start left) i ≡ some (mem (wrap n (start + i)))
  get_elem?-window n mem start zero i h l lt = absurd (omega arith)
  get_elem?-window n mem start (suc left) zero h l lt =
      ap (λ k. some (mem k)) (let at : start ≡ wrap n (start + 0) = ground arith in at)
  get_elem?-window n mem start (suc left) (suc i) h l lt =
      get_elem?-window n mem (next n start) left i (ground arith) (omega arith) (omega arith)
      ∙ ap (λ k. some (mem k))
          (let at : wrap n (next n start + i) ≡ wrap n (start + suc i) = ground arith in at)

  -- `get` reads the element at a place of the list, and fails behind the last one.
  pub get_lem :
      (n m : ℕ) (q : Queue A) (i : ℕ)
      → n * m ≡ 2 ^ 32
      → IsInRange n q
      → get n q i ≡ get_elem? (contents n q) i
  unfolding get cnt contents
  get_lem n m q i size (h, t) =
      rw (span_lem n m q.head q.tail size h t) (elim (Bool-cases (leb (elems n q) i)) [
        | inl e ↦ rw e (
            sym (
              get_elem?-none (window n q.c_buf q.tail (elems n q)) i
                (ground (arith, length-window n q.c_buf q.tail (elems n q)))))
        | inr e ↦
            let few = elems-lt n q (h, t) in
            let lt : i < elems n q = ground arith in
            let at = index_lem n m q.tail i size t (omega arith) in
            rw (e, at) (sym (get_elem?-window n q.c_buf q.tail (elems n q) i t (omega arith) lt))
      ])

  -- The queue that `mk` makes is empty; with fewer than two places its assertion fails.
  pub mk_lem :
      (n m : ℕ) (zero_elem : A)
      → n * m ≡ 2 ^ 32
      → 1 < n
      → (q : Queue A) × (mk n zero_elem ≡ some q) × IsInRange n q × (contents n q ≡ [])
  unfolding mk empty full cnt contents
  mk_lem n m zero_elem size h =
      let zero_mod : u32 (0 + 2 ^ 32 - 0) % n ≡ 0 =
        span_lem n m 0 0 size (omega arith) (omega arith) in
      let one_mod : u32 (0 + 1) % n ≡ 1 = mod-eq_of_lt h in
      rw (zero_mod, one_mod) (_, refl, (omega arith, omega arith), refl)
