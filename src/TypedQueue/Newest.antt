-- ===== src/TypedQueue/Newest.antt =====
-- `push_w_drop` of circular-T.h: the queue keeps the newest elements.
use cs140e_final_parallel_co.Base.{
  ℕ, zero, suc, ◌+◌, ◌-◌, ◌*◌, ◌^◌, ◌≤◌, ◌<◌, ◌≡◌, refl, sym, ap, ◌∙◌, true, List, [], ◌∷◌, ◌++◌,
  Option, some, arith, ltb, ◌==◌, length, drop, length-append, length-drop, append_assoc,
  append-nil, Bool-cases, inl, inr, ==→eq,
}
use native.Mathlib.Nat.{zero-add, suc-add}
use cs140e_final_parallel_co.Base.Results.{◌>>=◌, ◌>>◌, require}
use cs140e_final_parallel_co.TypedQueue.{Queue, pop, push, push_w_drop}
use cs140e_final_parallel_co.TypedQueue.Sequence.{
  IsInRange, contents, length-contents, elems-lt, full_lem, push_lem, Pops, pop_lem,
}

module _ {A : Type 0} where
  -- The last `k` elements, or all of them where there are fewer.
  abbrev pub last_n : ℕ → List A → List A
  last_n k xs = drop (length xs - k) xs

  drop-append : (i : ℕ) (xs ys : List A) → i ≤ length xs → drop i (xs ++ ys) ≡ drop i xs ++ ys
  drop-append zero xs ys h = refl
  drop-append (suc i) [] ys h = absurd (omega arith)
  drop-append (suc i) (x ∷ xs) ys h = drop-append i xs ys (omega arith)

  drop-drop : (j i : ℕ) (xs : List A) → drop i (drop j xs) ≡ drop (j + i) xs
  drop-drop zero i xs = rw zero-add refl
  drop-drop (suc j) zero [] = rw suc-add refl
  drop-drop (suc j) (suc i) [] = rw suc-add refl
  drop-drop (suc j) i (x ∷ xs) = rw suc-add (drop-drop j i xs)

  last_n-last_n : (k : ℕ) (xs ys : List A) → last_n k (last_n k xs ++ ys) ≡ last_n k (xs ++ ys)
  last_n-last_n k xs ys =
      let i = length xs - k in
      ap (λ zs. drop (length zs - k) zs) (sym (drop-append i xs ys (omega arith)))
      ∙ drop-drop i (length (drop i (xs ++ ys)) - k) (xs ++ ys)
      ∙ ap (λ j. drop j (xs ++ ys)) (omega (arith, length-drop i (xs ++ ys), length-append xs ys))

  -- A push with a drop puts the element at the end and leaves out the oldest one of a full queue.
  -- Neither of its panics happens for a size above 1.
  pub push_w_drop_lem :
      (n m : ℕ) (q : Queue A) (x : A)
      → n * m ≡ 2 ^ 32
      → 1 < n
      → IsInRange n q
      → (q' : Queue A) × (push_w_drop n q x ≡ some q')
        × IsInRange n q'
        × (contents n q' ≡ last_n (n - 1) (contents n q ++ (x ∷ [])))
  unfolding push_w_drop
  push_w_drop_lem n m q x size two range = elim (Bool-cases (length (contents n q) == n - 1)) [
    | inr e ↦
        let room : ltb (length (contents n q)) (n - 1) ≡ true =
          ground (arith, length-contents n q, elems-lt n q range) in
        let pushed = push_lem n m q x size range in
        let all : length (contents n q ++ (x ∷ [])) - (n - 1) ≡ 0 =
          ground (arith, room, length-append (contents n q) (x ∷ [])) in
        rw (full_lem n m q size range, e, pushed.0, room)
          (
            (push n q x).1,
            refl,
            pushed.1,
            pushed.2 ∙ rw room (ap (λ i. drop i (contents n q ++ (x ∷ []))) (sym all)),
          )
    | inl e ↦
        rw (full_lem n m q size range, e)
          (go (contents n q) refl (==→eq (length (contents n q)) (n - 1) e)
            (pop_lem n m q size range))
  ]
    where
      go :
          (ys : List A)
          → contents n q ≡ ys
          → length ys ≡ n - 1
          → Pops n ys (pop n q)
          → (q' : Queue A) × ((do
            room ← (do r ← pop n q; some (r.1))
            require ((push n room x).0)
            some ((push n room x).1))
              ≡ some q')
            × IsInRange n q'
            × (contents n q' ≡ last_n (n - 1) (ys ++ (x ∷ [])))
      go [] _ len _ = absurd (omega arith)
      go (y ∷ ys) _ len (q1, popped, range1, rest) =
          let room : ltb (length (contents n q1)) (n - 1) ≡ true = rw rest (ground (arith, len)) in
          let pushed = push_lem n m q1 x size range1 in
          let one : length (y ∷ ys ++ (x ∷ [])) - (n - 1) ≡ 1 =
            omega (arith, length-append ys (x ∷ [])) in
          rw (popped, pushed.0, room)
            (
              (push n q1 x).1,
              refl,
              pushed.1,
              pushed.2 ∙ rw (room, rest) (ap (λ i. drop i (y ∷ ys ++ (x ∷ []))) (sym one)),
            )

  -- A sequence of calls.
  abbrev pub push_all_w_drop : ℕ → Queue A → List A → Option (Queue A)
  push_all_w_drop n q [] = some q
  push_all_w_drop n q (x ∷ xs) = do q' ← push_w_drop n q x; push_all_w_drop n q' xs

  -- After any number of pushes with a drop the queue holds the newest `n - 1` elements of those it
  -- held and those pushed, in order, for a size above 1 that divides 2 ^ 32. No push panics.
  pub push_w_drop-last_n :
      (n m : ℕ) (q : Queue A) (xs : List A)
      → n * m ≡ 2 ^ 32
      → 1 < n
      → IsInRange n q
      → (q' : Queue A) × (push_all_w_drop n q xs ≡ some q')
        × IsInRange n q'
        × (contents n q' ≡ last_n (n - 1) (contents n q ++ xs))
  push_w_drop-last_n n m q [] size two range =
      let none_left : length (contents n q ++ []) - (n - 1) ≡ 0 =
        omega (arith, length-append (contents n q) [], length-contents n q, elems-lt n q range) in
      (
        q,
        refl,
        range,
        sym (ap (λ i. drop i (contents n q ++ [])) none_left ∙ append-nil (contents n q)),
      )
  push_w_drop-last_n n m q (x ∷ xs) size two range =
      let step = push_w_drop_lem n m q x size two range in
      let rest = push_w_drop-last_n n m (step.0) xs size two (step.2) in
      rw (step.1) (
        rest.0,
        rest.1,
        rest.2,
        rest.3
            ∙ ap (λ zs. last_n (n - 1) (zs ++ xs)) (step.3)
            ∙ last_n-last_n (n - 1) (contents n q ++ (x ∷ [])) xs
            ∙ ap (last_n (n - 1)) (append_assoc (contents n q) (x ∷ []) xs),
      )
