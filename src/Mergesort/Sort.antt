-- ===== src/Mergesort/Sort.antt =====
-- `merge_sort` sorts: the result is ordered and a rearrangement.
use mathlib.Core.List.{Perm}
use mathlib.Core.List.Perm
use cs140e_final_parallel_co.Base.{
  ℕ, zero, suc, ◌+◌, ◌-◌, ◌/◌, ◌<◌, ◌≤◌, ◌≡◌, ◌⊎◌, inl, inr, refl, sym, ap, ◌∙◌, Bool, true, false,
  List, [], ◌∷◌, ◌++◌, Option, some, arith, ltb, Bool-cases,
}
use cs140e_final_parallel_co.Base.Results.{◌>>=◌}
use cs140e_final_parallel_co.Mergesort.{Array, items, merge, merge_sort_fuel, merge_sort}
use cs140e_final_parallel_co.Mergesort.Merge.{
  items-add, items_ext, merged, merged-perm, merge-merged,
}

-- What the sort needs of the comparison.
pub record IsOrder {ℓ} {A : Type ℓ} (le : A → A → Bool) : Type ℓ where
  pub total : (x y : A) → le x y ≡ false → le y x ≡ true
  pub trans : (x y z : A) → le x y ≡ true → le y z ≡ true → le x z ≡ true

module _ {ℓ} {A : Type ℓ} (le : A → A → Bool) where
  -- The item is at most each of the list.
  abbrev pub AtMost : A → List A → Type 0
  AtMost x [] = Unit {0}
  AtMost x (y ∷ ys) = (le x y ≡ true) × AtMost x ys

  abbrev pub IsSorted : List A → Type 0
  IsSorted [] = Unit {0}
  IsSorted (x ∷ xs) = AtMost x xs × IsSorted xs

module _ {ℓ} {A : Type ℓ} (le : A → A → Bool) (o : IsOrder le) where
  AtMost-trans : (x y : A) (ys : List A) → le x y ≡ true → AtMost le y ys → AtMost le x ys
  AtMost-trans x y [] e h = tt
  AtMost-trans x y (z ∷ zs) e h = (o.trans x y z e h.0, AtMost-trans x y zs e h.1)

  AtMost-merged :
      (x : A) (l r : List A) → AtMost le x l → AtMost le x r → AtMost le x (merged le l r)
  unfolding merged
  AtMost-merged x [] r hl hr = hr
  AtMost-merged x (y ∷ l) [] hl hr = hl
  AtMost-merged x (y ∷ l) (z ∷ r) hl hr = elim (Bool-cases (le y z)) [
    | inl e ↦ rw (e, merged) (hl.0, AtMost-merged x l (z ∷ r) hl.1 hr)
    | inr e ↦ rw (e, merged) (hr.0, AtMost-merged x (y ∷ l) r hl hr.1)
  ]

  merged-IsSorted : (l r : List A) → IsSorted le l → IsSorted le r → IsSorted le (merged le l r)
  unfolding merged
  merged-IsSorted [] r hl hr = hr
  merged-IsSorted (x ∷ l) [] hl hr = hl
  merged-IsSorted (x ∷ l) (y ∷ r) hl hr = elim (Bool-cases (le x y)) [
    | inl e ↦
        rw (e, merged)
          (
            AtMost-merged x l (y ∷ r) hl.0 (e, AtMost-trans x y r e hr.0),
            merged-IsSorted l (y ∷ r) hl.1 hr,
          )
    | inr e ↦
        let back = o.total x y e in
        rw (e, merged)
          (
            AtMost-merged y (x ∷ l) r (back, AtMost-trans y x l back hl.0) hr.0,
            merged-IsSorted (x ∷ l) r hl hr.1,
          )
  ]

  -- The `n` items from `left` on are ordered, they are those of the array before, and no other item
  -- has changed.
  pub record Sorted (n left : ℕ) (before after : Array A) : Type ℓ where
    pub ordered : IsSorted le (items n left after)
    pub same : Perm (items n left after) (items n left before)
    pub outside : (q : ℕ) → (q < left) ⊎ (left + n ≤ q) → after q ≡ before q

  -- The merge of two sorted runs is a sorted run.
  pub merge-Sorted :
      (n1 n2 left mid right : ℕ) (before arr : Array A)
      → mid + 1 ≡ left + n1
      → right ≡ mid + n2
      → left ≤ mid
      → IsSorted le (items n1 left arr)
      → IsSorted le (items n2 (mid + 1) arr)
      → Perm (items (n1 + n2) left arr) (items (n1 + n2) left before)
      → ((q : ℕ) → (q < left) ⊎ (left + (n1 + n2) ≤ q) → arr q ≡ before q)
      → Sorted (n1 + n2) left before (merge le arr left mid right)
  merge-Sorted n1 n2 left mid right before arr e1 e2 h s1 s2 perm out =
      let m = merge-merged le arr left mid right n1 n2 e1 e2 h in
      let l = items n1 left arr in
      let r = items n2 (mid + 1) arr in
      let both : items (n1 + n2) left arr ≡ l ++ r =
        items-add n1 n2 left arr ∙ ap (λ k. l ++ items n2 k arr) (sym e1) in
      record {
        ordered = rw m.0 (merged-IsSorted l r s1 s2);
        same = rw m.0 (Perm.trans (merged-perm le l r) (rw both at perm));
        outside =
            λ q far. m.1 q (elim far [ inl lo ↦ inl lo | inr hi ↦ inr (omega arith) ]) ∙ out q far;
      }

  -- Two neighbouring runs, sorted one after the other and then merged.
  two_runs :
      (n1 n2 left mid right : ℕ) (arr low high : Array A)
      → mid + 1 ≡ left + n1
      → right ≡ mid + n2
      → left ≤ mid
      → Sorted n1 left arr low
      → Sorted n2 (mid + 1) low high
      → Sorted (n1 + n2) left arr (merge le high left mid right)
  two_runs n1 n2 left mid right arr low high e1 e2 h sl sh =
      let first : items n1 left high ≡ items n1 left low =
        items_ext n1 left high low (λ q lo hi. sh.outside q (inl (omega arith))) in
      let second : items n2 (mid + 1) low ≡ items n2 (mid + 1) arr =
        items_ext n2 (mid + 1) low arr (λ q lo hi. sl.outside q (inr (omega arith))) in
      let split = λ (a : Array A).
        items-add n1 n2 left a ∙ ap (λ k. items n1 left a ++ items n2 k a) (sym e1) in
      let perm1 : Perm (items n1 left high) (items n1 left arr) = rw first sl.same in
      let perm2 : Perm (items n2 (mid + 1) high) (items n2 (mid + 1) arr) = rw second at sh.same in
      merge-Sorted n1 n2 left mid right arr high e1 e2 h (rw first sl.ordered) sh.ordered
        (rw (split high, split arr) (Perm.append perm1 perm2))
        (λ q far. elim far [
          | inl lo ↦ sh.outside q (inl (omega arith)) ∙ sl.outside q (inl lo)
          | inr hi ↦ sh.outside q (inr (omega arith)) ∙ sl.outside q (inr (omega arith))
        ])

  -- A run of the sort on `n` items from `left` on ends with the array `after`.
  abbrev Sorts : (n left : ℕ) → Array A → Option (Array A) → Type ℓ
  Sorts n left arr r = (after : Array A) × (r ≡ some after) × Sorted n left arr after

  -- The two calls and the merge.
  both_halves :
      (n1 n2 left mid right : ℕ) (arr : Array A) (r1 : Option (Array A))
      (r2 : Array A → Option (Array A))
      → mid + 1 ≡ left + n1
      → right ≡ mid + n2
      → left ≤ mid
      → Sorts n1 left arr r1
      → ((low : Array A) → Sorts n2 (mid + 1) low (r2 low))
      → Sorts (n1 + n2) left arr (do low ← r1; high ← r2 low; some (merge le high left mid right))
  both_halves n1 n2 left mid right arr r1 r2 e1 e2 h (low, first, sl) second =
      let (high, ran, sh) = second low in
      rw (first, ran)
        (
          merge le high left mid right,
          refl,
          two_runs n1 n2 left mid right arr low high e1 e2 h sl sh,
        )

  merge_sort_fuel-Sorts :
      (fuel left n right : ℕ) (arr : Array A)
      → n < fuel
      → right ≡ left + n
      → Sorts (n + 1) left arr (merge_sort_fuel le fuel arr left right)
  unfolding merge_sort_fuel items
  merge_sort_fuel-Sorts zero left n right arr enough e = absurd (omega arith)
  merge_sort_fuel-Sorts (suc fuel) left zero right arr enough e =
      let stop : ltb left right ≡ false = ground arith in
      let one : zero + 1 ≡ suc zero = omega arith in
      rw (stop, merge_sort_fuel, one)
        (arr, refl, record { ordered = (tt, tt); same = Perm.refl _; outside = λ q far. refl })
  merge_sort_fuel-Sorts (suc fuel) left (suc d) right arr enough e =
      let go : ltb left right ≡ true = ground arith in
      let half = (right - left) / 2 in
      let mid = left + half in
      let n2 = right - mid in
      let rest : n2 - 1 + 1 ≡ n2 = omega arith in
      let size : half + 1 + n2 ≡ suc d + 1 = omega arith in
      let whole =
        both_halves (half + 1) n2 left mid right arr (merge_sort_fuel le fuel arr left mid)
          (λ low. merge_sort_fuel le fuel low (mid + 1) right) (omega arith) (omega arith)
          (omega arith) (merge_sort_fuel-Sorts fuel left half mid arr (omega arith) refl)
          (λ low. rw rest at (
            merge_sort_fuel-Sorts fuel (mid + 1) (n2 - 1) right low (omega arith) (omega arith))) in
      rw (go, merge_sort_fuel) (rw size at whole)

  -- `merge_sort` of the items `left` to `right` ends, within as many nested calls as there are items:
  -- it orders them, keeps each as often as it was there, and changes no other item.
  pub merge_sort-Sorted :
      (arr : Array A) (left right : ℕ)
      → left ≤ right
      → (after : Array A) × (merge_sort le arr left right ≡ some after)
        × Sorted (right - left + 1) left arr after
  unfolding merge_sort
  merge_sort-Sorted arr left right h =
      merge_sort_fuel-Sorts (right - left + 1) left (right - left) right arr (omega arith)
        (omega arith)
