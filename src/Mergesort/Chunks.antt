-- ===== src/Mergesort/Chunks.antt =====
-- The whole sort: the ranks sort their chunks, and the root merges them.
use mathlib.Core.List.{Perm}
use mathlib.Core.List.Perm
use mathlib.Core.Option
use cs140e_final_parallel_co.Base.{
  ℕ, zero, suc, ◌+◌, ◌-◌, ◌*◌, ◌<◌, ◌≤◌, ◌≡◌, inl, inr, refl, sym, ap, ◌∙◌, Bool, some, [], ◌∷◌,
  arith,
}
use cs140e_final_parallel_co.Mergesort.{Array, items, merge, merge_sort, merge_chunks}
use cs140e_final_parallel_co.Mergesort.Merge.{items-add, items_ext}
use cs140e_final_parallel_co.Mergesort.Sort.{
  IsOrder, IsSorted, Sorted, merge-Sorted, merge_sort-Sorted,
}

module _ {ℓ} {A : Type ℓ} where
  items_shift :
      (n from to : ℕ) (a b : Array A)
      → ((k : ℕ) → k < n → a (from + k) ≡ b (to + k))
      → items n from a ≡ items n to b
  unfolding items
  items_shift zero from to a b h = refl
  items_shift (suc n) from to a b h =
      let x : from + 0 ≡ from = omega arith in
      let y : to + 0 ≡ to = omega arith in
      let first : a from ≡ b to = rw (x, y) at (h 0 (omega arith)) in
      ap (λ v. v ∷ items n (from + 1) a) first
      ∙ ap (◌∷◌ (b to)) (
          items_shift n (from + 1) (to + 1) a b (λ k lt.
            let x : from + 1 + k ≡ from + suc k = omega arith in
            let y : to + 1 + k ≡ to + suc k = omega arith in rw (x, y) (h (suc k) (omega arith))))

  perm_chunks :
      (size n : ℕ) (a b : Array A)
      → ((c : ℕ) → c < size → Perm (items n (c * n) a) (items n (c * n) b))
      → Perm (items (size * n) 0 a) (items (size * n) 0 b)
  unfolding items
  perm_chunks zero n a b h = let e : zero * n ≡ zero = omega arith in rw e (Perm.refl [])
  perm_chunks (suc size) n a b h =
      let e : suc size * n ≡ size * n + n = omega arith in
      let at : 0 + size * n ≡ size * n = omega arith in
      rw (e, items-add (size * n) n 0 a, items-add (size * n) n 0 b, at)
        (Perm.append (perm_chunks size n a b (λ c lt. h c (omega arith))) (h size (omega arith)))

  perm_wider :
      (n k : ℕ) (a b : Array A)
      → Perm (items n 0 a) (items n 0 b)
      → ((q : ℕ) → n ≤ q → a q ≡ b q)
      → Perm (items (n + k) 0 a) (items (n + k) 0 b)
  perm_wider n k a b p same =
      let tail : items k (0 + n) a ≡ items k (0 + n) b =
        items_ext k (0 + n) a b (λ q lo hi. same q (omega arith)) in
      rw (items-add n k 0 a, items-add n k 0 b, tail) (Perm.append_right (items k (0 + n) b) p)

module _ {ℓ} {A : Type ℓ} (le : A → A → Bool) (o : IsOrder le) where
  merge_chunks-Sorted :
      (left i n : ℕ) (arr : Array A)
      → 0 < i
      → 0 < n
      → IsSorted le (items (i * n) 0 arr)
      → ((c : ℕ) → i ≤ c → c < i + left → IsSorted le (items n (c * n) arr))
      → Sorted le o ((i + left) * n) 0 arr (merge_chunks le left i n arr)
  unfolding merge_chunks
  merge_chunks-Sorted zero i n arr hi hn front chunks =
      let e : (i + zero) * n ≡ i * n = omega arith in
      rw e (record { ordered = front; same = Perm.refl _; outside = λ q far. refl })
  merge_chunks-Sorted (suc left) i n arr hi hn front chunks =
      let nonempty : 0 < i * n = grind arith in
      let first : 0 + i * n ≡ i * n = omega arith in
      let chunk : i * n - 1 + 1 ≡ i * n = omega arith in
      let next = merge le arr 0 (i * n - 1) ((i + 1) * n - 1) in
      let own = chunks i (omega arith) (omega arith) in
      let m =
        merge-Sorted le o (i * n) n 0 (i * n - 1) ((i + 1) * n - 1) arr arr (omega arith)
          (omega arith) (omega arith) front (rw chunk own) (Perm.refl _) (λ q far. refl) in
      let longer : i * n + n ≡ (i + 1) * n = omega arith in
      let total : i + 1 + left ≡ i + suc left = omega arith in
      let whole : i * n + n + left * n ≡ (i + suc left) * n = omega arith in
      let kept : (c : ℕ) → i + 1 ≤ c → c < i + 1 + left → IsSorted le (items n (c * n) next) =
        λ c lo hi'.
          let past : i * n + n ≤ c * n = grind arith in
          let same : items n (c * n) next ≡ items n (c * n) arr =
            items_ext n (c * n) next arr (λ q a b. m.outside q (inr (omega arith))) in
          rw same (chunks c (omega arith) (omega arith)) in
      let front' : IsSorted le (items ((i + 1) * n) 0 next) = rw longer at m.ordered in
      let tail = merge_chunks-Sorted left (i + 1) n next (omega arith) hn front' kept in
      let rest = rw total at tail in
      let perm = rw whole at (
        perm_wider (i * n + n) (left * n) next arr m.same
          (λ q lo. m.outside q (inr (omega arith)))) in
      record {
        ordered = rest.ordered;
        same = Perm.trans rest.same perm;
        outside = λ q far. elim far [
          | inl lo ↦ absurd (omega arith)
          | inr hi ↦ rest.outside q (inr hi) ∙ m.outside q (inr (omega arith))
        ];
      }

  -- The program with `size` ranks and `size` chunks of `n` items. What the gather leaves at the root,
  -- `gathered`, holds in chunk `c` what `merge_sort` makes of chunk `c` of the root's array `arr`, which
  -- rank `c` received. Then the root's merges leave the items of `arr`, each as often as it was there,
  -- in order.
  pub distributed_sort :
      (size n : ℕ) (arr gathered : Array A)
      → 0 < size
      → 0 < n
      → ((c k : ℕ)
          → c < size
          → k < n
          → Option.map (λ (a : Array A). a k) (merge_sort le (λ q. arr (c * n + q)) 0 (n - 1))
            ≡ some (gathered (c * n + k)))
      → IsSorted le (items (size * n) 0 (merge_chunks le (size - 1) 1 n gathered))
        × Perm
            (items (size * n) 0 (merge_chunks le (size - 1) 1 n gathered))
            (items (size * n) 0 arr)
  distributed_sort size n arr gathered hs hn local = (merges.ordered, Perm.trans merges.same all)
    where
      received : (c : ℕ) → Array A
      received c q = arr (c * n + q)

      sorts :
          (c : ℕ)
          → (after : Array A) × (merge_sort le (received c) 0 (n - 1) ≡ some after)
            × Sorted le o n 0 (received c) after
      sorts c =
          let e : n - 1 - 0 + 1 ≡ n = omega arith in
          rw e at (merge_sort-Sorted le o (received c) 0 (n - 1) (omega arith))

      same_some : {x y : A} → some x ≡ some y → x ≡ y
      same_some e = cc

      chunk : (c : ℕ) → c < size → items n (c * n) gathered ≡ items n 0 ((sorts c).0)
      chunk c lt =
          let (after, ran, _) = sorts c in
          items_shift n (c * n) 0 gathered after (λ k hk.
            let at : 0 + k ≡ k = omega arith in
            rw at (same_some (sym (local c k lt hk) ∙ ap (Option.map (λ (a : Array A). a k)) ran)))

      from_arr : (c : ℕ) → items n 0 (received c) ≡ items n (c * n) arr
      from_arr c =
          items_shift n 0 (c * n) (received c) arr (λ k hk. ap (λ j. arr (c * n + j)) (omega arith))

      all : Perm (items (size * n) 0 gathered) (items (size * n) 0 arr)
      all = perm_chunks size n gathered arr (λ c lt. rw (chunk c lt, ← from_arr c) (sorts c).2.same)

      one : 1 + (size - 1) ≡ size
      one = omega arith

      first : 0 * n ≡ 0
      first = omega arith

      front : IsSorted le (items (1 * n) 0 gathered)
      front =
          let e : 1 * n ≡ n = omega arith in
          let at : items n (0 * n) gathered ≡ items n 0 gathered =
            ap (λ k. items n k gathered) first in
          rw (e, ← at, chunk 0 hs) (sorts 0).2.ordered

      merges : Sorted le o (size * n) 0 gathered (merge_chunks le (size - 1) 1 n gathered)
      merges =
          let rest =
            merge_chunks-Sorted (size - 1) 1 n gathered (omega arith) hn front
              (λ c lo hi. rw (chunk c (omega arith)) (sorts c).2.ordered) in
          rw one at rest
