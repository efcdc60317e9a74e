-- ===== src/Mergesort/Merge.antt =====
-- `merge` on the array is the merge of two lists.
use mathlib.Core.List.{Perm, perm_middle}
use mathlib.Core.List.Perm
use cs140e_final_parallel_co.Base.{
  ℕ, zero, suc, ◌+◌, ◌-◌, ◌<◌, ◌≤◌, ◌≡◌, ◌⊎◌, inl, inr, refl, sym, ap, ◌∙◌, Bool, true, false, List,
  [], ◌∷◌, ◌++◌, append-nil, arith, Bool-cases, length, ne→==, ==_refl,
}
use cs140e_final_parallel_co.Mergesort.{Array, put_item, items, write_rest, merge_loop, merge}

module _ {ℓ} {A : Type ℓ} where
  length-items : (count from : ℕ) (arr : Array A) → length (items count from arr) ≡ count
  unfolding items
  length-items zero from arr = omega arith
  length-items (suc count) from arr = omega (arith, length-items count (from + 1) arr)

  pub items-add :
      (m n from : ℕ) (arr : Array A)
      → items (m + n) from arr ≡ items m from arr ++ items n (from + m) arr
  unfolding items
  items-add zero n from arr =
      let a : zero + n ≡ n = omega arith in
      let b : from + zero ≡ from = omega arith in rw (a, b) refl
  items-add (suc m) n from arr =
      let a : suc m + n ≡ suc (m + n) = omega arith in
      let b : from + suc m ≡ from + 1 + m = omega arith in
      rw (a, b) (ap (◌∷◌ (arr from)) (items-add m n (from + 1) arr))

  pub items_ext :
      (n from : ℕ) (a b : Array A)
      → ((q : ℕ) → from ≤ q → q < from + n → a q ≡ b q)
      → items n from a ≡ items n from b
  unfolding items
  items_ext zero from a b h = refl
  items_ext (suc n) from a b h =
      ap (λ x. x ∷ items n (from + 1) a) (h from (omega arith) (omega arith))
      ∙ ap (◌∷◌ (b from)) (items_ext n (from + 1) a b (λ q lo hi. h q (omega arith) (omega arith)))

  -- Outside the range the array is as before.
  write_rest-outside :
      (xs : List A) (k : ℕ) (arr : Array A) (q : ℕ)
      → (q < k) ⊎ (k + length xs ≤ q)
      → write_rest xs k arr q ≡ arr q
  unfolding write_rest put_item
  write_rest-outside [] k arr q h = refl
  write_rest-outside (x ∷ xs) k arr q (inl h) =
      write_rest-outside xs (k + 1) (put_item arr k x) q (inl (omega arith))
      ∙ rw (ne→== q k (λ e. omega arith)) refl
  write_rest-outside (x ∷ xs) k arr q (inr h) =
      write_rest-outside xs (k + 1) (put_item arr k x) q (inr (omega arith))
      ∙ rw (ne→== q k (λ e. omega arith)) refl

  write_rest-items :
      (xs : List A) (k : ℕ) (arr : Array A) → items (length xs) k (write_rest xs k arr) ≡ xs
  unfolding items write_rest put_item
  write_rest-items [] k arr = refl
  write_rest-items (x ∷ xs) k arr =
      let here : write_rest xs (k + 1) (put_item arr k x) k ≡ x =
        write_rest-outside xs (k + 1) (put_item arr k x) k (inl (omega arith))
        ∙ rw (==_refl k) refl in
      ap (λ v. v ∷ items (length xs) (k + 1) (write_rest xs (k + 1) (put_item arr k x))) here
      ∙ ap (◌∷◌ x) (write_rest-items xs (k + 1) (put_item arr k x))

module _ {ℓ} {A : Type ℓ} (le : A → A → Bool) where
  -- The merge of two lists.
  unfoldable pub merged : List A → List A → List A
  merged [] r = r
  merged (x ∷ l) [] = x ∷ l
  merged (x ∷ l) (y ∷ r) = elim (le x y) [
    | true ↦ x ∷ merged l (y ∷ r)
    | false ↦ y ∷ merged (x ∷ l) r
  ]

  merge_loop-merged :
      (l r : List A) (k : ℕ) (arr : Array A)
      → merge_loop le l r k arr ≡ write_rest (merged l r) k arr
  unfolding merge_loop merged write_rest
  merge_loop-merged [] r k arr = refl
  merge_loop-merged (x ∷ l) [] k arr = refl
  merge_loop-merged (x ∷ l) (y ∷ r) k arr = elim (Bool-cases (le x y)) [
    | inl e ↦ rw (e, merge_loop, merged) (merge_loop-merged l (y ∷ r) (k + 1) (put_item arr k x))
    | inr e ↦ rw (e, merge_loop, merged) (merge_loop-merged (x ∷ l) r (k + 1) (put_item arr k y))
  ]

  pub merged-perm : (l r : List A) → Perm (merged l r) (l ++ r)
  unfolding merged
  merged-perm [] r = Perm.refl r
  merged-perm (x ∷ l) [] = rw (append-nil l) (Perm.refl (x ∷ l))
  merged-perm (x ∷ l) (y ∷ r) = elim (Bool-cases (le x y)) [
    | inl e ↦ rw (e, merged) (Perm.cons x (merged-perm l (y ∷ r)))
    | inr e ↦
        rw (e, merged)
          (Perm.trans (Perm.cons y (merged-perm (x ∷ l) r)) (Perm.symm (perm_middle (x ∷ l) r)))
  ]

  length-merged : (l r : List A) → length (merged l r) ≡ length l + length r
  unfolding merged
  length-merged [] r = omega arith
  length-merged (x ∷ l) [] = omega arith
  length-merged (x ∷ l) (y ∷ r) = elim (Bool-cases (le x y)) [
    | inl e ↦ rw (e, merged) (omega (arith, length-merged l (y ∷ r)))
    | inr e ↦ rw (e, merged) (omega (arith, length-merged (x ∷ l) r))
  ]

  -- `merge` writes the merge of its two runs over them, and nothing else.
  pub merge-merged :
      (arr : Array A) (left mid right n1 n2 : ℕ)
      → mid + 1 ≡ left + n1
      → right ≡ mid + n2
      → left ≤ mid
      → (items (n1 + n2) left (merge le arr left mid right)
          ≡ merged (items n1 left arr) (items n2 (mid + 1) arr))
        × ((q : ℕ) → (q < left) ⊎ (right < q) → merge le arr left mid right q ≡ arr q)
  unfolding merge
  merge-merged arr left mid right n1 n2 e1 e2 h =
      let size1 : mid - left + 1 ≡ n1 = omega arith in
      let size2 : right - mid ≡ n2 = omega arith in
      let l = items n1 left arr in
      let r = items n2 (mid + 1) arr in
      let m = merged l r in
      let size : length m ≡ n1 + n2 =
        omega (arith, length-merged l r, length-items n1 left arr, length-items n2 (mid + 1) arr) in
      rw (size1, size2, merge_loop-merged l r left arr)
        (
          ap (λ k. items k left (write_rest m left arr)) (sym size) ∙ write_rest-items m left arr,
          λ q out. elim out [
            | inl lo ↦ write_rest-outside m left arr q (inl lo)
            | inr hi ↦ write_rest-outside m left arr q (inr (omega arith))
          ],
        )
