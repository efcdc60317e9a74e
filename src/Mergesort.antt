-- ===== src/Mergesort.antt =====
-- The sort of src/tests/mergesort.c, over arrays of any type with a comparison `le`, where the source
-- has data_type and `<=`.
pub mod Merge
pub mod Sort
pub mod Chunks
mod Tests
use cs140e_final_parallel_co.Base.{
  ℕ, zero, suc, ◌+◌, ◌-◌, ◌*◌, ◌/◌, Bool, true, false, List, [], ◌∷◌, Option, none, some, ltb, ◌==◌,
  if◌then◌else◌,
}
use cs140e_final_parallel_co.Base.Results.{◌>>=◌}

abbrev pub Array {ℓ} : Type ℓ → Type ℓ
Array A = ℕ → A

module _ {ℓ} {A : Type ℓ} where
  unfoldable pub put_item : Array A → (k : ℕ) → A → Array A
  put_item arr k v a = if a == k then v else arr a

  -- The copies into `L` and `R`, and the array's items from `from` on.
  unfoldable pub items : (count from : ℕ) → Array A → List A
  items zero from arr = []
  items (suc count) from arr = arr from ∷ items count (from + 1) arr

  -- `while (i < n1) arr[k++] = L[i++]`, over what is left of the copy.
  unfoldable pub write_rest : List A → (k : ℕ) → Array A → Array A
  write_rest [] k arr = arr
  write_rest (v ∷ rest) k arr = write_rest rest (k + 1) (put_item arr k v)

module _ {ℓ} {A : Type ℓ} (le : A → A → Bool) where
  -- The three loops, over what is left of the copies.
  unfoldable pub merge_loop : (l r : List A) (k : ℕ) → Array A → Array A
  merge_loop [] r k arr = write_rest r k arr
  merge_loop (x ∷ l) [] k arr = write_rest (x ∷ l) k arr
  merge_loop (x ∷ l) (y ∷ r) k arr = elim (le x y) [
    | true ↦ merge_loop l (y ∷ r) (k + 1) (put_item arr k x)
    | false ↦ merge_loop (x ∷ l) r (k + 1) (put_item arr k y)
  ]

  unfoldable pub merge : Array A → (left mid right : ℕ) → Array A
  merge arr left mid right =
      merge_loop (items (mid - left + 1) left arr) (items (right - mid) (mid + 1) arr) left arr

  -- The calls of one another are at most `fuel` deep; `none` where the fuel runs out.
  unfoldable pub merge_sort_fuel : (fuel : ℕ) → Array A → (left right : ℕ) → Option (Array A)
  merge_sort_fuel zero arr left right = none
  merge_sort_fuel (suc fuel) arr left right = elim (ltb left right) [
    | true ↦ (do
      let mid = left + (right - left) / 2
      low ← merge_sort_fuel fuel arr left mid
      high ← merge_sort_fuel fuel low (mid + 1) right
      some (merge high left mid right))
    | false ↦ some arr
  ]

  unfoldable pub merge_sort : Array A → (left right : ℕ) → Option (Array A)
  merge_sort arr left right = merge_sort_fuel (right - left + 1) arr left right

  -- The root's loop over the sorted chunks of `local_size` items, from chunk `i` on.
  unfoldable pub merge_chunks : (left i local_size : ℕ) → Array A → Array A
  merge_chunks zero i local_size arr = arr
  merge_chunks (suc left) i local_size arr =
      merge_chunks left (i + 1) local_size
        (merge arr 0 (i * local_size - 1) ((i + 1) * local_size - 1))
