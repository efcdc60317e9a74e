-- ===== src/Mergesort/Tests.antt =====
-- Numbers under their order, and an array that falls.
use mathlib.Core.List.{Perm}
use mathlib.Core.Option
use cs140e_final_parallel_co.Base.{
  ℕ, zero, suc, if◌then◌else◌, ◌==◌, some, ◌+◌, ◌-◌, ◌*◌, ◌<◌, ◌≡◌, refl, true, false, [], ◌∷◌,
  arith, leb,
}
use cs140e_final_parallel_co.Mergesort.{
  Array, items, merge, merge_sort, merge_sort_fuel, merge_loop, write_rest, put_item, merge_chunks,
}
use cs140e_final_parallel_co.Mergesort.Sort.{IsOrder, IsSorted, Sorted, merge_sort-Sorted}
use cs140e_final_parallel_co.Mergesort.Chunks.{distributed_sort}

leb_total : (x y : ℕ) → leb x y ≡ false → leb y x ≡ true
leb_total x y h = ground arith

leb_trans : (x y z : ℕ) → leb x y ≡ true → leb y z ≡ true → leb x z ≡ true
leb_trans x y z h k = ground arith

leb-IsOrder : IsOrder leb
leb-IsOrder = record { total = leb_total; trans = leb_trans }

abbrev falling : Array ℕ
falling i = 100 - i

falling_sorted :
    Option.map (items 4 0) (merge_sort leb falling 0 3) ≡ some (97 ∷ 98 ∷ 99 ∷ 100 ∷ [])
unfolding items merge_sort merge_sort_fuel merge merge_loop write_rest put_item
falling_sorted = refl

merge_sort-Sorted_example :
    (after : Array ℕ) × (merge_sort leb falling 2 9 ≡ some after)
    × Sorted leb leb-IsOrder (9 - 2 + 1) 2 falling after
merge_sort-Sorted_example = merge_sort-Sorted leb leb-IsOrder falling 2 9 (omega arith)

-- What the root holds behind the gather of two chunks of two items.
abbrev gathered : Array ℕ
gathered q = if q == 0 then 99 else if q == 1 then 100 else if q == 2 then 97 else 98

gathered_local :
    (c k : ℕ)
    → c < 2
    → k < 2
    → Option.map (λ (a : Array ℕ). a k) (merge_sort leb (λ q. falling (c * 2 + q)) 0 1)
      ≡ some (gathered (c * 2 + k))
unfolding items merge_sort merge_sort_fuel merge merge_loop write_rest put_item
gathered_local zero zero hc hk = refl
gathered_local zero (suc zero) hc hk = refl
gathered_local (suc zero) zero hc hk = refl
gathered_local (suc zero) (suc zero) hc hk = refl
gathered_local zero (suc (suc k)) hc hk = absurd (omega arith)
gathered_local (suc zero) (suc (suc k)) hc hk = absurd (omega arith)
gathered_local (suc (suc c)) k hc hk = absurd (omega arith)

distributed_sort_example :
    IsSorted leb (items (2 * 2) 0 (merge_chunks leb 1 1 2 gathered))
    × Perm (items (2 * 2) 0 (merge_chunks leb 1 1 2 gathered)) (items (2 * 2) 0 falling)
distributed_sort_example =
    distributed_sort leb leb-IsOrder 2 2 falling gathered (omega arith) (omega arith) gathered_local
