-- ===== src/Libc/Move.antt =====
-- The copies: `memmove` also between overlapping blocks, `memcpy` and its variants between disjoint
-- ones.
use cs140e_final_parallel_co.Base.{
  ℕ, zero, suc, ◌+◌, ◌-◌, ◌*◌, ◌/◌, ◌%◌, ◌≤◌, ◌≡◌, ◌⊎◌, inl, inr, refl, ap, ◌∙◌, fun_ext, true,
  false, ◌&&◌, some, arith, ltb, ◌==◌, if◌then◌else◌, Bool-cases, Bool, not, none, ==→eq, ◌<◌,
}
use native.Mathlib.Nat.{zero-mul, zero-add, mod-add-div'}
use cs140e_final_parallel_co.Base.Results.{◌>>◌, require}
use cs140e_final_parallel_co.Libc.{
  Memory, within, put_byte, copy_up, copy_down, memmove, copy_elem, copy_elems, memcpy, aligned,
  memcpy256, lmemcpy, llmemcpy,
}

-- The memory with the `count` bytes that stand at `src` also at `dst`.
abbrev pub moved : (dst src count : ℕ) → Memory → Memory
moved dst src count m x = if within dst count x then m (src + (x - dst)) else m x

copy_up-moved :
    (count a b : ℕ) (m : Memory) (x : ℕ) → a ≤ b → copy_up count a b m x ≡ moved a b count m x
unfolding copy_up put_byte
copy_up-moved zero a b m x h = ground arith
copy_up-moved (suc count) a b m x h =
    copy_up-moved count (a + 1) (b + 1) (put_byte a (m b) m) x (omega arith) ∙ ground arith

copy_down-moved :
    (count a b : ℕ) (m : Memory) (x : ℕ)
    → b ≤ a
    → copy_down count (a + count - 1) (b + count - 1) m x ≡ moved a b count m x
unfolding copy_down put_byte
copy_down-moved zero a b m x h = ground arith
copy_down-moved (suc count) a b m x h =
    let top : a + suc count - 1 ≡ a + count = omega arith in
    let from : b + suc count - 1 ≡ b + count = omega arith in
    let m' = put_byte (a + count) (m (b + count)) m in
    rw (top, from) (copy_down-moved count a b m' x h ∙ ground arith)

-- `memmove` copies the block as it was before the call, also where the two blocks overlap, whichever
-- comes first; no other byte changes, and it returns `dst`.
pub memmove-moved :
    (dst src count : ℕ) (m : Memory) → memmove dst src count m ≡ (dst, moved dst src count m)
unfolding memmove
memmove-moved dst src count m = elim (Bool-cases (src == dst)) [
  | inl same ↦ rw same (ap (λ r. (dst, r)) (fun_ext λ x. ground arith))
  | inr e ↦ elim (Bool-cases (ltb dst src)) [
    | inl up ↦
        rw (e, up)
          (ap (λ r. (dst, r)) (fun_ext λ x. copy_up-moved count dst src m x (ground arith)))
    | inr down ↦
        rw (e, down)
          (ap (λ r. (dst, r)) (fun_ext λ x. copy_down-moved count dst src m x (ground arith)))
  ]
]

-- No byte is in both blocks.
abbrev pub Disjoint : (dst src n : ℕ) → Type 0
Disjoint dst src n = (dst + n ≤ src) ⊎ (src + n ≤ dst)

-- Behind element `i` the first `i` elements are copied.
copy_elem-moved :
    (w i n d s : ℕ) (m : Memory) (x : ℕ)
    → Disjoint d s n
    → i * w + w ≤ n
    → copy_elem w i d s (moved d s (i * w) m) x ≡ moved d s (i * w + w) m x
unfolding copy_elem
copy_elem-moved w i n d s m x (inl h) le = ground arith
copy_elem-moved w i n d s m x (inr h) le = ground arith

copy_elems-moved :
    (w left i n d s : ℕ) (m : Memory)
    → Disjoint d s n
    → (i + left) * w ≤ n
    → copy_elems w left i d s (moved d s (i * w) m) ≡ moved d s ((i + left) * w) m
unfolding copy_elems
copy_elems-moved w zero i n d s m h le = ap (λ k. moved d s (k * w) m) (omega arith)
copy_elems-moved w (suc left) i n d s m h le =
    let next : i * w + w ≡ (i + 1) * w = omega arith in
    let all : (i + 1) + left ≡ i + suc left = omega arith in
    let fits : i * w + w ≤ n = grind arith in
    let one = fun_ext (λ x. copy_elem-moved w i n d s m x h fits) in
    ap (copy_elems w left (i + 1) d s) (one ∙ ap (λ k. moved d s k m) next)
    ∙ copy_elems-moved w left (i + 1) n d s m h (rw all le)
    ∙ ap (λ k. moved d s (k * w) m) all

copy_elems_all :
    (w k n d s : ℕ) (m : Memory)
    → Disjoint d s n
    → k * w ≡ n
    → copy_elems w k 0 d s m ≡ moved d s n m
copy_elems_all w k n d s m h e =
    let none_yet : m ≡ moved d s (0 * w) m = fun_ext (λ x. ground (arith, zero-mul w)) in
    ap (copy_elems w k 0 d s) none_yet
    ∙ copy_elems-moved w k 0 n d s m h (omega (arith, e))
    ∙ ap (λ j. moved d s j m) (ap (λ i. i * w) (zero-add k) ∙ e)

whole : (w n : ℕ) → aligned w n ≡ true → 0 < w → n / w * w ≡ n
whole w n h pos = omega (arith, mod-add-div' n w, ==→eq (n % w) 0 h)

-- Between disjoint blocks `memcpy` copies every byte, whatever the alignment of the pointers and the
-- size, so whether it goes by eight, four or one byte at a time; no other byte changes.
pub memcpy-moved :
    (dst src nbytes : ℕ) (m : Memory)
    → Disjoint dst src nbytes
    → memcpy dst src nbytes m ≡ (dst, moved dst src nbytes m)
unfolding memcpy
memcpy-moved dst src n m h = elim (Bool-cases (aligned 8 dst && aligned 8 src && aligned 8 n)) [
  | inl e ↦ rw e (
      ap (λ r. (dst, r))
        (copy_elems_all 8 (n / 8) n dst src m h (whole 8 n (ground (arith, e)) (omega arith))))
  | inr e8 ↦ elim (Bool-cases (aligned 4 dst && aligned 4 src && aligned 4 n)) [
    | inl e ↦
        rw (e8, e)
          (ap (λ r. (dst, r))
            (copy_elems_all 4 (n / 4) n dst src m h (whole 4 n (ground (arith, e)) (omega arith))))
    | inr e ↦ rw (e8, e) (ap (λ r. (dst, r)) (copy_elems_all 1 n n dst src m h (omega arith)))
  ]
]

checked :
    (a b c d : Bool) {v w : Memory}
    → (c ≡ true → v ≡ w)
    → (require a >> (require b >> (require c >> (require d >> some v))))
      ≡ (if a && b && c && d then some w else none)
checked false b c d h = refl
checked true false c d h = refl
checked true true false d h = refl
checked true true true false h = refl
checked true true true true h = ap some (h refl)

first :
    (c : Bool) {v w : Memory}
    → (c ≡ true → v ≡ w)
    → (require c >> some v) ≡ (if c then some w else none)
first false h = refl
first true h = ap some (h refl)

-- `memcpy256`, `lmemcpy` and `llmemcpy` copy disjoint blocks whole where the size is a multiple of their
-- element's and the checks hold, and else stop.
pub block_copies :
    (dst src nbytes : ℕ) (m : Memory)
    → Disjoint dst src nbytes
    → (memcpy256 dst src nbytes m
        ≡ (if nbytes % 32 == 0 then some (moved dst src nbytes m) else none))
      × (lmemcpy dst src nbytes m ≡ (
          if not (dst == 0) && not (src == 0) && nbytes % 4 == 0 && aligned 4 dst
          then some (moved dst src nbytes m)
          else none))
      × (llmemcpy dst src nbytes m ≡ (
          if not (dst == 0) && not (src == 0) && nbytes % 8 == 0 && aligned 8 dst
          then some (moved dst src nbytes m)
          else none))
unfolding memcpy256 lmemcpy llmemcpy
block_copies dst src n m h =
    let copies = λ (w : ℕ) (pos : 0 < w) (e : (n % w == 0) ≡ true).
      copy_elems_all w (n / w) n dst src m h (whole w n e pos) in
    (
      first (n % 32 == 0) (copies 32 (omega arith)),
      checked (not (dst == 0)) (not (src == 0)) (n % 4 == 0) (aligned 4 dst)
          (copies 4 (omega arith)),
      checked (not (dst == 0)) (not (src == 0)) (n % 8 == 0) (aligned 8 dst)
          (copies 8 (omega arith)),
    )
