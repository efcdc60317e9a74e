-- ===== src/Libc/Fill.antt =====
-- `memset`: which bytes it writes, and the pointer that it returns.
use cs140e_final_parallel_co.Base.{
  ℕ, zero, suc, ◌+◌, ◌*◌, ◌/◌, ◌%◌, ◌<◌, ◌≡◌, ap, ◌∙◌, fun_ext, ap₂, true, ◌&&◌, arith, ◌==◌,
  if◌then◌else◌, Bool-cases, inl, inr, u8, ==→eq,
}
use native.Mathlib.Nat.{mod-add-div'}
use cs140e_final_parallel_co.Libc.{Memory, within, fill_elem, fill_elems, memset, aligned}

-- The memory with the `n` bytes at `p` set to `c`.
abbrev pub filled : (p n c : ℕ) → Memory → Memory
filled p n c m x = if within p n x then c else m x

pub fill_elems-filled :
    (w n p c : ℕ) (m : Memory) → fill_elems w n p c m ≡ (p + n * w, filled p (n * w) c m)
unfolding fill_elems fill_elem
fill_elems-filled w zero p c m =
    ap₂ (λ (q : ℕ) (m' : Memory). (q, m')) (omega arith) (fun_ext λ x. ground arith)
fill_elems-filled w (suc n) p c m =
    let size : suc n * w ≡ n * w + w = omega arith in
    fill_elems-filled w n (p + w) c (fill_elem w p c m)
    ∙ ap₂ (λ (q : ℕ) (m' : Memory). (q, m')) (omega arith) (fun_ext λ x. ground (arith, size))

whole :
    (w n p c : ℕ) (m : Memory)
    → 0 < w
    → aligned w n ≡ true
    → fill_elems w (n / w) p c m ≡ (p + n, filled p n c m)
whole w n p c m pos e =
    let size : n / w * w ≡ n = omega (arith, mod-add-div' n w, ==→eq (n % w) 0 e) in
    fill_elems-filled w (n / w) p c m ∙ ap (λ k. (p + k, filled p k c m)) size

-- `memset` sets the `n` bytes at `dst` to the low byte of `c` and no other byte, whether it goes by
-- eight, four or one byte at a time. It returns the pointer behind the block, where the C standard has
-- `dst`.
pub memset-filled : (dst c n : ℕ) (m : Memory) → memset dst c n m ≡ (dst + n, filled dst n (u8 c) m)
unfolding memset
memset-filled dst c n m = elim (Bool-cases (n == 0)) [
  | inl e ↦ rw e (ap₂ (λ (q : ℕ) (m' : Memory). (q, m')) (ground arith) (fun_ext λ x. ground arith))
  | inr e ↦ elim (Bool-cases (c == 0 && aligned 8 dst && aligned 8 n)) [
    | inl e8 ↦
        let c0 : u8 c ≡ 0 = ground (arith, e8) in
        rw (e, e8, c0) (whole 8 n dst 0 m (omega arith) (ground (arith, e8)))
    | inr n8 ↦ elim (Bool-cases (c == 0 && aligned 4 dst && aligned 4 n)) [
      | inl e4 ↦
          let c0 : u8 c ≡ 0 = ground (arith, e4) in
          rw (e, n8, e4, c0) (whole 4 n dst 0 m (omega arith) (ground (arith, e4)))
      | inr n4 ↦
          let size : n * 1 ≡ n = omega arith in
          rw (e, n8, n4)
            (fill_elems-filled 1 n dst (u8 c) m ∙ ap (λ k. (dst + k, filled dst k (u8 c) m)) size)
    ]
  ]
]
