-- ===== src/Libc/Compare.antt =====
-- `memcmp` and `memiszero`.
use cs140e_final_parallel_co.Base.{
  ℕ, zero, suc, ◌+◌, ◌<◌, ◌≤◌, ◌≡◌, ◌≢◌, ◌⊎◌, inl, inr, refl, ap, ◌∙◌, true, false, arith, ◌==◌,
  Bool-cases, ==→eq,
}
use cs140e_final_parallel_co.Base.Int.{pos, sub_ℕ}
use cs140e_final_parallel_co.Libc.{Memory, compare_loop, memcmp, zero_loop, memiszero}

-- The two blocks hold the same bytes.
abbrev pub Same : (s1 s2 n : ℕ) → Memory → Type 0
Same s1 s2 n m = (k : ℕ) → k < n → m (s1 + k) ≡ m (s2 + k)

-- Byte `k` is the first of the `n` in which the two blocks differ.
abbrev pub FirstDifference : (s1 s2 n k : ℕ) → Memory → Type 0
FirstDifference s1 s2 n k m = (k < n) × Same s1 s2 k m × (m (s1 + k) ≢ m (s2 + k))

compare_loop-Same :
    (left i s1 s2 : ℕ) (m : Memory)
    → ((k : ℕ) → i ≤ k → k < i + left → m (s1 + k) ≡ m (s2 + k))
    → compare_loop left i s1 s2 m ≡ pos 0
unfolding compare_loop
compare_loop-Same zero i s1 s2 m h = refl
compare_loop-Same (suc left) i s1 s2 m h =
    let same : (m (s1 + i) == m (s2 + i)) ≡ true = ground (arith, h i) in
    rw same (compare_loop-Same left (i + 1) s1 s2 m (λ k lo hi. h k (omega arith) (omega arith)))

compare_loop-difference :
    (left i s1 s2 k : ℕ) (m : Memory)
    → i ≤ k
    → k < i + left
    → ((j : ℕ) → i ≤ j → j < k → m (s1 + j) ≡ m (s2 + j))
    → m (s1 + k) ≢ m (s2 + k)
    → compare_loop left i s1 s2 m ≡ sub_ℕ (m (s1 + k)) (m (s2 + k))
unfolding compare_loop
compare_loop-difference zero i s1 s2 k m lo hi same ne = absurd (omega arith)
compare_loop-difference (suc left) i s1 s2 k m lo hi same ne = elim (Bool-cases (i == k)) [
  | inl e ↦
      let at : i ≡ k = ==→eq i k e in
      let differ : (m (s1 + k) == m (s2 + k)) ≡ false = ground arith in rw (at, differ) refl
  | inr e ↦
      let equal : (m (s1 + i) == m (s2 + i)) ≡ true = ground (arith, same i) in
      rw equal (
        compare_loop-difference left (i + 1) s1 s2 k m (ground arith) (omega arith)
          (λ j a b. same j (omega arith) b) ne)
]

-- `memcmp` is 0 on two blocks that hold the same bytes, and else the difference, as an integer, of the
-- first two bytes that differ.
pub memcmp-first :
    (s1 s2 n : ℕ) (m : Memory)
    → (Same s1 s2 n m → memcmp s1 s2 n m ≡ pos 0)
      × ((k : ℕ) → FirstDifference s1 s2 n k m → memcmp s1 s2 n m ≡ sub_ℕ (m (s1 + k)) (m (s2 + k)))
unfolding memcmp
memcmp-first s1 s2 n m = (
  (λ h. compare_loop-Same n 0 s1 s2 m (λ k lo hi. h k (omega arith))),
  (λ k d.
      compare_loop-difference n 0 s1 s2 k m (omega arith) (omega arith) (λ j lo hi. d.1 j hi) d.2),
)

zero_loop_lem :
    (left i p : ℕ) (m : Memory)
    → ((zero_loop left i p m ≡ 1) × ((k : ℕ) → i ≤ k → k < i + left → m (p + k) ≡ 0))
      ⊎ ((zero_loop left i p m ≡ 0) × (k : ℕ) × (i ≤ k) × (k < i + left) × (m (p + k) ≢ 0))
unfolding zero_loop
zero_loop_lem zero i p m = inl (refl, λ k lo hi. absurd (omega arith))
zero_loop_lem (suc left) i p m = elim (Bool-cases (m (p + i) == 0)) [
  | inr e ↦ inr (rw e refl, i, omega arith, omega arith, ground arith)
  | inl e ↦ elim (zero_loop_lem left (i + 1) p m) [
    | inl h ↦ inl (
      rw e h.0,
      λ k lo hi. elim (Bool-cases (k == i)) [
        | inl at ↦ ap (λ j. m (p + j)) (==→eq k i at) ∙ ==→eq (m (p + i)) 0 e
        | inr other ↦ h.1 k (ground arith) (omega arith)
      ],
    )
    | inr h ↦ inr (rw e h.0, h.1, omega arith, omega arith, h.4)
  ]
]

-- `memiszero` is 1 where all of the `n` bytes are 0, and 0 where one of them is not.
pub memiszero_lem :
    (p n : ℕ) (m : Memory)
    → ((memiszero p n m ≡ 1) × ((k : ℕ) → k < n → m (p + k) ≡ 0))
      ⊎ ((memiszero p n m ≡ 0) × (k : ℕ) × (k < n) × (m (p + k) ≢ 0))
unfolding memiszero
memiszero_lem p n m = elim (zero_loop_lem n 0 p m) [
  | inl h ↦ inl (h.0, λ k hi. h.1 k (omega arith) (omega arith))
  | inr h ↦ inr (h.0, h.1, omega arith, h.4)
]
