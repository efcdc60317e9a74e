-- ===== src/BitSupport/Fields.antt =====
-- What the operations on a field `lb` to `ub` do, what stops them, and that a field reads back what
-- was written.
use cs140e_final_parallel_co.Base.{
  ℕ, ◌+◌, ◌-◌, ◌*◌, ◌/◌, ◌%◌, ◌^◌, ◌≤◌, ◌<◌, ◌≡◌, sym, ap, ◌∙◌, true, none, some, bit_and, bit_or,
  ltb, leb, ◌==◌, ◌&&◌, if◌then◌else◌, arith, ltb→lt, lt→ltb, leb→le, ==_refl, ne→==, ==→eq, u32,
  Bool-cases, ◌⊎◌, inl, inr,
}
use native.Mathlib.Nat.{mod-eq_of_lt, mod-lt, add-sub_cancel_left}
use cs140e_final_parallel_co.Base.Bits.{
  bit, bit-lt, bit-and, bit-or, bit-not, bit-mask, bit-mod, bit-shl, bit-shr, bit-high, bits_ext,
  lt_of_bits, pow_pos, bit_and-mask,
}
use cs140e_final_parallel_co.BitSupport.{not32, bits_mask, bits_get, bits_clr, bits_set, bits_eq}

bits_mask_lem : (n : ℕ) → n ≤ 32 → bits_mask n ≡ some (2 ^ n - 1)
unfolding bits_mask
bits_mask_lem n h = elim (Bool-cases (n == 32)) [
  | inl e ↦ rw (e, ==→eq n 32 e)
  | inr e ↦ rw (e, lt→ltb n 32 (ground arith))
]

mask-bit_and : (k v : ℕ) → bit_and (2 ^ k - 1) v ≡ v % 2 ^ k
mask-bit_and k v =
    bits_ext (bit_and (2 ^ k - 1) v) (v % 2 ^ k)
      λ i. bit-and (2 ^ k - 1) v i ∙ ground (arith, bit-mask k i, bit-mod k v i, bit-lt v i)

module _ (lb ub : ℕ) (order : lb ≤ ub) (fits : ub < 32) where
  tests : (leb lb ub ≡ true) × (ltb ub 32 ≡ true)
  tests = ground arith

  -- `bits_get` is the field as a number.
  pub bits_get_lem : (x : ℕ) → bits_get x lb ub ≡ some (x / 2 ^ lb % 2 ^ (ub - lb + 1))
  unfolding bits_get
  bits_get_lem x = rw (tests.0, tests.1, bits_mask_lem (ub - lb + 1) (omega arith), bit_and-mask)

  shifted_mask :
      (i : ℕ)
      → bit (u32 ((2 ^ (ub - lb + 1) - 1) * 2 ^ lb)) i ≡ (if leb lb i && leb i ub then 1 else 0)
  shifted_mask i =
      bit-mod 32 ((2 ^ (ub - lb + 1) - 1) * 2 ^ lb) i
      ∙ ground (arith, bit-shl lb (2 ^ (ub - lb + 1) - 1) i, bit-mask (ub - lb + 1) (i - lb))

  abbrev cleared : ℕ → ℕ
  cleared x = bit_and x (not32 (u32 ((2 ^ (ub - lb + 1) - 1) * 2 ^ lb)))

  cleared_lem : (x : ℕ) → bits_clr x lb ub ≡ some (cleared x)
  unfolding bits_clr
  cleared_lem x = rw (tests.0, tests.1, bits_mask_lem (ub - lb + 1) (omega arith))

  cleared_digit :
      (x i : ℕ) → x < 2 ^ 32 → bit (cleared x) i ≡ (if leb lb i && leb i ub then 0 else bit x i)
  cleared_digit x i h =
      let m = u32 ((2 ^ (ub - lb + 1) - 1) * 2 ^ lb) in
      ground (
        arith,
        bit-and x (not32 m) i,
        bit-not 32 m i (mod-lt ((2 ^ (ub - lb + 1) - 1) * 2 ^ lb) (omega arith)),
        shifted_mask i,
        bit-lt x i,
        bit-high 32 x i h,
      )

  -- `bits_clr` clears the digits of the field and leaves the others.
  pub bits_clr-digits :
      (x : ℕ)
      → x < 2 ^ 32
      → (y : ℕ) × (bits_clr x lb ub ≡ some y)
        × ((i : ℕ) → bit y i ≡ (if leb lb i && leb i ub then 0 else bit x i))
  bits_clr-digits x h = (cleared x, cleared_lem x, λ i. cleared_digit x i h)

  mask_accepts : (v : ℕ) → v < 2 ^ (ub - lb + 1) → bit_and (2 ^ (ub - lb + 1) - 1) v ≡ v
  mask_accepts v h = mask-bit_and (ub - lb + 1) v ∙ mod-eq_of_lt h

  shifted_value :
      (v i : ℕ)
      → v < 2 ^ (ub - lb + 1)
      → bit (u32 (v * 2 ^ lb)) i ≡ (if leb lb i && leb i ub then bit v (i - lb) else 0)
  shifted_value v i h = elim (Bool-cases (leb (ub - lb + 1) (i - lb))) [
    | inl e ↦
        bit-mod 32 (v * 2 ^ lb) i
        ∙ ground (
          arith,
          bit-shl lb v i,
          bit-high (ub - lb + 1) v (i - lb) h (leb→le (ub - lb + 1) (i - lb) e),
        )
    | inr e ↦ bit-mod 32 (v * 2 ^ lb) i ∙ ground (arith, bit-shl lb v i)
  ]

  abbrev written : (x v : ℕ) → ℕ
  written x v = bit_or (cleared x) (u32 (v * 2 ^ lb))

  written_lem : (x v : ℕ) → v < 2 ^ (ub - lb + 1) → bits_set x lb ub v ≡ some (written x v)
  unfolding bits_set
  written_lem x v k = rw (
    tests.0,
    tests.1,
    leb_32,
    bits_mask_lem (ub - lb + 1) (omega arith),
    mask_accepts v k,
    ==_refl v,
    cleared_lem x,
  )
    where
      leb_32 : leb (ub - lb + 1) 32 ≡ true
      leb_32 = ground arith

  written_digit :
      (x v i : ℕ)
      → x < 2 ^ 32
      → v < 2 ^ (ub - lb + 1)
      → bit (written x v) i ≡ (if leb lb i && leb i ub then bit v (i - lb) else bit x i)
  written_digit x v i h k =
      bit-or (cleared x) (u32 (v * 2 ^ lb)) i
      ∙ ground (arith, cleared_digit x i h, shifted_value v i k, bit-lt v (i - lb), bit-lt x i)

  written-lt : (x v : ℕ) → x < 2 ^ 32 → v < 2 ^ (ub - lb + 1) → written x v < 2 ^ 32
  written-lt x v h k =
      lt_of_bits 32 (written x v)
        λ i high. ground (arith, written_digit x v i h k, bit-high 32 x i h)

  -- `bits_set` with a value that fits the field puts the value's digits into it and leaves the digits
  -- outside it; the result is a `uint32_t`.
  pub bits_set-digits :
      (x v : ℕ)
      → x < 2 ^ 32
      → v < 2 ^ (ub - lb + 1)
      → (y : ℕ) × (bits_set x lb ub v ≡ some y)
        × ((i : ℕ) → bit y i ≡ (if leb lb i && leb i ub then bit v (i - lb) else bit x i))
        × (y < 2 ^ 32)
  bits_set-digits x v h k =
      (written x v, written_lem x v k, λ i. written_digit x v i h k, written-lt x v h k)

  field_value :
      (x v : ℕ) → x < 2 ^ 32 → v < 2 ^ (ub - lb + 1) → written x v / 2 ^ lb % 2 ^ (ub - lb + 1) ≡ v
  field_value x v h k = bits_ext (written x v / 2 ^ lb % 2 ^ (ub - lb + 1)) v λ i.
      bit-mod (ub - lb + 1) (written x v / 2 ^ lb) i
      ∙ ap (λ d. if ltb i (ub - lb + 1) then d else 0)
          (bit-shr lb (written x v) i ∙ written_digit x v (lb + i) h k)
      ∙ elim (Bool-cases (ltb i (ub - lb + 1))) [
        | inl e ↦ rw (e, inside i (ltb→lt i (ub - lb + 1) e), add-sub_cancel_left lb i)
        | inr e ↦ rw e (sym (bit-high (ub - lb + 1) v i k (ground arith)))
      ]
    where
      inside : (i : ℕ) → i < ub - lb + 1 → (leb lb (lb + i) && leb (lb + i) ub) ≡ true
      inside i h = ground arith

  -- `bits_get` reads back what `bits_set` wrote, and `bits_eq` agrees.
  pub bits_get-bits_set :
      (x v : ℕ)
      → x < 2 ^ 32
      → v < 2 ^ (ub - lb + 1)
      → (y : ℕ) × (bits_set x lb ub v ≡ some y)
        × (bits_get y lb ub ≡ some v)
        × (bits_eq y lb ub v ≡ some 1)
  unfolding bits_eq
  bits_get-bits_set x v h k =
      let y = written x v in
      let got : bits_get y lb ub ≡ some v = bits_get_lem y ∙ ap some (field_value x v h k) in
      (y, written_lem x v k, got, rw (tests.0, tests.1, got, ==_refl v))

  -- A value that does not fit the field stops `bits_set`.
  pub bits_set_wide : (x v : ℕ) → 2 ^ (ub - lb + 1) ≤ v → bits_set x lb ub v ≡ none
  unfolding bits_set
  bits_set_wide x v h =
      rw
        (
          tests.0,
          tests.1,
          bits_mask_lem (ub - lb + 1) (omega arith),
          mask-bit_and (ub - lb + 1) v,
          ne→== (v % 2 ^ (ub - lb + 1)) v
              (λ e. absurd (omega (arith, mod-lt v (pow_pos (ub - lb + 1))))),
        )
        (ground arith)

-- Outside the 32 bits, or with its bounds in the wrong order, every field operation stops.
pub fields_assert :
    (x v lb ub : ℕ)
    → (ub < lb) ⊎ (32 ≤ ub)
    → (bits_get x lb ub ≡ none)
      × (bits_clr x lb ub ≡ none)
      × (bits_set x lb ub v ≡ none)
      × (bits_eq x lb ub v ≡ none)
unfolding bits_get bits_clr bits_set bits_eq
fields_assert x v lb ub h = ground arith
