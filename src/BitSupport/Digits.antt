-- ===== src/BitSupport/Digits.antt =====
-- What each one-bit operation does to the digits of a `uint32_t`, and what stops it.
use cs140e_final_parallel_co.Base.{
  ℕ, zero, suc, ◌+◌, ◌-◌, ◌/◌, ◌^◌, ◌≤◌, ◌<◌, ◌≡◌, sym, ap, ◌∙◌, none, some, bit_and, bit_or,
  bit_xor, ◌==◌, if◌then◌else◌, arith, lt→ltb,
}
use Prim.Native.Nat.{min, max}
use cs140e_final_parallel_co.Base.Bits.{
  bit, bit-lt, bit-and, bit-or, bit-xor, bit-not, bit-pow, bit-high, pow-lt-pow, bit_and-one,
  bit_of_low,
}
use cs140e_final_parallel_co.BitSupport.{
  not32, bit_clr, bit_set, bit_not, bit_is_on, bit_is_off, count_loop, bit_count, bits_diff,
  bits_union, bits_intersect, bits_not,
}

-- `bit_clr`, `bit_set` and `bit_not` clear, set and flip digit `b` and leave the other digits.
pub one_bit_digits :
    (x b i : ℕ)
    → x < 2 ^ 32
    → b < 32
    → ((y : ℕ) × (bit_clr x b ≡ some y) × (bit y i ≡ (if i == b then 0 else bit x i)))
      × ((y : ℕ) × (bit_set x b ≡ some y) × (bit y i ≡ (if i == b then 1 else bit x i)))
      × ((y : ℕ) × (bit_not x b ≡ some y) × (bit y i ≡ (if i == b then 1 - bit x i else bit x i)))
unfolding bit_clr bit_set bit_not
one_bit_digits x b i h k = (
  (
    bit_and x (not32 (2 ^ b)),
    rw (lt→ltb b 32 k),
    ground (
      arith,
      bit-and x (not32 (2 ^ b)) i,
      bit-not 32 (2 ^ b) i (pow-lt-pow b 32 k),
      bit-pow b i,
      bit-lt x i,
      bit-high 32 x i h,
    ),
  ),
  (
    bit_or x (2 ^ b),
    rw (lt→ltb b 32 k),
    ground (arith, bit-or x (2 ^ b) i, bit-pow b i, bit-lt x i),
  ),
  (
    bit_xor x (2 ^ b),
    rw (lt→ltb b 32 k),
    ground (arith, bit-xor x (2 ^ b) i, bit-pow b i, bit-lt x i),
  ),
)

-- `bit_is_on` gives digit `b`, `bit_is_off` the opposite digit.
pub bit_is_on-digit :
    (x b : ℕ) → b < 32 → (bit_is_on x b ≡ some (bit x b)) × (bit_is_off x b ≡ some (1 - bit x b))
unfolding bit_is_on bit_is_off
bit_is_on-digit x b k =
    let on : bit_and (x / 2 ^ b) 1 ≡ bit x b = bit_and-one (x / 2 ^ b) ∙ sym (bit_of_low x b) in
    (rw (lt→ltb b 32 k, on), rw (lt→ltb b 32 k, on) (ground (arith, bit-lt x b)))

-- Each of the five stops exactly where the digit's number is 32 or more.
pub one_bit_asserts :
    (x b : ℕ)
    → 32 ≤ b
    → (bit_clr x b ≡ none)
      × (bit_set x b ≡ none)
      × (bit_not x b ≡ none)
      × (bit_is_on x b ≡ none)
      × (bit_is_off x b ≡ none)
unfolding bit_clr bit_set bit_not bit_is_on bit_is_off
one_bit_asserts x b h = ground arith

-- The sum of the digits `i` to `i + left - 1`.
unfoldable pub digit_sum : (x left i : ℕ) → ℕ
digit_sum x zero i = 0
digit_sum x (suc left) i = bit x i + digit_sum x left (i + 1)

count_loop_lem :
    (x left i cnt : ℕ) → i + left ≤ 32 → count_loop x left i cnt ≡ some (cnt + digit_sum x left i)
unfolding count_loop digit_sum
count_loop_lem x zero i cnt h = ap some (omega arith)
count_loop_lem x (suc left) i cnt h =
    rw
      (
        (bit_is_on-digit x i (omega arith)).0,
        count_loop_lem x left (i + 1) (if bit x i == 0 then cnt else cnt + 1) (omega arith),
      )
      (ap some (ground (arith, bit-lt x i)))

-- `bit_count` never stops, and adds up the 32 digits.
pub bit_count-digit_sum : (x : ℕ) → bit_count x ≡ some (digit_sum x 32 0)
unfolding bit_count
bit_count-digit_sum x = count_loop_lem x 32 0 0 (omega arith) ∙ ap some (omega arith)

-- The set operations, digit by digit: union, intersection, complement and difference of `uint32_t`.
pub set_digits :
    (a b i : ℕ)
    → a < 2 ^ 32
    → b < 2 ^ 32
    → i < 32
    → (bit (bits_union a b) i ≡ max (bit a i) (bit b i))
      × (bit (bits_intersect a b) i ≡ min (bit a i) (bit b i))
      × (bit (bits_not b) i ≡ 1 - bit b i)
      × (bit (bits_diff a b) i ≡ bit a i - bit b i)
unfolding bits_union bits_intersect bits_not bits_diff
set_digits a b i ha hb h =
    let compl : bit (not32 b) i ≡ 1 - bit b i = bit-not 32 b i hb ∙ rw (lt→ltb i 32 h) in
    (
      bit-or a b i,
      bit-and a b i,
      compl,
      omega (arith, bit-and a (not32 b) i, compl, bit-lt a i, bit-lt b i),
    )
