-- ===== src/Base/Bits.antt =====
-- Binary digits: `bit x i` is digit `i` of `x`, and numbers with the same digits are equal. The laws
-- say what the operations of C do to each digit.
mod Ops
pub use Ops.{and_low, or_low, xor_low}
use Prim.Native.Nat.{
  ℕ, zero, suc, ◌+◌, ◌-◌, ◌*◌, ◌/◌, ◌%◌, ◌^◌, ◌≤◌, ◌<◌, min, max, bit_and, bit_or, bit_xor, differ,
}
use mathlib.Core.Path.{◌≡◌, refl, ap, ◌∙◌, sym}
use native.Mathlib.Omega.{arith}
use native.Mathlib.Nat.{
  add-zero, pow-suc, one-le-pow, mod-one, mul-one, one-mul, div-one, zero-add, zero-sub, sub-zero,
  suc-sub-suc, mod-lt, mod-eq_of_lt, div-add-mod, mul-add-mod_self_left, suc-add,
  div-div-eq-div-mul,
}
use mathlib.Core.Bool.{true, false}
use mathlib.Core.Logic.{◌≢◌, inl, inr}
use cs140e_final_parallel_co.Base.Tests.{
  ltb, le→ltb_false, ne→==, ==→eq, ==_refl, Bool-cases, ◌==◌, if◌then◌else◌,
}

abbrev pub bit : ℕ → ℕ → ℕ
bit x zero = x % 2
bit x (suc i) = bit (x / 2) i

pub bit-lt : (x i : ℕ) → bit x i < 2
bit-lt x zero = omega arith
bit-lt x (suc i) = bit-lt (x / 2) i

pub bit-zero : (i : ℕ) → bit 0 i ≡ 0
bit-zero zero = refl
bit-zero (suc i) = bit-zero i

bits_ext_below : (n x y : ℕ) → x ≤ n → y ≤ n → ((i : ℕ) → bit x i ≡ bit y i) → x ≡ y
bits_ext_below zero x y hx hy same = omega arith
bits_ext_below (suc n) x y hx hy same =
    let low = same 0 in
    omega
      (arith, bits_ext_below n (x / 2) (y / 2) (omega arith) (omega arith) (λ i. same (suc i)), low)

pub bits_ext : (x y : ℕ) → ((i : ℕ) → bit x i ≡ bit y i) → x ≡ y
bits_ext x y same = bits_ext_below (x + y) x y (omega arith) (omega arith) same

pub bit-and : (a b i : ℕ) → bit (bit_and a b) i ≡ min (bit a i) (bit b i)
bit-and a b zero = omega (arith, and_low a b)
bit-and a b (suc i) = ap (λ x. bit x i) (omega (arith, and_low a b)) ∙ bit-and (a / 2) (b / 2) i

pub bit-or : (a b i : ℕ) → bit (bit_or a b) i ≡ max (bit a i) (bit b i)
bit-or a b zero = omega (arith, or_low a b)
bit-or a b (suc i) = ap (λ x. bit x i) (omega (arith, or_low a b)) ∙ bit-or (a / 2) (b / 2) i

differ_digits : (x y : ℕ) → x < 2 → y < 2 → differ x y ≡ (x + y) % 2
differ_digits zero y h k = omega arith
differ_digits (suc zero) zero h k = refl
differ_digits (suc zero) (suc zero) h k = refl
differ_digits (suc zero) (suc (suc y)) h k = absurd (omega arith)
differ_digits (suc (suc x)) y h k = absurd (omega arith)

-- Exclusive or of digits is their sum modulo 2.
pub bit-xor : (a b i : ℕ) → bit (bit_xor a b) i ≡ (bit a i + bit b i) % 2
bit-xor a b zero =
    omega (arith, xor_low a b, differ_digits (a % 2) (b % 2) (omega arith) (omega arith))
bit-xor a b (suc i) =
    ap (λ x. bit x i)
      (omega (arith, xor_low a b, differ_digits (a % 2) (b % 2) (omega arith) (omega arith)))
    ∙ bit-xor (a / 2) (b / 2) i

pub pow_pos : (w : ℕ) → 0 < 2 ^ w
pow_pos w = one-le-pow w 2 (omega arith)

half_mod : (x p : ℕ) → 0 < p → x % (2 * p) ≡ 2 * (x / 2 % p) + x % 2
half_mod x p h =
    ap (λ y. y % (2 * p)) (split x p)
    ∙ mul-add-mod_self_left (2 * p) (x / 2 / p) (2 * (x / 2 % p) + x % 2)
    ∙ mod-eq_of_lt (omega (arith, mod-lt (x / 2) h))
  where
    split : (x p : ℕ) → x ≡ 2 * p * (x / 2 / p) + (2 * (x / 2 % p) + x % 2)
    split x p = omega (arith, div-add-mod (x / 2) p)

mod_pow-suc : (w x : ℕ) → x % 2 ^ suc w ≡ 2 * (x / 2 % 2 ^ w) + x % 2
mod_pow-suc w x = ap (λ p. x % p) (omega (arith, pow-suc 2 w)) ∙ half_mod x (2 ^ w) (pow_pos w)

mod_pow_half : (w x : ℕ) → x % 2 ^ suc w / 2 ≡ x / 2 % 2 ^ w
mod_pow_half w x = omega (arith, mod_pow-suc w x)

not_half : (w x : ℕ) → x < 2 ^ suc w → (2 ^ suc w - 1 - x) / 2 ≡ 2 ^ w - 1 - x / 2
not_half w x h = omega (arith, pow-suc 2 w)

shl_twice : (x k : ℕ) → x * 2 ^ suc k ≡ 2 * (x * 2 ^ k)
shl_twice x k = omega (arith, ap (λ (t : ℕ). x * t) (pow-suc 2 k))

shl_half : (x k : ℕ) → x * 2 ^ suc k / 2 ≡ x * 2 ^ k
shl_half x k = omega (arith, shl_twice x k)

shr_suc : (x k : ℕ) → x / 2 ^ suc k ≡ x / 2 / 2 ^ k
shr_suc x k = ap (λ p. x / p) (pow-suc' k) ∙ sym (div-div-eq-div-mul x 2 (2 ^ k))
  where
    pow-suc' : (k : ℕ) → 2 ^ suc k ≡ 2 * 2 ^ k
    pow-suc' k = omega (arith, pow-suc 2 k)

ltb-suc : (i w : ℕ) → ltb (suc i) (suc w) ≡ ltb i w
ltb-suc i w = ground arith

ltb-zero : (w : ℕ) → ltb 0 (suc w) ≡ true
ltb-zero w = ground arith

ltb-none : (i : ℕ) → ltb i 0 ≡ false
ltb-none i = ground arith

-- A cast to `w` bits keeps the digits below `w`.
pub bit-mod : (w x i : ℕ) → bit (x % 2 ^ w) i ≡ (if ltb i w then bit x i else 0)
bit-mod zero x i = rw (ltb-none, mod-one) (bit-zero i)
bit-mod (suc w) x zero = rw ltb-zero (omega (arith, mod_pow-suc w x))
bit-mod (suc w) x (suc i) = ap (λ y. bit y i) (mod_pow_half w x) ∙ rw ltb-suc (bit-mod w (x / 2) i)

-- `~x` at `w` bits.
pub bit-not : (w x i : ℕ) → x < 2 ^ w → bit (2 ^ w - 1 - x) i ≡ (if ltb i w then 1 - bit x i else 0)
bit-not zero x i h = rw (ltb-none, zero-sub) (bit-zero i)
bit-not (suc w) x zero h = rw ltb-zero (omega (arith, pow-suc 2 w))
bit-not (suc w) x (suc i) h =
    ap (λ y. bit y i) (not_half w x h)
    ∙ rw ltb-suc (bit-not w (x / 2) i (omega (arith, pow-suc 2 w)))

-- `x << k`.
pub bit-shl : (k x i : ℕ) → bit (x * 2 ^ k) i ≡ (if ltb i k then 0 else bit x (i - k))
bit-shl zero x i = rw (ltb-none, mul-one, sub-zero)
bit-shl (suc k) x zero = rw ltb-zero (omega (arith, shl_twice x k))
bit-shl (suc k) x (suc i) =
    ap (λ y. bit y i) (shl_half x k) ∙ rw (ltb-suc, suc-sub-suc) (bit-shl k x i)

-- `x >> k`.
pub bit-shr : (k x i : ℕ) → bit (x / 2 ^ k) i ≡ bit x (k + i)
bit-shr zero x i = rw (div-one, zero-add)
bit-shr (suc k) x i = rw suc-add (ap (λ y. bit y i) (shr_suc x k) ∙ bit-shr k (x / 2) i)

pub bit-one : (i : ℕ) → bit 1 i ≡ (if i == 0 then 1 else 0)
bit-one zero = refl
bit-one (suc i) = bit-zero i ∙ ground arith

-- `1 << k`.
pub bit-pow : (k i : ℕ) → bit (2 ^ k) i ≡ (if i == k then 1 else 0)
bit-pow k i =
    ap (λ y. bit y i) (sym (one-mul (2 ^ k))) ∙ bit-shl k 1 i ∙ ground (arith, bit-one (i - k))

-- `(1 << k) - 1`.
pub bit-mask : (k i : ℕ) → bit (2 ^ k - 1) i ≡ (if ltb i k then 1 else 0)
bit-mask k i =
    ap (λ y. bit y i) (sym (sub-zero (2 ^ k - 1)))
    ∙ bit-not k 0 i (pow_pos k)
    ∙ ap (λ d. if ltb i k then 1 - d else 0) (bit-zero i)

-- A number below `2 ^ w` has no digit from `w` on.
pub bit-high : (w x i : ℕ) → x < 2 ^ w → w ≤ i → bit x i ≡ 0
bit-high w x i h k =
    ap (λ y. bit y i) (sym (mod-eq_of_lt h)) ∙ bit-mod w x i ∙ rw (le→ltb_false i w k)

-- A number that has no digit from `w` on is below `2 ^ w`.
pub lt_of_bits : (w x : ℕ) → ((i : ℕ) → w ≤ i → bit x i ≡ 0) → x < 2 ^ w
lt_of_bits w x none_above = rw (bits_ext x (x % 2 ^ w) (λ i. same i)) (mod-lt x (pow_pos w))
  where
    same : (i : ℕ) → bit x i ≡ bit (x % 2 ^ w) i
    same i = ground (arith, bit-mod w x i, none_above i)

pub pow-lt-pow : (b w : ℕ) → b < w → 2 ^ b < 2 ^ w
pow-lt-pow b w h = lt_of_bits w (2 ^ b) λ i k. ground (arith, bit-pow b i)

-- `a & 1`.
pub bit_and-one : (x : ℕ) → bit_and x 1 ≡ x % 2
bit_and-one x =
    bits_ext (bit_and x 1) (x % 2)
      λ i. bit-and x 1 i ∙ ground (arith, bit-one i, bit-mod 1 x i, bit-lt x i)

-- `a & ((1 << k) - 1)`.
pub bit_and-mask : (k x : ℕ) → bit_and x (2 ^ k - 1) ≡ x % 2 ^ k
bit_and-mask k x =
    bits_ext (bit_and x (2 ^ k - 1)) (x % 2 ^ k)
      λ i. bit-and x (2 ^ k - 1) i ∙ ground (arith, bit-mask k i, bit-mod k x i, bit-lt x i)

pub bit_of_low : (x k : ℕ) → bit x k ≡ x / 2 ^ k % 2
bit_of_low x k = ap (bit x) (sym (add-zero k)) ∙ sym (bit-shr k x 0)

bit-pow_self : (k : ℕ) → bit (2 ^ k) k ≡ 1
bit-pow_self k = rw (bit-pow, ==_refl k)

-- A word masked with one digit is 0 exactly when the digit is.
pub masked_digit : (x k : ℕ) → (bit_and x (2 ^ k) == 0) ≡ (bit x k == 0)
masked_digit x k = elim (Bool-cases (bit x k == 0)) [
  | inl e ↦
      let none_left : bit_and x (2 ^ k) ≡ 0 =
        bits_ext (bit_and x (2 ^ k)) 0 λ i. bit-and x (2 ^ k) i ∙ off e i ∙ sym (bit-zero i) in
      rw (none_left, e)
  | inr e ↦ rw e (
      ne→== (bit_and x (2 ^ k)) 0 λ z. absurd (
        omega (
          arith,
          ap (λ y. bit y k) z ∙ bit-zero k,
          bit-and x (2 ^ k) k,
          bit-pow_self k,
          bit-lt x k,
          not_zero e,
        )))
]
  where
    not_zero : (bit x k == 0) ≡ false → bit x k ≢ 0
    not_zero h z = ground arith

    off : (bit x k == 0) ≡ true → (i : ℕ) → min (bit x i) (bit (2 ^ k) i) ≡ 0
    off e i = elim (Bool-cases (i == k)) [
      | inl same ↦ rw (bit-pow, same, ==→eq i k same, ==→eq (bit x k) 0 e) (omega arith)
      | inr other ↦ rw (bit-pow, other) (omega arith)
    ]
