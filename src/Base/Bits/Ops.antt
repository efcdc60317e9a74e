-- ===== src/Base/Bits/Ops.antt =====
-- The lowest digit of `bit_and`, `bit_or` and `bit_xor`. The native operations stand for a recursion
-- on digits with a count of digits to go; any count that is large enough gives the same.
use Prim.Native.Nat.{
  ℕ, zero, suc, ◌+◌, ◌*◌, ◌/◌, ◌%◌, ◌≤◌, min, max, bit_and, bit_or, bit_xor, differ, digits,
  bit_and-bitwise, bit_or-bitwise, bit_xor-bitwise,
}
use mathlib.Core.Path.{◌≡◌, refl, ap}
use native.Mathlib.Omega.{arith}

module _ (z : ℕ → ℕ) (f : ℕ → ℕ → ℕ) where
  count_free : (a n m b : ℕ) → a ≤ n → a ≤ m → digits z f n a b ≡ digits z f m a b
  count_free a n m b h k = go n m a b h k
    where
      go : (n m a b : ℕ) → a ≤ n → a ≤ m → digits z f n a b ≡ digits z f m a b
      go zero zero a b h k = refl
      go zero (suc m) zero b h k = refl
      go zero (suc m) (suc a) b h k = elim h [ ]
      go (suc n) zero zero b h k = refl
      go (suc n) zero (suc a) b h k = elim k [ ]
      go (suc n) (suc m) zero b h k = refl
      go (suc n) (suc m) (suc a) b h k =
          ap (λ q. q * 2 + f (suc a % 2) (b % 2))
            (go n m (suc a / 2) (b / 2) (omega arith) (omega arith))

  -- With a law for the digits that the first number has run out of, one equation for all numbers.
  low :
      ((b : ℕ) → z b ≡ z (b / 2) * 2 + f 0 (b % 2))
      → (a b : ℕ) → digits z f a a b ≡ digits z f (a / 2) (a / 2) (b / 2) * 2 + f (a % 2) (b % 2)
  low out zero b = out b
  low out (suc a) b =
      ap (λ q. q * 2 + f (suc a % 2) (b % 2))
        (count_free (suc a / 2) a (suc a / 2) (b / 2) (omega arith) (omega arith))

pub and_low : (a b : ℕ) → bit_and a b ≡ bit_and (a / 2) (b / 2) * 2 + min (a % 2) (b % 2)
and_low a b = simp bit_and-bitwise (low (λ _. 0) min (λ b. omega arith) a b)

pub or_low : (a b : ℕ) → bit_or a b ≡ bit_or (a / 2) (b / 2) * 2 + max (a % 2) (b % 2)
or_low a b = simp bit_or-bitwise (low (λ b. b) max (λ b. omega arith) a b)

pub xor_low : (a b : ℕ) → bit_xor a b ≡ bit_xor (a / 2) (b / 2) * 2 + differ (a % 2) (b % 2)
xor_low a b = simp bit_xor-bitwise (low (λ b. b) differ (λ b. omega arith) a b)
