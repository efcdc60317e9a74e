-- ===== src/BitSupport.antt =====
-- libpi/libc/bit-support.h, copied in libunix/bit-support.h. A failed `assert` is `none`.
pub mod Digits
pub mod Fields
mod Tests
use cs140e_final_parallel_co.Base.{
  ℕ, zero, suc, ◌+◌, ◌-◌, ◌*◌, ◌/◌, ◌^◌, Bool, true, false, ◌&&◌, Option, none, some, bit_and,
  bit_or, bit_xor, u32, ltb, leb, ◌==◌, if◌then◌else◌,
}
use cs140e_final_parallel_co.Base.Results.{◌>>=◌, ◌>>◌, require}

-- `~x` of a `uint32_t`.
abbrev pub not32 : ℕ → ℕ
not32 x = 2 ^ 32 - 1 - x

unfoldable pub bit_clr : (x b : ℕ) → Option ℕ
bit_clr x b = do require (ltb b 32); some (bit_and x (not32 (2 ^ b)))

unfoldable pub bit_set : (x b : ℕ) → Option ℕ
bit_set x b = do require (ltb b 32); some (bit_or x (2 ^ b))

unfoldable pub bit_not : (x b : ℕ) → Option ℕ
bit_not x b = do require (ltb b 32); some (bit_xor x (2 ^ b))

unfoldable pub bit_is_on : (x b : ℕ) → Option ℕ
bit_is_on x b = do require (ltb b 32); some (bit_and (x / 2 ^ b) 1)

-- A comparison as C gives it.
abbrev pub flag : Bool → ℕ
flag true = 1
flag false = 0

unfoldable pub bit_is_off : (x b : ℕ) → Option ℕ
bit_is_off x b = do on ← bit_is_on x b; some (flag (on == 0))

unfoldable pub bits_mask : ℕ → Option ℕ
bits_mask nbits =
    if nbits == 32 then some (2 ^ 32 - 1) else (do require (ltb nbits 32); some (2 ^ nbits - 1))

unfoldable pub bits_get : (x lb ub : ℕ) → Option ℕ
bits_get x lb ub = do
  require (leb lb ub)
  require (ltb ub 32)
  mask ← bits_mask (ub - lb + 1)
  some (bit_and (x / 2 ^ lb) mask)

-- The shift drops what leaves the 32 bits.
unfoldable pub bits_clr : (x lb ub : ℕ) → Option ℕ
bits_clr x lb ub = do
  require (leb lb ub)
  require (ltb ub 32)
  mask ← bits_mask (ub - lb + 1)
  some (bit_and x (not32 (u32 (mask * 2 ^ lb))))

unfoldable pub bits_set : (x lb ub v : ℕ) → Option ℕ
bits_set x lb ub v = do
  require (leb lb ub)
  require (ltb ub 32)
  let n = ub - lb + 1
  require (leb n 32)
  mask ← bits_mask n
  require (bit_and mask v == v)
  cleared ← bits_clr x lb ub
  some (bit_or cleared (u32 (v * 2 ^ lb)))

unfoldable pub bits_eq : (x lb ub val : ℕ) → Option ℕ
bits_eq x lb ub val = do
  require (leb lb ub)
  require (ltb ub 32)
  got ← bits_get x lb ub
  some (flag (got == val))

-- `for (i ..; left rounds) if (bit_is_on(x, i)) cnt++`.
unfoldable pub count_loop : (x left i cnt : ℕ) → Option ℕ
count_loop x zero i cnt = some cnt
count_loop x (suc left) i cnt = do
  on ← bit_is_on x i
  count_loop x left (i + 1) (if on == 0 then cnt else cnt + 1)

unfoldable pub bit_count : ℕ → Option ℕ
unfolding count_loop
bit_count x = count_loop x 32 0 0

unfoldable pub bits_union : (x y : ℕ) → ℕ
bits_union x y = bit_or x y

unfoldable pub bits_intersect : (x y : ℕ) → ℕ
bits_intersect x y = bit_and x y

unfoldable pub bits_not : ℕ → ℕ
bits_not x = not32 x

unfoldable pub bits_diff : (a b : ℕ) → ℕ
bits_diff a b = bits_intersect a (bits_not b)
