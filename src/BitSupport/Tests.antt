-- ===== src/BitSupport/Tests.antt =====
-- Concrete words and fields.
use cs140e_final_parallel_co.Base.{ℕ, ◌-◌, ◌^◌, ◌<◌, ◌≡◌, some, arith, leb, ◌&&◌, if◌then◌else◌}
use Prim.Native.Nat.{min, max}
use cs140e_final_parallel_co.Base.Bits.{bit}
use cs140e_final_parallel_co.BitSupport.{
  bit_clr, bit_set, bit_not, bit_count, bits_union, bits_intersect, bits_not, bits_diff, bits_get,
  bits_set, bits_eq,
}
use cs140e_final_parallel_co.BitSupport.Digits.{
  one_bit_digits, bit_count-digit_sum, digit_sum, set_digits,
}
use cs140e_final_parallel_co.BitSupport.Fields.{bits_get-bits_set, bits_set-digits}

one_bit_digits_example :
    ((y : ℕ) × (bit_clr 0xff 3 ≡ some y) × (bit y 3 ≡ 0))
    × ((y : ℕ) × (bit_set 0xff 3 ≡ some y) × (bit y 3 ≡ 1))
    × ((y : ℕ) × (bit_not 0xff 3 ≡ some y) × (bit y 3 ≡ 1 - bit 0xff 3))
one_bit_digits_example = one_bit_digits 0xff 3 3 (omega arith) (omega arith)

bit_count-digit_sum_example : bit_count 0xf0f1 ≡ some (digit_sum 0xf0f1 32 0)
bit_count-digit_sum_example = bit_count-digit_sum 0xf0f1

set_digits_example :
    (bit (bits_union 0xa5 0x5b) 2 ≡ max (bit 0xa5 2) (bit 0x5b 2))
    × (bit (bits_intersect 0xa5 0x5b) 2 ≡ min (bit 0xa5 2) (bit 0x5b 2))
    × (bit (bits_not 0x5b) 2 ≡ 1 - bit 0x5b 2)
    × (bit (bits_diff 0xa5 0x5b) 2 ≡ bit 0xa5 2 - bit 0x5b 2)
set_digits_example = set_digits 0xa5 0x5b 2 (omega arith) (omega arith) (omega arith)

bits_get-bits_set_example :
    (y : ℕ) × (bits_set 0x12345678 4 11 0xab ≡ some y)
    × (bits_get y 4 11 ≡ some 0xab)
    × (bits_eq y 4 11 0xab ≡ some 1)
bits_get-bits_set_example =
    bits_get-bits_set 4 11 (omega arith) (omega arith) 0x12345678 0xab (omega arith) (omega arith)

bits_set-digits_example :
    (y : ℕ) × (bits_set 0x12345678 4 11 0xab ≡ some y)
    × ((i : ℕ) → bit y i ≡ (if leb 4 i && leb i 11 then bit 0xab (i - 4) else bit 0x12345678 i))
    × (y < 2 ^ 32)
bits_set-digits_example =
    bits_set-digits 4 11 (omega arith) (omega arith) 0x12345678 0xab (omega arith) (omega arith)
