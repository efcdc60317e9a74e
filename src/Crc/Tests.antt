-- ===== src/Crc/Tests.antt =====
-- Concrete buffers.
use cs140e_final_parallel_co.Base.{◌-◌, ◌^◌, ◌≡◌, ◌≢◌, refl, [], ◌∷◌, arith, bit_xor}
use cs140e_final_parallel_co.Crc.{crc32_inc, crc32}
use cs140e_final_parallel_co.Crc.Division.{divide, crc32_inc-divide}
use cs140e_final_parallel_co.Crc.Detection.{crc32_inc-append, crc32_one_byte}

-- The check value of CRC-32: the digits 1 to 9.
digits_checksum : crc32 (49 ∷ 50 ∷ 51 ∷ 52 ∷ 53 ∷ 54 ∷ 55 ∷ 56 ∷ 57 ∷ []) ≡ 0xcbf43926
unfolding crc32 crc32_inc
digits_checksum = refl

crc32_inc-divide_example :
    crc32_inc (7 ∷ 200 ∷ []) 0
    ≡ bit_xor (divide (7 ∷ 200 ∷ []) (bit_xor 0 (2 ^ 32 - 1))) (2 ^ 32 - 1)
crc32_inc-divide_example = crc32_inc-divide (7 ∷ 200 ∷ []) 0 (omega arith, (omega arith, tt))

crc32_inc-append_example :
    crc32_inc (3 ∷ []) (crc32_inc (1 ∷ 2 ∷ []) 0) ≡ crc32_inc (1 ∷ 2 ∷ 3 ∷ []) 0
crc32_inc-append_example = crc32_inc-append (1 ∷ 2 ∷ []) (3 ∷ []) 0

crc32_one_byte_example : crc32 (1 ∷ 2 ∷ 3 ∷ []) ≢ crc32 (1 ∷ 130 ∷ 3 ∷ [])
crc32_one_byte_example =
    crc32_one_byte (1 ∷ []) (3 ∷ []) 2 130 (omega arith, tt) (omega arith, tt) (omega arith)
      (omega arith) (λ e. omega (arith, e))
