-- ===== src/Crc.antt =====
-- The CRC-32 of libpi/libc/crc.c; libunix/crc.c is a copy, and src/bootloader/2-pi-side/boot-crc32.h
-- has the same table and functions. A buffer is the list of its `size` bytes.
pub mod Table
pub mod Division
pub mod Detection
mod Tests
use cs140e_final_parallel_co.Base.{ℕ, ◌/◌, ◌-◌, ◌^◌, List, [], ◌∷◌, bit_and, bit_xor, get_or}
use cs140e_final_parallel_co.Crc.Table.{crc32_tab}

-- One round of the loop.
unfoldable pub crc_byte : ℕ → ℕ → ℕ
crc_byte crc b = bit_xor (get_or crc32_tab (bit_and (bit_xor crc b) 0xFF) 0) (crc / 2 ^ 8)

unfoldable pub crc_bytes : List ℕ → ℕ → ℕ
unfolding crc_byte
crc_bytes [] crc = crc
crc_bytes (b ∷ bs) crc = crc_bytes bs (crc_byte crc b)

unfoldable pub crc32_inc : List ℕ → ℕ → ℕ
unfolding crc_bytes
crc32_inc buf crc = bit_xor (crc_bytes buf (bit_xor crc (2 ^ 32 - 1))) (2 ^ 32 - 1)

unfoldable pub crc32 : List ℕ → ℕ
unfolding crc32_inc
crc32 buf = crc32_inc buf 0
