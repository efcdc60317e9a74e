-- ===== src/Boot/Pi.antt =====
-- The Pi's end, src/bootloader/2-pi-side/get-code.h. The addresses of PUT32 and of __prog_end__ are
-- arguments, and so is what uart_has_data yields.
use cs140e_final_parallel_co.Base.{
  ℕ, zero, suc, ◌+◌, ◌*◌, ◌/◌, ◌^◌, Bool, true, false, ◌&&◌, not, List, [], ◌∷◌, Option, none, some,
  bit_and, bit_or, ltb, ◌==◌, if◌then◌else◌, u32, length,
}
use cs140e_final_parallel_co.Crc.{crc32}
use cs140e_final_parallel_co.Boot.{
  get_prog_info, put_prog_info, get_code_op, put_code, boot_success, boot_error, print_string,
}
use cs140e_final_parallel_co.Boot.Port.{M, starve, ◌>>=◌, ◌>>◌, pure, read8, write, reboot, check}

unfoldable pub boot_get32 : M ℕ
boot_get32 = do
  a ← read8
  b ← read8
  c ← read8
  d ← read8
  pure (bit_or (bit_or (bit_or a (b * 2 ^ 8)) (c * 2 ^ 16)) (d * 2 ^ 24))

-- Four calls of `boot_put8`.
unfoldable pub boot_put32 : ℕ → M (Unit {0})
boot_put32 u = write (
    bit_and (u / 2 ^ 0) 0xff
    ∷ bit_and (u / 2 ^ 8) 0xff
    ∷ bit_and (u / 2 ^ 16) 0xff
    ∷ bit_and (u / 2 ^ 24) 0xff
    ∷ [])

-- The message without its final 0.
unfoldable pub boot_putk : List ℕ → M (Unit {0})
boot_putk msg = do boot_put32 print_string; boot_put32 (length msg); write msg

unfoldable pub boot_err {ℓ} : {A : Type ℓ} → ℕ → List ℕ → M A
boot_err error_opcode msg = do boot_putk msg; boot_put32 error_opcode; reboot

-- One look of the loop of `has_data_timeout`: whether there is data, and else the microseconds since
-- the start.
abbrev pub Look : Type 0
Look = Bool × ℕ

-- `none` where it looks on.
unfoldable pub has_data_timeout : (timeout : ℕ) → List Look → Option Bool
has_data_timeout timeout [] = none
has_data_timeout timeout ((data_there, elapsed) ∷ looks) =
    let rest = has_data_timeout timeout looks in
    if data_there then some true else if ltb timeout elapsed then some false else rest

-- The looks of each call in turn.
unfoldable pub wait_for_data : (usec_timeout : ℕ) → List (List Look) → M (Unit {0})
wait_for_data usec_timeout [] = starve
wait_for_data usec_timeout (looks ∷ calls) =
    let again = wait_for_data usec_timeout calls in
    boot_put32 get_prog_info >> elim (has_data_timeout usec_timeout looks) [
      | none ↦ starve
      | some true ↦ pure tt
      | some false ↦ again
    ]

-- `PUT8`.
unfoldable pub put8 : (ℕ → ℕ) → ℕ → ℕ → ℕ → ℕ
put8 mem addr v a = if a == addr then v else mem a

-- The loop that copies the code to memory.
unfoldable pub copy_code : (addr left i : ℕ) → (ℕ → ℕ) → M (ℕ → ℕ)
copy_code addr zero i mem = pure mem
copy_code addr (suc left) i mem = do
  op ← read8
  copy_code addr left (i + 1) (put8 mem (u32 (addr + i)) op)

-- The bytes in memory that `crc32((uint8_t*)addr, nbytes)` reads.
unfoldable pub mem_bytes : (ℕ → ℕ) → (addr left i : ℕ) → List ℕ
mem_bytes mem addr zero i = []
mem_bytes mem addr (suc left) i = mem (u32 (addr + i)) ∷ mem_bytes mem addr left (i + 1)

-- "hsiangc: success: Received the program! UART finished!"
abbrev pub success_msg : List ℕ
success_msg =
    104 ∷ 115 ∷ 105 ∷ 97 ∷ 110 ∷ 103 ∷ 99 ∷ 58 ∷ 32 ∷ 115 ∷ 117 ∷ 99 ∷ 99 ∷ 101 ∷ 115 ∷ 115 ∷ 58
    ∷ 32 ∷ 82 ∷ 101 ∷ 99 ∷ 101 ∷ 105 ∷ 118 ∷ 101 ∷ 100 ∷ 32 ∷ 116 ∷ 104 ∷ 101 ∷ 32 ∷ 112 ∷ 114 ∷ 111
    ∷ 103 ∷ 114 ∷ 97 ∷ 109 ∷ 33 ∷ 32 ∷ 85 ∷ 65 ∷ 82 ∷ 84 ∷ 32 ∷ 102 ∷ 105 ∷ 110 ∷ 105 ∷ 115 ∷ 104
    ∷ 101 ∷ 100 ∷ 33 ∷ []

-- "crc32 wrong!"
abbrev pub crc_msg : List ℕ
crc_msg = 99 ∷ 114 ∷ 99 ∷ 51 ∷ 50 ∷ 32 ∷ 119 ∷ 114 ∷ 111 ∷ 110 ∷ 103 ∷ 33 ∷ []

-- `get_code`: the address, and the memory behind it.
unfoldable pub get_code :
    (address_min address_max : ℕ) → List (List Look) → (ℕ → ℕ) → M (ℕ × (ℕ → ℕ))
get_code address_min address_max calls mem = do
  wait_for_data (300 * 1000) calls
  op ← boot_get32
  check (op == put_prog_info)
  addr ← boot_get32
  nbytes ← boot_get32
  cksum ← boot_get32
  check (not (ltb address_min (u32 (addr + nbytes)) && ltb addr address_max))
  boot_put32 get_code_op
  boot_put32 cksum
  op' ← boot_get32
  check (op' == put_code)
  mem' ← copy_code addr nbytes 0 mem
  if crc32 (mem_bytes mem' addr nbytes 0) == cksum
      then (do boot_putk success_msg; boot_put32 boot_success; pure (addr, mem'))
      else boot_err boot_error crc_msg
