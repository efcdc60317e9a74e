-- ===== src/Boot/Unix.antt =====
-- The host's end, src/bootloader/1-unix-side/put-code.c, without its trace output.
use cs140e_final_parallel_co.Base.{
  ℕ, zero, suc, ◌+◌, ◌-◌, ◌*◌, ◌^◌, List, bit_or, ltb, ◌==◌, if◌then◌else◌, u32, length,
}
use cs140e_final_parallel_co.Circular.{word_bytes}
use cs140e_final_parallel_co.Crc.{crc32}
use cs140e_final_parallel_co.Boot.{
  armbase, get_prog_info, put_prog_info, get_code_op, put_code, boot_success, print_string,
}
use cs140e_final_parallel_co.Boot.Port.{M, starve, ◌>>=◌, ◌>>◌, pure, read8, write, check}

unfoldable pub put_uint32 : ℕ → M (Unit {0})
put_uint32 u = write (word_bytes u)

unfoldable pub get_uint32 : M ℕ
get_uint32 = do
  a ← read8
  b ← read8
  c ← read8
  d ← read8
  pure (bit_or (bit_or (bit_or a (b * 2 ^ 8)) (c * 2 ^ 16)) (d * 2 ^ 24))

-- The loop that prints a string.
unfoldable pub skip : ℕ → M (Unit {0})
skip zero = pure tt
skip (suc n) = do c ← read8; skip n

-- `get_op`, with as many calls of itself as bytes are left: each takes at least one.
unfoldable pub get_op_fuel : ℕ → M ℕ
get_op_fuel zero = starve
get_op_fuel (suc fuel) =
    let again = get_op_fuel fuel in
    get_uint32 >>= λ op.
    if op == print_string
    then (do
      nbytes ← get_uint32
      check (ltb nbytes 512)
      skip (u32 (nbytes + 2 ^ 32 - 1))
      c ← read8
      again)
    else pure op

unfoldable pub get_op : M ℕ
get_op p = get_op_fuel (length p.inp) p

-- `while((op = get_op(fd)) != GET_PROG_INFO) get_uint8(fd);`, with the bytes left as the bound.
unfoldable pub find_start : ℕ → M (Unit {0})
find_start zero = starve
find_start (suc fuel) =
    let again = find_start fuel in
    get_op >>= λ op. if op == get_prog_info then pure tt else (do c ← read8; again)

-- Step 2: until GET_CODE.
unfoldable pub drain_ops : ℕ → M (Unit {0})
drain_ops zero = starve
drain_ops (suc fuel) =
    let again = drain_ops fuel in get_op >>= λ op. if op == get_code_op then pure tt else again

-- Step 5: until BOOT_SUCCESS.
unfoldable pub wait_success : ℕ → M (Unit {0})
wait_success zero = starve
wait_success (suc fuel) =
    let again = wait_success fuel in get_op >>= λ op. if op == boot_success then pure tt else again

-- A loop with the bytes left as its bound.
abbrev pub bounded : (ℕ → M (Unit {0})) → M (Unit {0})
bounded loop p = loop (length p.inp) p

-- `simple_boot`; the argument `boot_addr` is not used.
unfoldable pub simple_boot : List ℕ → M (Unit {0})
simple_boot buf = do
  bounded find_start
  put_uint32 put_prog_info
  put_uint32 armbase
  put_uint32 (length buf)
  put_uint32 (crc32 buf)
  bounded drain_ops
  op ← get_op
  check (op == crc32 buf)
  put_uint32 put_code
  write buf
  bounded wait_success
