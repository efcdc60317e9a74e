-- ===== src/Startup.antt =====
-- The memory that a program starts with: `_cstart` of libpi/staff-src/cstart.c and
-- libpi/include/redzone.h. The symbols of the linker script are arguments.
mod Zeroed
mod Tests
use cs140e_final_parallel_co.Base.{
  ℕ, zero, suc, ◌+◌, ◌-◌, ◌*◌, ◌/◌, ◌^◌, Bool, ◌&&◌, Option, none, some, ◌==◌, if◌then◌else◌,
}
use cs140e_final_parallel_co.Base.Results.{◌>>=◌, ◌>>◌, require}
use cs140e_final_parallel_co.Libc.{Memory, put_byte, memset}

abbrev pub rz_nbytes : ℕ
rz_nbytes = 4096

-- The word at `p`, its least significant byte first.
unfoldable pub redzone_word : ℕ → Memory → ℕ
redzone_word p m = m p + m (p + 1) * 2 ^ 8 + m (p + 2) * 2 ^ 16 + m (p + 3) * 2 ^ 24

-- The count of the words that are not 0. What it prints on the way is left out.
unfoldable pub redzone_loop : (left i nfail : ℕ) → Memory → ℕ
redzone_loop zero i nfail m = nfail
redzone_loop (suc left) i nfail m =
    redzone_loop left (i + 1) (if redzone_word (i * 4) m == 0 then nfail else nfail + 1) m

-- `none` is the panic.
unfoldable pub redzone_check : Memory → Option ℕ
redzone_check m =
    let nfail = redzone_loop (rz_nbytes / 4) 0 0 m in
    if nfail == 0 then some (if nfail == 0 then 1 else 0) else none

unfoldable pub redzone_init : Memory → Option Memory
redzone_init m = do
  let m' = (memset 0 0 rz_nbytes m).1
  ok ← redzone_check m'
  require (ok == 1)
  some m'

-- `while (bss < bss_end) *bss++ = 0`, with the bytes that are left.
unfoldable pub zero_bss : (left bss : ℕ) → Memory → Memory
zero_bss zero bss m = m
zero_bss (suc left) bss m = zero_bss left (bss + 1) (put_byte bss 0 m)

-- The memory when `notmain` is called. `uart_init` and `cycle_cnt_init` write device registers and
-- a coprocessor, so no memory.
unfoldable pub cstart : (bss_start bss_end : ℕ) → Memory → Option Memory
cstart bss_start bss_end m = redzone_init (zero_bss (bss_end - bss_start) bss_start m)
