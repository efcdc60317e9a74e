-- ===== src/Startup/Tests.antt =====
-- A bss section of 16 bytes at 0x9000 and a memory of ones.
use cs140e_final_parallel_co.Base.{ℕ, ◌≡◌, ◌||◌, ◌&&◌, some, ltb, leb, if◌then◌else◌}
use cs140e_final_parallel_co.Libc.{Memory}
use cs140e_final_parallel_co.Startup.{cstart}
use cs140e_final_parallel_co.Startup.Zeroed.{cstart-zeroed}

abbrev ones : Memory
ones x = 1

cstart-zeroed_example :
    (m' : Memory) × (cstart 0x9000 0x9010 ones ≡ some m')
    × ((x : ℕ) → m' x ≡ (if ltb x 4096 || (leb 0x9000 x && ltb x 0x9010) then 0 else ones x))
cstart-zeroed_example = cstart-zeroed 0x9000 0x9010 ones
