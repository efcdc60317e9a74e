-- ===== src/Host/Install.antt =====
-- src/bootloader/1-unix-side/my-install.c: the stamp and the boot of one device, and `is_integer`. The
-- line `fd` is an argument. Which device each number gets from `find_ttyusb_i`, opening it, the parsing
-- of the other options and the echo behind the loop are not here.
pub mod Ranks
use cs140e_final_parallel_co.Base.{
  ℕ, zero, suc, ◌+◌, Bool, true, false, ◌&&◌, List, [], ◌∷◌, leb, ◌==◌, if◌then◌else◌, set, u8,
}
use cs140e_final_parallel_co.Boot.Port.{Port, Run, done, dry, panicked, rebooted}
use cs140e_final_parallel_co.Boot.Unix.{simple_boot}
use cs140e_final_parallel_co.Host.Ttyusb.{Text}

unfoldable pub all_digits : Text → Bool
all_digits [] = true
all_digits (c ∷ str) = (leb b'0' c && leb c b'9') && all_digits str

-- Of a string that is not NULL.
unfoldable pub is_integer : Text → Bool
is_integer [] = false
is_integer (c ∷ str) = if c == b'-' then all_digits str else all_digits (c ∷ str)

-- `code[0] = i; code[1] = num_pis;`.
unfoldable pub stamp : (i num_pis : ℕ) → (code : List ℕ) → List ℕ
stamp i num_pis code = set (set code 0 (u8 i)) 1 (u8 num_pis)

-- The end of the loop's body for device `i`: the stamp and the boot over its line.
unfoldable pub boot_one : (i num_pis : ℕ) → (code : List ℕ) → Port → Run (Unit {0})
boot_one i num_pis code fd = simple_boot (stamp i num_pis code) fd
