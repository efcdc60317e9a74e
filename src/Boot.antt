-- ===== src/Boot.antt =====
-- The boot protocol of src/bootloader: the opcodes of 2-pi-side/boot-defs.h, and the two ends' words
-- on the serial line. Each end is a run over the bytes that it will read, which keeps what it wrote.
pub mod Port
pub mod Pi
pub mod Unix
pub mod Words
pub mod Load
pub mod Send
mod Tests
use cs140e_final_parallel_co.Base.{ℕ}

abbrev pub armbase : ℕ
armbase = 0x8000

abbrev pub get_prog_info : ℕ
get_prog_info = 0x11112222

abbrev pub put_prog_info : ℕ
put_prog_info = 0x33334444

abbrev pub get_code_op : ℕ
get_code_op = 0x55556666

abbrev pub put_code : ℕ
put_code = 0x77778888

abbrev pub boot_success : ℕ
boot_success = 0x9999AAAA

abbrev pub boot_error : ℕ
boot_error = 0xBBBBCCCC

abbrev pub print_string : ℕ
print_string = 0xDDDDEEEE
