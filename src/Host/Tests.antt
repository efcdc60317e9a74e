-- ===== src/Host/Tests.antt =====
-- A black picture of two rows in two reads, a directory of devices and a board that is booted.
use cs140e_final_parallel_co.Base.{
  ℕ, ◌+◌, ◌*◌, ◌<◌, ◌≡◌, ◌≢◌, ◌⊎◌, ◌↔◌, length, inl, refl, true, List, [], ◌∷◌, ◌++◌, some, none,
  arith, ltb,
}
use cs140e_final_parallel_co.Crc.{crc32}
use cs140e_final_parallel_co.Boot.{print_string}
use cs140e_final_parallel_co.Boot.Pi.{Look, has_data_timeout}
use cs140e_final_parallel_co.Render.{Image, send_back_to_laptop, send_rows, send_columns}
use cs140e_final_parallel_co.Render.Output.{channel}
use cs140e_final_parallel_co.Host.{
  Screen, take_bytes, update_image, echo, echo_all, pi_done, done_loop, exit_string,
}
use cs140e_final_parallel_co.Host.Done.{Contains, NoStart, pi_done_lem}
use cs140e_final_parallel_co.Host.Echo.{concat, NoneEnds, console}
use cs140e_final_parallel_co.Host.Picture.{echo_all-send_back_to_laptop}
use cs140e_final_parallel_co.Host.Ttyusb.{
  Text, Entry, scandir, any_prefix, begins, only_file, pick_file, pick, newest_file, oldest_file,
}
use cs140e_final_parallel_co.Host.Ttyusb.Pick.{HasTimes, Chosen, newest_file-oldest_file}
use cs140e_final_parallel_co.Host.Install.{stamp, is_integer, all_digits}
use cs140e_final_parallel_co.Host.Install.Ranks.{Board, Asks, Booted, boot_one-ranks}

abbrev black : Image
black i j = record { red = 0; green = 0; blue = 0 }

abbrev screen : Screen
screen = record { image = λ i j c. 7; x = 0; y = 0; idx = 0 }

abbrev reads : List (List ℕ)
reads = (0 ∷ 0 ∷ 0 ∷ 0 ∷ 0 ∷ []) ∷ (0 ∷ 0 ∷ 0 ∷ 0 ∷ 0 ∷ 0 ∷ 0 ∷ []) ∷ []

reads_cut : concat reads ≡ send_back_to_laptop 2 black
unfolding send_back_to_laptop send_rows send_columns
reads_cut = refl

reads_live : NoneEnds reads
unfolding pi_done done_loop
reads_live = (refl, (refl, tt))

echo_all-send_back_to_laptop_example :
    (t : Screen) × (echo_all 2 reads (console screen []) ≡ console t [])
    × (t.x ≡ 2)
    × ((i j c : ℕ) → i < 2 → j < 2 → c < 3 → t.image i j c ≡ channel (black i j) c)
echo_all-send_back_to_laptop_example =
    echo_all-send_back_to_laptop 2 black reads screen [] (omega arith) reads_cut reads_live refl
      refl refl

-- A read whose bytes are the exit string ends the reading, although the picture is not complete.
ends_early :
    ((echo 2 exit_string (console screen [])).done ≡ true)
    × (echo_all 2 (exit_string ∷ reads) (console screen [])
        ≡ echo 2 exit_string (console screen []))
unfolding echo_all echo take_bytes update_image pi_done done_loop
ends_early = (refl, refl)

pi_done_lem_example :
    (pi_done (b'a' ∷ exit_string) ≡ 1 → Contains exit_string (b'a' ∷ exit_string))
    × ((pre post : List ℕ)
        → NoStart pre
        → b'a' ∷ exit_string ≡ pre ++ (exit_string ++ post)
        → pi_done (b'a' ∷ exit_string) ≡ 1)
pi_done_lem_example = pi_done_lem (b'a' ∷ exit_string)

-- A `D` before the exit string hides it.
pi_done_misses : pi_done (b'D' ∷ exit_string) ≡ 0
unfolding pi_done done_loop
pi_done_misses = refl

-- "ttyUSB0" and "ttyUSB1".
abbrev usb : ℕ → Text
usb i = 116 ∷ 116 ∷ 121 ∷ 85 ∷ 83 ∷ 66 ∷ (48 + i) ∷ []

abbrev dev : List Entry
dev = (116 ∷ [], none) ∷ (usb 0, some 70) ∷ (usb 1, some 50) ∷ []

dev_times : HasTimes (scandir dev)
unfolding scandir any_prefix begins
dev_times = ((70, refl), ((50, refl), tt))

-- "ttyUSB0" is the newer one.
dev_newest : (newest_file dev ≡ some (usb 0)) × (oldest_file dev ≡ some (usb 1))
unfolding newest_file oldest_file pick_file pick scandir any_prefix begins
dev_newest = (refl, refl)

newest_file-oldest_file_example :
    ((scandir dev ≡ [])
      × (newest_file dev ≡ none)
      × (oldest_file dev ≡ none)
      × (only_file dev ≡ none))
    ⊎ (Chosen (λ a b. ltb b a) (newest_file dev) (scandir dev)
        × Chosen ltb (oldest_file dev) (scandir dev)
        × ((name : Text)
            → (only_file dev ≡ some name) ↔ (
                (length (scandir dev) ≡ 1)
                × (newest_file dev ≡ some name)
                × (oldest_file dev ≡ some name))))
newest_file-oldest_file_example = newest_file-oldest_file dev dev_times

-- "-" passes for an integer.
is_integer_minus : is_integer (b'-' ∷ []) ≡ true
unfolding is_integer all_digits
is_integer_minus = refl

abbrev found : List Look
found = (true, 5) ∷ []

abbrev board : Board
board = record { lo = 0x200000; hi = 0x300000; calls = []; last = found; later = []; mem = λ a. 0 }

found_data : has_data_timeout (300 * 1000) found ≡ some true
unfolding has_data_timeout
found_data = refl

board-Asks : Asks board 3
board-Asks = record { misses = tt; hit = found_data; apart = inl (omega arith) }

sum : crc32 (stamp 1 2 (1 ∷ 2 ∷ 3 ∷ [])) ≢ print_string
unfolding crc32 stamp
sum e = omega (arith, e)

boot_one-ranks_example :
    (from_pi : List ℕ) × (from_host : List ℕ) × (mem : ℕ → ℕ) × Booted board 1 2
      (1 ∷ 2 ∷ 3 ∷ [])
      from_pi
      from_host
      mem
boot_one-ranks_example =
    boot_one-ranks 1 2 1 2 (3 ∷ []) board board-Asks (omega arith, (omega arith, (omega arith, tt)))
      (omega arith) sum (omega arith) (omega arith)
