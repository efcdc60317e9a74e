-- ===== src/Host.antt =====
-- The laptop's end: libunix/pi-echo.c for the first Pi, the boot of a device in
-- src/bootloader/1-unix-side/my-install.c and the choice of a device in libunix/find-ttyusb.c. Files, terminals and the system's lists of devices are
-- arguments.
pub mod Echo
pub mod Picture
pub mod Done
pub mod Install
pub mod Ttyusb
mod Tests
use cs140e_final_parallel_co.Base.{
  ℕ, zero, suc, ◌+◌, ◌-◌, Bool, true, false, ◌&&◌, ◌||◌, not, List, [], ◌∷◌, ◌++◌, map, ltb, leb,
  ◌==◌, if◌then◌else◌,
}

-- The statics of pi-echo.c: the image by row, column and channel, and the place of the next byte.
pub record Screen : Type 0 where
  pub image : ℕ → ℕ → ℕ → ℕ
  pub x : ℕ
  pub y : ℕ
  pub idx : ℕ

-- The state behind the call and whether the image is complete; `n` is N.
unfoldable pub update_pixel : (n : ℕ) → Screen → Screen × Bool
update_pixel n s =
    let next =
      if suc s.idx == 3
      then (if suc s.y == n
          then record s { x = suc s.x; y = 0; idx = 0 }
          else record s { y = suc s.y; idx = 0 })
      else record s { idx = suc s.idx } in
    (next, next.x == n)

unfoldable pub put_channel : (ℕ → ℕ → ℕ → ℕ) → (i j c v : ℕ) → ℕ → ℕ → ℕ → ℕ
put_channel image i j c v i' j' c' = if i' == i && j' == j && c' == c then v else image i' j' c'

-- The loop over the bytes of the buffer, which stops at the end of the image.
unfoldable pub update_image : (n : ℕ) → List ℕ → Screen → Screen
update_image n [] s = s
update_image n (b ∷ buf) s =
    let r = update_pixel n (record s { image = put_channel s.image s.x s.y s.idx b }) in
    let rest = update_image n buf r.0 in if r.1 then r.0 else rest

-- isprint, and isspace but for the carriage return, of ASCII.
unfoldable pub shown : ℕ → Bool
shown c = (leb 32 c && leb c 126) || (leb 9 c && leb c 12)

unfoldable pub remove_nonprint : List ℕ → List ℕ
remove_nonprint buf = map (λ c. if shown c then c else 32) buf

-- "DONE!!!\n".
abbrev pub exit_string : List ℕ
exit_string = b'D' ∷ b'O' ∷ b'N' ∷ b'E' ∷ b'!' ∷ b'!' ∷ b'!' ∷ 10 ∷ []

-- `pi_done` with what is left of the exit string to be matched. A character that does not fit starts
-- the search again behind it.
unfoldable pub done_loop : (left : List ℕ) → List ℕ → ℕ
done_loop [] s = 1
done_loop (e ∷ left) [] = 0
done_loop (e ∷ left) (c ∷ s) =
    let goes_on = done_loop left s in
    let again = done_loop exit_string s in if c == 0 then 0 else if c == e then goes_on else again

unfoldable pub pi_done : List ℕ → ℕ
pi_done s = done_loop exit_string s

-- What `pi_echo` keeps of the first Pi: the statics, the text printed so far, and `done[0]`.
pub record Console : Type 0 where
  pub screen : Screen
  pub out : List ℕ
  pub done : Bool

-- The image as long as it is not complete, and else the text, and what is then in `buf`.
unfoldable pub take_bytes : (n : ℕ) → List ℕ → Console → Console × List ℕ
take_bytes n buf e =
    if ltb e.screen.x n
    then (record e { screen = update_image n buf e.screen }, buf)
    else (record e { out = e.out ++ remove_nonprint buf }, remove_nonprint buf)

-- What the round of the loop does to the first Pi where a read yields `buf`. A Pi that is done is not
-- read any more, and `pi_done` looks at the bytes of the image too. What is typed for the Pi, a read
-- that fails or yields nothing, the other Pis, and the exit once all of them are done are not here.
unfoldable pub echo : (n : ℕ) → List ℕ → Console → Console
echo n buf e =
    let taken = take_bytes n buf e in
    if e.done
    then e
    else if not (pi_done (taken.1) == 0)
    then record (taken.0) { done = true }
    else taken.0

unfoldable pub echo_all : (n : ℕ) → List (List ℕ) → Console → Console
echo_all n [] e = e
echo_all n (buf ∷ reads) e = echo_all n reads (echo n buf e)
