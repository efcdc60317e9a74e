-- ===== src/Fmpi/Transfer.antt =====
-- `send`, `recv`, the signals, and `memcpy` as fmpi.c uses it.
pub mod Laws
use cs140e_final_parallel_co.Base.{
  ℕ, zero, suc, ◌+◌, ◌*◌, Bool, List, [], ◌∷◌, Option, none, some, ◌&&◌, leb, ◌==◌, if◌then◌else◌,
  length, get_elem?, set, take, ltb,
}
use cs140e_final_parallel_co.Fmpi.Link.{
  Rx, byte, quiet, fault, M, ◌>>=◌, ◌>>◌, pure, put8, get8, in_bounds, prefix,
}

-- Buffer bytes `i` to `i + left - 1`, one `sw_uart_put8` each.
unfoldable pub send_loop : List ℕ → ℕ → (left i : ℕ) → M (Unit {0})
send_loop buffer p zero i = pure tt
send_loop buffer p (suc left) i = do
  b ← in_bounds (get_elem? buffer i)
  put8 p b
  send_loop buffer p left (i + 1)

-- The pointer of the source is a buffer with an offset.
unfoldable pub send : (buffer : List ℕ) (offset recv_pi count data_size : ℕ) → M (Unit {0})
unfolding send_loop
send buffer offset recv_pi count data_size = send_loop buffer recv_pi (count * data_size) offset

-- `((char *)buffer)[i] = val`: -1 is stored as 255.
abbrev pub to_char : Rx → ℕ
to_char (byte b) = b
to_char quiet = 255

abbrev pub store : List ℕ → ℕ → ℕ → M (List ℕ)
store buffer i v = if ltb i (length buffer) then pure (set buffer i v) else (λ _. fault [])

unfoldable pub recv_loop : ℕ → (left i : ℕ) → List ℕ → M (List ℕ)
recv_loop p zero i buffer = pure buffer
recv_loop p (suc left) i buffer = do
  val ← get8 p
  buffer' ← store buffer i (to_char val)
  recv_loop p left (i + 1) buffer'

unfoldable pub recv : (buffer : List ℕ) (offset send_pi count data_size : ℕ) → M (List ℕ)
unfolding recv_loop
recv buffer offset send_pi count data_size = recv_loop send_pi (count * data_size) offset buffer

unfoldable pub overwrite : List ℕ → ℕ → List ℕ → List ℕ
overwrite buffer i [] = buffer
overwrite buffer i (b ∷ bs) = overwrite (set buffer i b) (i + 1) bs

-- `memcpy(dst, src, n)`.
unfoldable pub memcpy : (dst src : List ℕ) → ℕ → M (List ℕ)
unfolding overwrite
memcpy dst src n =
    if leb n (length dst) && leb n (length src)
    then pure (overwrite dst 0 (take n src))
    else (λ _. fault [])

unfoldable pub send_signal : ℕ → ℕ → M (Unit {0})
send_signal recv_pi signal = put8 recv_pi signal

abbrev pub is_signal : ℕ → Rx → Bool
is_signal signal (byte b) = b == signal
is_signal signal quiet = Bool.false

-- `while (sw_uart_get8(..) != signal);`. Each round takes one outcome of the peer's UART, so the
-- outcomes at the start bound the rounds; without one the wait starves.
unfoldable pub wait_loop : (send_pi signal : ℕ) → List Rx → M (Unit {0})
wait_loop send_pi signal [] = get8 send_pi >> pure tt
wait_loop send_pi signal (_ ∷ left) = do
  r ← get8 send_pi
  if is_signal signal r then pure tt else wait_loop send_pi signal left

unfoldable pub wait_signal : (send_pi signal : ℕ) → M (Unit {0})
unfolding wait_loop
wait_signal send_pi signal ins = wait_loop send_pi signal (ins send_pi) ins

-- One wait of at most `1000 * msec`; the caller compares the outcome with the signal.
unfoldable pub wait_signal_timeout : (recv_pi signal msec : ℕ) → M Rx
wait_signal_timeout recv_pi signal msec = get8 recv_pi
