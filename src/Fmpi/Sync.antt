-- ===== src/Fmpi/Sync.antt =====
-- `sync_root_last` and the loop over the peers, with the state that `FMPI_Init` leaves behind.
pub mod Laws
pub mod Trace
use cs140e_final_parallel_co.Base.{ℕ, zero, suc, ◌+◌, List, [], ◌∷◌, ◌==◌, if◌then◌else◌}
use cs140e_final_parallel_co.Fmpi.Link.{Rx, M, ◌>>=◌, ◌>>◌, pure, delay_ms, prefix, and_then}
use cs140e_final_parallel_co.Fmpi.Transfer.{
  send_signal, wait_signal, wait_signal_timeout, is_signal,
}

abbrev pub send_signal_byte : ℕ
send_signal_byte = 5

abbrev pub sync_signal : ℕ
sync_signal = 7

abbrev pub delay : ℕ
delay = 70

abbrev pub timeout : ℕ
timeout = 200

-- The static `_rank`, `_size` and `_root`.
pub record Comm : Type 0 where
  pub rank : ℕ
  pub size : ℕ
  pub root : ℕ

-- `for (i ..; left rounds) { if (i == _root) continue; body }`, with a value that the body updates.
unfoldable pub each_peer : {A : Type 0} → ℕ → (ℕ → A → M A) → (left i : ℕ) → A → M A
each_peer root body zero i a = pure a
each_peer root body (suc left) i a = do
  a' ← (if i == root then pure a else body i a)
  each_peer root body left (i + 1) a'

-- The `do .. while` for one peer. Each round takes one outcome of the peer's UART, so the outcomes
-- at the start bound the rounds; without one the wait starves.
unfoldable pub poll : ℕ → List Rx → M (Unit {0})
poll i [] = do send_signal i sync_signal; r ← wait_signal_timeout i sync_signal timeout; pure tt
poll i (_ ∷ left) = do
  send_signal i sync_signal
  r ← wait_signal_timeout i sync_signal timeout
  if is_signal sync_signal r then pure tt else poll i left

unfoldable pub sync_root_last : Comm → M (Unit {0})
unfolding each_peer poll
sync_root_last c =
    if c.rank == c.root
    then each_peer c.root (λ i _ ins. poll i (ins i) ins) c.size 0 tt
    else (do wait_signal c.root sync_signal; delay_ms delay; send_signal c.root sync_signal)
