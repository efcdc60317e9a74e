-- ===== src/Fmpi/Setup.antt =====
-- `FMPI_Init`: the state of fmpi.c and the software UARTs that it sets up.
pub mod Uarts
mod Tests
use cs140e_final_parallel_co.Base.{
  ℕ, zero, suc, ◌+◌, ◌*◌, Bool, true, false, Option, none, some, leb, ◌==◌, if◌then◌else◌,
}
use cs140e_final_parallel_co.Base.Results.{◌>>=◌, ◌>>◌, require}
use cs140e_final_parallel_co.Gpio.{Bus}
use cs140e_final_parallel_co.SwUart.{Uart, sw_uart_init}
use cs140e_final_parallel_co.Fmpi.Sync.{Comm}

abbrev pub max_rpis : ℕ
max_rpis = 4

abbrev pub base_tx : ℕ
base_tx = 16

abbrev pub base_rx : ℕ
base_rx = 17

abbrev pub baud_rate : ℕ
baud_rate = 115200 * 4

-- The static array `u`, `none` where no UART has been set up.
abbrev pub Uarts : Type 0
Uarts = ℕ → Option Uart

unfoldable pub put_uart : Uarts → ℕ → Uart → Uarts
put_uart u i uart q = if q == i then some uart else u q

-- `idx` with the array and the bus, as the loop of the root changes them.
abbrev pub Progress : Type 0
Progress = ℕ × Uarts × Bus

unfoldable pub init_peer : (i : ℕ) → Progress → Option Progress
unfolding put_uart
init_peer i (idx, u, bus) = do
  r ← sw_uart_init (base_tx + 2 * idx) (base_rx + 2 * idx) baud_rate bus
  some (idx + 1, put_uart u i r.0, r.1)

unfoldable pub init_peers : (root left i : ℕ) → Progress → Option Progress
unfolding init_peer
init_peers root zero i s = some s
init_peers root (suc left) i s = do
  s' ← (if i == root then some s else init_peer i s)
  init_peers root left (i + 1) s'

-- `FMPI_Init` with the bytes at 0x8000 and 0x8001: the static variables, the array and the bus
-- behind it. `none` is a failed `assert`, or the write of `u[_root]` outside the array.
unfoldable pub init : (rank size root : ℕ) → Uarts → Bus → Option (Comm × Uarts × Bus)
unfolding init_peers put_uart
init rank size root u bus = do
  require (leb size max_rpis)
  let c : Comm = record { rank = rank; size = size; root = root }
  if rank == root then (do s ← init_peers root size 0 (0, u, bus); some (c, s.1, s.2)) else (do
    require (leb (suc root) max_rpis)
    r ← sw_uart_init base_tx base_rx baud_rate bus
    some (c, put_uart u root r.0, r.1))
