-- ===== src/Fmpi/Async/Setup.antt =====
-- `FMPI_Init_async`.
use cs140e_final_parallel_co.Base.{
  ℕ, zero, suc, ◌+◌, ◌≤◌, ◌≡◌, ap, ◌∙◌, fun_ext, true, ◌&&◌, not, Option, some, arith, ltb, leb,
  ◌==◌, if◌then◌else◌, Bool-cases, inl, inr, ==_refl,
}
use cs140e_final_parallel_co.Base.Results.{◌>>=◌, ◌>>◌, require}
use cs140e_final_parallel_co.Gpio.{Bus, gpio_set_function, gpio_set_on}
use cs140e_final_parallel_co.SwUart.{Uart, sw_uart_init}
use cs140e_final_parallel_co.SwUart.Setup.{sw_uart_init_lem}
use cs140e_final_parallel_co.Fmpi.Sync.{Comm}
use cs140e_final_parallel_co.Fmpi.Setup.{Uarts, put_uart, max_rpis}
use cs140e_final_parallel_co.Fmpi.Async.{tx_async, rx_async}

abbrev pub async_baud : ℕ
async_baud = 115200

-- The loop of the root, with the array and the bus. `idx` is not used.
unfoldable pub init_peers_async : (root left i : ℕ) → Uarts × Bus → Option (Uarts × Bus)
init_peers_async root zero i s = some s
init_peers_async root (suc left) i s = do
  s' ←
      (if i == root
        then some s
        else (do r ← sw_uart_init tx_async rx_async async_baud s.1; some (put_uart s.0 i r.0, r.1)))
  init_peers_async root left (i + 1) s'

-- `none` is a failed `assert`, or the write of `u_async[_root]` outside the array.
unfoldable pub init_async : (rank size root : ℕ) → Uarts → Bus → Option (Comm × Uarts × Bus)
init_async rank size root u bus = do
  require (leb size max_rpis)
  let c : Comm = record { rank = rank; size = size; root = root }
  if rank == root then (do s ← init_peers_async root size 0 (u, bus); some (c, s.0, s.1)) else (do
    require (leb (suc root) max_rpis)
    r ← sw_uart_init tx_async rx_async async_baud bus
    some (c, put_uart u root r.0, r.1))

-- The one UART that is set up.
unfoldable pub shared : Uart
shared = record { tx = 12; rx = 13; baud = 115200; cycle_per_bit = 6076; usec_per_bit = 8 }

init_shared : (bus : Bus) → (bus' : Bus) × (sw_uart_init 12 13 115200 bus ≡ some (shared, bus'))
unfolding shared
init_shared bus = (
  gpio_set_on 12 (gpio_set_function 13 0 (gpio_set_function 12 1 bus)),
  sw_uart_init_lem 12 13 115200 bus (omega arith) (omega arith) (omega arith) (omega arith)
      (omega arith) (omega arith),
)

peers_async_lem :
    (root left i : ℕ) (u : Uarts) (bus : Bus)
    → (bus' : Bus) × (init_peers_async root left i (u, bus)
        ≡ some (
          (λ q. if leb i q && ltb q (i + left) && not (q == root) then some shared else u q),
          bus',
        ))
unfolding init_peers_async put_uart
peers_async_lem root zero i u bus = (bus, ap (λ v. some (v, bus)) (fun_ext λ q. ground arith))
peers_async_lem root (suc left) i u bus = elim (Bool-cases (i == root)) [
  | inl e ↦
      let (bus', p) = peers_async_lem root left (i + 1) u bus in
      (bus', rw e (p ∙ ap (λ v. some (v, bus')) (fun_ext λ q. ground arith)))
  | inr e ↦
      let (bus1, one) = init_shared bus in
      let (bus', p) = peers_async_lem root left (i + 1) (put_uart u i shared) bus1 in
      (bus', rw (e, one) (p ∙ ap (λ v. some (v, bus')) (fun_ext λ q. ground arith)))
]

-- At the root of a group of up to four ranks `FMPI_Init_async` succeeds, and every peer gets the same
-- UART on the same two pins, 12 and 13.
pub init_async-shared :
    (size root : ℕ) (u : Uarts) (bus : Bus)
    → size ≤ 4
    → (bus' : Bus) × (init_async root size root u bus
        ≡ some (
          record { rank = root; size = size; root = root },
          (λ q. if ltb q size && not (q == root) then some shared else u q),
          bus',
        ))
unfolding init_async
init_async-shared size root u bus h =
    let (bus', p) = peers_async_lem root size 0 u bus in
    (
      bus',
      rw (==_refl root, fits, p)
          (ap (λ v. some (record { rank = root; size = size; root = root }, v, bus'))
            (fun_ext λ q. ground arith)),
    )
  where
    fits : leb size 4 ≡ true
    fits = ground arith
