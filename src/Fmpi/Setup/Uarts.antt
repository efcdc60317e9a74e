-- ===== src/Fmpi/Setup/Uarts.antt =====
-- Which UART `FMPI_Init` gives to which peer.
use cs140e_final_parallel_co.Base.{
  ℕ, zero, suc, ◌+◌, ◌-◌, ◌*◌, ◌≤◌, ◌<◌, ◌≡◌, refl, ap, ◌∙◌, fun_ext, true, ◌&&◌, not, some, arith,
  ltb, leb, ◌==◌, if◌then◌else◌, Bool-cases, inl, inr, ==_refl, ne→==, ◌≢◌, lt→ltb,
}
use cs140e_final_parallel_co.Gpio.{Bus, gpio_set_function, gpio_set_on}
use cs140e_final_parallel_co.SwUart.{Uart, sw_uart_init}
use cs140e_final_parallel_co.SwUart.Setup.{sw_uart_init_lem}
use cs140e_final_parallel_co.Fmpi.Sync.{Comm}
use cs140e_final_parallel_co.Fmpi.Setup.{Uarts, put_uart, init_peer, init_peers, init}

-- The UART on the `k`-th pair of pins from 16 and 17 on: 1519 cycles and two microseconds per bit.
unfoldable pub pair : ℕ → Uart
pair k = record {
  tx = 16 + 2 * k;
  rx = 17 + 2 * k;
  baud = 460800;
  cycle_per_bit = 1519;
  usec_per_bit = 2;
}

abbrev pair_bus : ℕ → Bus → Bus
pair_bus k bus =
    gpio_set_on (16 + 2 * k)
      (gpio_set_function (17 + 2 * k) 0 (gpio_set_function (16 + 2 * k) 1 bus))

sw_uart_init-pair :
    (k : ℕ) (bus : Bus)
    → k ≤ 6
    → sw_uart_init (16 + 2 * k) (17 + 2 * k) 460800 bus ≡ some (pair k, pair_bus k bus)
unfolding pair
sw_uart_init-pair k bus h =
    sw_uart_init_lem (16 + 2 * k) (17 + 2 * k) 460800 bus (omega arith) (omega arith) (omega arith)
      (omega arith) (omega arith) (omega arith)

-- The array behind `left` rounds from peer `i` on, where `idx` pairs were given before.
abbrev filled : (root left i idx : ℕ) → Uarts → Uarts
filled root left i idx u q =
    if leb i q && ltb q (i + left) && not (q == root)
    then some (pair (idx + (q - i) - (if leb i root && ltb root q then 1 else 0)))
    else u q

init_peers_lem :
    (root left i idx : ℕ) (u : Uarts) (bus : Bus)
    → idx + left ≤ 4
    → (k : ℕ) × (bus' : Bus) × (init_peers root left i (idx, u, bus)
        ≡ some (k, filled root left i idx u, bus'))
unfolding init_peers init_peer put_uart
init_peers_lem root zero i idx u bus h =
    (idx, bus, ap (λ v. some (idx, v, bus)) (fun_ext λ q. ground arith))
init_peers_lem root (suc left) i idx u bus h = elim (Bool-cases (i == root)) [
  | inl e ↦
      let (k, bus', p) = init_peers_lem root left (i + 1) idx u bus (omega arith) in
      (k, bus', rw e (p ∙ ap (λ v. some (k, v, bus')) (fun_ext λ q. ground arith)))
  | inr e ↦
      let (k, bus', p) =
        init_peers_lem root left (i + 1) (idx + 1) (put_uart u i (pair idx)) (pair_bus idx bus)
          (omega arith) in
      (
        k,
        bus',
        rw (e, sw_uart_init-pair idx bus (omega arith))
            (p ∙ ap (λ v. some (k, v, bus')) (fun_ext λ q. ground arith)),
      )
]

-- The pair that the root gives to peer `q`: the root itself takes none.
abbrev pub place : (root q : ℕ) → ℕ
place root q = q - (if ltb root q then 1 else 0)

abbrev pub root_uarts : (size root : ℕ) → Uarts → Uarts
root_uarts size root u q = if ltb q size && not (q == root) then some (pair (place root q)) else u q

-- With at most four ranks `FMPI_Init` succeeds at the root: every other rank of the group has the
-- UART on its own pair of pins, and no other entry of the array is written.
pub init_root :
    (size root : ℕ) (u : Uarts) (bus : Bus)
    → size ≤ 4
    → (bus' : Bus) × (init root size root u bus
        ≡ some (record { rank = root; size = size; root = root }, root_uarts size root u, bus'))
unfolding init
init_root size root u bus h =
    let (k, bus', p) = init_peers_lem root size 0 0 u bus (omega arith) in
    (bus', rw (==_refl root, fits, p) (ap (λ v. some (c, v, bus')) (fun_ext λ q. ground arith)))
  where
    c : Comm
    c = record { rank = root; size = size; root = root }

    fits : leb size 4 ≡ true
    fits = ground arith

-- No two peers of the root share a pin.
pub init-disjoint_pins :
    (size root p q : ℕ) (u : Uarts) (bus : Bus)
    → size ≤ 4
    → p < size
    → q < size
    → p ≢ root
    → q ≢ root
    → p ≢ q
    → (c : Comm) × (u' : Uarts) × (bus' : Bus) × (a : Uart) × (b : Uart) × (init root size root u
          bus
        ≡ some (c, u', bus'))
      × (u' p ≡ some a)
      × (u' q ≡ some b)
      × (a.tx ≢ b.tx)
      × (a.tx ≢ b.rx)
      × (a.rx ≢ b.tx)
      × (a.rx ≢ b.rx)
unfolding pair
init-disjoint_pins size root p q u bus h hp hq np nq ne =
    let (bus', e) = init_root size root u bus h in
    (
      record { rank = root; size = size; root = root },
      root_uarts size root u,
      bus',
      pair (place root p),
      pair (place root q),
      e,
      given p hp np,
      given q hq nq,
      (λ s. apart (omega (arith, s))),
      (λ s. omega (arith, s)),
      (λ s. omega (arith, s)),
      (λ s. apart (omega (arith, s))),
    )
  where
    given : (r : ℕ) → r < size → r ≢ root → root_uarts size root u r ≡ some (pair (place root r))
    given r lt n = rw (lt→ltb r size lt, ne→== r root n) refl

    apart : place root p ≢ place root q
    apart same = ne (ground (arith, same))

-- At a rank that is not the root, with a root inside the array, `FMPI_Init` sets up the root's
-- UART on pins 16 and 17 and no other.
pub init_peer_rank :
    (rank size root : ℕ) (u : Uarts) (bus : Bus)
    → size ≤ 4
    → root < 4
    → rank ≢ root
    → init rank size root u bus
      ≡ some (
        record { rank = rank; size = size; root = root },
        put_uart u root (pair 0),
        gpio_set_on 16 (gpio_set_function 17 0 (gpio_set_function 16 1 bus)),
      )
unfolding init
init_peer_rank rank size root u bus h hr ne =
    rw (ne→== rank root ne, fits, inside, sw_uart_init-pair 0 bus (omega arith)) refl
  where
    fits : leb size 4 ≡ true
    fits = ground arith

    inside : leb (suc root) 4 ≡ true
    inside = ground arith
