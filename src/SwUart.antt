-- ===== src/SwUart.antt =====
-- libpi/src/sw-uart.c and libpi/include/sw-uart.h: bytes as levels of a line in time, counted in
-- cycles. The cycle counter is taken as running on: C reads it modulo 2 ^ 32 and only uses
-- differences.
pub mod Frame
pub mod Setup
pub mod Wait
mod Tests
use cs140e_final_parallel_co.Base.{
  ℕ, zero, suc, ◌+◌, ◌-◌, ◌*◌, ◌/◌, ◌%◌, ◌^◌, Bool, true, false, ◌&&◌, ◌||◌, not, List, [], ◌∷◌,
  ◌++◌, Option, none, some, bit_and, bit_or, ltb, leb, ◌==◌, if◌then◌else◌, u8, u32,
}
use cs140e_final_parallel_co.Base.Results.{◌>>=◌, ◌>>◌, require}
use cs140e_final_parallel_co.Gpio.{Bus, gpio_set_function, gpio_set_on}

pub record Uart : Type 0 where
  pub tx : ℕ
  pub rx : ℕ
  pub baud : ℕ
  pub cycle_per_bit : ℕ
  pub usec_per_bit : ℕ

-- A `gpio_set_on` (`true`) or `gpio_set_off` of the tx pin, with the cycles since the start that
-- `delay_ncycles` has waited for before it.
abbrev pub Write : Type 0
Write = ℕ × Bool

-- Round `i` of the loop: `mask` is a `uint8_t`.
unfoldable pub put_bits : (n b left i mask : ℕ) → List Write
put_bits n b zero i mask = []
put_bits n b (suc left) i mask =
    (u32 (n * (i + 1)), not (bit_and b mask == 0)) ∷ put_bits n b left (i + 1) (u8 (mask * 2))

-- `sw_uart_put8`: the start bit at once, the eight bits, and the line back up. The last delay, of ten
-- bits, sets no level.
unfoldable pub sw_uart_put8 : Uart → ℕ → List Write
unfolding put_bits
sw_uart_put8 uart b =
    (0, false)
    ∷ (put_bits uart.cycle_per_bit b 8 0 1 ++ ((u32 (uart.cycle_per_bit * 9), true) ∷ []))

-- The levels with the times at which they are set: write `k` comes `late k` cycles after its wait.
unfoldable pub timeline : (start : ℕ) → (late : ℕ → ℕ) → ℕ → List Write → List Write
timeline start late k [] = []
timeline start late k ((wait, v) ∷ ws) = (start + wait + late k, v) ∷ timeline start late (k + 1) ws

-- The level at a time: that of the last write up to it.
unfoldable pub level : List Write → ℕ → Bool → Bool
level [] t now = now
level ((at, v) ∷ ws) t now = if leb at t then level ws t v else now

-- The loop of `sw_uart_get8_timeout` behind the wait for the start bit. `line t` is what `gpio_read`
-- yields at `t`; sample `i` comes `slack i` cycles after the loop has waited for it.
unfoldable pub get_bits : (line : ℕ → Bool) (n start : ℕ) (slack : ℕ → ℕ) (left i val : ℕ) → ℕ
get_bits line n start slack zero i val = val
get_bits line n start slack (suc left) i val =
    let b : ℕ = if line (start + u32 ((i + 1) * n) + slack i) then 1 else 0 in
    get_bits line n start slack left (i + 1) (bit_or val (b * 2 ^ i))

-- One look at the pin in `wait_until_usec`: whether it is at the wanted level, and the microseconds
-- since the start that the timer shows afterwards.
abbrev pub Look : Type 0
Look = Bool × ℕ

-- The loop of `wait_until_usec`; it goes on as long as there are looks.
unfoldable pub wait_loop : (timeout : ℕ) → List Look → Option Bool
wait_loop timeout [] = none
wait_loop timeout ((hit, elapsed) ∷ looks) =
    let rest = wait_loop timeout looks in
    if hit then some true else if ltb timeout elapsed then some false else rest

-- `wait_until_usec(rx, 0, timeout)`: one look before the timer is read, then the loop.
unfoldable pub wait_until_usec : (timeout : ℕ) (first : Bool) → List Look → Option Bool
unfolding wait_loop
wait_until_usec timeout first looks = if first then some true else wait_loop timeout looks

-- `sw_uart_get8_timeout`: `none` while it waits on, -1 as `some none`. The wait for the stop bit reads
-- nothing.
unfoldable pub sw_uart_get8_timeout :
    Uart
    → (timeout : ℕ) (first : Bool) → List Look
    → (line : ℕ → Bool) (start : ℕ) (slack : ℕ → ℕ) → Option (Option ℕ)
sw_uart_get8_timeout uart timeout first looks line start slack = do
  started ← wait_until_usec timeout first looks
  some (if started then some (get_bits line uart.cycle_per_bit start slack 8 0 0) else none)

abbrev pub mhz : ℕ
mhz = 700 * 1000 * 1000

-- A failed `assert` or the `panic` is `none`; the products are of `unsigned`.
unfoldable pub sw_uart_init_helper :
    (tx rx baud cyc_per_bit usec_per_bit : ℕ) → Bus → Option (Uart × Bus)
sw_uart_init_helper tx rx baud cyc_per_bit usec_per_bit bus = do
  require (not (tx == 0) && ltb tx 31)
  require (not (rx == 0) && ltb rx 31)
  require (not (cyc_per_bit == 0) && ltb usec_per_bit cyc_per_bit)
  require (not (usec_per_bit == 0))
  let derived = u32 (cyc_per_bit * baud)
  require (leb (u32 (mhz + 2 ^ 32 - baud)) derived && leb derived (u32 (mhz + baud)))
  some (
    record {
      tx = u8 tx;
      rx = u8 rx;
      baud = baud;
      cycle_per_bit = cyc_per_bit;
      usec_per_bit = usec_per_bit;
    },
    gpio_set_on tx (gpio_set_function rx 0 (gpio_set_function tx 1 bus)),
  )

-- The macro `sw_uart_init`, with `BAUD_TO_CYCLES` and `BAUD_TO_USEC`.
unfoldable pub sw_uart_init : (tx rx baud : ℕ) → Bus → Option (Uart × Bus)
sw_uart_init tx rx baud bus = sw_uart_init_helper tx rx baud (mhz / baud) (1000 * 1000 / baud) bus
