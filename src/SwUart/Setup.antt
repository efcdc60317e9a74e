-- ===== src/SwUart/Setup.antt =====
-- `sw_uart_init`: its assertions hold for the pins and the rates of the board.
use cs140e_final_parallel_co.Base.{
  ℕ, suc, ◌+◌, ◌-◌, ◌*◌, ◌/◌, ◌^◌, ◌≤◌, ◌<◌, ◌≡◌, refl, true, ◌&&◌, not, some, arith, ltb, leb,
  ◌==◌, u8, u32,
}
use native.Mathlib.Nat.{div-mul-le_self, le-div_iff_mul-le, lt-div-mul-add, suc-mul}
use cs140e_final_parallel_co.Gpio.{Bus, gpio_set_function, gpio_set_on}
use cs140e_final_parallel_co.SwUart.{mhz, sw_uart_init_helper, sw_uart_init}

-- The rate that the whole cycles per bit give is less than one bit's cycles short of the clock.
cycles_bounds : (baud : ℕ) → 0 < baud → (mhz / baud * baud ≤ mhz) × (mhz < mhz / baud * baud + baud)
cycles_bounds baud h = (div-mul-le_self mhz baud, lt-div-mul-add {a = mhz} h)

usec_per_bit-pos : (baud : ℕ) → 0 < baud → baud ≤ 1000 * 1000 → 0 < 1000 * 1000 / baud
usec_per_bit-pos baud h le =
    (le-div_iff_mul-le {k = baud} {x = 1} {y = 1000 * 1000} h).1 (omega arith)

usec_per_bit-lt : (baud : ℕ) → 0 < baud → baud ≤ 1000 * 1000 → 1000 * 1000 / baud < mhz / baud
usec_per_bit-lt baud h le =
    let u = 1000 * 1000 / baud in
    (le-div_iff_mul-le {k = baud} {x = suc u} {y = mhz} h).1
      (omega (arith, div-mul-le_self (1000 * 1000) baud, suc-mul u baud))

-- With pins from 1 to 30 and a rate from 1 to a million, `sw_uart_init` makes the tx pin an output,
-- the rx pin an input, pulls the tx line up, and returns both pins with the rate, the cycles per bit
-- and the microseconds per bit.
pub sw_uart_init_lem :
    (tx rx baud : ℕ) (bus : Bus)
    → 0 < tx
    → tx < 31
    → 0 < rx
    → rx < 31
    → 0 < baud
    → baud ≤ 1000 * 1000
    → sw_uart_init tx rx baud bus
      ≡ some (
        record {
          tx = tx;
          rx = rx;
          baud = baud;
          cycle_per_bit = mhz / baud;
          usec_per_bit = 1000 * 1000 / baud;
        },
        gpio_set_on tx (gpio_set_function rx 0 (gpio_set_function tx 1 bus)),
      )
unfolding sw_uart_init sw_uart_init_helper
sw_uart_init_lem tx rx baud bus ht ht' hr hr' hb hb' =
    rw (pin tx ht ht', pin rx hr hr', cycles, micros, rate, small tx ht', small rx hr') refl
  where
    small : (p : ℕ) → p < 31 → u8 p ≡ p
    small p h = omega arith

    c : ℕ
    c = mhz / baud

    pin : (p : ℕ) → 0 < p → p < 31 → (not (p == 0) && ltb p 31) ≡ true
    pin p h h' = ground arith

    cycles : (not (c == 0) && ltb (1000 * 1000 / baud) c) ≡ true
    cycles = ground (arith, usec_per_bit-lt baud hb hb')

    micros : not (1000 * 1000 / baud == 0) ≡ true
    micros = ground (arith, usec_per_bit-pos baud hb hb')

    rate :
        (leb (u32 (mhz + 2 ^ 32 - baud)) (u32 (c * baud))
          && leb (u32 (c * baud)) (u32 (mhz + baud)))
        ≡ true
    rate = ground (arith, (cycles_bounds baud hb).0, (cycles_bounds baud hb).1)
