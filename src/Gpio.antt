-- ===== src/Gpio.antt =====
-- libpi/src/gpio.c and libpi/src/gpio-int.c over a bus of 32-bit device registers. `dev_barrier` only
-- orders accesses, which the order of the bus operations keeps.
pub mod Function
pub mod Pins
mod Tests
use cs140e_final_parallel_co.Base.{
  ℕ, ◌+◌, ◌-◌, ◌*◌, ◌/◌, ◌%◌, ◌^◌, Bool, true, false, ◌&&◌, ◌||◌, not, List, [], ◌∷◌, ◌++◌, Option,
  none, some, bit_and, bit_or, ltb, leb, ◌==◌, if◌then◌else◌,
}

-- The registers as they read, and the writes so far.
pub record Bus : Type 0 where
  pub mem : ℕ → ℕ
  pub writes : List (ℕ × ℕ)

abbrev pub get32 : ℕ → Bus → ℕ
get32 addr b = b.mem addr

unfoldable pub update : (ℕ → ℕ) → ℕ → ℕ → ℕ → ℕ
update mem addr v a = if a == addr then v else mem a

abbrev pub put32 : ℕ → ℕ → Bus → Bus
put32 addr v b = record { mem = update b.mem addr v; writes = b.writes ++ ((addr, v) ∷ []) }

-- `OR32(addr, v)`.
abbrev pub or32 : ℕ → ℕ → Bus → Bus
or32 addr v b = put32 addr (bit_or (get32 addr b) v) b

abbrev pub gpio_base : ℕ
gpio_base = 0x20200000

abbrev pub gpio_lev0 : ℕ
gpio_lev0 = gpio_base + 0x34

-- `pin >= 32 && pin != 47`.
abbrev pub bad_pin : ℕ → Bool
bad_pin pin = not (ltb pin 32) && not (pin == 47)

-- The table from the function to its three bits.
unfoldable pub command : ℕ → ℕ
command f =
    if f == 0
    then 0b000
    else if f == 1
    then 0b001
    else if f == 4
    then 0b100
    else if f == 5
    then 0b101
    else if f == 6
    then 0b110
    else if f == 7
    then 0b111
    else if f == 3
    then 0b011
    else if f == 2
    then 0b010
    else 0b000

-- `function < 0` is never true of an unsigned enum.
unfoldable pub gpio_set_function : (pin function : ℕ) → Bus → Bus
unfolding command
gpio_set_function pin function b =
    if bad_pin pin
    then b
    else if ltb 7 function
    then b
    else (let new_pin = pin % 10 in
        let new_addr = gpio_base + 4 * (pin / 10) in
        let mask = 0b111 * 2 ^ (new_pin * 3) in
        let value = bit_and (get32 new_addr b) (2 ^ 32 - 1 - mask) in
        put32 new_addr (bit_or value (command function * 2 ^ (new_pin * 3))) b)

unfoldable pub gpio_set_output : ℕ → Bus → Bus
gpio_set_output pin b = if bad_pin pin then b else gpio_set_function pin 1 b

unfoldable pub gpio_set_input : ℕ → Bus → Bus
gpio_set_input pin b = if bad_pin pin then b else gpio_set_function pin 0 b

unfoldable pub gpio_set_on : ℕ → Bus → Bus
gpio_set_on pin b =
    if bad_pin pin
    then b
    else if ltb pin 32
    then put32 0x2020001C (2 ^ pin) b
    else put32 0x20200020 (2 ^ (pin - 32)) b

unfoldable pub gpio_set_off : ℕ → Bus → Bus
gpio_set_off pin b =
    if bad_pin pin
    then b
    else if ltb pin 32
    then put32 0x20200028 (2 ^ pin) b
    else put32 0x2020002C (2 ^ (pin - 32)) b

unfoldable pub gpio_write : (pin v : ℕ) → Bus → Bus
gpio_write pin v b = if v == 0 then gpio_set_off pin b else gpio_set_on pin b

-- `none` is -1.
unfoldable pub gpio_read : ℕ → Bus → Option ℕ
gpio_read pin b =
    if bad_pin pin
    then none
    else if ltb pin 32
    then some (bit_and (get32 gpio_lev0 b / 2 ^ pin) 1)
    else some (bit_and (get32 (gpio_lev0 + 4) b / 2 ^ (pin - 32)) 1)

abbrev pub gpeds0 : ℕ
gpeds0 = 0x20200040

abbrev pub gpren0 : ℕ
gpren0 = 0x2020004C

abbrev pub gpfen0 : ℕ
gpfen0 = 0x20200058

abbrev pub irqpe2 : ℕ
irqpe2 = 0x2000B208

abbrev pub enirq2 : ℕ
enirq2 = 0x2000B214

unfoldable pub gpio_has_interrupt : Bus → ℕ
gpio_has_interrupt b = if bit_and (get32 irqpe2 b) (2 ^ (49 - 32)) == 0 then 0 else 1

unfoldable pub gpio_int_rising_edge : ℕ → Bus → Bus
gpio_int_rising_edge pin b =
    if leb 32 pin then b else put32 enirq2 (2 ^ (49 - 32)) (or32 gpren0 (2 ^ pin) b)

unfoldable pub gpio_int_falling_edge : ℕ → Bus → Bus
gpio_int_falling_edge pin b =
    if leb 32 pin then b else put32 enirq2 (2 ^ (49 - 32)) (or32 gpfen0 (2 ^ pin) b)

unfoldable pub gpio_event_detected : ℕ → Bus → ℕ
gpio_event_detected pin b =
    if leb 32 pin then 0 else if bit_and (get32 gpeds0 b) (2 ^ pin) == 0 then 0 else 1

unfoldable pub gpio_event_clear : ℕ → Bus → Bus
gpio_event_clear pin b = if leb 32 pin then b else put32 gpeds0 (2 ^ pin) b
