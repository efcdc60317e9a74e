-- ===== src/Gpio/Pins.antt =====
-- Reading and writing pins, and the interrupt registers of `gpio-int.c`.
use cs140e_final_parallel_co.Base.{
  ℕ, ◌+◌, ◌-◌, ◌*◌, ◌/◌, ◌%◌, ◌^◌, ◌<◌, ◌≡◌, refl, sym, ◌∙◌, true, false, [], ◌∷◌, ◌++◌, append-nil,
  none, some, bit_and, bit_or, ltb, leb, ◌==◌, if◌then◌else◌, arith, ==_refl, Bool-cases, inl, inr,
}
use cs140e_final_parallel_co.Base.Bits.{
  bit, bit-lt, bit-or, bit-pow, bit_and-one, bit_of_low, masked_digit,
}
use cs140e_final_parallel_co.Gpio.{
  Bus, update, bad_pin, gpio_base, gpio_lev0, gpio_set_on, gpio_set_off, gpio_write, gpio_read,
  gpeds0, gpren0, gpfen0, irqpe2, enirq2, gpio_has_interrupt, gpio_int_rising_edge,
  gpio_int_falling_edge, gpio_event_detected, gpio_event_clear, put32, or32,
}

data Place (pin : ℕ) : Type 0 where
  absent : bad_pin pin ≡ true → Place pin
  low : bad_pin pin ≡ false → ltb pin 32 ≡ true → pin / 32 ≡ 0 → pin % 32 ≡ pin → Place pin
  high :
      bad_pin pin ≡ false
      → ltb pin 32 ≡ false
      → pin / 32 ≡ 1
      → pin % 32 ≡ 15
      → pin - 32 ≡ 15
      → Place pin

place : (pin : ℕ) → Place pin
place pin = elim (Bool-cases (bad_pin pin)) [
  | inl e ↦ absent e
  | inr e ↦ elim (Bool-cases (ltb pin 32)) [
    | inl l ↦ low e l (ground arith) (ground arith)
    | inr l ↦ let at : pin ≡ 47 = ground arith in high e l (omega arith) (omega arith) (omega arith)
  ]
]

-- `gpio_write` makes one write: to the set register of the pin's bank for a value other than 0, to
-- its clear register for 0, with the pin's digit alone. A pin that the board does not have is left.
pub gpio_write_one_pin :
    (pin v : ℕ) (b : Bus)
    → gpio_write pin v b ≡ (
        if bad_pin pin
        then b
        else put32
            (gpio_base + (if v == 0 then 0x28 else 0x1C) + 4 * (pin / 32))
            (2 ^ (pin % 32))
            b)
unfolding gpio_write gpio_set_on gpio_set_off
gpio_write_one_pin pin v b = elim (Bool-cases (v == 0)) [
  | inl z ↦ rw z (at (place pin))
  | inr z ↦ rw z (at' (place pin))
]
  where
    at :
        Place pin
        → gpio_set_off pin b ≡ (
            if bad_pin pin then b else put32 (gpio_base + 0x28 + 4 * (pin / 32)) (2 ^ (pin % 32)) b)
    at (absent e) = rw e
    at (low e l q r) = rw (e, l, q, r)
    at (high e l q r d) = rw (e, l, q, r, d)

    at' :
        Place pin
        → gpio_set_on pin b ≡ (
            if bad_pin pin then b else put32 (gpio_base + 0x1C + 4 * (pin / 32)) (2 ^ (pin % 32)) b)
    at' (absent e) = rw e
    at' (low e l q r) = rw (e, l, q, r)
    at' (high e l q r d) = rw (e, l, q, r, d)

-- `gpio_read` is the pin's digit of the level register of its bank, and -1 for a pin that the board
-- does not have.
pub gpio_read-level :
    (pin : ℕ) (b : Bus)
    → gpio_read pin b
      ≡ (if bad_pin pin then none else some (bit (b.mem (gpio_lev0 + 4 * (pin / 32))) (pin % 32)))
unfolding gpio_read
gpio_read-level pin b = at (place pin)
  where
    digit : (x k : ℕ) → bit_and (x / 2 ^ k) 1 ≡ bit x k
    digit x k = bit_and-one (x / 2 ^ k) ∙ sym (bit_of_low x k)

    at :
        Place pin
        → gpio_read pin b ≡ (
            if bad_pin pin
            then none
            else some (bit (b.mem (gpio_lev0 + 4 * (pin / 32))) (pin % 32)))
    at (absent e) = rw e
    at (low e l q r) = rw (e, l, q, r, digit)
    at (high e l q r d) = rw (e, l, q, r, d, digit)

-- The pin's digit of the register is set, its other digits are left, and only the register and the
-- interrupt enable are written: digit `i` of the register, the register at address `a`.
abbrev pub Enables : (register pin i a : ℕ) (b b' : Bus) → Type 0
Enables register pin i a b b' =
    (bit (b'.mem register) i ≡ (if i == pin then 1 else bit (b.mem register) i))
    × (b'.mem a
        ≡ (if a == enirq2 then 2 ^ 17 else if a == register then b'.mem register else b.mem a))
    × (b'.writes ≡ (b.writes ++ ((register, b'.mem register) ∷ [])) ++ ((enirq2, 2 ^ 17) ∷ []))

pub set_digit : (x k i : ℕ) → bit (bit_or x (2 ^ k)) i ≡ (if i == k then 1 else bit x i)
set_digit x k i = bit-or x (2 ^ k) i ∙ ground (arith, bit-pow k i, bit-lt x i)

enables :
    (register pin i a : ℕ) (b : Bus)
    → (register == enirq2) ≡ false
    → Enables register pin i a b (put32 enirq2 (2 ^ 17) (or32 register (2 ^ pin) b))
unfolding update
enables register pin i a b ne = (
  rw (ne, ==_refl register) (set_digit (b.mem register) pin i),
  rw (ne, ==_refl register),
  rw (ne, ==_refl register),
)

-- On a pin below 32, `gpio_int_rising_edge` and `gpio_int_falling_edge` set the pin's digit of their
-- edge register, leave its other digits and every other register but the interrupt enable, to which
-- interrupt 49 is written last.
pub gpio_int_edges :
    (pin i a : ℕ) (b : Bus)
    → pin < 32
    → Enables gpren0 pin i a b (gpio_int_rising_edge pin b)
      × Enables gpfen0 pin i a b (gpio_int_falling_edge pin b)
unfolding gpio_int_rising_edge gpio_int_falling_edge
gpio_int_edges pin i a b h = rw below (enables gpren0 pin i a b refl, enables gpfen0 pin i a b refl)
  where
    below : leb 32 pin ≡ false
    below = ground arith

-- The interrupt and event tests read their digit, and clearing an event writes the pin's digit alone.
pub gpio_events :
    (pin : ℕ) (b : Bus)
    → (gpio_has_interrupt b ≡ bit (b.mem irqpe2) 17)
      × (gpio_event_detected pin b ≡ (if leb 32 pin then 0 else bit (b.mem gpeds0) pin))
      × ((gpio_event_clear pin b).writes
          ≡ b.writes ++ (if leb 32 pin then [] else (gpeds0, 2 ^ pin) ∷ []))
unfolding gpio_has_interrupt gpio_event_detected gpio_event_clear
gpio_events pin b = (
  rw (masked_digit (b.mem irqpe2) 17) (ground (arith, bit-lt (b.mem irqpe2) 17)),
  rw (masked_digit (b.mem gpeds0) pin) (ground (arith, bit-lt (b.mem gpeds0) pin)),
  ground (arith, append-nil b.writes),
)
