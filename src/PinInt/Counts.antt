-- ===== src/PinInt/Counts.antt =====
-- What the handlers of test-interrupts.h count, over any sequence of interrupts.
use cs140e_final_parallel_co.Base.{
  ℕ, ◌+◌, ◌-◌, ◌*◌, ◌<◌, ◌≡◌, refl, ap, ◌⊎◌, ◌∙◌, none, some, arith, bit_and, bit_or, ◌==◌,
  Bool-cases, inl, inr, if◌then◌else◌,
}
use cs140e_final_parallel_co.Base.Bits.{bit, bit-lt, bit_and-one}
use cs140e_final_parallel_co.Gpio.{
  Bus, gpio_lev0, gpeds0, gpio_read, gpio_event_detected, gpio_event_clear, update, put32,
}
use cs140e_final_parallel_co.Gpio.Pins.{gpio_read-level, gpio_events}
use cs140e_final_parallel_co.TimerInt.{irq_basic_pending, arm_timer_irq, arm_timer_irq_clear}
use cs140e_final_parallel_co.PinInt.{
  Board, in_pin, interrupt_vector, falling_handler, rising_handler, timer_test_handler,
  rise_fall_handler, rise_fall_timer_handler,
}

-- The pin's event, its level, and the timer's request: each is 0 or 1.
unfoldable pub event : Bus → ℕ
event bus = bit (bus.mem gpeds0) 17

unfoldable pub level : Bus → ℕ
level bus = bit (bus.mem gpio_lev0) 17

unfoldable pub request : Bus → ℕ
request bus = bit (bus.mem irq_basic_pending) 0

detected : (bus : Bus) (v : ℕ) → event bus ≡ v → gpio_event_detected in_pin bus ≡ v
unfolding event
detected bus v e = (gpio_events in_pin bus).1 ∙ e

pub read_level : (bus : Bus) (v : ℕ) → level bus ≡ v → gpio_read in_pin bus ≡ some v
unfolding level
read_level bus v e = gpio_read-level in_pin bus ∙ ap some e

requested :
    (bus : Bus) (v : ℕ) → request bus ≡ v → bit_and (bus.mem irq_basic_pending) arm_timer_irq ≡ v
unfolding request
requested bus v e = bit_and-one (bus.mem irq_basic_pending) ∙ e

abbrev cleared : Bus → Bus
cleared bus = gpio_event_clear in_pin bus

-- Clearing the event leaves the level and the timer's request.
level-cleared : (bus : Bus) → level (cleared bus) ≡ level bus
unfolding gpio_event_clear update level
level-cleared bus = refl

request-cleared : (bus : Bus) → request (cleared bus) ≡ request bus
unfolding gpio_event_clear update request
request-cleared bus = refl

abbrev risen : Board → Board
risen b = record b { n_rising = b.n_rising + 1; bus = cleared b.bus }

abbrev fallen : Board → Board
fallen b = record b { n_falling = b.n_falling + 1; bus = cleared b.bus }

rising_high : (b : Board) → event b.bus ≡ 1 → level b.bus ≡ 1 → rising_handler b ≡ (1, risen b)
unfolding rising_handler
rising_high b e l = rw (detected b.bus 1 e, read_level b.bus 1 l)

falling_high : (b : Board) → level b.bus ≡ 1 → falling_handler b ≡ (0, b)
unfolding falling_handler
falling_high b l = elim (Bool-cases (gpio_event_detected in_pin b.bus == 0)) [
  | inl d ↦ rw d
  | inr d ↦ rw (d, read_level b.bus 1 l)
]

-- What the two handlers of the pin do to the counters; they leave the timer's request.
abbrev PinCounted : Board → Board → Type 0
PinCounted b b' =
    (b'.n_rising ≡ b.n_rising + event b.bus * level b.bus)
    × (b'.n_falling ≡ b.n_falling + event b.bus * (1 - level b.bus))
    × (b'.n_interrupt ≡ b.n_interrupt)
    × (request b'.bus ≡ request b.bus)

abbrev IsDigit : ℕ → Type 0
IsDigit x = (x ≡ 0) ⊎ (x ≡ 1)

digit : (x i : ℕ) → IsDigit (bit x i)
digit x i = at (bit x i) (bit-lt x i)
  where
    at : (v : ℕ) → v < 2 → IsDigit v
    at v h = ground arith

event-IsDigit : (bus : Bus) → IsDigit (event bus)
unfolding event
event-IsDigit bus = digit (bus.mem gpeds0) 17

level-IsDigit : (bus : Bus) → IsDigit (level bus)
unfolding level
level-IsDigit bus = digit (bus.mem gpio_lev0) 17

request-IsDigit : (bus : Bus) → IsDigit (request bus)
unfolding request
request-IsDigit bus = digit (bus.mem irq_basic_pending) 0

rising_quiet : (b : Board) → event b.bus ≡ 0 → rising_handler b ≡ (0, b)
unfolding rising_handler
rising_quiet b e = rw (detected b.bus 0 e)

falling_quiet : (b : Board) → event b.bus ≡ 0 → falling_handler b ≡ (0, b)
unfolding falling_handler
falling_quiet b e = rw (detected b.bus 0 e)

rising_low : (b : Board) → event b.bus ≡ 1 → level b.bus ≡ 0 → rising_handler b ≡ (0, b)
unfolding rising_handler
rising_low b e l = rw (detected b.bus 1 e, read_level b.bus 0 l)

falling_low : (b : Board) → event b.bus ≡ 1 → level b.bus ≡ 0 → falling_handler b ≡ (1, fallen b)
unfolding falling_handler
falling_low b e l = rw (detected b.bus 1 e, read_level b.bus 0 l)

no_event : (b : Board) → event b.bus ≡ 0 → rise_fall_handler b ≡ (0, b)
unfolding rise_fall_handler
no_event b e = rw (rising_quiet b e, falling_quiet b e)

low_event : (b : Board) → event b.bus ≡ 1 → level b.bus ≡ 0 → rise_fall_handler b ≡ (1, fallen b)
unfolding rise_fall_handler
low_event b e l = rw (rising_low b e l, falling_low b e l)

high_event : (b : Board) → event b.bus ≡ 1 → level b.bus ≡ 1 → rise_fall_handler b ≡ (1, risen b)
unfolding rise_fall_handler
high_event b e l = rw (rising_high b e l, falling_high (risen b) (level-cleared b.bus ∙ l))

rise_fall_lem :
    (b : Board) → (b' : Board) × (rise_fall_handler b ≡ (event b.bus, b')) × PinCounted b b'
rise_fall_lem b = elim (event-IsDigit b.bus) [
  | inl e ↦ (b, rw e (no_event b e), rw e (omega arith, omega arith, refl, refl))
  | inr e ↦ elim (level-IsDigit b.bus) [
    | inl l ↦ (
      fallen b,
      rw e (low_event b e l),
      rw (e, l) (omega arith, omega arith, refl, request-cleared b.bus),
    )
    | inr l ↦ (
      risen b,
      rw e (high_event b e l),
      rw (e, l) (omega arith, omega arith, refl, request-cleared b.bus),
    )
  ]
]

timer_lem :
    (b : Board)
    → (b' : Board) × (timer_test_handler b ≡ (request b.bus, b'))
      × (b'.n_rising ≡ b.n_rising)
      × (b'.n_falling ≡ b.n_falling)
      × (b'.n_interrupt ≡ b.n_interrupt + request b.bus)
unfolding timer_test_handler
timer_lem b = elim (request-IsDigit b.bus) [
  | inl t ↦ (b, rw (requested b.bus 0 t, t), refl, refl, rw t (omega arith))
  | inr t ↦
      let b' : Board = record b {
        n_interrupt = b.n_interrupt + 1;
        bus = put32 arm_timer_irq_clear 1 b.bus;
      } in
      (b', rw (requested b.bus 1 t, t), refl, refl, rw t refl)
]

-- The counters behind an interrupt: an event counts as a rising edge where the pin is high and as a
-- falling edge where it is low, and a request of the timer counts as one more interrupt.
abbrev pub Counted : Board → Board → Type 0
Counted b b' =
    (b'.n_rising ≡ b.n_rising + event b.bus * level b.bus)
    × (b'.n_falling ≡ b.n_falling + event b.bus * (1 - level b.bus))
    × (b'.n_interrupt ≡ b.n_interrupt + 1 + request b.bus)

pin_then_timer :
    (b : Board)
    → (b' : Board) × (rise_fall_timer_handler (record b { n_interrupt = b.n_interrupt + 1 })
        ≡ (bit_or (event b.bus) (request b.bus), b'))
      × Counted b b'
unfolding rise_fall_timer_handler
pin_then_timer b =
    let (b1, ran, (rises, falls, same, pending)) =
      rise_fall_lem (record b { n_interrupt = b.n_interrupt + 1 }) in
    let (b2, ran2, rises2, falls2, more) = timer_lem b1 in
    (
      b2,
      rw (ran, ran2, pending) refl,
      (rises2 ∙ rises, falls2 ∙ falls, more ∙ omega (arith, same, pending)),
    )

-- An interrupt without an event of the pin and without a request of the timer panics; every other one
-- is counted.
pub interrupt_vector_lem :
    (b : Board)
    → if event b.bus + request b.bus == 0
      then interrupt_vector rise_fall_timer_handler b ≡ none
      else (b' : Board) × (interrupt_vector rise_fall_timer_handler b ≡ some b') × Counted b b'
unfolding interrupt_vector
interrupt_vector_lem b =
    let (b', ran, counts) = pin_then_timer b in
    rw ran (elim (event-IsDigit b.bus) [
      | inl e ↦ elim (request-IsDigit b.bus) [
        | inl t ↦ rw (e, t) refl
        | inr t ↦ rw (e, t) (b', refl, rw (e, t) at counts)
      ]
      | inr e ↦ elim (request-IsDigit b.bus) [
        | inl t ↦ rw (e, t) (b', refl, rw (e, t) at counts)
        | inr t ↦ rw (e, t) (b', refl, rw (e, t) at counts)
      ]
    ])
