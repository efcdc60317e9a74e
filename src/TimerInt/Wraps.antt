-- ===== src/TimerInt/Wraps.antt =====
-- The count of the wraps of the 32-bit cycle counter, over any sequence of interrupts.
use cs140e_final_parallel_co.Base.{
  ℕ, ◌+◌, ◌-◌, ◌*◌, ◌/◌, ◌%◌, ◌^◌, ◌<◌, ◌≤◌, ◌≡◌, refl, true, false, arith, bit_and, ◌==◌,
}
use native.Mathlib.Nat.{mod-eq_of_lt}
use cs140e_final_parallel_co.Gpio.{Bus, get32}
use cs140e_final_parallel_co.Render.{elapsed_cycles, has_overflow}
use cs140e_final_parallel_co.Render.Cycles.{elapsed_cycles-wraps}
use cs140e_final_parallel_co.TimerInt.{State, interrupt_vector, irq_basic_pending, arm_timer_irq}

-- The interrupt is the timer's.
abbrev pub IsTimer : Bus → Type 0
IsTimer bus = (bit_and (get32 irq_basic_pending bus) arm_timer_irq == 0) ≡ false

-- Interrupts from the start of the cycle counter on. The index is the cycle of the last one of the timer,
-- of a counter that runs on for ever; between two of them are fewer than 2 ^ 32 cycles. Between
-- interrupts the devices change their registers as they like.
pub data Interrupts : ℕ → State → Type 0 where
  start : (bus : Bus) → Interrupts 0 (record { overflow_count = 0; last_cnt = 0; bus = bus })
  timer :
      {t : ℕ} {s : State} (now : ℕ)
      → Interrupts t s
      → IsTimer s.bus
      → t ≤ now
      → now < t + 2 ^ 32
      → Interrupts now (interrupt_vector (now % 2 ^ 32) s)
  other :
      {t : ℕ} {s : State} (cnt : ℕ)
      → Interrupts t s
      → (bit_and (get32 irq_basic_pending s.bus) arm_timer_irq == 0) ≡ true
      → Interrupts t (interrupt_vector cnt s)
  device : {t : ℕ} {s : State} (bus : Bus) → Interrupts t s → Interrupts t (record s { bus = bus })

-- The counters that stand for cycle `t`.
abbrev pub Tracks : ℕ → State → Type 0
Tracks t s = (s.last_cnt ≡ t % 2 ^ 32) × (s.overflow_count ≡ t / 2 ^ 32)

interrupt_vector-Tracks :
    (t now : ℕ) (s : State)
    → Tracks t s
    → IsTimer s.bus
    → t ≤ now
    → now < t + 2 ^ 32
    → Tracks now (interrupt_vector (now % 2 ^ 32) s)
unfolding interrupt_vector
interrupt_vector-Tracks t now s h mine lo hi = rw mine (refl, ground arith)

interrupt_vector-other :
    (cnt : ℕ) (s : State)
    → (bit_and (get32 irq_basic_pending s.bus) arm_timer_irq == 0) ≡ true
    → interrupt_vector cnt s ≡ s
unfolding interrupt_vector
interrupt_vector-other cnt s e = rw e refl

-- After any sequence of interrupts the handler's counters are the true cycle count of the last timer
-- interrupt, `overflow_count` times 2 ^ 32 and `last_cnt`, as long as the timer interrupts come fewer than
-- 2 ^ 32 cycles apart. Interrupts of other sources do not matter.
pub Interrupts-Tracks : {t : ℕ} {s : State} → Interrupts t s → Tracks t s
Interrupts-Tracks (start bus) = (refl, refl)
Interrupts-Tracks (timer {t} {s} now r mine lo hi) =
    interrupt_vector-Tracks t now s (Interrupts-Tracks r) mine lo hi
Interrupts-Tracks (other {s = s} cnt r e) =
    rw (interrupt_vector-other cnt s e) (Interrupts-Tracks r)
Interrupts-Tracks (device bus r) = Interrupts-Tracks r

-- `has_overflow` reports no wrap that has not happened.
has_overflow-le :
    (first last : ℕ)
    → first ≤ last
    → first < 2 ^ 32
    → has_overflow first (last % 2 ^ 32) ≤ last / 2 ^ 32
unfolding has_overflow
has_overflow-le first last le low = ground arith

-- What render.c prints as `%x + 0xffffffff * %d` for the readings at the cycles `first` and `last`: the
-- first number and 2 ^ 32 times the second are the true cycles between the readings, and 2 ^ 32 more for
-- each wrap behind `last` that the handler has counted. The counter was started before `first` without
-- having wrapped, the count is read behind the picture's way to the laptop, and the handler has by then
-- seen the wraps up to `last`: cycle `t` is that of its last timer interrupt.
pub render_time :
    {t : ℕ} {s : State} (first last : ℕ)
    → Interrupts t s
    → first < 2 ^ 32
    → first ≤ last
    → last / 2 ^ 32 ≤ t / 2 ^ 32
    → elapsed_cycles first (last % 2 ^ 32)
        + 2 ^ 32 * (s.overflow_count - has_overflow first (last % 2 ^ 32))
      ≡ (last - first) + 2 ^ 32 * (t / 2 ^ 32 - last / 2 ^ 32)
render_time {t} {s} first last r low le seen =
    let small : first % 2 ^ 32 ≡ first = mod-eq_of_lt low in
    let none_yet : first / 2 ^ 32 ≡ 0 = omega arith in
    let e = (elapsed_cycles-wraps first last le).0 in
    let e' = rw (small, none_yet) at e in
    omega (arith, e', (Interrupts-Tracks r).1, has_overflow-le first last le low)
