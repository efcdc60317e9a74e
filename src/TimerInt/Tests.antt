-- ===== src/TimerInt/Tests.antt =====
-- Two interrupts of the timer, with a wrap between them, and a table at 0x9000.
use cs140e_final_parallel_co.Base.{
  ℕ, ◌+◌, ◌-◌, ◌*◌, ◌/◌, ◌%◌, ◌^◌, ◌<◌, ◌≤◌, ◌≡◌, refl, some, none, false, [], ◌∷◌, ◌++◌, arith,
}
use cs140e_final_parallel_co.Gpio.{Bus}
use cs140e_final_parallel_co.Render.{elapsed_cycles, has_overflow}
use cs140e_final_parallel_co.TimerInt.{
  Machine, interrupt_init, State, interrupt_vector, timer_init, irq_disable_1, irq_disable_2,
  irq_enable_basic, arm_timer_load, arm_timer_control,
}
use cs140e_final_parallel_co.TimerInt.Setup.{interrupt_init-vectors, timer_init_lem, IsPrescale}
use cs140e_final_parallel_co.TimerInt.Wraps.{
  Interrupts, start, timer, device, Tracks, Interrupts-Tracks, render_time,
}

abbrev pending : Bus
pending = record { mem = λ a. 1; writes = [] }

abbrev begun : State
begun = record { overflow_count = 0; last_cnt = 0; bus = pending }

abbrev once : State
once = interrupt_vector (4000000000 % 2 ^ 32) begun

abbrev again : State
again = record once { bus = pending }

abbrev twice : State
twice = interrupt_vector (5000000000 % 2 ^ 32) again

two-Interrupts : Interrupts 5000000000 twice
two-Interrupts =
    timer 5000000000
      (device pending (timer 4000000000 (start pending) refl (omega arith) (omega arith))) refl
      (omega arith) (omega arith)

Interrupts-Tracks_example : Tracks 5000000000 twice
Interrupts-Tracks_example = Interrupts-Tracks two-Interrupts

-- The second reading stands before the wrap, which the handler has counted when the time is printed.
render_time_example :
    elapsed_cycles 1000 (4000000007 % 2 ^ 32)
      + 2 ^ 32 * (twice.overflow_count - has_overflow 1000 (4000000007 % 2 ^ 32))
    ≡ (4000000007 - 1000) + 2 ^ 32 * (5000000000 / 2 ^ 32 - 4000000007 / 2 ^ 32)
render_time_example =
    render_time 1000 4000000007 two-Interrupts (omega arith) (omega arith) (omega arith)

abbrev machine : Machine
machine = record { enabled = false; words = λ a. a; bus = pending }

interrupt_init-vectors_example :
    ((interrupt_init 0x9000 16 machine).enabled ≡ false)
    × ((interrupt_init 0x9000 16 machine).bus.writes
        ≡ machine.bus.writes ++ ((irq_disable_1, 0xffffffff) ∷ (irq_disable_2, 0xffffffff) ∷ []))
    × ((k : ℕ)
        → k < 16
        → (interrupt_init 0x9000 16 machine).words (k * 4) ≡ machine.words (0x9000 + k * 4))
    × ((a : ℕ) → 16 * 4 ≤ a → (interrupt_init 0x9000 16 machine).words a ≡ machine.words a)
interrupt_init-vectors_example = interrupt_init-vectors 0x9000 16 machine (omega arith)

timer_init_lem_example :
    ((k : ℕ)
      → k < 3
      → (after : Bus) × (timer_init (16 ^ k) 4 pending ≡ some after)
        × (after.writes
            ≡ pending.writes
              ++ ((irq_enable_basic, 1)
                  ∷ (arm_timer_load, 4)
                  ∷ (arm_timer_control, 0xa2 + 4 * k)
                  ∷ [])))
    × (¬ IsPrescale 17 → timer_init 17 4 pending ≡ none)
timer_init_lem_example = timer_init_lem 17 4 pending
