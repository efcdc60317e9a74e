-- ===== src/PinInt/Tests.antt =====
-- One interrupt by a rising edge and the timer at once, and a start-up.
use cs140e_final_parallel_co.Base.{◌≡◌, refl, false, some, none, [], if◌then◌else◌, ◌==◌}
use cs140e_final_parallel_co.Gpio.{
  Bus, put32, gpio_event_clear, gpio_read, gpio_event_detected, update,
}
use cs140e_final_parallel_co.TimerInt.{arm_timer_irq_clear}
use cs140e_final_parallel_co.PinInt.{
  Board, System, Wiring, in_pin, interrupt_vector, rise_fall_timer_handler, rise_fall_handler,
  rising_handler, falling_handler, timer_test_handler, rise_fall_timer_int_startup,
}
use cs140e_final_parallel_co.PinInt.Counts.{event, level, request}
use cs140e_final_parallel_co.PinInt.Sequences.{start, interrupt, Interrupts-counted}
use cs140e_final_parallel_co.PinInt.Start.{rise_fall_timer_int_startup_lem, Started}

-- Every register reads with the bits 0 and 17.
abbrev all_set : Bus
all_set = record { mem = λ a. 0x20001; writes = [] }

abbrev handled : Board
handled = record {
  n_interrupt = 2;
  n_falling = 0;
  n_rising = 1;
  bus = put32 arm_timer_irq_clear 1 (gpio_event_clear in_pin all_set);
}

abbrev at_start : Board
at_start = record { n_interrupt = 0; n_falling = 0; n_rising = 0; bus = all_set }

handles : interrupt_vector rise_fall_timer_handler at_start ≡ some handled
unfolding interrupt_vector rise_fall_timer_handler rise_fall_handler rising_handler falling_handler
    timer_test_handler gpio_event_clear gpio_event_detected gpio_read update
handles = refl

Interrupts-counted_example :
    (handled.n_rising ≡ 1) × (handled.n_falling ≡ 0) × (handled.n_interrupt ≡ 2)
unfolding event level request
Interrupts-counted_example = Interrupts-counted (interrupt all_set handled (start all_set) handles)

abbrev low : System
low = record {
  enabled = false;
  vector_reg = 0;
  interrupt_fn = none;
  bus = record { mem = λ a. 1; writes = [] };
}

-- The line follows `out_pin`, which raises it before the assertion.
abbrev jumper : Wiring
jumper addr v old = if addr == 0x2020001C then 0x20001 else 1

rise_fall_timer_int_startup_lem_example :
    (s' : System) × (rise_fall_timer_int_startup jumper 0x8020 low ≡ some s') × Started 0x8020 s'
rise_fall_timer_int_startup_lem_example = rise_fall_timer_int_startup_lem jumper 0x8020 low

-- An open line stays low, and the start-up panics.
open_line : rise_fall_timer_int_startup (λ addr v old. old) 0x8020 low ≡ none
open_line = rise_fall_timer_int_startup_lem (λ addr v old. old) 0x8020 low
