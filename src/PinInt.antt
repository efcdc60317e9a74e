-- ===== src/PinInt.antt =====
-- src/gpio_int: the interrupts by the edges of a pin and by the timer, in test-interrupts.c and
-- test-interrupts.h, their start-up, and interrupt-vec.c and vector-base.h, which set the vector table.
-- The table is an address, and the board's wiring an argument; barriers keep the order that the bus operations have. The operands of `|`
-- are run from left to right. What the event register reads after it is cleared decides nothing: both
-- handlers read the level of the pin too.
mod Counts
mod Sequences
mod Start
mod Tests
use cs140e_final_parallel_co.Base.{
  ℕ, ◌+◌, ◌*◌, ◌^◌, Bool, true, false, List, [], ◌∷◌, Option, none, some, bit_and, bit_or, ◌==◌,
  if◌then◌else◌, u32,
}
use cs140e_final_parallel_co.Base.Results.{◌>>=◌, ◌>>◌, require}
use cs140e_final_parallel_co.Gpio.{
  Bus, get32, put32, update, gpio_lev0, gpio_set_output, gpio_set_input, gpio_write, gpio_read,
  gpio_event_detected, gpio_event_clear, gpio_int_rising_edge, gpio_int_falling_edge,
}
use cs140e_final_parallel_co.TimerInt.{
  timer_init, irq_basic_pending, arm_timer_irq, arm_timer_irq_clear, irq_disable_1, irq_disable_2,
}

abbrev pub out_pin : ℕ
out_pin = 16

abbrev pub in_pin : ℕ
in_pin = 17

-- The counters of the handlers and the bus.
pub record Board : Type 0 where
  pub n_interrupt : ℕ
  pub n_falling : ℕ
  pub n_rising : ℕ
  pub bus : Bus

-- `interrupt_fn_t`, without the address that no handler uses.
abbrev pub Handler : Type 0
Handler = Board → ℕ × Board

-- The forwarding to `interrupt_fn`; `none` is the panic.
unfoldable pub interrupt_vector : Handler → Board → Option Board
interrupt_vector interrupt_fn b =
    let handled = interrupt_fn (record b { n_interrupt = b.n_interrupt + 1 }) in
    if handled.0 == 0 then none else some (handled.1)

-- What the board does with the levels when a register is written: from the register, the word that is
-- written and the old word of levels to the new one. A jumper from `out_pin` to `in_pin` is one wiring,
-- an open line another.
abbrev pub Wiring : Type 0
Wiring = (addr v old : ℕ) → ℕ

-- The last one of the writes, and `w` where there are none.
unfoldable pub last_write : List (ℕ × ℕ) → (w : ℕ × ℕ) → ℕ × ℕ
last_write [] w = w
last_write (write ∷ writes) w = last_write writes write

-- The board answers the last write on the bus.
unfoldable pub settle : Wiring → Bus → Bus
settle wire bus =
    let write = last_write bus.writes (0, 0) in
    record bus { mem = update bus.mem gpio_lev0 (wire (write.0) (write.1) (get32 gpio_lev0 bus)) }

-- `!gpio_read(in_pin)`: -1 is no 0.
abbrev pub reads_zero : Option ℕ → Bool
reads_zero none = false
reads_zero (some v) = v == 0

unfoldable pub falling_handler : Handler
falling_handler b =
    if gpio_event_detected in_pin b.bus == 0
    then (0, b)
    else if reads_zero (gpio_read in_pin b.bus)
    then (1, record b { n_falling = b.n_falling + 1; bus = gpio_event_clear in_pin b.bus })
    else (0, b)

unfoldable pub falling_init : Wiring → Bus → Bus
falling_init wire bus = gpio_int_falling_edge in_pin (settle wire (gpio_write out_pin 1 bus))

unfoldable pub rising_handler : Handler
rising_handler b =
    if gpio_event_detected in_pin b.bus == 0
    then (0, b)
    else if reads_zero (gpio_read in_pin b.bus)
    then (0, b)
    else (1, record b { n_rising = b.n_rising + 1; bus = gpio_event_clear in_pin b.bus })

unfoldable pub rising_init : Wiring → Bus → Bus
rising_init wire bus = gpio_int_rising_edge in_pin (settle wire (gpio_write out_pin 0 bus))

unfoldable pub timer_test_init : Bus → Option Bus
timer_test_init bus = timer_init 1 0x4 bus

unfoldable pub timer_test_handler : Handler
timer_test_handler b =
    if bit_and (get32 irq_basic_pending b.bus) arm_timer_irq == 0
    then (0, b)
    else (1, record b { n_interrupt = b.n_interrupt + 1; bus = put32 arm_timer_irq_clear 1 b.bus })

-- `f(pc) | g(pc)`.
abbrev pub both : Handler → Handler → Handler
both f g b = let first = f b in let second = g (first.1) in (bit_or (first.0) (second.0), second.1)

-- `gpio_read(in_pin) == 1`.
abbrev pub reads_one : Option ℕ → Bool
reads_one none = false
reads_one (some v) = v == 1

unfoldable pub rise_fall_init : Wiring → Bus → Option Bus
rise_fall_init wire bus = do
  let armed = falling_init wire (rising_init wire bus)
  require (reads_one (gpio_read in_pin armed))
  some armed

unfoldable pub rise_fall_handler : Handler
rise_fall_handler b = both rising_handler falling_handler b

unfoldable pub rise_fall_timer_init : Wiring → Bus → Option Bus
rise_fall_timer_init wire bus = do armed ← rise_fall_init wire bus; timer_test_init armed

unfoldable pub rise_fall_timer_handler : Handler
rise_fall_timer_handler b = both rise_fall_handler timer_test_handler b

-- Whether interrupts are on, the vector base register, the bus, and `interrupt_fn` with `none` for the
-- null pointer.
pub record System : Type 0 where
  pub enabled : Bool
  pub vector_reg : ℕ
  pub interrupt_fn : Option Handler
  pub bus : Bus

unfoldable pub vector_base_chk : ℕ → ℕ
vector_base_chk vector_base =
    if vector_base == 0 then 0 else if u32 (vector_base * 2 ^ 27) == 0 then 1 else 0

-- The register reads as it was written, so the last test does not fail.
unfoldable pub vector_base_set : ℕ → System → Option System
vector_base_set vec s =
    if vector_base_chk vec == 0
    then none
    else if s.vector_reg == vec
    then some s
    else if s.vector_reg == 0
    then some (record s { vector_reg = vec })
    else none

unfoldable pub int_vec_init : ℕ → System → Option System
int_vec_init v s = vector_base_set v (record s {
  enabled = false;
  bus = put32 irq_disable_2 0xffffffff (put32 irq_disable_1 0xffffffff s.bus);
})

-- `interrupt_vec` is the vector table's address. The message is left out.
unfoldable pub test_startup :
    (interrupt_vec : ℕ) → (Bus → Option Bus) → Handler → System → Option System
test_startup interrupt_vec init_fn int_fn s = do
  set ← int_vec_init interrupt_vec s
  ready ← init_fn (gpio_set_input in_pin (gpio_set_output out_pin set.bus))
  some (record set {
    enabled = true;
    interrupt_fn = some int_fn;
    bus = gpio_event_clear in_pin ready;
  })

unfoldable pub rise_fall_timer_int_startup : Wiring → (interrupt_vec : ℕ) → System → Option System
rise_fall_timer_int_startup wire interrupt_vec s =
    test_startup interrupt_vec (rise_fall_timer_init wire) rise_fall_timer_handler s
