-- ===== src/TimerInt.antt =====
-- The timer interrupts of libpi/src/timer-int.c: the set-up on the bus, and the handler that counts the
-- wraps of the cycle counter. `disable_interrupts` and the vector table are assembly; the table is an
-- argument. Barriers keep the order that the bus operations have.
pub mod Setup
pub mod Wraps
mod Tests
use cs140e_final_parallel_co.Base.{
  ℕ, zero, suc, ◌+◌, ◌*◌, Bool, true, false, Option, none, some, bit_and, bit_or, ltb, ◌==◌,
  if◌then◌else◌,
}
use cs140e_final_parallel_co.Base.Results.{◌>>=◌}
use cs140e_final_parallel_co.Gpio.{Bus, get32, put32, update}

abbrev pub arm_timer_irq : ℕ
arm_timer_irq = 1

abbrev pub irq_basic_pending : ℕ
irq_basic_pending = 0x2000b200

abbrev pub irq_enable_basic : ℕ
irq_enable_basic = 0x2000b218

abbrev pub irq_disable_1 : ℕ
irq_disable_1 = 0x2000b21c

abbrev pub irq_disable_2 : ℕ
irq_disable_2 = 0x2000b220

abbrev pub arm_timer_load : ℕ
arm_timer_load = 0x2000b400

abbrev pub arm_timer_control : ℕ
arm_timer_control = 0x2000b408

abbrev pub arm_timer_irq_clear : ℕ
arm_timer_irq_clear = 0x2000b40c

-- `dst[i] = src[i]` of words, over memory as a function from a word's address to the word.
unfoldable pub copy_vectors : (left i dst src : ℕ) → (ℕ → ℕ) → ℕ → ℕ
copy_vectors zero i dst src words = words
copy_vectors (suc left) i dst src words =
    copy_vectors left (i + 1) dst src (update words (dst + i * 4) (words (src + i * 4)))

pub record Machine : Type 0 where
  pub enabled : Bool
  pub words : ℕ → ℕ
  pub bus : Bus

-- The vector table is the `n` words at `table`.
unfoldable pub interrupt_init : (table n : ℕ) → Machine → Machine
interrupt_init table n s = record {
  enabled = false;
  words = copy_vectors n 0 0 table s.words;
  bus = put32 irq_disable_2 0xffffffff (put32 irq_disable_1 0xffffffff s.bus);
}

-- The bits of the control register for the prescale; `none` is the panic.
unfoldable pub prescale_bits : ℕ → Option ℕ
prescale_bits prescale =
    if prescale == 1
    then some 0
    else if prescale == 16
    then some 4
    else if prescale == 256
    then some 8
    else none

unfoldable pub timer_init : (prescale ncycles : ℕ) → Bus → Option Bus
timer_init prescale ncycles bus = do
  let armed = put32 arm_timer_load ncycles (put32 irq_enable_basic arm_timer_irq bus)
  v ← prescale_bits prescale
  some (put32 arm_timer_control (bit_or (bit_or (bit_or 0x2 0x80) 0x20) v) armed)

-- The two counters of the handler and the bus.
pub record State : Type 0 where
  pub overflow_count : ℕ
  pub last_cnt : ℕ
  pub bus : Bus

-- `cnt` is what `cycle_cnt_read` yields.
unfoldable pub interrupt_vector : (cnt : ℕ) → State → State
interrupt_vector cnt s =
    if bit_and (get32 irq_basic_pending s.bus) arm_timer_irq == 0 then s else record {
      overflow_count = if ltb cnt s.last_cnt then s.overflow_count + 1 else s.overflow_count;
      last_cnt = cnt;
      bus = put32 arm_timer_irq_clear 1 s.bus;
    }
