-- ===== src/PinInt/Start.antt =====
-- The start-up of src/gpio_int: when it succeeds, and what it leaves in the registers.
use cs140e_final_parallel_co.Base.{
  ℕ, ◌*◌, ◌%◌, ◌^◌, ◌+◌, ◌++◌, ◌∷◌, [], List, ◌∙◌, ◌≡◌, refl, ap, true, some, none, arith, ◌==◌,
  if◌then◌else◌, u32, bit_or, not, ◌&&◌, ◌||◌, Bool, ==→eq, Bool-cases, inl, inr,
}
use cs140e_final_parallel_co.Base.Bits.{bit}
use cs140e_final_parallel_co.Gpio.{
  Bus, gpren0, gpfen0, enirq2, gpio_set_output, gpio_set_input, gpio_set_function, command,
  gpio_write, gpio_set_on, gpio_set_off, gpio_int_rising_edge, gpio_int_falling_edge,
  gpio_event_clear, gpio_base, gpio_lev0, gpio_read, get32, put32, update,
}
use cs140e_final_parallel_co.Gpio.Pins.{set_digit, gpio_read-level}
use cs140e_final_parallel_co.TimerInt.{
  timer_init, prescale_bits, irq_enable_basic, irq_disable_1, irq_disable_2, arm_timer_irq,
  arm_timer_load, arm_timer_control,
}
use cs140e_final_parallel_co.PinInt.{
  System, Wiring, last_write, settle, in_pin, out_pin, vector_base_chk, vector_base_set,
  int_vec_init, test_startup, falling_init, rising_init, timer_test_init, rise_fall_init,
  rise_fall_timer_init, rise_fall_timer_handler, rise_fall_timer_int_startup,
}

-- `vector_base_chk` accepts the addresses other than 0 that are multiples of 32.
pub vector_base_chk_lem :
    (vec : ℕ) → vector_base_chk vec ≡ (if not (vec == 0) && (vec % 32 == 0) then 1 else 0)
unfolding vector_base_chk
vector_base_chk_lem vec = elim (Bool-cases (vec == 0)) [
  | inl e ↦ rw e refl
  | inr e ↦
      let aligned : (u32 (vec * 2 ^ 27) == 0) ≡ (vec % 32 == 0) = ground arith in
      rw (e, aligned) refl
]

-- The table can be set: it stands at a multiple of 32 other than 0, and no other table is set.
abbrev pub can_set : (vec reg : ℕ) → Bool
can_set vec reg = not (vec == 0) && (vec % 32 == 0) && (reg == vec || reg == 0)

vector_base_set_lem :
    (vec : ℕ) (s : System)
    → vector_base_set vec s
      ≡ (if can_set vec s.vector_reg then some (record s { vector_reg = vec }) else none)
unfolding vector_base_set
vector_base_set_lem vec s =
    rw (vector_base_chk_lem vec) (elim (Bool-cases (not (vec == 0) && (vec % 32 == 0))) [
      | inl e ↦ elim (Bool-cases (s.vector_reg == vec)) [
        | inl same ↦
            rw (e, same)
              (ap (λ v. some (record s { vector_reg = v })) (==→eq s.vector_reg vec same))
        | inr other ↦ elim (Bool-cases (s.vector_reg == 0)) [
          | inl z ↦ rw (e, other, z) refl
          | inr z ↦ rw (e, other, z) refl
        ]
      ]
      | inr e ↦ rw e refl
    ])

-- What the start-up leaves; the timer's period is 4.
abbrev pub Started : ℕ → System → Type 0
Started vec s =
    (s.enabled ≡ true)
    × (s.vector_reg ≡ vec)
    × (s.interrupt_fn ≡ some rise_fall_timer_handler)
    × (bit (s.bus.mem gpren0) in_pin ≡ 1)
    × (bit (s.bus.mem gpfen0) in_pin ≡ 1)
    × (s.bus.mem enirq2 ≡ 2 ^ 17)
    × (s.bus.mem irq_enable_basic ≡ 1)
    × (s.bus.mem arm_timer_load ≡ 4)
    × (s.bus.mem arm_timer_control ≡ 0xa2)

-- The system behind the start-up.
abbrev after : Wiring → ℕ → System → System
after wire vec s =
    let quiet = put32 irq_disable_2 0xffffffff (put32 irq_disable_1 0xffffffff s.bus) in
    let armed =
      falling_init wire
        (rising_init wire (gpio_set_input in_pin (gpio_set_output out_pin quiet))) in
    let timed = put32 arm_timer_load 4 (put32 irq_enable_basic arm_timer_irq armed) in
    record {
      enabled = true;
      vector_reg = vec;
      interrupt_fn = some rise_fall_timer_handler;
      bus =
          gpio_event_clear in_pin
            (put32 arm_timer_control (bit_or (bit_or (bit_or 0x2 0x80) 0x20) 0) timed);
    }

after-Started : (wire : Wiring) (vec : ℕ) (s : System) → Started vec (after wire vec s)
unfolding settle rising_init falling_init gpio_write gpio_set_on gpio_set_off gpio_set_output
    gpio_set_input gpio_set_function command gpio_int_rising_edge gpio_int_falling_edge
    gpio_event_clear update
after-Started wire vec s = (
  refl,
  refl,
  refl,
  set_digit (s.bus.mem gpren0) in_pin in_pin,
  set_digit (s.bus.mem gpfen0) in_pin in_pin,
  refl,
  refl,
  refl,
  refl,
)

-- GPCLR0 and GPSET0.
abbrev gpclr0 : ℕ
gpclr0 = gpio_base + 0x28

abbrev gpset0 : ℕ
gpset0 = gpio_base + 0x1C

-- The level of `in_pin` at the assertion of `rise_fall_init`, once pin 16 was driven low and then high.
abbrev pub asserted : Wiring → System → ℕ
asserted wire s = bit (wire gpset0 (2 ^ 16) (wire gpclr0 (2 ^ 16) (get32 gpio_lev0 s.bus))) in_pin

last_write-append :
    (writes : List (ℕ × ℕ)) (write w : ℕ × ℕ) → last_write (writes ++ (write ∷ [])) w ≡ write
unfolding last_write
last_write-append [] write w = refl
last_write-append (x ∷ writes) write w = last_write-append writes write x

settled-gpio_write :
    (wire : Wiring) (bus : Bus)
    → ((settle wire (gpio_write out_pin 0 bus)).mem gpio_lev0
        ≡ wire gpclr0 (2 ^ 16) (bus.mem gpio_lev0))
      × ((settle wire (gpio_write out_pin 1 bus)).mem gpio_lev0
          ≡ wire gpset0 (2 ^ 16) (bus.mem gpio_lev0))
unfolding settle gpio_write gpio_set_on gpio_set_off update
settled-gpio_write wire bus =
    let answer = λ (w : ℕ × ℕ). wire (w.0) (w.1) (bus.mem gpio_lev0) in
    (
      ap answer (last_write-append bus.writes (gpclr0, 2 ^ 16) (0, 0)),
      ap answer (last_write-append bus.writes (gpset0, 2 ^ 16) (0, 0)),
    )

-- The bus before `rise_fall_init`.
abbrev quiet : Bus → Bus
quiet bus =
    gpio_set_input in_pin (
      gpio_set_output out_pin (put32 irq_disable_2 0xffffffff (put32 irq_disable_1 0xffffffff bus)))

level-rising_init :
    (wire : Wiring) (bus : Bus)
    → (rising_init wire (quiet bus)).mem gpio_lev0 ≡ wire gpclr0 (2 ^ 16) (bus.mem gpio_lev0)
unfolding rising_init gpio_int_rising_edge gpio_set_output gpio_set_input gpio_set_function command
    update
level-rising_init wire bus = (settled-gpio_write wire (quiet bus)).0

level-falling_init :
    (wire : Wiring) (bus : Bus)
    → (falling_init wire bus).mem gpio_lev0 ≡ wire gpset0 (2 ^ 16) (bus.mem gpio_lev0)
unfolding falling_init gpio_int_falling_edge update
level-falling_init wire bus = (settled-gpio_write wire bus).1

read-armed :
    (wire : Wiring) (s : System)
    → gpio_read in_pin (falling_init wire (rising_init wire (quiet s.bus))) ≡ some (asserted wire s)
read-armed wire s =
    gpio_read-level in_pin _
    ∙ ap (λ level. some (bit level in_pin))
        (level-falling_init wire (rising_init wire (quiet s.bus))
          ∙ ap (wire gpset0 (2 ^ 16)) (level-rising_init wire s.bus))

-- For any wiring, the start-up panics where the table cannot be set, and where the line is low once
-- `out_pin`, pin 16, was driven low and then high. Else it ends with interrupts on, the table set and the handler
-- installed, with both edges of the pin enabled and with the timer running.
pub rise_fall_timer_int_startup_lem :
    (wire : Wiring) (vec : ℕ) (s : System)
    → if can_set vec s.vector_reg && (asserted wire s == 1)
      then ((s' : System) × (rise_fall_timer_int_startup wire vec s ≡ some s') × Started vec s')
      else rise_fall_timer_int_startup wire vec s ≡ none
unfolding rise_fall_timer_int_startup test_startup int_vec_init rise_fall_timer_init timer_test_init
    timer_init prescale_bits rise_fall_init
rise_fall_timer_int_startup_lem wire vec s =
    rw vector_base_set_lem (elim (Bool-cases (can_set vec s.vector_reg)) [
      | inr e ↦ rw e refl
      | inl e ↦
          rw (e, read-armed)
            (elim (Bool-cases (asserted wire s == 1)) [
              | inr l ↦ rw l refl
              | inl l ↦ rw l (after wire vec s, refl, after-Started wire vec s)
            ])
    ])

-- With a jumper from `out_pin` to `in_pin` the line is high there, whatever it was.
jumper-asserted :
    (wire : Wiring) (s : System)
    → ((old : ℕ) → bit (wire gpset0 (2 ^ out_pin) old) in_pin ≡ 1)
    → asserted wire s ≡ 1
jumper-asserted wire s jumper = jumper (wire gpclr0 (2 ^ 16) (get32 gpio_lev0 s.bus))
