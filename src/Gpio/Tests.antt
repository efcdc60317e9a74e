-- ===== src/Gpio/Tests.antt =====
-- Concrete pins and register contents.
use cs140e_final_parallel_co.Base.{◌+◌, ◌^◌, ◌≡◌, refl, [], ◌∷◌, ◌++◌, some, arith}
use cs140e_final_parallel_co.Base.Bits.{bit}
use cs140e_final_parallel_co.Gpio.{
  Bus, put32, gpio_base, gpio_set_function, gpio_write, gpio_read, gpren0, gpfen0, gpeds0,
  gpio_int_rising_edge, gpio_int_falling_edge, gpio_has_interrupt, gpio_event_detected,
  gpio_event_clear,
}
use cs140e_final_parallel_co.Gpio.Function.{fsel, gpio_set_function-fsel}
use cs140e_final_parallel_co.Gpio.Pins.{
  Enables, gpio_write_one_pin, gpio_read-level, gpio_int_edges, gpio_events,
}

-- Every register reads the same.
abbrev bus : Bus
bus = record { mem = λ a. 0x12345678; writes = [] }

gpio_set_function-fsel_example :
    let b' = gpio_set_function 27 1 bus in
    (fsel 28 b' ≡ fsel 28 bus)
    × (b'.mem gpio_base ≡ 0x12345678)
    × (b'.writes ≡ [] ++ ((gpio_base + 8, b'.mem (gpio_base + 8)) ∷ []))
gpio_set_function-fsel_example =
    gpio_set_function-fsel 27 1 28 gpio_base bus refl (omega arith) (omega arith)

gpio_write_one_pin_example : gpio_write 47 0 bus ≡ put32 (gpio_base + 0x28 + 4) (2 ^ 15) bus
gpio_write_one_pin_example = gpio_write_one_pin 47 0 bus

gpio_read-level_example : gpio_read 3 bus ≡ some (bit 0x12345678 3)
gpio_read-level_example = gpio_read-level 3 bus

gpio_int_edges_example :
    Enables gpren0 20 4 gpeds0 bus (gpio_int_rising_edge 20 bus)
    × Enables gpfen0 20 4 gpeds0 bus (gpio_int_falling_edge 20 bus)
gpio_int_edges_example = gpio_int_edges 20 4 gpeds0 bus (omega arith)

gpio_events_example :
    (gpio_has_interrupt bus ≡ bit 0x12345678 17)
    × (gpio_event_detected 9 bus ≡ bit 0x12345678 9)
    × ((gpio_event_clear 9 bus).writes ≡ [] ++ ((gpeds0, 2 ^ 9) ∷ []))
gpio_events_example = gpio_events 9 bus
