-- ===== src/Fmpi/Setup/Tests.antt =====
-- Groups of concrete sizes.
use cs140e_final_parallel_co.Base.{◌≡◌, ◌≢◌, [], none, some, arith}
use cs140e_final_parallel_co.Gpio.{Bus, gpio_set_function, gpio_set_on}
use cs140e_final_parallel_co.SwUart.{Uart}
use cs140e_final_parallel_co.Fmpi.Sync.{Comm}
use cs140e_final_parallel_co.Fmpi.Setup.{Uarts, put_uart, init}
use cs140e_final_parallel_co.Fmpi.Setup.Uarts.{
  pair, root_uarts, init_root, init-disjoint_pins, init_peer_rank,
}

abbrev unset : Uarts
unset i = none

abbrev bus : Bus
bus = record { mem = λ a. 0; writes = [] }

init_root_example :
    (bus' : Bus) × (init 1 4 1 unset bus
      ≡ some (record { rank = 1; size = 4; root = 1 }, root_uarts 4 1 unset, bus'))
init_root_example = init_root 4 1 unset bus (omega arith)

init-disjoint_pins_example :
    (c : Comm) × (u' : Uarts) × (bus' : Bus) × (a : Uart) × (b : Uart) × (init 1 4 1 unset bus
      ≡ some (c, u', bus'))
    × (u' 0 ≡ some a)
    × (u' 2 ≡ some b)
    × (a.tx ≢ b.tx)
    × (a.tx ≢ b.rx)
    × (a.rx ≢ b.tx)
    × (a.rx ≢ b.rx)
init-disjoint_pins_example =
    init-disjoint_pins 4 1 0 2 unset bus (omega arith) (omega arith) (omega arith)
      (λ e. omega (arith, e)) (λ e. omega (arith, e)) (λ e. omega (arith, e))

init_peer_rank_example :
    init 2 3 0 unset bus
    ≡ some (
      record { rank = 2; size = 3; root = 0 },
      put_uart unset 0 (pair 0),
      gpio_set_on 16 (gpio_set_function 17 0 (gpio_set_function 16 1 bus)),
    )
init_peer_rank_example =
    init_peer_rank 2 3 0 unset bus (omega arith) (omega arith) (λ e. omega (arith, e))
