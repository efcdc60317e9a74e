-- ===== src/SwUart/Tests.antt =====
-- Concrete runs of the software UART.
use cs140e_final_parallel_co.Base.{
  ℕ, zero, suc, ◌+◌, ◌*◌, ◌/◌, ◌≤◌, ◌<◌, ◌≡◌, refl, true, false, List, [], ◌∷◌, some, arith, get_or,
}
use cs140e_final_parallel_co.Gpio.{Bus, gpio_set_function, gpio_set_on}
use cs140e_final_parallel_co.SwUart.{
  Uart, Look, wait_until_usec, sw_uart_put8, sw_uart_get8_timeout, timeline, level, mhz,
  sw_uart_init,
}
use cs140e_final_parallel_co.SwUart.Frame.{get8-put8}
use cs140e_final_parallel_co.SwUart.Setup.{sw_uart_init_lem}
use cs140e_final_parallel_co.SwUart.Wait.{wait_until_usec_lem}

abbrev uart : Uart
uart = record { tx = 16; rx = 17; baud = 460800; cycle_per_bit = 1519; usec_per_bit = 2 }

abbrev bus : Bus
bus = record { mem = λ a. 0; writes = [] }

-- The writes come seven cycles late, the samples are taken near the middle of each bit.
get8-put8_example :
    sw_uart_get8_timeout uart 200 false
      ((false, 0) ∷ (true, 1) ∷ [])
      (λ t. level (timeline 1000 (λ k. 7) 0 (sw_uart_put8 uart 0xa5)) t true)
      (1000 + 20)
      (λ i. 1519 / 2)
    ≡ some (some 0xa5)
unfolding wait_until_usec
get8-put8_example =
    get8-put8 uart uart 0xa5 1000 20 200 (λ k. 7) (λ i. 1519 / 2) false
      ((false, 0) ∷ (true, 1) ∷ []) (omega arith) refl (omega arith) (λ k le. omega arith)
      (λ i lt. omega arith) started
  where
    started : wait_until_usec 200 false ((false, 0) ∷ (true, 1) ∷ []) ≡ some true
    started = refl

sw_uart_init_lem_example :
    sw_uart_init 16 17 460800 bus
    ≡ some (
      record {
        tx = 16;
        rx = 17;
        baud = 460800;
        cycle_per_bit = mhz / 460800;
        usec_per_bit = 1000 * 1000 / 460800;
      },
      gpio_set_on 16 (gpio_set_function 17 0 (gpio_set_function 16 1 bus)),
    )
sw_uart_init_lem_example =
    sw_uart_init_lem 16 17 460800 bus (omega arith) (omega arith) (omega arith) (omega arith)
      (omega arith) (omega arith)

abbrev idle : List Look
idle = (false, 1) ∷ (false, 2) ∷ (false, 3) ∷ (true, 5) ∷ []

wait_until_usec_lem_example : wait_until_usec 2 false idle ≡ some false
wait_until_usec_lem_example = wait_until_usec_lem 2 false idle advances (omega arith)
  where
    advances : (i : ℕ) → i < 4 → 0 + i ≤ (get_or idle i (false, 0)).1
    advances zero h = omega arith
    advances (suc zero) h = omega arith
    advances (suc (suc zero)) h = omega arith
    advances (suc (suc (suc zero))) h = omega arith
    advances (suc (suc (suc (suc i)))) h = omega arith
