-- ===== src/HwUart/Tests.antt =====
-- A device whose registers are 0, and reads of the line status.
use cs140e_final_parallel_co.Base.{◌%◌, ◌^◌, ◌≡◌, refl, some, [], ◌∷◌, ◌++◌, arith}
use cs140e_final_parallel_co.Base.Bits.{bit}
use cs140e_final_parallel_co.Gpio.{Bus, put32}
use cs140e_final_parallel_co.Gpio.Function.{fsel}
use cs140e_final_parallel_co.HwUart.{
  aux_en, aux_mu_cntl, aux_mu_ier, aux_mu_lcr, aux_mu_baud, aux_mu_io, uart_init, uart_put8,
  uart_get8,
}
use cs140e_final_parallel_co.HwUart.Setup.{uart_init_lem}
use cs140e_final_parallel_co.HwUart.Bytes.{uart_bytes}

abbrev bus : Bus
bus = record { mem = λ a. 0; writes = [] }

uart_init_lem_example :
    let b' = uart_init bus in
    (fsel 15 b' ≡ 2)
    × (bit (b'.mem aux_en) 0 ≡ 1)
    × (b'.mem aux_mu_lcr ≡ 3)
    × (b'.mem aux_mu_baud ≡ 270)
    × (b'.mem aux_mu_ier ≡ 0)
    × (b'.mem aux_mu_cntl ≡ 3)
uart_init_lem_example = uart_init_lem bus 15 0 (omega arith) refl

uart_bytes_example :
    (uart_put8 65 ((0 ∷ 1 ∷ []) ++ 0x20 ∷ []) bus ≡ some ([], put32 aux_mu_io 65 bus))
    × (uart_get8 0x141 ((0 ∷ []) ++ 0x21 ∷ 7 ∷ []) ≡ some (0x141 % 2 ^ 8, 7 ∷ []))
uart_bytes_example =
    uart_bytes 65 0x141 0x20 0x21 (0 ∷ 1 ∷ []) (0 ∷ []) [] (7 ∷ []) bus (refl, (refl, tt)) refl
      (refl, tt) refl
