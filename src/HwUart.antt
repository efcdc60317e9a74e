-- ===== src/HwUart.antt =====
-- libpi/src/uart.c: the hardware UART on the bus. A loop that polls the line status register takes
-- what the reads of the register yield, in order; `none` is a loop that has not ended.
pub mod Setup
pub mod Bytes
mod Tests
use cs140e_final_parallel_co.Base.{
  ℕ, ◌-◌, ◌^◌, Bool, Option, none, some, List, [], ◌∷◌, bit_and, bit_or, ◌==◌, if◌then◌else◌,
}
use cs140e_final_parallel_co.Base.Results.{◌>>=◌}
use cs140e_final_parallel_co.Gpio.{Bus, get32, put32, gpio_set_function}

abbrev pub aux_en : ℕ
aux_en = 0x20215004

abbrev pub aux_mu_cntl : ℕ
aux_mu_cntl = 0x20215060

abbrev pub aux_mu_ier : ℕ
aux_mu_ier = 0x20215044

abbrev pub aux_mu_iir : ℕ
aux_mu_iir = 0x20215048

abbrev pub aux_mu_lcr : ℕ
aux_mu_lcr = 0x2021504C

abbrev pub aux_mu_baud : ℕ
aux_mu_baud = 0x20215068

abbrev pub aux_mu_io : ℕ
aux_mu_io = 0x20215040

abbrev pub aux_mu_mcr : ℕ
aux_mu_mcr = 0x20215050

-- GPIO_TX is 14, GPIO_RX is 15 and GPIO_FUNC_ALT5 is 2. `called_sw_uart_p` is never set.
unfoldable pub uart_init : Bus → Bus
uart_init b =
    let pins = gpio_set_function 15 2 (gpio_set_function 14 2 b) in
    let on = put32 aux_en (bit_or (get32 aux_en pins) 0b1) pins in
    put32 aux_mu_cntl 0b11 (
      put32 aux_mu_baud 270 (
        put32 aux_mu_mcr 0 (
          put32 aux_mu_lcr 0b11
            (put32 aux_mu_ier 0b00 (put32 aux_mu_iir 0b110 (put32 aux_mu_cntl 0 on))))))

-- What the line status register `lsr` says: room for a byte, a byte received, and all sent.
unfoldable pub uart_can_put8 : (lsr : ℕ) → ℕ
uart_can_put8 lsr = if bit_and lsr 0b100000 == 0 then 0 else 1

unfoldable pub uart_has_data : (lsr : ℕ) → ℕ
uart_has_data lsr = if bit_and lsr 0b1 == 0 then 0 else 1

unfoldable pub uart_tx_is_empty : (lsr : ℕ) → ℕ
uart_tx_is_empty lsr = if bit_and lsr 0b1000000 == 0 then 0 else 1

-- `while(!test());`: the reads left behind the one that ends the loop.
unfoldable pub wait_until : (test : ℕ → ℕ) → List ℕ → Option (List ℕ)
wait_until test [] = none
wait_until test (lsr ∷ reads) =
    let rest = wait_until test reads in if test lsr == 0 then rest else some reads

-- With the reads left and the bus.
unfoldable pub uart_put8 : (c : ℕ) → List ℕ → Bus → Option (List ℕ × Bus)
uart_put8 c reads b = do rest ← wait_until uart_can_put8 reads; some (rest, put32 aux_mu_io c b)

-- `io` is what AUX_MU_IO reads as, once there is data.
unfoldable pub uart_get8 : (io : ℕ) → List ℕ → Option (ℕ × List ℕ)
uart_get8 io reads = do rest ← wait_until uart_has_data reads; some (bit_and io 0b11111111, rest)

-- -1 is `some none`.
unfoldable pub uart_get8_async : (io : ℕ) → List ℕ → Option (Option ℕ × List ℕ)
uart_get8_async io [] = none
uart_get8_async io (lsr ∷ reads) =
    if uart_has_data lsr == 0
    then some (none, reads)
    else (do r ← uart_get8 io reads; some (some r.0, r.1))

unfoldable pub uart_flush_tx : List ℕ → Option (List ℕ)
uart_flush_tx reads = wait_until uart_tx_is_empty reads

unfoldable pub uart_disable : List ℕ → Bus → Option (List ℕ × Bus)
uart_disable reads b = do
  rest ← uart_flush_tx reads
  some (rest, put32 aux_en (bit_and (get32 aux_en b) (2 ^ 32 - 1 - 0b1)) b)
