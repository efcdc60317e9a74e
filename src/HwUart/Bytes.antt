-- ===== src/HwUart/Bytes.antt =====
-- The polling loops.
use cs140e_final_parallel_co.Base.{ℕ, ◌%◌, ◌^◌, ◌≡◌, refl, some, List, [], ◌∷◌, ◌++◌, arith, ◌==◌}
use cs140e_final_parallel_co.Base.Bits.{bit, bit_and-mask, masked_digit}
use cs140e_final_parallel_co.Gpio.{Bus, put32}
use cs140e_final_parallel_co.HwUart.{
  aux_mu_io, uart_can_put8, uart_has_data, wait_until, uart_put8, uart_get8,
}

-- No read has this digit set.
abbrev pub Without : ℕ → List ℕ → Type 0
Without k [] = Unit {0}
Without k (lsr ∷ reads) = (bit lsr k ≡ 0) × Without k reads

-- A loop on a digit of the register ends at the first read that has it.
wait_until_lem :
    (test : ℕ → ℕ) (k : ℕ) (before after : List ℕ) (lsr : ℕ)
    → ((x : ℕ) → (test x == 0) ≡ (bit x k == 0))
    → Without k before
    → bit lsr k ≡ 1
    → wait_until test (before ++ lsr ∷ after) ≡ some after
unfolding wait_until
wait_until_lem test k [] after lsr same none_yet on = rw (same lsr, on) refl
wait_until_lem test k (x ∷ before) after lsr same (off, none_yet) on =
    rw (same x, off) (wait_until_lem test k before after lsr same none_yet on)

can_put8-digit : (x : ℕ) → (uart_can_put8 x == 0) ≡ (bit x 5 == 0)
unfolding uart_can_put8
can_put8-digit x = ground (arith, masked_digit x 5)

has_data-digit : (x : ℕ) → (uart_has_data x == 0) ≡ (bit x 0 == 0)
unfolding uart_has_data
has_data-digit x = ground (arith, masked_digit x 0)

-- `uart_put8` waits for the first read of the line status with digit 5 and then writes the byte once,
-- and `uart_get8` waits for the first one with digit 0 and then returns the low byte of the register.
pub uart_bytes :
    (c io lsr lsr' : ℕ) (before before' after after' : List ℕ) (b : Bus)
    → Without 5 before
    → bit lsr 5 ≡ 1
    → Without 0 before'
    → bit lsr' 0 ≡ 1
    → (uart_put8 c (before ++ lsr ∷ after) b ≡ some (after, put32 aux_mu_io c b))
      × (uart_get8 io (before' ++ lsr' ∷ after') ≡ some (io % 2 ^ 8, after'))
unfolding uart_put8 uart_get8
uart_bytes c io lsr lsr' before before' after after' b off on off' on' = (
  rw (wait_until_lem uart_can_put8 5 before after lsr can_put8-digit off on) refl,
  rw (wait_until_lem uart_has_data 0 before' after' lsr' has_data-digit off' on', bit_and-mask 8 io)
      refl,
)
