-- ===== src/HwUart/Setup.antt =====
-- The state of the device behind `uart_init`.
use cs140e_final_parallel_co.Base.{
  ℕ, ◌+◌, ◌/◌, ◌^◌, ◌<◌, ◌≡◌, refl, ap, ◌∙◌, arith, ◌==◌, if◌then◌else◌,
}
use cs140e_final_parallel_co.Base.Bits.{bit, bit-or, bit-one, bit-lt}
use cs140e_final_parallel_co.Gpio.{Bus, gpio_base, update, gpio_set_function}
use cs140e_final_parallel_co.Gpio.Function.{fsel, gpio_set_function-fsel, gpio_set_function-lt}
use cs140e_final_parallel_co.HwUart.{
  aux_en, aux_mu_cntl, aux_mu_ier, aux_mu_lcr, aux_mu_baud, uart_init,
}

-- `uart_init` gives pins 14 and 15 the function ALT5 and leaves every other pin of their register,
-- sets digit 0 of the enable register alone, and leaves the device with eight bits, the divisor 270,
-- no interrupts, and both directions on.
pub uart_init_lem :
    (b : Bus) (q i : ℕ)
    → b.mem (gpio_base + 4) < 2 ^ 32
    → q / 10 ≡ 1
    → let b' = uart_init b in
      (fsel q b' ≡ (if q == 15 then 2 else if q == 14 then 2 else fsel q b))
      × (bit (b'.mem aux_en) i ≡ (if i == 0 then 1 else bit (b.mem aux_en) i))
      × (b'.mem aux_mu_lcr ≡ 3)
      × (b'.mem aux_mu_baud ≡ 270)
      × (b'.mem aux_mu_ier ≡ 0)
      × (b'.mem aux_mu_cntl ≡ 3)
unfolding uart_init update
uart_init_lem b q i word pin =
    let one = gpio_set_function 14 2 b in
    let fn14 = gpio_set_function-fsel 14 2 q aux_en b refl (omega arith) word in
    let fn15 =
      gpio_set_function-fsel 15 2 q aux_en one refl (omega arith)
        (gpio_set_function-lt 14 2 b refl (omega arith) word) in
    let kept : (gpio_set_function 15 2 one).mem aux_en ≡ b.mem aux_en = fn15.1 ∙ fn14.1 in
    let own : fsel q (uart_init b) ≡ fsel q (gpio_set_function 15 2 one) = rw pin refl in
    (
      own ∙ fn15.0 ∙ ap (λ f. if q == 15 then 2 else f) fn14.0,
      bit-or ((gpio_set_function 15 2 one).mem aux_en) 1 i
          ∙ rw kept (ground (arith, bit-one i, bit-lt (b.mem aux_en) i)),
      refl,
      refl,
      refl,
      refl,
    )
