-- ===== src/PinInt/Sequences.antt =====
-- The counters of test-interrupts.c over any sequence of interrupts.
use cs140e_final_parallel_co.Base.{
  ℕ, ◌+◌, ◌-◌, ◌*◌, ◌≡◌, refl, ap, ◌∙◌, Option, none, some, arith, ◌==◌, Bool-cases, inl, inr,
  if◌then◌else◌,
}
use cs140e_final_parallel_co.Gpio.{Bus}
use cs140e_final_parallel_co.PinInt.{Board, interrupt_vector, rise_fall_timer_handler}
use cs140e_final_parallel_co.PinInt.Counts.{event, level, request, Counted, interrupt_vector_lem}

-- Interrupts from the start on, none of which panicked, with the rising edges, the falling edges, the
-- timer's requests and the interrupts among them. Before each one the devices set their registers as
-- they like.
pub data Interrupts : (rises falls ticks interrupts : ℕ) → Board → Type 0 where
  start :
      (bus : Bus)
      → Interrupts 0 0 0 0 (record { n_interrupt = 0; n_falling = 0; n_rising = 0; bus = bus })
  interrupt :
      {r f t k : ℕ} {b : Board} (bus : Bus) (b' : Board)
      → Interrupts r f t k b
      → interrupt_vector rise_fall_timer_handler (record b { bus = bus }) ≡ some b'
      → Interrupts
          (r + event bus * level bus)
          (f + event bus * (1 - level bus))
          (t + request bus)
          (k + 1)
          b'

interrupt-Counted :
    (b b' : Board) → interrupt_vector rise_fall_timer_handler b ≡ some b' → Counted b b'
interrupt-Counted b b' ran = at (interrupt_vector_lem b)
  where
    at :
        (if event b.bus + request b.bus == 0
          then interrupt_vector rise_fall_timer_handler b ≡ none
          else (b1 : Board) × (interrupt_vector rise_fall_timer_handler b ≡ some b1) × Counted b b1)
        → Counted b b'
    at = elim (Bool-cases (event b.bus + request b.bus == 0)) [
      | inl e ↦ rw e (λ refused. absurd (none_some refused ran))
      | inr e ↦ rw e (λ (b1, ran1, counts). rw (same ran1 ran) at counts)
    ]
      where
        none_some : {r : Option Board} → r ≡ none → r ≡ some b' → ⊥
        none_some p q = cc

        same : {r : Option Board} {x y : Board} → r ≡ some x → r ≡ some y → x ≡ y
        same p q = cc

-- After any sequence of interrupts that does not panic, `n_rising` and `n_falling` are the numbers of
-- rising and of falling edges. `n_interrupt` is the number of interrupts and of the timer's requests
-- together: a request of the timer is counted twice.
pub Interrupts-counted :
    {r f t k : ℕ} {b : Board}
    → Interrupts r f t k b
    → (b.n_rising ≡ r) × (b.n_falling ≡ f) × (b.n_interrupt ≡ k + t)
Interrupts-counted (start bus) = (refl, refl, refl)
Interrupts-counted (interrupt {r} {f} {t} {k} {b} bus b' before ran) =
    let (rises, falls, all) = Interrupts-counted before in
    let (more_rises, more_falls, more) = interrupt-Counted (record b { bus = bus }) b' ran in
    (
      more_rises ∙ ap (λ v. v + event bus * level bus) rises,
      more_falls ∙ ap (λ v. v + event bus * (1 - level bus)) falls,
      more ∙ omega (arith, all),
    )
