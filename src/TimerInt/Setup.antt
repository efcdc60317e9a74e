-- ===== src/TimerInt/Setup.antt =====
-- What the set-up writes: `interrupt_init` and `timer_init`.
use cs140e_final_parallel_co.Base.{
  ℕ, zero, suc, ◌+◌, ◌*◌, ◌<◌, ◌≤◌, ◌≡◌, ◌⊎◌, inl, inr, refl, ◌∙◌, false, arith, ◌==◌, Bool-cases,
  List, [], ◌∷◌, ◌++◌, none, some, append_assoc, ◌^◌, ne→==,
}
use cs140e_final_parallel_co.Gpio.{Bus, put32, update}
use cs140e_final_parallel_co.TimerInt.{
  copy_vectors, Machine, interrupt_init, prescale_bits, timer_init, irq_enable_basic, irq_disable_1,
  irq_disable_2, arm_timer_load, arm_timer_control,
}

copy_vectors_lem :
    (left i src : ℕ) (words : ℕ → ℕ) (k : ℕ)
    → (i + left) * 4 ≤ src
    → (k < i + left → i ≤ k → copy_vectors left i 0 src words (k * 4) ≡ words (src + k * 4))
      × ((a : ℕ) → (a < i * 4) ⊎ ((i + left) * 4 ≤ a) → copy_vectors left i 0 src words a ≡ words a)
unfolding copy_vectors update
copy_vectors_lem zero i src words k fits = ((λ hi lo. absurd (omega arith)), (λ a h. refl))
copy_vectors_lem (suc left) i src words k fits =
    let v = words (src + i * 4) in
    let later = update words (0 + i * 4) v in
    let ih = copy_vectors_lem left (i + 1) src later k (omega arith) in
    (
      λ hi lo. elim (Bool-cases (k == i)) [
        | inl e ↦ ih.1 (k * 4) (inl (ground arith)) ∙ ground arith
        | inr e ↦ ih.0 (omega arith) (ground arith) ∙ ground arith
      ],
      λ a h. elim h [
        | inl lo ↦ ih.1 a (inl (omega arith)) ∙ ground arith
        | inr hi ↦ ih.1 a (inr (omega arith)) ∙ ground arith
      ],
    )

-- With a vector table that stands behind the space of its copy, `interrupt_init` leaves interrupts off,
-- masks the sources of both registers and no other, puts word `k` of the table at address `4 k`, and
-- changes no other memory.
pub interrupt_init-vectors :
    (table n : ℕ) (s : Machine)
    → n * 4 ≤ table
    → ((interrupt_init table n s).enabled ≡ false)
      × ((interrupt_init table n s).bus.writes
          ≡ s.bus.writes ++ ((irq_disable_1, 0xffffffff) ∷ (irq_disable_2, 0xffffffff) ∷ []))
      × ((k : ℕ) → k < n → (interrupt_init table n s).words (k * 4) ≡ s.words (table + k * 4))
      × ((a : ℕ) → n * 4 ≤ a → (interrupt_init table n s).words a ≡ s.words a)
unfolding interrupt_init
interrupt_init-vectors table n s fits = (
  refl,
  append_assoc s.bus.writes ((irq_disable_1, 0xffffffff) ∷ []) ((irq_disable_2, 0xffffffff) ∷ []),
  λ k hi. (copy_vectors_lem n 0 table s.words k (omega arith)).0 (omega arith) (omega arith),
  λ a hi. (copy_vectors_lem n 0 table s.words 0 (omega arith)).1 a (inr (omega arith)),
)

-- The prescale is a power of 16 that the two bits of the control register can name.
abbrev pub IsPrescale : ℕ → Type 0
IsPrescale prescale = (k : ℕ) × (k < 3) × (prescale ≡ 16 ^ k)

-- `timer_init` enables the timer's interrupt, loads the period and then starts the timer, in 32-bit mode
-- with its interrupt, and with `4 k` for the prescale `16 ^ k`; it panics with every other prescale.
pub timer_init_lem :
    (prescale ncycles : ℕ) (bus : Bus)
    → ((k : ℕ)
        → k < 3
        → (after : Bus) × (timer_init (16 ^ k) ncycles bus ≡ some after)
          × (after.writes
              ≡ bus.writes
                ++ ((irq_enable_basic, 1)
                    ∷ (arm_timer_load, ncycles)
                    ∷ (arm_timer_control, 0xa2 + 4 * k)
                    ∷ [])))
      × (¬ IsPrescale prescale → timer_init prescale ncycles bus ≡ none)
unfolding timer_init prescale_bits
timer_init_lem prescale ncycles bus = (known, unknown)
  where
    three :
        {A : Type 0} (xs : List A) (a b c : A)
        → ((xs ++ (a ∷ [])) ++ (b ∷ [])) ++ (c ∷ []) ≡ xs ++ (a ∷ b ∷ c ∷ [])
    three xs a b c =
        append_assoc (xs ++ (a ∷ [])) (b ∷ []) (c ∷ []) ∙ append_assoc xs (a ∷ []) (b ∷ c ∷ [])

    armed : Bus
    armed = put32 arm_timer_load ncycles (put32 irq_enable_basic 1 bus)

    known :
        (k : ℕ)
        → k < 3
        → (after : Bus) × (timer_init (16 ^ k) ncycles bus ≡ some after)
          × (after.writes
              ≡ bus.writes
                ++ ((irq_enable_basic, 1)
                    ∷ (arm_timer_load, ncycles)
                    ∷ (arm_timer_control, 0xa2 + 4 * k)
                    ∷ []))
    known zero h = (put32 arm_timer_control 0xa2 armed, refl, three bus.writes _ _ _)
    known (suc zero) h = (put32 arm_timer_control 0xa6 armed, refl, three bus.writes _ _ _)
    known (suc (suc zero)) h = (put32 arm_timer_control 0xaa armed, refl, three bus.writes _ _ _)
    known (suc (suc (suc k))) h = absurd (omega arith)

    unknown : ¬ IsPrescale prescale → timer_init prescale ncycles bus ≡ none
    unknown other =
        let a : (prescale == 1) ≡ false = ne→== prescale 1 (λ e. other (0, omega arith, e)) in
        let b : (prescale == 16) ≡ false = ne→== prescale 16 (λ e. other (1, omega arith, e)) in
        let c : (prescale == 256) ≡ false = ne→== prescale 256 (λ e. other (2, omega arith, e)) in
        rw (a, b, c) refl
