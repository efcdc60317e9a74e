-- ===== src/Timeout/Delays.antt =====
-- `delay_us` and its kin return, and not before the time is over.
use cs140e_final_parallel_co.Base.{
  ℕ, zero, suc, ◌+◌, ◌%◌, ◌^◌, ◌<◌, ◌≤◌, ◌≡◌, refl, List, [], ◌∷◌, map, some, arith, leb,
  Bool-cases, inl, inr, sub32, length, get_or, drop,
}
use cs140e_final_parallel_co.Timeout.{delay_loop, delay_us}

-- The readings at the given microseconds after microsecond `begun`.
abbrev pub readings : (begun : ℕ) → List ℕ → List ℕ
readings begun elapsed = map (λ e. (begun + e) % 2 ^ 32) elapsed

-- Reading `i` comes at least `k + i` microseconds after the start, and before the timer has come round.
abbrev pub Advances : (k : ℕ) → List ℕ → Type 0
Advances k elapsed =
    (i : ℕ) → i < length elapsed → (k + i ≤ get_or elapsed i 0) × (get_or elapsed i 0 < 2 ^ 32)

later : (k e : ℕ) (elapsed : List ℕ) → Advances k (e ∷ elapsed) → Advances (k + 1) elapsed
later k e elapsed h i lt = let at = h (suc i) (omega arith) in (omega (arith, at.0), at.1)

-- Reading `i` is the first at which `us` microseconds are over.
abbrev pub FirstAfter : (us i : ℕ) → List ℕ → Type 0
FirstAfter us i elapsed =
    (i < length elapsed) × (us ≤ get_or elapsed i 0) × ((j : ℕ) → j < i → get_or elapsed j 0 < us)

before :
    (us i e : ℕ) (elapsed : List ℕ)
    → e < us
    → ((j : ℕ) → j < i → get_or elapsed j 0 < us)
    → (j : ℕ) → j < suc i
    → get_or (e ∷ elapsed) j 0 < us
before us i e elapsed h rest zero lt = h
before us i e elapsed h rest (suc j) lt = rest j (omega arith)

delay_loop_lem :
    (us k begun : ℕ) (elapsed : List ℕ)
    → Advances k elapsed
    → us < k + length elapsed
    → k ≤ us
    → (i : ℕ) × FirstAfter us i elapsed
      × (delay_loop us (begun % 2 ^ 32) (readings begun elapsed)
          ≡ some (drop (suc i) (readings begun elapsed)))
unfolding delay_loop
delay_loop_lem us k begun [] h long le = absurd (omega arith)
delay_loop_lem us k begun (e ∷ elapsed) h long le =
    let at = h 0 (omega arith) in
    let diff : sub32 ((begun + e) % 2 ^ 32) (begun % 2 ^ 32) ≡ e = omega (arith, at.1) in
    elim (Bool-cases (leb us e)) [
      | inl over ↦
          (0, (omega arith, ground arith, λ j lt. absurd (omega arith)), rw (diff, over) refl)
      | inr more ↦
          let below : e < us = ground arith in
          let (i, first, runs) =
            delay_loop_lem us (k + 1) begun elapsed (later k e elapsed h) (omega arith)
              (omega (arith, at.0)) in
          (
            suc i,
            (omega (arith, first.0), first.1, before us i e elapsed below first.2),
            rw (diff, more) runs,
          )
    ]

-- With a timer that advances by a microsecond or more from reading to reading, `delay_us` returns after at
-- most `us + 1` readings behind its first, at the first of them that comes `us` microseconds or more
-- after it, wherever the timer's 32 bits wrap around.
pub delay_us_returns :
    (us begun : ℕ) (elapsed : List ℕ)
    → Advances 0 elapsed
    → us < length elapsed
    → (i : ℕ) × FirstAfter us i elapsed
      × (delay_us us (begun % 2 ^ 32 ∷ readings begun elapsed)
          ≡ some (drop (suc i) (readings begun elapsed)))
unfolding delay_us
delay_us_returns us begun elapsed h long =
    delay_loop_lem us 0 begun elapsed h (omega arith) (omega arith)
