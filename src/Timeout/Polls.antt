-- ===== src/Timeout/Polls.antt =====
-- Time-outs that are longer than the timer's 32 bits.
use cs140e_final_parallel_co.Base.{
  ℕ, ◌+◌, ◌-◌, ◌*◌, ◌%◌, ◌^◌, ◌<◌, ◌≤◌, ◌≡◌, refl, ap, ◌∙◌, arith, leb,
}
use cs140e_final_parallel_co.Timeout.{
  Timeout, timeout_start, timeout_get_usec, timeout_usec, timeout_msec, timeout_sec,
}

-- A time-out begun at microsecond `begun` of a timer that runs on for ever, and asked again and again,
-- last at the index, each time before the 32 bits have come round and before 2 ^ 64 microseconds are over.
pub data Polls (begun : ℕ) : ℕ → Timeout → Type 0 where
  start : Polls begun begun (timeout_start (begun % 2 ^ 32))
  poll :
      {t : ℕ} {s : Timeout} (now : ℕ)
      → Polls begun t s
      → t ≤ now
      → now < t + 2 ^ 32
      → now < begun + 2 ^ 64
      → Polls begun now (timeout_get_usec (now % 2 ^ 32) s)

-- The state holds the time that has passed.
abbrev pub Counts : (begun t : ℕ) → Timeout → Type 0
Counts begun t s = (s.time_last ≡ t % 2 ^ 32) × (s.time_usecs + begun ≡ t)

timeout_get_usec-Counts :
    (begun t now : ℕ) (s : Timeout)
    → Counts begun t s
    → t ≤ now
    → now < t + 2 ^ 32
    → now < begun + 2 ^ 64
    → Counts begun now (timeout_get_usec (now % 2 ^ 32) s)
unfolding timeout_get_usec
timeout_get_usec-Counts begun t now s h lo hi far = (refl, omega arith)

pub Polls-Counts : {begun t : ℕ} {s : Timeout} → Polls begun t s → Counts begun t s
unfolding timeout_start
Polls-Counts start = (refl, omega arith)
Polls-Counts {begun} (poll {t} {s} now r lo hi far) =
    timeout_get_usec-Counts begun t now s (Polls-Counts r) lo hi far

-- Asked in time, `timeout_usec`, `timeout_msec` and `timeout_sec` say whether the microseconds,
-- milliseconds or seconds have passed since the start, over many wraps of the timer, for limits that fit
-- 64 bits in microseconds.
pub timeout_passed :
    {begun t : ℕ} {s : Timeout} (now limit : ℕ)
    → Polls begun t s
    → t ≤ now
    → now < t + 2 ^ 32
    → now < begun + 2 ^ 64
    → limit * 1000000 < 2 ^ 64
    → ((timeout_usec (now % 2 ^ 32) limit s).0 ≡ leb limit (now - begun))
      × ((timeout_msec (now % 2 ^ 32) limit s).0 ≡ leb (limit * 1000) (now - begun))
      × ((timeout_sec (now % 2 ^ 32) limit s).0 ≡ leb (limit * 1000000) (now - begun))
unfolding timeout_usec timeout_msec timeout_sec
timeout_passed {begun} {t} {s} now limit r lo hi far fits =
    let counted = (timeout_get_usec-Counts begun t now s (Polls-Counts r) lo hi far).1 in
    let passed : (timeout_get_usec (now % 2 ^ 32) s).time_usecs ≡ now - begun = omega arith in
    let ms : limit * 1000 % 2 ^ 64 ≡ limit * 1000 = omega arith in
    let sec : limit * 1000 % 2 ^ 64 * 1000 % 2 ^ 64 ≡ limit * 1000000 = omega arith in
    (
      ap (leb limit) passed,
      ap (λ m. leb m (timeout_get_usec (now % 2 ^ 32) s).time_usecs) ms
          ∙ ap (leb (limit * 1000)) passed,
      ap (λ m. leb m (timeout_get_usec (now % 2 ^ 32) s).time_usecs) sec
          ∙ ap (leb (limit * 1000000)) passed,
    )
