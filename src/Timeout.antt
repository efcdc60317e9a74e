-- ===== src/Timeout.antt =====
-- The microsecond timer: the delays of libpi/staff-src/timer.c and the time-outs of
-- libpi/include/timeout.h. The timer is read modulo 2 ^ 32; what it yields is an argument.
pub mod Delays
pub mod Polls
mod Tests
use cs140e_final_parallel_co.Base.{
  ℕ, ◌+◌, ◌*◌, ◌%◌, ◌^◌, Bool, List, [], ◌∷◌, Option, none, some, leb, if◌then◌else◌, sub32, u32,
}

-- The loop of `delay_us` over the readings that follow: those that it leaves.
unfoldable pub delay_loop : (us s : ℕ) → List ℕ → Option (List ℕ)
delay_loop us s [] = none
delay_loop us s (e ∷ readings) =
    let rest = delay_loop us s readings in if leb us (sub32 e s) then some readings else rest

unfoldable pub delay_us : (us : ℕ) → List ℕ → Option (List ℕ)
delay_us us [] = none
delay_us us (s ∷ readings) = delay_loop us s readings

unfoldable pub delay_ms : (ms : ℕ) → List ℕ → Option (List ℕ)
delay_ms ms readings = delay_us (u32 (ms * 1000)) readings

unfoldable pub delay_sec : (sec : ℕ) → List ℕ → Option (List ℕ)
delay_sec sec readings = delay_ms (u32 (sec * 1000)) readings

pub record Timeout : Type 0 where
  pub time_last : ℕ
  pub time_usecs : ℕ

unfoldable pub timeout_start : (now : ℕ) → Timeout
timeout_start now = record { time_last = now; time_usecs = 0 }

-- The state behind the call, whose `time_usecs` is the result.
unfoldable pub timeout_get_usec : (now : ℕ) → Timeout → Timeout
timeout_get_usec now t = record {
  time_last = now;
  time_usecs = (t.time_usecs + sub32 now t.time_last) % 2 ^ 64;
}

unfoldable pub timeout_usec : (now max_usec : ℕ) → Timeout → Bool × Timeout
timeout_usec now max_usec t = let t' = timeout_get_usec now t in (leb max_usec t'.time_usecs, t')

unfoldable pub timeout_msec : (now max_msec : ℕ) → Timeout → Bool × Timeout
timeout_msec now max_msec t = timeout_usec now (max_msec * 1000 % 2 ^ 64) t

unfoldable pub timeout_sec : (now max_sec : ℕ) → Timeout → Bool × Timeout
timeout_sec now max_sec t = timeout_msec now (max_sec * 1000 % 2 ^ 64) t
