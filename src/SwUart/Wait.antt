-- ===== src/SwUart/Wait.antt =====
-- `wait_until_usec` and the time-out of `sw_uart_get8_timeout`: termination, and what comes out.
use cs140e_final_parallel_co.Base.{
  ℕ, suc, ◌+◌, ◌≤◌, ◌<◌, ◌≡◌, refl, Bool, true, false, List, [], ◌∷◌, some, arith, ltb,
  if◌then◌else◌, length, get_or, Bool-cases, inl, inr,
}
use cs140e_final_parallel_co.SwUart.{Look, wait_loop, wait_until_usec}

-- Look `i` comes at least `i` microseconds after look 0, which comes `k` after the start.
abbrev pub Advances : ℕ → List Look → Type 0
Advances k looks = (i : ℕ) → i < length looks → k + i ≤ (get_or looks i (false, 0)).1

later : (k : ℕ) (x : Look) (looks : List Look) → Advances k (x ∷ looks) → Advances (k + 1) looks
later k x looks h i lt = omega (arith, h (suc i) (omega arith))

abbrev pub any_hit : List Look → Bool
any_hit [] = false
any_hit ((hit, elapsed) ∷ looks) = if hit then true else any_hit looks

-- The looks that come within the time-out, the first one after it included.
abbrev pub in_time : ℕ → List Look → List Look
in_time timeout [] = []
in_time timeout ((hit, elapsed) ∷ looks) =
    let rest = in_time timeout looks in (hit, elapsed) ∷ (if ltb timeout elapsed then [] else rest)

wait_loop_lem :
    (timeout k : ℕ) (looks : List Look)
    → Advances k looks
    → timeout + 1 < k + length looks
    → k ≤ timeout + 1
    → wait_loop timeout looks ≡ some (any_hit (in_time timeout looks))
unfolding wait_loop
wait_loop_lem timeout k [] h long le = absurd (omega arith)
wait_loop_lem timeout k ((true, e) ∷ looks) h long le = refl
wait_loop_lem timeout k ((false, e) ∷ looks) h long le = elim (Bool-cases (ltb timeout e)) [
  | inl p ↦ rw p refl
  | inr p ↦
      let le' : k ≤ e = omega (arith, h 0 (omega arith)) in
      let below : e ≤ timeout = ground arith in
      rw p (
        wait_loop_lem timeout (k + 1) looks (later k (false, e) looks h) (omega arith)
          (omega arith))
]

-- With a timer that advances by a microsecond or more from look to look, the loop of
-- `wait_until_usec` ends within `timeout + 2` looks, and it yields whether the pin was at the wanted
-- level at the first look or at one up to the first that comes after the time-out.
pub wait_until_usec_lem :
    (timeout : ℕ) (first : Bool) (looks : List Look)
    → Advances 0 looks
    → timeout + 2 ≤ length looks
    → wait_until_usec timeout first looks
      ≡ some (if first then true else any_hit (in_time timeout looks))
unfolding wait_until_usec
wait_until_usec_lem timeout true looks h long = refl
wait_until_usec_lem timeout false looks h long =
    wait_loop_lem timeout 0 looks h (omega arith) (omega arith)
