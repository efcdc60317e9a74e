-- ===== src/Timeout/Tests.antt =====
-- A timer that is about to wrap around.
use cs140e_final_parallel_co.Base.{
  ℕ, zero, suc, ◌-◌, ◌*◌, ◌%◌, ◌^◌, ◌≡◌, refl, List, [], ◌∷◌, some, arith, leb, drop,
}
use cs140e_final_parallel_co.Timeout.{
  Timeout, timeout_start, timeout_get_usec, timeout_usec, timeout_msec, timeout_sec, delay_us,
  delay_ms, delay_loop,
}
use cs140e_final_parallel_co.Timeout.Delays.{readings, Advances, FirstAfter, delay_us_returns}
use cs140e_final_parallel_co.Timeout.Polls.{Polls, start, poll, timeout_passed}

abbrev begun : ℕ
begun = 4294967290

abbrev once : Timeout
once = timeout_get_usec (8000000000 % 2 ^ 32) (timeout_start (begun % 2 ^ 32))

one_poll : Polls begun 8000000000 once
one_poll = poll 8000000000 start (omega arith) (omega arith) (omega arith)

timeout_passed_example :
    ((timeout_usec (9000000000 % 2 ^ 32) 5000 once).0 ≡ leb 5000 (9000000000 - begun))
    × ((timeout_msec (9000000000 % 2 ^ 32) 5000 once).0 ≡ leb (5000 * 1000) (9000000000 - begun))
    × ((timeout_sec (9000000000 % 2 ^ 32) 5000 once).0 ≡ leb (5000 * 1000000) (9000000000 - begun))
timeout_passed_example =
    timeout_passed 9000000000 5000 one_poll (omega arith) (omega arith) (omega arith) (omega arith)

abbrev looks : List ℕ
looks = 3 ∷ 9 ∷ 10 ∷ []

looks-Advances : Advances 0 looks
looks-Advances zero lt = omega arith
looks-Advances (suc zero) lt = omega arith
looks-Advances (suc (suc zero)) lt = omega arith
looks-Advances (suc (suc (suc i))) lt = absurd (omega arith)

delay_us_returns_example :
    (i : ℕ) × FirstAfter 2 i looks
    × (delay_us 2 (begun % 2 ^ 32 ∷ readings begun looks)
        ≡ some (drop (suc i) (readings begun looks)))
delay_us_returns_example = delay_us_returns 2 begun looks looks-Advances (omega arith)

-- More than 4294967 milliseconds are not waited for: the product wraps around.
delay_ms_wraps : delay_ms 4294968 (0 ∷ 704 ∷ []) ≡ some []
unfolding delay_ms delay_us delay_loop
delay_ms_wraps = refl
