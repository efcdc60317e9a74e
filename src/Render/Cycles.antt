-- ===== src/Render/Cycles.antt =====
-- The time that render.c prints, from two readings of the 32-bit cycle counter and the wraps seen.
use cs140e_final_parallel_co.Base.{ℕ, ◌+◌, ◌-◌, ◌*◌, ◌/◌, ◌%◌, ◌^◌, ◌≤◌, ◌≡◌, arith, sub32}
use cs140e_final_parallel_co.Render.{elapsed_cycles, has_overflow}

-- For a counter that goes from `first` to `last` without end and is read modulo 2 ^ 32: the cycles
-- between are `elapsed_cycles` of the two readings and 2 ^ 32 for each wrap but the one that
-- `has_overflow` reports, and `elapsed_cycles` is the wrapping difference of the readings.
pub elapsed_cycles-wraps :
    (first last : ℕ)
    → first ≤ last
    → (last - first
        ≡ elapsed_cycles (first % 2 ^ 32) (last % 2 ^ 32)
          + 2 ^ 32
            * (last / 2 ^ 32 - first / 2 ^ 32 - has_overflow (first % 2 ^ 32) (last % 2 ^ 32)))
      × (elapsed_cycles (first % 2 ^ 32) (last % 2 ^ 32) ≡ sub32 (last % 2 ^ 32) (first % 2 ^ 32))
unfolding elapsed_cycles has_overflow
elapsed_cycles-wraps first last h = (ground arith, ground arith)
