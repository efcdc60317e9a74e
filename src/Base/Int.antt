-- ===== src/Base/Int.antt =====
-- The integers, for differences of C's `int`.
use Prim.Native.Nat.{ℕ, ◌-◌}
use cs140e_final_parallel_co.Base.Tests.{leb, if◌then◌else◌}

-- `negsuc n` is -(n + 1).
pub data ℤ : Type 0 where
  pos : ℕ → ℤ
  negsuc : ℕ → ℤ

-- a - b.
abbrev pub sub_ℕ : ℕ → ℕ → ℤ
sub_ℕ a b = if leb b a then pos (a - b) else negsuc (b - a - 1)
