-- ===== src/Boot/Port.antt =====
-- One end of the serial line: a state of bytes to read and bytes written, and the four ways in which
-- a run ends.
use cs140e_final_parallel_co.Base.{ℕ, Bool, true, false, List, [], ◌∷◌, ◌++◌}

pub record Port : Type 0 where
  pub inp : List ℕ
  pub out : List ℕ

-- `dry` waits for, or has failed to read, a byte that does not come; `panicked` is a `panic` or
-- a failed `demand`, `rebooted` is `rpi_reboot`. Each keeps what was written.
pub data Run {ℓ} (A : Type ℓ) : Type ℓ where
  done : A → Port → Run A
  dry : List ℕ → Run A
  panicked : List ℕ → Run A
  rebooted : List ℕ → Run A

abbrev pub M {ℓ} : Type ℓ → Type ℓ
M A = Port → Run A

abbrev pub and_then {ℓ κ} : {A : Type ℓ} {B : Type κ} → Run A → (A → M B) → Run B
and_then (done a p) f = f a p
and_then (dry out) f = dry out
and_then (panicked out) f = panicked out
and_then (rebooted out) f = rebooted out

infixl 5 ◌>>=◌ ◌>>◌
abbrev pub ◌>>=◌ {ℓ κ} : {A : Type ℓ} {B : Type κ} → M A → (A → M B) → M B
(m >>= f) p = and_then (m p) f

abbrev pub ◌>>◌ {ℓ κ} : {A : Type ℓ} {B : Type κ} → M A → M B → M B
m >> k = m >>= λ _. k

abbrev pub pure {ℓ} : {A : Type ℓ} → A → M A
pure a p = done a p

abbrev pub read8_of : List ℕ → List ℕ → Run ℕ
read8_of [] out = dry out
read8_of (b ∷ bs) out = done b (record { inp = bs; out = out })

abbrev pub read8 : M ℕ
read8 p = read8_of p.inp p.out

abbrev pub write : List ℕ → M (Unit {0})
write bs p = done tt (record { inp = p.inp; out = p.out ++ bs })

-- A wait for a byte that does not come.
abbrev pub starve {ℓ} : {A : Type ℓ} → M A
starve p = dry p.out

abbrev pub reboot {ℓ} : {A : Type ℓ} → M A
reboot p = rebooted p.out

-- `if(!ok) panic(..)`.
abbrev pub check : Bool → M (Unit {0})
check true p = done tt p
check false p = panicked p.out
