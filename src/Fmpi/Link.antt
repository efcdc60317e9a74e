-- ===== src/Fmpi/Link.antt =====
-- The software UARTs as fmpi.c uses them: what the calls of `sw_uart_get8_timeout` on each peer's
-- UART will yield, in order, and what the calls of `sw_uart_put8` and `delay_ms` do, in order.
use cs140e_final_parallel_co.Base.{
  ℕ, Bool, true, false, Option, none, some, List, [], ◌∷◌, ◌++◌, ◌==◌, if◌then◌else◌,
}

-- What one wait for a byte yields: a byte, or -1 since the line stayed high.
pub data Rx : Type 0 where
  byte : ℕ → Rx
  quiet : Rx

-- The outcomes still to come, for each peer's UART.
abbrev pub Inbox : Type 0
Inbox = ℕ → List Rx

-- One peer's outcomes replaced.
unfoldable pub feed : Inbox → ℕ → List Rx → Inbox
feed ins p xs q = if p == q then xs else ins q

-- `sw_uart_put8`, `delay_ms`, and a `gpio_set_off` that is not part of a byte.
pub data Act : Type 0 where
  sent : ℕ → ℕ → Act
  slept : ℕ → Act
  lowered : ℕ → Act

-- `starved` waits for an outcome that does not come, `fault` is an access outside a buffer, and
-- `panicked` a failed `assert`. Each keeps what was done before.
pub data Run {ℓ} (A : Type ℓ) : Type ℓ where
  ok : A → Inbox → List Act → Run A
  starved : List Act → Run A
  fault : List Act → Run A
  panicked : List Act → Run A

abbrev pub M {ℓ} : Type ℓ → Type ℓ
M A = Inbox → Run A

abbrev pub prefix {ℓ} : {A : Type ℓ} → List Act → Run A → Run A
prefix t (ok a ins t') = ok a ins (t ++ t')
prefix t (starved t') = starved (t ++ t')
prefix t (fault t') = fault (t ++ t')
prefix t (panicked t') = panicked (t ++ t')

abbrev pub and_then {ℓ κ} : {A : Type ℓ} {B : Type κ} → Run A → (A → M B) → Run B
and_then (ok a ins t) k = prefix t (k a ins)
and_then (starved t) k = starved t
and_then (fault t) k = fault t
and_then (panicked t) k = panicked t

infixl 5 ◌>>=◌ ◌>>◌
abbrev pub ◌>>=◌ {ℓ κ} : {A : Type ℓ} {B : Type κ} → M A → (A → M B) → M B
m >>= k = λ ins. and_then (m ins) k

abbrev pub ◌>>◌ {ℓ κ} : {A : Type ℓ} {B : Type κ} → M A → M B → M B
m >> n = m >>= λ _. n

abbrev pub pure {ℓ} : {A : Type ℓ} → A → M A
pure a ins = ok a ins []

-- `sw_uart_put8(&u[p], b)`.
abbrev pub put8 : ℕ → ℕ → M (Unit {0})
put8 p b ins = ok tt ins (sent p b ∷ [])

-- `delay_ms(ms)`.
abbrev pub delay_ms : ℕ → M (Unit {0})
delay_ms ms ins = ok tt ins (slept ms ∷ [])

-- `sw_uart_get8_timeout(&u[p], usec)` and `sw_uart_get8(&u[p])`, which calls it: `quiet` is -1.
unfoldable pub next_rx : ℕ → List Rx → Inbox → Run Rx
next_rx p [] ins = starved []
next_rx p (r ∷ rs) ins = ok r (feed ins p rs) []

abbrev pub get8 : ℕ → M Rx
get8 p ins = next_rx p (ins p) ins

-- `gpio_set_off(pin)`.
abbrev pub set_off : ℕ → M (Unit {0})
set_off pin ins = ok tt ins (lowered pin ∷ [])

-- `assert(c)`.
abbrev pub require : Bool → M (Unit {0})
require true = pure tt
require false = λ _. panicked []

abbrev pub in_bounds {ℓ} : {A : Type ℓ} → Option A → M A
in_bounds none = λ _. fault []
in_bounds (some a) = pure a

-- The bytes sent to one peer.
abbrev pub sent_to : ℕ → List Act → List ℕ
sent_to p [] = []
sent_to p (sent q b ∷ t) = if q == p then b ∷ sent_to p t else sent_to p t
sent_to p (slept ms ∷ t) = sent_to p t
sent_to p (lowered pin ∷ t) = sent_to p t
