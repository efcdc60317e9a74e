-- ===== src/Printk.antt =====
-- libpi/libc/printk.c: the numbers and the format directives. Characters are their codes, and the
-- result is what `putchar` is called with, in order.
pub mod Numbers
pub mod Format
pub mod Buffer
mod Tests
use cs140e_final_parallel_co.Base.{
  ℕ, zero, suc, ◌+◌, ◌-◌, ◌*◌, ◌/◌, ◌%◌, ◌^◌, Bool, true, false, ◌||◌, not, Option, none, some,
  List, [], ◌∷◌, ◌++◌, ltb, leb, ◌==◌, if◌then◌else◌, u32, length,
}
use cs140e_final_parallel_co.Base.Results.{◌>>=◌, ◌>>◌, require}

-- The character at `d` of the string "0123456789abcdef".
abbrev pub digit : ℕ → ℕ
digit d = if ltb d 10 then 48 + d else 87 + d

-- The `do .. while` that fills `num`; `room` of its 33 characters are left, and `num` is the list of
-- those that are filled, the last one first. A write behind the buffer is `none`.
unfoldable pub digits_loop : (base room u : ℕ) → List ℕ → Option (List ℕ)
digits_loop base zero u num = none
digits_loop base (suc room) u num =
    let num' = digit (u % base) ∷ num in
    let rest = digits_loop base room (u / base) num' in if u / base == 0 then some num' else rest

-- `emit_val`, which prints `num` backwards; another base panics.
unfoldable pub emit_val : (base u : ℕ) → Option (List ℕ)
emit_val base u =
    if (base == 2) || (base == 10) || (base == 16) then digits_loop base 33 u [] else none

-- The arguments: a `uint32_t` or an `int` as its 32 bits, a `uint64_t`, and a string.
pub data Arg : Type 0 where
  word : ℕ → Arg
  long : ℕ → Arg
  text : List ℕ → Arg

-- `va_arg`, with the arguments left. An argument of another type is `none`.
abbrev pub va_word : List Arg → Option (ℕ × List Arg)
va_word (word u ∷ args) = some (u, args)
va_word _ = none

abbrev pub va_long : List Arg → Option (ℕ × List Arg)
va_long (long u ∷ args) = some (u, args)
va_long _ = none

abbrev pub va_text : List Arg → Option (List ℕ × List Arg)
va_text (text s ∷ args) = some (s, args)
va_text _ = none

-- What one directive prints, with the format and the arguments left.
abbrev pub Step : Type 0
Step = Option (List ℕ × List ℕ × List Arg)

abbrev pub number : (before : List ℕ) (base : ℕ) → (fmt : List ℕ) → List Arg → Step
number before base fmt args = do
  a ← va_word args
  s ← emit_val base a.0
  some (before ++ s, fmt, a.1)

-- `v = -v` of a negative `int`.
abbrev pub decimal : (fmt : List ℕ) → List Arg → Step
decimal fmt args = do
  a ← va_word args
  if leb (2 ^ 31) a.0
      then (do s ← emit_val 10 (u32 (2 ^ 32 - a.0)); some (45 ∷ s, fmt, a.1))
      else (do s ← emit_val 10 a.0; some (s, fmt, a.1))

-- `%llx`, behind the first `l`.
unfoldable pub long_hex : (fmt : List ℕ) → List Arg → Step
long_hex (c ∷ c' ∷ fmt) args = do
  require (c == 108)
  require (c' == 120)
  a ← va_long args
  hi ← (if u32 (a.0 / 2 ^ 32) == 0 then some [] else emit_val 16 (u32 (a.0 / 2 ^ 32)))
  lo ← emit_val 16 (u32 a.0)
  some (48 ∷ 120 ∷ (hi ++ lo), fmt, a.1)
long_hex _ args = none

-- The `switch`, at the character behind the `%`.
unfoldable pub directive : (c : ℕ) (fmt : List ℕ) → List Arg → Step
directive c fmt args =
    if c == 98
    then number [] 2 fmt args
    else if c == 117
    then number [] 10 fmt args
    else if c == 99
    then (do a ← va_word args; some (a.0 ∷ [], fmt, a.1))
    else if c == 108
    then long_hex fmt args
    else if (c == 120) || (c == 112)
    then number (48 ∷ 120 ∷ []) 16 fmt args
    else if c == 100
    then decimal fmt args
    else if c == 115
    then (do a ← va_text args; some (a.0, fmt, a.1))
    else none

-- The loop of `vprintk`: each round takes at least one character of the format, so the length of the
-- format bounds the rounds.
unfoldable pub vprintk_loop : ℕ → (fmt : List ℕ) → List Arg → Option (List ℕ)
vprintk_loop zero [] args = some []
vprintk_loop zero (c ∷ fmt) args = none
vprintk_loop (suc left) [] args = some []
vprintk_loop (suc left) (c ∷ fmt) args =
    let again : List ℕ → List Arg → Option (List ℕ) = vprintk_loop left in
    if c == 37
    then (elim fmt [
      | [] ↦ none
      | d ∷ fmt' ↦ do s ← directive d fmt' args; rest ← again s.1 s.2; some (s.0 ++ rest)
    ])
    else (do rest ← again fmt args; some (c ∷ rest))

-- `vprintk` and `printk`: the characters printed, `none` where it panics or reads an argument of
-- another type.
unfoldable pub printk : (fmt : List ℕ) → List Arg → Option (List ℕ)
printk fmt args = vprintk_loop (length fmt) fmt args
