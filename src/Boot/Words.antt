-- ===== src/Boot/Words.antt =====
-- Words on the line: what one end writes, the other end reads.
use cs140e_final_parallel_co.Base.{
  ℕ, ◌+◌, ◌-◌, ◌*◌, ◌/◌, ◌%◌, ◌^◌, ◌<◌, ◌≡◌, refl, ap, List, ◌++◌, arith, ltb, if◌then◌else◌,
  Bool-cases, inl, inr, bit_or, u8,
}
use Prim.Native.Nat.{max}
use native.Mathlib.Nat.{div-one}
use cs140e_final_parallel_co.Base.Bits.{
  bit, bits_ext, bit-or, bit-mod, bit-shl, bit-shr, bit_and-mask,
}
use cs140e_final_parallel_co.Circular.{word_bytes}
use cs140e_final_parallel_co.Boot.Port.{Port, done}
use cs140e_final_parallel_co.Boot.Pi.{boot_get32, boot_put32}
use cs140e_final_parallel_co.Boot.Unix.{get_uint32, put_uint32}

-- A number is its low `k` digits and the rest.
or_split : (k z : ℕ) → bit_or (z % 2 ^ k) (z / 2 ^ k * 2 ^ k) ≡ z
or_split k z = bits_ext (bit_or (z % 2 ^ k) (z / 2 ^ k * 2 ^ k)) z λ i.
    rw
      (
        bit-or (z % 2 ^ k) (z / 2 ^ k * 2 ^ k) i,
        bit-mod k z i,
        bit-shl k (z / 2 ^ k) i,
        bit-shr k z (i - k),
      )
      (digit i)
  where
    digit :
        (i : ℕ)
        → max (if ltb i k then bit z i else 0) (if ltb i k then 0 else bit z (k + (i - k)))
          ≡ bit z i
    digit i = elim (Bool-cases (ltb i k)) [
      | inl e ↦ rw e (omega arith)
      | inr e ↦ let at : k + (i - k) ≡ i = ground arith in rw (e, at) (omega arith)
    ]

or_next : (k x y z : ℕ) → x ≡ z % 2 ^ k → y ≡ z / 2 ^ k → bit_or x (y * 2 ^ k) ≡ z
or_next k x y z ex ey = rw (ex, ey) (or_split k z)

or_word :
    (u : ℕ)
    → u < 2 ^ 32
    → bit_or
        (bit_or (bit_or (u8 u) (u8 (u / 2 ^ 8) * 2 ^ 8)) (u8 (u / 2 ^ 16) * 2 ^ 16))
        (u8 (u / 2 ^ 24) * 2 ^ 24)
      ≡ u
or_word u h =
    let low : bit_or (u8 u) (u8 (u / 2 ^ 8) * 2 ^ 8) ≡ u % 2 ^ 16 =
      or_next 8 (u8 u) (u8 (u / 2 ^ 8)) (u % 2 ^ 16) (omega arith) (omega arith) in
    let three =
      or_next 16 (u % 2 ^ 16) (u8 (u / 2 ^ 16)) (u % 2 ^ 24) (omega arith) (omega arith) in
    rw (low, three) (or_next 24 (u % 2 ^ 24) (u8 (u / 2 ^ 24)) u refl (omega arith))

abbrev pub port : List ℕ → List ℕ → Port
port inp out = record { inp = inp; out = out }

pub boot_get32-word_bytes :
    (u : ℕ) (rest out : List ℕ)
    → u < 2 ^ 32
    → boot_get32 (port (word_bytes u ++ rest) out) ≡ done u (port rest out)
unfolding boot_get32 word_bytes
boot_get32-word_bytes u rest out h = ap (λ x. done x (port rest out)) (or_word u h)

pub get_uint32-word_bytes :
    (u : ℕ) (rest out : List ℕ)
    → u < 2 ^ 32
    → get_uint32 (port (word_bytes u ++ rest) out) ≡ done u (port rest out)
unfolding get_uint32 word_bytes
get_uint32-word_bytes u rest out h = ap (λ x. done x (port rest out)) (or_word u h)

pub boot_put32-word_bytes :
    (u : ℕ) (inp out : List ℕ)
    → boot_put32 u (port inp out) ≡ done tt (port inp (out ++ word_bytes u))
unfolding boot_put32 word_bytes
boot_put32-word_bytes u inp out =
    rw
      (
        bit_and-mask 8 (u / 2 ^ 0),
        bit_and-mask 8 (u / 2 ^ 8),
        bit_and-mask 8 (u / 2 ^ 16),
        bit_and-mask 8 (u / 2 ^ 24),
        div-one u,
      )
      refl

pub put_uint32-word_bytes :
    (u : ℕ) (inp out : List ℕ)
    → put_uint32 u (port inp out) ≡ done tt (port inp (out ++ word_bytes u))
unfolding put_uint32
put_uint32-word_bytes u inp out = refl
