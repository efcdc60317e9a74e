-- ===== src/Crc/Division.antt =====
-- The table-driven loop against the division by the polynomial, one digit at a time.
use cs140e_final_parallel_co.Base.{
  ℕ, zero, suc, ◌+◌, ◌-◌, ◌*◌, ◌/◌, ◌%◌, ◌^◌, ◌<◌, ◌≡◌, refl, sym, ap, ◌∙◌, List, [], ◌∷◌, map,
  arith, ltb, ◌==◌, if◌then◌else◌, Bool-cases, inl, inr, bit_xor, get_or,
}
use native.Mathlib.Nat.{pow-suc, mul_assoc}
use cs140e_final_parallel_co.Base.Bits.{
  bit, bits_ext, bit-xor, bit-lt, bit-mod, bit-shl, bit-shr, bit_and-mask, bit-high,
}
use cs140e_final_parallel_co.Crc.{crc_byte, crc_bytes, crc32_inc}
use cs140e_final_parallel_co.Crc.Table.{crc32_tab}

-- The reversed polynomial of CRC-32.
abbrev pub poly : ℕ
poly = 0xEDB88320

-- One step of the division: the lowest digit leaves the register.
unfoldable pub divide_bit : ℕ → ℕ
divide_bit x = if x % 2 == 0 then x / 2 else bit_xor (x / 2) poly

unfoldable pub divide_bits : ℕ → ℕ → ℕ
unfolding divide_bit
divide_bits zero x = x
divide_bits (suc n) x = divide_bits n (divide_bit x)

pub bit-divide_bit :
    (x i : ℕ)
    → bit (divide_bit x) i
      ≡ (if bit x 0 == 0 then bit x (suc i) else (bit x (suc i) + bit poly i) % 2)
unfolding divide_bit
bit-divide_bit x i = elim (Bool-cases (x % 2 == 0)) [
  | inl e ↦ rw e refl
  | inr e ↦ rw e (bit-xor (x / 2) poly i)
]

divide_bit-xor : (x y : ℕ) → divide_bit (bit_xor x y) ≡ bit_xor (divide_bit x) (divide_bit y)
divide_bit-xor x y =
    bits_ext (divide_bit (bit_xor x y)) (bit_xor (divide_bit x) (divide_bit y)) λ i.
      rw
        (
          bit-divide_bit (bit_xor x y) i,
          bit-xor (divide_bit x) (divide_bit y) i,
          bit-divide_bit x i,
          bit-divide_bit y i,
          bit-xor x y 0,
          bit-xor x y (suc i),
        )
        (ground (arith, bit-lt x 0, bit-lt y 0, bit-lt x (suc i), bit-lt y (suc i), bit-lt poly i))

divide_bits-xor :
    (n x y : ℕ) → divide_bits n (bit_xor x y) ≡ bit_xor (divide_bits n x) (divide_bits n y)
unfolding divide_bits
divide_bits-xor zero x y = refl
divide_bits-xor (suc n) x y =
    ap (divide_bits n) (divide_bit-xor x y) ∙ divide_bits-xor n (divide_bit x) (divide_bit y)

divide_bit-double : (x : ℕ) → divide_bit (x * 2) ≡ x
unfolding divide_bit
divide_bit-double x = ground arith

shl_twice : (x n : ℕ) → x * 2 ^ suc n ≡ x * 2 ^ n * 2
shl_twice x n = ap (◌*◌ x) (pow-suc 2 n) ∙ sym (mul_assoc x (2 ^ n) 2)

divide_bits-shl : (n x : ℕ) → divide_bits n (x * 2 ^ n) ≡ x
unfolding divide_bits
divide_bits-shl zero x = omega arith
divide_bits-shl (suc n) x =
    ap (divide_bits n) (ap divide_bit (shl_twice x n) ∙ divide_bit-double (x * 2 ^ n))
    ∙ divide_bits-shl n x

-- The numbers from `i` on.
abbrev from : (i left : ℕ) → List ℕ
from i zero = []
from i (suc left) = i ∷ from (suc i) left

get_or-map_from :
    (f : ℕ → ℕ) (i left k d : ℕ) → k < left → get_or (map f (from i left)) k d ≡ f (i + k)
get_or-map_from f i zero k d h = absurd (omega arith)
get_or-map_from f i (suc left) zero d h = ap f (omega arith)
get_or-map_from f i (suc left) (suc k) d h =
    get_or-map_from f (suc i) left k d (omega arith) ∙ ap f (omega arith)

table_entries : crc32_tab ≡ map (divide_bits 8) (from 0 256)
unfolding divide_bits
table_entries = refl

-- Entry `i` of the table is the remainder of the byte `i`.
crc32_tab-entry : (i : ℕ) → i < 256 → get_or crc32_tab i 0 ≡ divide_bits 8 i
crc32_tab-entry i h =
    ap (λ t. get_or t i 0) table_entries
    ∙ get_or-map_from (divide_bits 8) 0 256 i 0 h
    ∙ ap (divide_bits 8) (omega arith)

-- A number is its lowest byte and the rest.
low_byte : (z : ℕ) → bit_xor (z % 2 ^ 8) (z / 2 ^ 8 * 2 ^ 8) ≡ z
low_byte z = bits_ext (bit_xor (z % 2 ^ 8) (z / 2 ^ 8 * 2 ^ 8)) z λ i.
    rw
      (
        bit-xor (z % 2 ^ 8) (z / 2 ^ 8 * 2 ^ 8) i,
        bit-mod 8 z i,
        bit-shl 8 (z / 2 ^ 8) i,
        bit-shr 8 z (i - 8),
      )
      (digit i)
  where
    digit :
        (i : ℕ)
        → ((if ltb i 8 then bit z i else 0) + (if ltb i 8 then 0 else bit z (8 + (i - 8)))) % 2
          ≡ bit z i
    digit i = elim (Bool-cases (ltb i 8)) [
      | inl e ↦ rw e (omega (arith, bit-lt z i))
      | inr e ↦ let at : 8 + (i - 8) ≡ i = ground arith in rw (e, at) (omega (arith, bit-lt z i))
    ]

shr-xor_byte : (crc b : ℕ) → b < 2 ^ 8 → bit_xor crc b / 2 ^ 8 ≡ crc / 2 ^ 8
shr-xor_byte crc b h = bits_ext (bit_xor crc b / 2 ^ 8) (crc / 2 ^ 8) λ i.
    rw
      (
        bit-shr 8 (bit_xor crc b) i,
        bit-xor crc b (8 + i),
        bit-shr 8 crc i,
        bit-high 8 b (8 + i) h (omega arith),
      )
      (omega (arith, bit-lt crc (8 + i)))

-- One round is eight steps of the division.
pub crc_byte-divide_bits : (crc b : ℕ) → b < 2 ^ 8 → crc_byte crc b ≡ divide_bits 8 (bit_xor crc b)
unfolding crc_byte
crc_byte-divide_bits crc b h =
    let z = bit_xor crc b in
    ap (λ i. bit_xor (get_or crc32_tab i 0) (crc / 2 ^ 8)) (bit_and-mask 8 z)
    ∙ ap (λ t. bit_xor t (crc / 2 ^ 8)) (crc32_tab-entry (z % 2 ^ 8) (omega arith))
    ∙ ap (bit_xor (divide_bits 8 (z % 2 ^ 8)))
        (sym (shr-xor_byte crc b h) ∙ sym (divide_bits-shl 8 (z / 2 ^ 8)))
    ∙ sym (divide_bits-xor 8 (z % 2 ^ 8) (z / 2 ^ 8 * 2 ^ 8))
    ∙ ap (divide_bits 8) (low_byte z)

-- The bytes of a buffer.
abbrev pub Bytes : List ℕ → Type 0
Bytes [] = Unit {0}
Bytes (b ∷ bs) = (b < 2 ^ 8) × Bytes bs

-- The division of a buffer, byte by byte into the low end of the register.
abbrev pub divide : List ℕ → ℕ → ℕ
divide [] reg = reg
divide (b ∷ bs) reg = divide bs (divide_bits 8 (bit_xor reg b))

pub crc_bytes-divide : (buf : List ℕ) (reg : ℕ) → Bytes buf → crc_bytes buf reg ≡ divide buf reg
unfolding crc_bytes
crc_bytes-divide [] reg h = refl
crc_bytes-divide (b ∷ bs) reg (hb, hbs) =
    ap (crc_bytes bs) (crc_byte-divide_bits reg b hb)
    ∙ crc_bytes-divide bs (divide_bits 8 (bit_xor reg b)) hbs

-- The table-driven checksum is the remainder of the division by the polynomial, one digit at a time,
-- with the register inverted before and after.
pub crc32_inc-divide :
    (buf : List ℕ) (crc : ℕ)
    → Bytes buf
    → crc32_inc buf crc ≡ bit_xor (divide buf (bit_xor crc (2 ^ 32 - 1))) (2 ^ 32 - 1)
unfolding crc32_inc
crc32_inc-divide buf crc h =
    ap (λ r. bit_xor r (2 ^ 32 - 1)) (crc_bytes-divide buf (bit_xor crc (2 ^ 32 - 1)) h)
