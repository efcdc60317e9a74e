-- ===== src/Crc/Detection.antt =====
-- The checksum of a buffer in two parts, and the changes that it detects.
use cs140e_final_parallel_co.Base.{
  ℕ, zero, suc, ◌+◌, ◌-◌, ◌%◌, ◌^◌, ◌<◌, ◌≡◌, ◌≢◌, refl, sym, ap, ◌∙◌, List, [], ◌∷◌, ◌++◌, arith,
  ◌==◌, if◌then◌else◌, bit_xor,
}
use cs140e_final_parallel_co.Base.Bits.{bit, bits_ext, bit-xor, bit-lt, bit-high, lt_of_bits}
use cs140e_final_parallel_co.Crc.{crc_byte, crc_bytes, crc32_inc, crc32}
use cs140e_final_parallel_co.Crc.Division.{
  poly, divide_bit, divide_bits, bit-divide_bit, Bytes, divide, crc32_inc-divide,
}

xor_cancel : (x m : ℕ) → bit_xor (bit_xor x m) m ≡ x
xor_cancel x m =
    bits_ext (bit_xor (bit_xor x m) m) x
      λ i. rw (bit-xor (bit_xor x m) m i, bit-xor x m i) (omega (arith, bit-lt x i, bit-lt m i))

crc_bytes-append :
    (xs ys : List ℕ) (crc : ℕ) → crc_bytes (xs ++ ys) crc ≡ crc_bytes ys (crc_bytes xs crc)
unfolding crc_bytes
crc_bytes-append [] ys crc = refl
crc_bytes-append (x ∷ xs) ys crc = crc_bytes-append xs ys (crc_byte crc x)

-- The checksum of a buffer continues from the checksum of its first part.
pub crc32_inc-append :
    (xs ys : List ℕ) (crc : ℕ) → crc32_inc ys (crc32_inc xs crc) ≡ crc32_inc (xs ++ ys) crc
unfolding crc32_inc
crc32_inc-append xs ys crc =
    let m = 2 ^ 32 - 1 in
    ap (λ r. bit_xor (crc_bytes ys r) m) (xor_cancel (crc_bytes xs (bit_xor crc m)) m)
    ∙ ap (λ r. bit_xor r m) (sym (crc_bytes-append xs ys (bit_xor crc m)))

-- The register stays a word.
divide_bit-lt : (x : ℕ) → x < 2 ^ 32 → divide_bit x < 2 ^ 32
divide_bit-lt x h = lt_of_bits 32 (divide_bit x) λ i le.
    bit-divide_bit x i
    ∙ rw (bit-high 32 x (suc i) h (omega arith), bit-high 32 poly i (omega arith) le) (ground arith)

divide_bits-lt : (n x : ℕ) → x < 2 ^ 32 → divide_bits n x < 2 ^ 32
unfolding divide_bits
divide_bits-lt zero x h = h
divide_bits-lt (suc n) x h = divide_bits-lt n (divide_bit x) (divide_bit-lt x h)

xor-lt : (x b : ℕ) → x < 2 ^ 32 → b < 2 ^ 32 → bit_xor x b < 2 ^ 32
xor-lt x b hx hb =
    lt_of_bits 32 (bit_xor x b)
      λ i le. bit-xor x b i ∙ rw (bit-high 32 x i hx le, bit-high 32 b i hb le) refl

-- The highest digit behind a step tells which digit has left the register.
low_digit : (x : ℕ) → x < 2 ^ 32 → bit (divide_bit x) 31 ≡ bit x 0
low_digit x h =
    bit-divide_bit x 31 ∙ rw (bit-high 32 x 32 h (omega arith)) (ground (arith, bit-lt x 0))

divide_bit-cancel : (x y : ℕ) → x < 2 ^ 32 → y < 2 ^ 32 → divide_bit x ≡ divide_bit y → x ≡ y
divide_bit-cancel x y hx hy e = bits_ext x y same
  where
    first : bit x 0 ≡ bit y 0
    first = sym (low_digit x hx) ∙ ap (λ z. bit z 31) e ∙ low_digit y hy

    step :
        (i : ℕ)
        → (if bit x 0 == 0 then bit x (suc i) else (bit x (suc i) + bit poly i) % 2)
          ≡ (if bit y 0 == 0 then bit y (suc i) else (bit y (suc i) + bit poly i) % 2)
    step i = sym (bit-divide_bit x i) ∙ ap (λ z. bit z i) e ∙ bit-divide_bit y i

    same : (i : ℕ) → bit x i ≡ bit y i
    same zero = first
    same (suc i) = ground (arith, first, step i, bit-lt x (suc i), bit-lt y (suc i), bit-lt poly i)

divide_bits-cancel :
    (n x y : ℕ) → x < 2 ^ 32 → y < 2 ^ 32 → divide_bits n x ≡ divide_bits n y → x ≡ y
unfolding divide_bits
divide_bits-cancel zero x y hx hy e = e
divide_bits-cancel (suc n) x y hx hy e =
    divide_bit-cancel x y hx hy (
      divide_bits-cancel n (divide_bit x) (divide_bit y) (divide_bit-lt x hx) (divide_bit-lt y hy)
        e)

xor_cancel_right : (x y m : ℕ) → bit_xor x m ≡ bit_xor y m → x ≡ y
xor_cancel_right x y m e = sym (xor_cancel x m) ∙ ap (λ z. bit_xor z m) e ∙ xor_cancel y m

xor_cancel_left : (r b b' : ℕ) → bit_xor r b ≡ bit_xor r b' → b ≡ b'
xor_cancel_left r b b' e = bits_ext b b' λ i.
    let at : (bit r i + bit b i) % 2 ≡ (bit r i + bit b' i) % 2 =
      sym (bit-xor r b i) ∙ ap (λ z. bit z i) e ∙ bit-xor r b' i in
    omega (arith, at, bit-lt r i, bit-lt b i, bit-lt b' i)

divide-lt : (bs : List ℕ) (r : ℕ) → Bytes bs → r < 2 ^ 32 → divide bs r < 2 ^ 32
divide-lt [] r h hr = hr
divide-lt (b ∷ bs) r (hb, hbs) hr =
    divide-lt bs (divide_bits 8 (bit_xor r b)) hbs
      (divide_bits-lt 8 (bit_xor r b) (xor-lt r b hr (omega (arith, hb))))

divide-cancel :
    (bs : List ℕ) (r r' : ℕ)
    → Bytes bs
    → r < 2 ^ 32
    → r' < 2 ^ 32
    → divide bs r ≡ divide bs r'
    → r ≡ r'
divide-cancel [] r r' h hr hr' e = e
divide-cancel (b ∷ bs) r r' (hb, hbs) hr hr' e =
    let lt = xor-lt r b hr (omega (arith, hb)) in
    let lt' = xor-lt r' b hr' (omega (arith, hb)) in
    xor_cancel_right r r' b (
      divide_bits-cancel 8 (bit_xor r b) (bit_xor r' b) lt lt' (
        divide-cancel bs (divide_bits 8 (bit_xor r b)) (divide_bits 8 (bit_xor r' b)) hbs
          (divide_bits-lt 8 (bit_xor r b) lt) (divide_bits-lt 8 (bit_xor r' b) lt') e))

divide-append : (xs ys : List ℕ) (r : ℕ) → divide (xs ++ ys) r ≡ divide ys (divide xs r)
divide-append [] ys r = refl
divide-append (x ∷ xs) ys r = divide-append xs ys (divide_bits 8 (bit_xor r x))

pub Bytes-append : (xs ys : List ℕ) → Bytes xs → Bytes ys → Bytes (xs ++ ys)
Bytes-append [] ys h h' = h'
Bytes-append (x ∷ xs) ys (hx, hxs) h' = (hx, Bytes-append xs ys hxs h')

-- Two buffers that differ in exactly one byte have two different checksums.
pub crc32_one_byte :
    (xs ys : List ℕ) (b b' : ℕ)
    → Bytes xs
    → Bytes ys
    → b < 2 ^ 8
    → b' < 2 ^ 8
    → b ≢ b'
    → crc32 (xs ++ b ∷ ys) ≢ crc32 (xs ++ b' ∷ ys)
unfolding crc32
crc32_one_byte xs ys b b' hxs hys hb hb' ne e = ne (xor_cancel_left (divide xs start) b b' same)
  where
    start : ℕ
    start = bit_xor 0 (2 ^ 32 - 1)

    whole :
        (c : ℕ)
        → c < 2 ^ 8
        → crc32_inc (xs ++ c ∷ ys) 0
          ≡ bit_xor (divide ys (divide_bits 8 (bit_xor (divide xs start) c))) (2 ^ 32 - 1)
    whole c hc =
        crc32_inc-divide (xs ++ c ∷ ys) 0 (Bytes-append xs (c ∷ ys) hxs (hc, hys))
        ∙ ap (λ r. bit_xor r (2 ^ 32 - 1)) (divide-append xs (c ∷ ys) start)

    lt : (c : ℕ) → c < 2 ^ 8 → bit_xor (divide xs start) c < 2 ^ 32
    lt c hc = xor-lt (divide xs start) c (divide-lt xs start hxs (omega arith)) (omega (arith, hc))

    same : bit_xor (divide xs start) b ≡ bit_xor (divide xs start) b'
    same =
        divide_bits-cancel 8 (bit_xor (divide xs start) b) (bit_xor (divide xs start) b') (lt b hb)
          (lt b' hb')
          (divide-cancel ys (divide_bits 8 (bit_xor (divide xs start) b))
            (divide_bits 8 (bit_xor (divide xs start) b')) hys
            (divide_bits-lt 8 (bit_xor (divide xs start) b) (lt b hb))
            (divide_bits-lt 8 (bit_xor (divide xs start) b') (lt b' hb'))
            (xor_cancel_right (divide ys (divide_bits 8 (bit_xor (divide xs start) b)))
              (divide ys (divide_bits 8 (bit_xor (divide xs start) b'))) (2 ^ 32 - 1)
              (sym (whole b hb) ∙ e ∙ whole b' hb')))

pub crc32-lt : (buf : List ℕ) → Bytes buf → crc32 buf < 2 ^ 32
unfolding crc32
crc32-lt buf h =
    let start = bit_xor 0 (2 ^ 32 - 1) in
    rw (crc32_inc-divide buf 0 h)
      (xor-lt (divide buf start) (2 ^ 32 - 1) (divide-lt buf start h (omega arith)) (omega arith))
