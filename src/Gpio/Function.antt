-- ===== src/Gpio/Function.antt =====
-- `gpio_set_function`: one three-bit field of one register.
use cs140e_final_parallel_co.Base.{
  ℕ, ◌+◌, ◌-◌, ◌*◌, ◌/◌, ◌%◌, ◌^◌, ◌≤◌, ◌<◌, ◌≡◌, ◌⊎◌, sym, ap, ◌∙◌, true, false, [], ◌∷◌, ◌++◌,
  bit_and, bit_or, ltb, leb, ◌==◌, ◌&&◌, if◌then◌else◌, arith, ltb→lt, ==_refl, Bool-cases, inl,
  inr, ==→eq,
}
use native.Mathlib.Nat.{add-sub_cancel_left, zero-add}
use cs140e_final_parallel_co.Base.Bits.{
  bit, bit-lt, bit-and, bit-or, bit-not, bit-mod, bit-shl, bit-shr, bit-high, bits_ext, lt_of_bits,
  bit-mask,
}
use cs140e_final_parallel_co.Gpio.{Bus, update, bad_pin, command, gpio_base, gpio_set_function}

-- The function select field of a pin.
abbrev pub fsel : ℕ → Bus → ℕ
fsel pin b = b.mem (gpio_base + 4 * (pin / 10)) / 2 ^ (pin % 10 * 3) % 2 ^ 3

command_lem : (f : ℕ) → f ≤ 7 → command f ≡ f
unfolding command
command_lem f h = ground arith

-- Write `f` into the field at digit `k` of a register.
abbrev written : (v k f : ℕ) → ℕ
written v k f = bit_or (bit_and v (2 ^ 32 - 1 - 7 * 2 ^ k)) (f * 2 ^ k)

mask-lt : (k : ℕ) → k + 3 ≤ 32 → 7 * 2 ^ k < 2 ^ 32
mask-lt k h = lt_of_bits 32 (7 * 2 ^ k) λ i high. bit-shl k 7 i ∙ ground (arith, bit-mask 3 (i - k))

written_digit :
    (v k f i : ℕ)
    → v < 2 ^ 32
    → k + 3 ≤ 32
    → f < 2 ^ 3
    → bit (written v k f) i ≡ (if leb k i && ltb i (k + 3) then bit f (i - k) else bit v i)
written_digit v k f i hv hk hf = elim (Bool-cases (ltb i (k + 3))) [
  | inl e ↦
      bit-or (bit_and v (2 ^ 32 - 1 - 7 * 2 ^ k)) (f * 2 ^ k) i
      ∙ ground (
        arith,
        bit-and v (2 ^ 32 - 1 - 7 * 2 ^ k) i,
        bit-not 32 (7 * 2 ^ k) i (mask-lt k hk),
        bit-shl k 7 i,
        bit-shl k f i,
        bit-mask 3 (i - k),
        bit-lt f (i - k),
        bit-lt v i,
      )
  | inr e ↦
      let high : bit f (i - k) ≡ 0 = bit-high 3 f (i - k) hf (ground arith) in
      bit-or (bit_and v (2 ^ 32 - 1 - 7 * 2 ^ k)) (f * 2 ^ k) i
      ∙ ground (
        arith,
        bit-and v (2 ^ 32 - 1 - 7 * 2 ^ k) i,
        bit-not 32 (7 * 2 ^ k) i (mask-lt k hk),
        bit-shl k 7 i,
        bit-shl k f i,
        bit-mask 3 (i - k),
        bit-lt v i,
        bit-high 32 v i hv,
      )
]

-- Two fields agree if their three digits do.
field_ext :
    (x y k f : ℕ)
    → ((j : ℕ) → j < 3 → bit x (k + j) ≡ bit y (f + j))
    → x / 2 ^ k % 2 ^ 3 ≡ y / 2 ^ f % 2 ^ 3
field_ext x y k f same = bits_ext (x / 2 ^ k % 2 ^ 3) (y / 2 ^ f % 2 ^ 3) λ j.
    bit-mod 3 (x / 2 ^ k) j
    ∙ elim (Bool-cases (ltb j 3))
        as (λ _.
          (if ltb j 3 then bit (x / 2 ^ k) j else 0) ≡ (if ltb j 3 then bit (y / 2 ^ f) j else 0)) [
            | inl e ↦ rw e (bit-shr k x j ∙ same j (ltb→lt j 3 e) ∙ sym (bit-shr f y j))
            | inr e ↦ rw e
          ]
    ∙ sym (bit-mod 3 (y / 2 ^ f) j)

field_same : (v k f : ℕ) → v < 2 ^ 32 → k + 3 ≤ 32 → f < 2 ^ 3 → written v k f / 2 ^ k % 2 ^ 3 ≡ f
field_same v k f hv hk hf =
    field_ext (written v k f) f k 0 (λ j h.
      written_digit v k f (k + j) hv hk hf ∙ rw (inside k j h, add-sub_cancel_left k j, zero-add))
    ∙ omega arith
  where
    inside : (k j : ℕ) → j < 3 → (leb k (k + j) && ltb (k + j) (k + 3)) ≡ true
    inside k j h = ground arith

field_other :
    (v k f k' : ℕ)
    → v < 2 ^ 32
    → k + 3 ≤ 32
    → f < 2 ^ 3
    → (k + 3 ≤ k') ⊎ (k' + 3 ≤ k)
    → written v k f / 2 ^ k' % 2 ^ 3 ≡ v / 2 ^ k' % 2 ^ 3
field_other v k f k' hv hk hf apart =
    field_ext (written v k f) v k' k'
      λ j h. written_digit v k f (k' + j) hv hk hf ∙ rw (outside k k' j h apart)
  where
    outside :
        (k k' j : ℕ)
        → j < 3
        → (k + 3 ≤ k') ⊎ (k' + 3 ≤ k)
        → (leb k (k' + j) && ltb (k' + j) (k + 3)) ≡ false
    outside k k' j h apart = ground arith

fsel_case :
    (mem : ℕ → ℕ) (pin q f : ℕ)
    → mem (gpio_base + 4 * (pin / 10)) < 2 ^ 32
    → f < 2 ^ 3
    → (if gpio_base + 4 * (q / 10) == gpio_base + 4 * (pin / 10)
          then written (mem (gpio_base + 4 * (pin / 10))) (pin % 10 * 3) f
          else mem (gpio_base + 4 * (q / 10)))
        / 2 ^ (q % 10 * 3)
        % 2 ^ 3
      ≡ (if q == pin then f else mem (gpio_base + 4 * (q / 10)) / 2 ^ (q % 10 * 3) % 2 ^ 3)
fsel_case mem pin q f word hf = elim (Bool-cases (q == pin)) [
  | inl e ↦
      rw (e, ==→eq q pin e, ==_refl (gpio_base + 4 * (pin / 10)))
        (field_same (mem (gpio_base + 4 * (pin / 10))) (pin % 10 * 3) f word (omega arith) hf)
  | inr e ↦ rw e (elim (Bool-cases (gpio_base + 4 * (q / 10) == gpio_base + 4 * (pin / 10))) [
    | inl same ↦
        let at = ==→eq (gpio_base + 4 * (q / 10)) (gpio_base + 4 * (pin / 10)) same in
        rw same (
          field_other (mem (gpio_base + 4 * (pin / 10))) (pin % 10 * 3) f (q % 10 * 3) word
            (omega arith) hf (ground arith)
          ∙ ap (λ a. mem a / 2 ^ (q % 10 * 3) % 2 ^ 3) (sym at))
    | inr other ↦ rw other
  ])
]

-- For a pin of the board and a function, the pin's field becomes the function, the field of every
-- other pin stays, one register is written, and the other registers keep their values.
pub gpio_set_function-fsel :
    (pin f q a : ℕ) (b : Bus)
    → bad_pin pin ≡ false
    → f ≤ 7
    → b.mem (gpio_base + 4 * (pin / 10)) < 2 ^ 32
    → let b' = gpio_set_function pin f b in
      (fsel q b' ≡ (if q == pin then f else fsel q b))
      × (b'.mem a ≡ (
          if a == gpio_base + 4 * (pin / 10) then b'.mem (gpio_base + 4 * (pin / 10)) else b.mem a))
      × (b'.writes
          ≡ b.writes ++ ((gpio_base + 4 * (pin / 10), b'.mem (gpio_base + 4 * (pin / 10))) ∷ []))
unfolding gpio_set_function update
gpio_set_function-fsel pin f q a b ok hf word =
    let addr = gpio_base + 4 * (pin / 10) in
    let v = b.mem addr in
    let k = pin % 10 * 3 in
    let in_word : k + 3 ≤ 32 = omega arith in
    let small : ltb 7 f ≡ false = ground arith in
    rw (ok, small, command_lem f hf)
      (fsel_case b.mem pin q f word (omega arith), rw (==_refl addr), rw (==_refl addr))

-- For any other pin or function nothing is read or written.
pub gpio_set_function_refuses :
    (pin f : ℕ) (b : Bus) → (bad_pin pin ≡ true) ⊎ (7 < f) → gpio_set_function pin f b ≡ b
unfolding gpio_set_function
gpio_set_function_refuses pin f b h = ground arith

-- The register of the pin stays a word.
pub gpio_set_function-lt :
    (pin f : ℕ) (b : Bus)
    → bad_pin pin ≡ false
    → f ≤ 7
    → b.mem (gpio_base + 4 * (pin / 10)) < 2 ^ 32
    → (gpio_set_function pin f b).mem (gpio_base + 4 * (pin / 10)) < 2 ^ 32
unfolding gpio_set_function update
gpio_set_function-lt pin f b ok hf word =
    let v = b.mem (gpio_base + 4 * (pin / 10)) in
    let k = pin % 10 * 3 in
    let in_word : k + 3 ≤ 32 = omega arith in
    let small : ltb 7 f ≡ false = ground arith in
    let fits : written v k f < 2 ^ 32 = lt_of_bits 32 (written v k f) λ i le.
      written_digit v k f i word in_word (omega arith)
      ∙ ground (arith, bit-high 32 v i word le, in_word) in
    rw (ok, small, command_lem f hf, ==_refl (gpio_base + 4 * (pin / 10))) fits
