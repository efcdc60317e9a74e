-- ===== src/SwUart/Frame.antt =====
-- A byte that `sw_uart_put8` writes on the line is the byte that the other side samples.
use cs140e_final_parallel_co.Base.{
  ℕ, zero, suc, ◌+◌, ◌-◌, ◌*◌, ◌/◌, ◌%◌, ◌^◌, ◌≤◌, ◌<◌, ◌≡◌, sym, ap, ◌∙◌, Bool, true, false, not,
  List, [], ◌∷◌, some, bit_and, bit_or, leb, ◌==◌, if◌then◌else◌, arith, u32, Bool-cases, inl, inr,
  ==→eq,
}
use native.Mathlib.Nat.{mod-eq_of_lt, mul_comm, add-zero, add-sub_cancel, mod-one, mul-zero}
use cs140e_final_parallel_co.Base.Bits.{
  bit, bit-lt, bit-or, bit-mod, bits_ext, bit-shl, bit-zero, masked_digit,
}
use cs140e_final_parallel_co.SwUart.{
  Uart, Write, sw_uart_put8, timeline, level, get_bits, Look, wait_until_usec, sw_uart_get8_timeout,
}

-- Writes of `v k` at the `k`-th bit's boundary.
abbrev frame : (n : ℕ) (v : ℕ → Bool) (left k : ℕ) → List Write
frame n v zero k = []
frame n v (suc left) k = (n * k, v k) ∷ frame n v left (k + 1)

module _ (n start : ℕ) (late : ℕ → ℕ) (v : ℕ → Bool) where
  -- Between two writes the line has the level of the first.
  level-frame :
      (left k m t : ℕ) (now : Bool)
      → k ≤ m
      → m < k + left
      → ((j : ℕ) → j ≤ m → start + n * j + late j ≤ t)
      → t < start + n * (m + 1) + late (m + 1)
      → level (timeline start late k (frame n v left k)) t now ≡ v m
  unfolding level timeline
  level-frame zero k m t now l h before behind = absurd (omega arith)
  level-frame (suc left) k m t now l h before behind = elim (Bool-cases (k == m)) [
    | inl e ↦ rw (before_k (omega arith)) (last left (==→eq k m e))
    | inr e ↦
        rw (before_k (omega arith))
          (level-frame left (k + 1) m t (v k) (ground arith) (omega arith) before behind)
  ]
    where
      before_k : k ≤ m → leb (start + n * k + late k) t ≡ true
      before_k h = ground (arith, before k h)

      last :
          (left : ℕ)
          → k ≡ m
          → level (timeline start late (k + 1) (frame n v left (k + 1))) t (v k) ≡ v m
      last zero e = ap v e
      last (suc left) e = rw (e, not_yet)
        where
          not_yet : leb (start + n * (m + 1) + late (m + 1)) t ≡ false
          not_yet = ground arith

-- The level of each write of a byte's frame.
abbrev levels : ℕ → ℕ → Bool
levels b k = if k == 0 then false else if k == 9 then true else not (bit_and b (2 ^ (k - 1)) == 0)

put8-frame :
    (uart : Uart) (b : ℕ)
    → uart.cycle_per_bit * 10 < 2 ^ 32
    → sw_uart_put8 uart b ≡ frame uart.cycle_per_bit (levels b) 10 0
unfolding sw_uart_put8
put8-frame uart b h = rw (
  mul-zero,
  fits 1 (omega arith),
  fits 2 (omega arith),
  fits 3 (omega arith),
  fits 4 (omega arith),
  fits 5 (omega arith),
  fits 6 (omega arith),
  fits 7 (omega arith),
  fits 8 (omega arith),
  fits 9 (omega arith),
)
  where
    fits : (k : ℕ) → k ≤ 10 → u32 (uart.cycle_per_bit * k) ≡ uart.cycle_per_bit * k
    fits k le = mod-eq_of_lt (grind arith)

sample_step : (b i : ℕ) → bit_or (b % 2 ^ i) (bit b i * 2 ^ i) ≡ b % 2 ^ (i + 1)
sample_step b i = bits_ext (bit_or (b % 2 ^ i) (bit b i * 2 ^ i)) (b % 2 ^ (i + 1)) λ j.
    bit-or (b % 2 ^ i) (bit b i * 2 ^ i) j ∙ elim (Bool-cases (j == i)) [
      | inl e ↦ rw (==→eq j i e) (
          ground (
            arith,
            bit-mod i b i,
            bit-mod (i + 1) b i,
            bit-shl i (bit b i) i,
            digit (bit b i) (i - i) (bit-lt b i),
          ))
      | inr e ↦ ground (
        arith,
        bit-mod i b j,
        bit-mod (i + 1) b j,
        bit-shl i (bit b i) j,
        digit (bit b i) (j - i) (bit-lt b i),
        bit-lt b j,
      )
    ]
  where
    digit : (d m : ℕ) → d < 2 → bit d m ≡ (if m == 0 then d else 0)
    digit d zero h = omega arith
    digit d (suc m) h = ap (λ y. bit y m) (half d h) ∙ bit-zero m ∙ ground arith
      where
        half : (d : ℕ) → d < 2 → d / 2 ≡ 0
        half d h = omega arith

-- Samples that are the digits of `b` add up to `b`.
get_bits_lem :
    (line : ℕ → Bool) (n start : ℕ) (slack : ℕ → ℕ) (b left i : ℕ)
    → ((j : ℕ)
        → i ≤ j
        → j < i + left
        → (if line (start + u32 ((j + 1) * n) + slack j) then 1 else 0) ≡ bit b j)
    → get_bits line n start slack left i (b % 2 ^ i) ≡ b % 2 ^ (i + left)
unfolding get_bits
get_bits_lem line n start slack b zero i digits = rw add-zero
get_bits_lem line n start slack b (suc left) i digits =
    rw (digits i (omega arith) (omega arith), sample_step)
      (get_bits_lem line n start slack b left (i + 1)
          (λ j l h. digits j (omega arith) (omega arith))
        ∙ ap (λ k. b % 2 ^ k) (omega arith))

bits_le : (n a b : ℕ) → a ≤ b → n * a ≤ n * b
bits_le n a b h = grind arith

levels-bit : (b j : ℕ) → j < 8 → (if levels b (j + 1) then 1 else 0) ≡ bit b j
levels-bit b j h = rw (first, last, add-sub_cancel, masked_digit) (ground (arith, bit-lt b j))
  where
    first : (j + 1 == 0) ≡ false
    first = ground arith

    last : (j + 1 == 9) ≡ false
    last = ground arith

-- Where the receiver has started `lag` cycles behind the sender, no write of the sender comes more
-- than `lag` cycles late, and every sample of the receiver is taken less than a bit's time after
-- its boundary, lag included, the receiver returns the byte that the sender put on the line.
pub get8-put8 :
    (sender receiver : Uart) (b start lag timeout : ℕ) (late slack : ℕ → ℕ) (first : Bool)
    (looks : List Look)
    → b < 2 ^ 8
    → receiver.cycle_per_bit ≡ sender.cycle_per_bit
    → sender.cycle_per_bit * 10 < 2 ^ 32
    → ((k : ℕ) → k ≤ 9 → late k ≤ lag)
    → ((i : ℕ) → i < 8 → lag + slack i < sender.cycle_per_bit)
    → wait_until_usec timeout first looks ≡ some true
    → sw_uart_get8_timeout receiver timeout first looks
        (λ t. level (timeline start late 0 (sw_uart_put8 sender b)) t true)
        (start + lag)
        slack
      ≡ some (some b)
unfolding sw_uart_get8_timeout
get8-put8 sender receiver b start lag timeout late slack first looks byte_b same fits on_time in_bit
      started =
    rw (started, same)
      (ap (λ x. some (some x))
        (ap (get_bits line n (start + lag) slack 8 0) (sym (mod-one b))
          ∙ get_bits_lem line n (start + lag) slack b 8 0 (λ j _ h. sample j h)
          ∙ mod-eq_of_lt byte_b))
  where
    n : ℕ
    n = sender.cycle_per_bit

    line : ℕ → Bool
    line t = level (timeline start late 0 (sw_uart_put8 sender b)) t true

    sample :
        (j : ℕ)
        → j < 8
        → (if line (start + lag + u32 ((j + 1) * n) + slack j) then 1 else 0) ≡ bit b j
    sample j h =
        let at : (j + 1) * n % 2 ^ 32 ≡ n * (j + 1) =
          mod-eq_of_lt (omega (arith, bits_le n (j + 1) 10 (omega arith))) ∙ mul_comm (j + 1) n in
        rw
          (
            at,
            put8-frame sender b fits,
            level-frame n start late (levels b) 10 0 (j + 1) (start + lag + n * (j + 1) + slack j)
                true (omega arith) (omega arith)
                (λ k le. omega (arith, bits_le n k (j + 1) le, on_time k (omega arith)))
                (omega (arith, in_bit j h)),
          )
          (levels-bit b j h)
