-- ===== src/Render/Random.antt =====
-- The generator of render.c: the ranges of its numbers, and the circles.
use cs140e_final_parallel_co.Base.{
  ℕ, zero, suc, ◌+◌, ◌-◌, ◌/◌, ◌%◌, ◌^◌, ◌<◌, ◌≤◌, ◌≡◌, ap, ◌∙◌, arith, bit_and, ◌==◌, Bool-cases,
  inl, inr, ==→eq, ◌≢◌,
}
use cs140e_final_parallel_co.Base.Bits.{bit, bit-and, bit-zero, bits_ext, and_low, bit_and-mask}
use cs140e_final_parallel_co.Render.{
  lcg, random_range, Circles, write_at, make_circle, make_circles,
}

bit_and-le : (fuel a b : ℕ) → b ≤ fuel → bit_and a b ≤ b
bit_and-le fuel a zero h =
    omega (arith, ap (λ (n : ℕ). n) (bits_ext (bit_and a 0) 0 (λ i. zero_bit i)))
  where
    zero_bit : (i : ℕ) → bit (bit_and a 0) i ≡ bit 0 i
    zero_bit i = omega (arith, bit-and a 0 i, bit-zero i)
bit_and-le zero a (suc b) h = absurd (omega arith)
bit_and-le (suc fuel) a (suc b) h =
    let half = bit_and-le fuel (a / 2) (suc b / 2) (omega arith) in
    omega (arith, and_low a (suc b), half)

-- `random_range` stays in its range, and where the range has a power of two of numbers it is the
-- generator's number modulo that power.
pub random_range_bounds :
    (min max seed : ℕ)
    → min < max
    → (min ≤ (random_range min max seed).1)
      × ((random_range min max seed).1 < max)
      × ((k : ℕ) → max - min ≡ 2 ^ k → (random_range min max seed).1 ≡ (lcg seed).1 % 2 ^ k + min)
unfolding random_range
random_range_bounds min max seed h =
    let drawn = (lcg seed).1 in
    let low = bit_and-le (max - min - 1) drawn (max - min - 1) (omega arith) in
    (
      omega arith,
      omega (arith, low),
      λ k e. ap (λ w. bit_and drawn (w - 1) + min) e ∙ ap (λ v. v + min) (bit_and-mask k drawn),
    )

-- Circle `k` lies in an image of `n` rows, its radius in its range, and its colours are bytes.
abbrev pub InImage : (n : ℕ) → Circles → ℕ → Type 0
InImage n cs k =
    (cs.x k < n)
    × (cs.y k < n)
    × (n / 20 ≤ cs.radius k)
    × (cs.radius k < n / 7)
    × (cs.r k < 256)
    × (cs.g k < 256)
    × (cs.b k < 256)

write_at_self : (f : ℕ → ℕ) (i v : ℕ) → write_at f i v i ≡ v
unfolding write_at
write_at_self f i v = ground arith

write_at_ne : (f : ℕ → ℕ) (i v k : ℕ) → k ≢ i → write_at f i v k ≡ f k
unfolding write_at
write_at_ne f i v k h = ground arith

make_circle-InImage : (n i : ℕ) (s : Circles × ℕ) → 7 ≤ n → InImage n (make_circle n i s).0 i
unfolding make_circle
make_circle-InImage n i (cs, s0) h =
    let s1 = (random_range 0 n s0).0 in
    let s2 = (random_range 0 n s1).0 in
    let x = random_range_bounds 0 n s0 (omega arith) in
    let y = random_range_bounds 0 n s1 (omega arith) in
    let radius = random_range_bounds (n / 20) (n / 7) s2 (omega arith) in
    (
      omega (arith, write_at_self cs.x i, x.1),
      omega (arith, write_at_self cs.y i, y.1),
      omega (arith, write_at_self cs.radius i, radius.0),
      omega (arith, write_at_self cs.radius i, radius.1),
      omega (arith, write_at_self cs.r i),
      omega (arith, write_at_self cs.g i),
      omega (arith, write_at_self cs.b i),
    )

make_circle_keeps :
    (n i k : ℕ) (s : Circles × ℕ) → k ≢ i → InImage n s.0 k → InImage n (make_circle n i s).0 k
unfolding make_circle
make_circle_keeps n i k (cs, s0) ne h =
    rw
      (
        write_at_ne cs.x i _ k ne,
        write_at_ne cs.y i _ k ne,
        write_at_ne cs.radius i _ k ne,
        write_at_ne cs.r i _ k ne,
        write_at_ne cs.g i _ k ne,
        write_at_ne cs.b i _ k ne,
      )
      h

make_circles-InImage :
    (n left i : ℕ) (s : Circles × ℕ) (k : ℕ)
    → 7 ≤ n
    → k < i + left
    → (k < i → InImage n s.0 k)
    → InImage n (make_circles n left i s).0 k
unfolding make_circles
make_circles-InImage n zero i s k h lt old = old (omega arith)
make_circles-InImage n (suc left) i s k h lt old =
    make_circles-InImage n left (i + 1) (make_circle n i s) k h (omega arith) (λ below.
      elim (Bool-cases (k == i)) [
        | inl e ↦ rw (==→eq k i e) (make_circle-InImage n i s h)
        | inr e ↦ make_circle_keeps n i k s (λ same. ground arith) (old (ground arith))
      ])

-- Whatever the seed is, each of the circles that the root makes lies in the image, with a radius in its
-- range and with colours that fit a byte; the image has seven rows or more.
pub circles_bounds :
    (n count seed k : ℕ) (cs : Circles)
    → 7 ≤ n
    → k < count
    → InImage n (make_circles n count 0 (cs, seed)).0 k
circles_bounds n count seed k cs h lt =
    make_circles-InImage n count 0 (cs, seed) k h (omega arith) (λ below. absurd (omega arith))
