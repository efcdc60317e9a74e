-- ===== src/Printk/Numbers.antt =====
-- `emit_val` prints the numeral of the number.
use cs140e_final_parallel_co.Base.{
  ℕ, zero, suc, ◌+◌, ◌-◌, ◌*◌, ◌/◌, ◌%◌, ◌^◌, ◌≤◌, ◌<◌, ◌≡◌, inl, inr, refl, sym, ap, ◌∙◌, true,
  false, ◌||◌, List, [], ◌∷◌, some, arith, ltb, ◌==◌, if◌then◌else◌, get_or, Bool-cases, ==→eq,
}
use native.Mathlib.Nat.{
  div-add-mod', div-lt_iff_lt-mul, pow-suc, mul-le-mul_left, mod-lt, zero-div, div-le_self,
}
use cs140e_final_parallel_co.Printk.{digit, digits_loop, emit_val}

-- The value of a digit character.
abbrev pub undigit : ℕ → ℕ
undigit c = if ltb c 58 then c - 48 else c - 87

-- The number that a numeral continues from `v`.
abbrev pub value : (base v : ℕ) → List ℕ → ℕ
value base v [] = v
value base v (c ∷ cs) = value base (v * base + undigit c) cs

undigit-digit : (d : ℕ) → d < 16 → undigit (digit d) ≡ d
undigit-digit d h = ground arith

half : (base u k : ℕ) → 2 ≤ base → u < 2 ^ suc k → u / base < 2 ^ k
half base u k two h =
    (div-lt_iff_lt-mul {k = base} {x = u} {y = 2 ^ k} (omega arith)).1
      (omega (arith, pow-suc 2 k, mul-le-mul_left (2 ^ k) two))

joined : (base u : ℕ) → 2 ≤ base → base ≤ 16 → u / base * base + undigit (digit (u % base)) ≡ u
joined base u two top =
    let pos : 0 < base = omega arith in
    let small : u % base < 16 = omega (arith, mod-lt u pos) in
    ap (λ d. u / base * base + d) (undigit-digit (u % base) small) ∙ div-add-mod' u base

nonzero : (base u : ℕ) → (u / base == 0) ≡ false → (u == 0) ≡ false
nonzero base u e = ground (arith, zero-div base, div-le_self u base)

-- The last round of the loop.
last :
    (base room u : ℕ) (num : List ℕ)
    → 2 ≤ base
    → base ≤ 16
    → (u / base == 0) ≡ true
    → (ds : List ℕ) × (digits_loop base (suc room) u num ≡ some ds)
      × (value base 0 ds ≡ value base u num)
      × ((get_or ds 0 0 == 48) ≡ (u == 0))
unfolding digits_loop
last base room u num two top e =
    let none_left : u / base ≡ 0 = ==→eq (u / base) 0 e in
    let own : u % base ≡ u = omega (arith, div-add-mod' u base, ap (λ q. q * base) none_left) in
    let pos : 0 < base = omega arith in
    let small : u < 16 = omega (arith, mod-lt u pos, own) in
    (
      digit (u % base) ∷ num,
      rw e refl,
      ap (λ v. value base v num)
          (ap (λ q. q * base + undigit (digit (u % base))) (sym none_left) ∙ joined base u two top),
      rw own (ground arith),
    )

single : (base u : ℕ) → 2 ≤ base → u < 2 ^ 1 → (u / base == 0) ≡ true
single base u two h = let low : u / base < 1 = half base u 0 two h in ground arith

digits_loop_lem :
    (base room u : ℕ) (num : List ℕ)
    → 2 ≤ base
    → base ≤ 16
    → u < 2 ^ suc room
    → (ds : List ℕ) × (digits_loop base (suc room) u num ≡ some ds)
      × (value base 0 ds ≡ value base u num)
      × ((get_or ds 0 0 == 48) ≡ (u == 0))
unfolding digits_loop
digits_loop_lem base zero u num two top h = last base 0 u num two top (single base u two h)
digits_loop_lem base (suc room) u num two top h = elim (Bool-cases (u / base == 0)) [
  | inl e ↦ last base (suc room) u num two top e
  | inr e ↦
      let num' = digit (u % base) ∷ num in
      let (ds, ran, same, head) =
        digits_loop_lem base room (u / base) num' two top (half base u (suc room) two h) in
      (
        ds,
        rw e ran,
        same ∙ ap (λ v. value base v num) (joined base u two top),
        head ∙ e ∙ sym (nonzero base u e),
      )
]

-- The characters of a numeral: its value, and no leading 0 but in the numeral of 0.
abbrev pub Numeral : (base u : ℕ) → List ℕ → Type 0
Numeral base u ds = (value base 0 ds ≡ u) × ((get_or ds 0 0 == 48) ≡ (u == 0))

-- In the bases 2, 10 and 16 `emit_val` prints the numeral of any `uint32_t`, which fits the buffer of
-- 33 characters.
pub emit_val_lem :
    (base u : ℕ)
    → ((base == 2) || (base == 10) || (base == 16)) ≡ true
    → u < 2 ^ 32
    → (ds : List ℕ) × (emit_val base u ≡ some ds) × Numeral base u ds
unfolding emit_val
emit_val_lem base u known h =
    let two : 2 ≤ base = ground arith in
    let top : base ≤ 16 = ground arith in
    let (ds, ran, same, head) = digits_loop_lem base 32 u [] two top (omega arith) in
    (ds, rw known ran, (same, head))
