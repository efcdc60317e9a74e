-- ===== src/Circular/Window.antt =====
-- The elements between `tail` and `head`, oldest first.
use cs140e_final_parallel_co.Base.{
  ℕ, zero, suc, ◌+◌, ◌-◌, ◌*◌, ◌%◌, ◌^◌, ◌≤◌, ◌<◌, ◌≡◌, refl, ap, ◌∙◌, sym, true, false, List, [],
  ◌∷◌, ◌++◌, arith, leb, ◌==◌, if◌then◌else◌, u32, length, Bool-cases, inl, inr, leb→le, ==→eq,
}
use native.Mathlib.Nat.{mod-eq_of_lt, add-mul-mod_self_left, mod_self, mul-suc}
use cs140e_final_parallel_co.Circular.{Cq, poke, cq_nelem}

-- What the operations keep: the two indices stay inside the buffer.
abbrev pub InRange : ℕ → Cq → Type 0
InRange cq_n q = (q.head < cq_n) × (q.tail < cq_n)

-- The next index.
abbrev pub next : ℕ → ℕ → ℕ
next cq_n i = if suc i == cq_n then 0 else suc i

pub next_lem : (cq_n i : ℕ) → i < cq_n → cq_n ≤ 2 ^ 32 → (u32 (i + 1)) % cq_n ≡ next cq_n i
next_lem cq_n i h le = elim (Bool-cases (suc i == cq_n)) [
  | inl e ↦
      let at : i + 1 ≡ cq_n = ground arith in
      rw (e, at)
        (elim (Bool-cases (cq_n == 2 ^ 32)) [
          | inl top ↦ rw (==→eq cq_n (2 ^ 32) top) refl
          | inr low ↦
              let fits : cq_n < 2 ^ 32 = ground arith in rw (mod-eq_of_lt fits) (mod_self cq_n)
        ])
  | inr e ↦
      let low : i + 1 < cq_n = ground arith in
      let fits : i + 1 < 2 ^ 32 = omega arith in
      rw (e, mod-eq_of_lt fits) (mod-eq_of_lt low ∙ omega arith)
]

-- How far `head` is in front of `tail`.
abbrev pub span : (cq_n head tail : ℕ) → ℕ
span cq_n head tail = if leb tail head then head - tail else head + cq_n - tail

abbrev pub elems : ℕ → Cq → ℕ
elems cq_n q = span cq_n q.head q.tail

pub size_bounds :
    (cq_n m : ℕ) → cq_n * m ≡ 2 ^ 32 → (cq_n ≤ 2 ^ 32) × (cq_n * (m - 1) + cq_n ≡ 2 ^ 32)
size_bounds cq_n zero size = absurd (omega arith)
size_bounds cq_n (suc k) size =
    let one_less : suc k - 1 ≡ k = omega arith in
    let eq = ap (λ j. cq_n * j + cq_n) one_less ∙ sym (mul-suc cq_n k) ∙ size in
    (omega (arith, mul-suc cq_n k), eq)

-- The difference of two `unsigned` indices, for a size that divides 2 ^ 32.
pub span_lem :
    (cq_n m head tail : ℕ)
    → cq_n * m ≡ 2 ^ 32
    → head < cq_n
    → tail < cq_n
    → u32 (head + 2 ^ 32 - tail) % cq_n ≡ span cq_n head tail
span_lem cq_n m head tail size h t = elim (Bool-cases (leb tail head)) [
  | inl le ↦
      let le' = leb→le tail head le in
      let below : head - tail < cq_n = omega arith in
      let at : u32 (head + 2 ^ 32 - tail) ≡ head - tail =
        omega (arith, (size_bounds cq_n m size).0) in
      rw (le, at) (mod-eq_of_lt below)
  | inr gt ↦
      let gt' : head < tail = ground arith in
      let low : head + cq_n - tail < cq_n = omega arith in
      let at : u32 (head + 2 ^ 32 - tail) ≡ head + cq_n - tail + cq_n * (m - 1) =
        omega (arith, (size_bounds cq_n m size).0, (size_bounds cq_n m size).1, gt') in
      rw (gt, at) (add-mul-mod_self_left (head + cq_n - tail) cq_n (m - 1) ∙ mod-eq_of_lt low)
]

pub nelem_lem :
    (cq_n m : ℕ) (q : Cq) → cq_n * m ≡ 2 ^ 32 → InRange cq_n q → cq_nelem cq_n q ≡ elems cq_n q
unfolding cq_nelem
nelem_lem cq_n m q size (h, t) = span_lem cq_n m q.head q.tail size h t

abbrev pub window {ℓ} : {A : Type ℓ} → ℕ → (ℕ → A) → (start left : ℕ) → List A
window cq_n mem start zero = []
window cq_n mem start (suc left) = mem start ∷ window cq_n mem (next cq_n start) left

-- The queue as a list.
unfoldable pub contents : ℕ → Cq → List ℕ
contents cq_n q = window cq_n q.c_buf q.tail (elems cq_n q)

pub length-window {ℓ} :
    {A : Type ℓ} (cq_n : ℕ) (mem : ℕ → A) (start left : ℕ)
    → length (window cq_n mem start left) ≡ left
length-window cq_n mem start zero = refl
length-window cq_n mem start (suc left) = ap suc (length-window cq_n mem (next cq_n start) left)

-- The index `k` places behind `start`.
abbrev pub wrap : (cq_n i : ℕ) → ℕ
wrap cq_n i = if leb cq_n i then i - cq_n else i

-- A write at the end of a window that does not fill the buffer appends to it.
pub window-poke {ℓ} :
    {A : Type ℓ} (cq_n : ℕ) (mem : ℕ → A) (x : A) (start left end : ℕ)
    → start < cq_n
    → left < cq_n
    → end ≡ wrap cq_n (start + left)
    → window cq_n (poke mem end x) start (suc left) ≡ window cq_n mem start left ++ (x ∷ [])
unfolding poke
window-poke cq_n mem x start zero end hs hl e = rw at refl
  where
    at : (start == end) ≡ true
    at = ground arith
window-poke cq_n mem x start (suc left) end hs hl e = rw other (
    ap (◌∷◌ (mem start)) (
      window-poke cq_n mem x (next cq_n start) left end (ground arith) (omega arith)
        (ground arith)))
  where
    other : (start == end) ≡ false
    other = ground arith

-- A write at `head`, which then moves on, appends to the elements as long as two places are free.
pub window-pushed {ℓ} :
    {A : Type ℓ} (cq_n head tail : ℕ) (mem : ℕ → A) (x : A)
    → head < cq_n
    → tail < cq_n
    → span cq_n head tail + 1 < cq_n
    → window cq_n (poke mem head x) tail (span cq_n (next cq_n head) tail)
      ≡ window cq_n mem tail (span cq_n head tail) ++ (x ∷ [])
window-pushed cq_n head tail mem x h t few =
    ap (window cq_n (poke mem head x) tail) more
    ∙ window-poke cq_n mem x tail (span cq_n head tail) head t (omega arith) (ground arith)
  where
    more : span cq_n (next cq_n head) tail ≡ suc (span cq_n head tail)
    more = ground arith
