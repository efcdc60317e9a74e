-- ===== src/Libc/Text/Bounded.antt =====
-- The routines with a bound: `safe_strcpy` and `strncmp`.
use cs140e_final_parallel_co.Base.{
  ℕ, zero, suc, ◌+◌, ◌-◌, ◌<◌, ◌≤◌, ◌≡◌, ◌≢◌, ◌↔◌, refl, ap, ◌∙◌, true, false, List, [], ◌∷◌, ◌++◌,
  some, append_assoc, arith, ltb, ◌==◌, Bool-cases, inl, inr, ==→eq, length, length-append, set,
  take, drop, take_all,
}
use cs140e_final_parallel_co.Base.Int.{pos, sub_ℕ}
use cs140e_final_parallel_co.Libc.Text.{strncmp, safe_loop, safe_strcpy}
use cs140e_final_parallel_co.Libc.Text.Laws.{IsText, ended, set-append}

module _ (r : List ℕ) where
  -- The text is shorter than the loop is long: its 0 is copied.
  safe_loop_short :
      (left : ℕ) (s d pad : List ℕ)
      → IsText s
      → length s < left
      → left ≤ length pad
      → safe_loop left (length d) (d ++ pad) (ended s r)
        ≡ some (true, d ++ ended s (drop (length s + 1) pad))
  unfolding safe_loop
  safe_loop_short zero s d pad t short fits = absurd (omega arith)
  safe_loop_short (suc left) s d [] t short fits = absurd (omega arith)
  safe_loop_short (suc left) [] d (x ∷ pad) t short fits =
      let room : ltb (length d) (length (d ++ (x ∷ pad))) ≡ true =
        ground (arith, length-append d (x ∷ pad)) in
      rw (room, set-append d pad x 0) refl
  safe_loop_short (suc left) (c ∷ s) d (x ∷ pad) t short fits =
      let room : ltb (length d) (length (d ++ (x ∷ pad))) ≡ true =
        ground (arith, length-append d (x ∷ pad)) in
      let more : (c == 0) ≡ false = ground (arith, t.0) in
      let after : length (d ++ (c ∷ [])) ≡ length d + 1 = omega (arith, length-append d (c ∷ [])) in
      let cut : suc (length s) + 1 ≡ suc (length s + 1) = omega arith in
      let ih = safe_loop_short left s (d ++ (c ∷ [])) pad t.1 (omega arith) (omega arith) in
      let ih' =
        rw
          (
            after,
            append_assoc d (c ∷ []) pad,
            append_assoc d (c ∷ []) (ended s (drop (length s + 1) pad)),
          )
          at ih in
      rw (room, more, set-append d pad x c, cut) ih'

  -- The text is at least as long as the loop: its beginning is copied.
  safe_loop_long :
      (left : ℕ) (s d pad : List ℕ)
      → IsText s
      → left ≤ length s
      → left ≤ length pad
      → safe_loop left (length d) (d ++ pad) (ended s r)
        ≡ some (false, d ++ (take left s ++ drop left pad))
  unfolding safe_loop
  safe_loop_long zero s d pad t long fits = refl
  safe_loop_long (suc left) [] d pad t long fits = absurd (omega arith)
  safe_loop_long (suc left) s d [] t long fits = absurd (omega arith)
  safe_loop_long (suc left) (c ∷ s) d (x ∷ pad) t long fits =
      let room : ltb (length d) (length (d ++ (x ∷ pad))) ≡ true =
        ground (arith, length-append d (x ∷ pad)) in
      let more : (c == 0) ≡ false = ground (arith, t.0) in
      let after : length (d ++ (c ∷ [])) ≡ length d + 1 = omega (arith, length-append d (c ∷ [])) in
      let ih = safe_loop_long left s (d ++ (c ∷ [])) pad t.1 (omega arith) (omega arith) in
      let ih' =
        rw
          (
            after,
            append_assoc d (c ∷ []) pad,
            append_assoc d (c ∷ []) (take left s ++ drop left pad),
          )
          at ih in
      rw (room, more, set-append d pad x c) ih'

set-take-drop :
    (n : ℕ) (s dst : List ℕ)
    → n ≤ length s
    → n < length dst
    → set (take n s ++ drop n dst) n 0 ≡ take n s ++ (0 ∷ drop (suc n) dst)
set-take-drop zero s [] h fits = absurd (omega arith)
set-take-drop zero s (x ∷ dst) h fits = refl
set-take-drop (suc n) [] dst h fits = absurd (omega arith)
set-take-drop (suc n) s [] h fits = absurd (omega arith)
set-take-drop (suc n) (c ∷ s) (x ∷ dst) h fits =
    ap (◌∷◌ c) (set-take-drop n s dst (omega arith) (omega arith))

-- `safe_strcpy` into an array of at least `n` bytes: for `n` = 0 nothing is written; a text of fewer than
-- `n` characters is copied whole with its 0; of a longer one the first `n - 1` characters are copied and a
-- 0 is put behind them. No byte from `n` on is written in any case.
pub safe_strcpy-ended :
    (dst s r : List ℕ) (n : ℕ)
    → IsText s
    → n ≤ length dst
    → (n ≡ 0 → safe_strcpy dst (ended s r) n ≡ some dst)
      × (length s < n → safe_strcpy dst (ended s r) n ≡ some (ended s (drop (length s + 1) dst)))
      × (0 < n
          → n ≤ length s
          → safe_strcpy dst (ended s r) n ≡ some (ended (take (n - 1) s) (drop n dst)))
unfolding safe_strcpy
safe_strcpy-ended dst s r n t fits = (zero_case, short, long)
  where
    zero_case : n ≡ 0 → safe_strcpy dst (ended s r) n ≡ some dst
    zero_case e = rw e refl

    cut :
        0 < n
        → n - 1 ≤ length s
        → safe_strcpy dst (ended s r) n ≡ some (ended (take (n - 1) s) (drop n dst))
    cut nz h =
        let nonzero : (n == 0) ≡ false = ground arith in
        let room : ltb (n - 1) (length dst) ≡ true = ground arith in
        let last : suc (n - 1) ≡ n = omega arith in
        let write = set-take-drop (n - 1) s dst h (omega arith) in
        let write' = rw last at write in
        rw (nonzero, safe_loop_long r (n - 1) s [] dst t h (omega arith), room) (ap some write')

    long :
        0 < n
        → n ≤ length s
        → safe_strcpy dst (ended s r) n ≡ some (ended (take (n - 1) s) (drop n dst))
    long nz h = cut nz (omega arith)

    short : length s < n → safe_strcpy dst (ended s r) n ≡ some (ended s (drop (length s + 1) dst))
    short h = elim (Bool-cases (ltb (length s) (n - 1))) [
      | inl lt ↦
          let nonzero : (n == 0) ≡ false = ground arith in
          rw (nonzero, safe_loop_short r (n - 1) s [] dst t (ground arith) (omega arith)) refl
      | inr ge ↦
          let same : n ≡ length s + 1 = ground arith in
          let all : n - 1 ≡ length s = omega arith in
          cut (omega arith) (omega arith) ∙ rw (all, take_all (length s) s (omega arith), same) refl
    ]

-- `strncmp` is 0 exactly when the first `n` bytes agree, those behind a 0 included.
pub strncmp-take :
    (s t : List ℕ) (n : ℕ)
    → n ≤ length s
    → n ≤ length t
    → (strncmp s t n ≡ some (pos 0)) ↔ (take n s ≡ take n t)
unfolding strncmp
strncmp-take s t zero hs ht = ((λ _. refl), (λ _. refl))
strncmp-take [] t (suc n) hs ht = absurd (omega arith)
strncmp-take s [] (suc n) hs ht = absurd (omega arith)
strncmp-take (x ∷ s) (y ∷ t) (suc n) hs ht = elim (Bool-cases (x == y)) [
  | inl e ↦
      let xy : x ≡ y = ==→eq x y e in
      let ih = strncmp-take s t n (omega arith) (omega arith) in
      rw e ((λ z. let st = ih.0 z in cc), (λ z. ih.1 (cc)))
  | inr e ↦
      let ne : sub_ℕ x y ≢ pos 0 = λ z. ground arith in
      rw e ((λ z. absurd (ne (ground arith))), (λ z. let xy : x ≡ y = cc in ground arith))
]
