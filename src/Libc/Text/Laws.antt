-- ===== src/Libc/Text/Laws.antt =====
-- What the string routines do on texts that end in a 0.
use cs140e_final_parallel_co.Base.{
  ℕ, suc, ◌+◌, ◌-◌, ◌<◌, ◌≤◌, ◌≡◌, ◌≢◌, ◌↔◌, refl, ap, ◌∙◌, true, false, List, [], ◌∷◌, ◌++◌, some,
  append_assoc, arith, ltb, ◌==◌, Bool-cases, inl, inr, ==→eq, length, length-append, set, drop,
}
use cs140e_final_parallel_co.Base.Results.{◌>>=◌}
use cs140e_final_parallel_co.Base.Int.{pos, sub_ℕ}
use cs140e_final_parallel_co.Libc.Text.{
  strlen_loop, strlen, strcmp, copy_loop, strcpy, end_loop, strcat,
}

-- No character of the text is 0.
abbrev pub IsText : List ℕ → Type 0
IsText [] = Unit {0}
IsText (c ∷ s) = (c ≢ 0) × IsText s

-- The array that begins with the text, its 0 and the rest.
abbrev pub ended : (text rest : List ℕ) → List ℕ
ended text rest = text ++ (0 ∷ rest)

strlen_loop_lem :
    (s r : List ℕ) (k : ℕ) → IsText s → strlen_loop (ended s r) k ≡ some (k + length s)
unfolding strlen_loop
strlen_loop_lem [] r k t = ap some (omega arith)
strlen_loop_lem (c ∷ s) r k t =
    let more : (c == 0) ≡ false = ground (arith, t.0) in
    rw more (strlen_loop_lem s r (k + 1) t.1 ∙ ap some (omega arith))

-- `strcmp` of two texts is 0 exactly when they are equal.
pub strcmp-eq :
    (s t r r' : List ℕ)
    → IsText s
    → IsText t
    → (strcmp (ended s r) (ended t r') ≡ some (pos 0)) ↔ (s ≡ t)
unfolding strcmp
strcmp-eq [] [] r r' hs ht = ((λ _. refl), (λ _. refl))
strcmp-eq [] (y ∷ t) r r' hs ht = ((λ e. ground (arith, e)), (λ e. cc))
strcmp-eq (x ∷ s) [] r r' hs ht = ((λ e. ground (arith, e)), (λ e. cc))
strcmp-eq (x ∷ s) (y ∷ t) r r' hs ht = elim (Bool-cases (x == y)) [
  | inl e ↦
      let xy : x ≡ y = ==→eq x y e in
      let more : (x == 0) ≡ false = ground (arith, hs.0) in
      let ih = strcmp-eq s t r r' hs.1 ht.1 in
      rw (more, e) ((λ z. let st = ih.0 z in cc), (λ z. ih.1 (cc)))
  | inr e ↦
      let ne : sub_ℕ x y ≢ pos 0 = λ z. ground arith in
      rw e ((λ z. absurd (ne (ground arith))), (λ z. let xy : x ≡ y = cc in ground arith))
]

pub set-append : (d pad : List ℕ) (x c : ℕ) → set (d ++ (x ∷ pad)) (length d) c ≡ d ++ (c ∷ pad)
set-append [] pad x c = refl
set-append (y ∷ d) pad x c = ap (◌∷◌ y) (set-append d pad x c)

-- The copy overwrites as many characters behind `d` as it writes.
copy_loop_lem :
    (s r d pad : List ℕ)
    → IsText s
    → length s < length pad
    → copy_loop (ended s r) (length d) (d ++ pad) ≡ some (d ++ ended s (drop (length s + 1) pad))
unfolding copy_loop
copy_loop_lem s r d [] t fits = absurd (omega arith)
copy_loop_lem [] r d (x ∷ pad) t fits =
    let room : ltb (length d) (length (d ++ (x ∷ pad))) ≡ true =
      ground (arith, length-append d (x ∷ pad)) in
    rw (room, set-append d pad x 0) refl
copy_loop_lem (c ∷ s) r d (x ∷ pad) t fits =
    let room : ltb (length d) (length (d ++ (x ∷ pad))) ≡ true =
      ground (arith, length-append d (x ∷ pad)) in
    let more : (c == 0) ≡ false = ground (arith, t.0) in
    let after : length (d ++ (c ∷ [])) ≡ length d + 1 = omega (arith, length-append d (c ∷ [])) in
    let cut : suc (length s) + 1 ≡ suc (length s + 1) = omega arith in
    let ih = copy_loop_lem s r (d ++ (c ∷ [])) pad t.1 (omega arith) in
    let ih' =
      rw
        (
          after,
          append_assoc d (c ∷ []) pad,
          append_assoc d (c ∷ []) (ended s (drop (length s + 1) pad)),
        )
        at ih in
    rw (room, more, set-append d pad x c) (rw cut ih')

-- With room for the text and its 0, `strcpy` puts both at the front and leaves the rest.
strcpy_lem :
    (dst s r : List ℕ)
    → IsText s
    → length s < length dst
    → strcpy dst (ended s r) ≡ some (ended s (drop (length s + 1) dst))
unfolding strcpy
strcpy_lem dst s r t fits = copy_loop_lem s r [] dst t fits

end_loop_lem :
    (d pad : List ℕ) (k : ℕ) → IsText d → end_loop (ended d pad) k ≡ some (k + length d + 1)
unfolding end_loop
end_loop_lem [] pad k t = ap some (omega arith)
end_loop_lem (c ∷ d) pad k t =
    let more : (c == 0) ≡ false = ground (arith, t.0) in
    rw more (end_loop_lem d pad (k + 1) t.1 ∙ ap some (omega arith))

-- Behind `strcat` the array holds the two texts one after the other and one 0, and the rest of it is as
-- before; `strlen` of the result is the sum of their lengths. The array has room for them.
pub strlen-strcat :
    (d pad s r : List ℕ)
    → IsText d
    → IsText s
    → length s ≤ length pad
    → (strcat (ended d pad) (ended s r) ≡ some (ended (d ++ s) (drop (length s) pad)))
      × ((strcat (ended d pad) (ended s r) >>= strlen) ≡ some (length d + length s))
unfolding strcat strlen
strlen-strcat d pad s r hd hs fits = (joined, rw joined long)
  where
    joined : strcat (ended d pad) (ended s r) ≡ some (ended (d ++ s) (drop (length s) pad))
    joined =
        let at : 0 + length d + 1 - 1 ≡ length d = omega arith in
        let cut : length s + 1 ≡ suc (length s) = omega arith in
        let copied = copy_loop_lem s r d (0 ∷ pad) hs (omega arith) in
        let copied' = rw (cut, ← append_assoc d s (0 ∷ drop (length s) pad)) at copied in
        rw (end_loop_lem d pad 0 hd, at) copied'

    both : (d : List ℕ) → IsText d → IsText (d ++ s)
    both [] h = hs
    both (c ∷ d) h = (h.0, both d h.1)

    long : strlen (ended (d ++ s) (drop (length s) pad)) ≡ some (length d + length s)
    long =
        strlen_loop_lem (d ++ s) (drop (length s) pad) 0 (both d hd)
        ∙ ap some (omega (arith, length-append d s))
