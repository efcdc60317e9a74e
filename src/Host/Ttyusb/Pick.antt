-- ===== src/Host/Ttyusb/Pick.antt =====
-- Which device is chosen.
use cs140e_final_parallel_co.Base.{
  ℕ, ◌-◌, ◌<◌, ◌≡◌, ◌↔◌, ◌⊎◌, inl, inr, refl, sym, ap, ◌∙◌, Bool, true, false, List, [], ◌∷◌, ◌++◌,
  Option, none, some, arith, ltb, ◌==◌, Bool-cases, ==→eq, length, length-append, drop, take,
  take-append-drop, ltb→lt,
}
use cs140e_final_parallel_co.Host.Ttyusb.{
  Text, same_text, begins, prefix_cmp, suffix_cmp, Entry, only, only_file, pick, pick_file, scandir,
  newest_file, oldest_file,
}

-- Every entry has a time.
abbrev pub HasTimes : List Entry → Type 0
HasTimes [] = Unit {0}
HasTimes ((name, t) ∷ entries) = ((u : ℕ) × (t ≡ some u)) × HasTimes entries

-- The entry `name` with the time `t` is in the list, and no entry's time is better.
abbrev pub AllAtMost : (better : ℕ → ℕ → Bool) → (t : ℕ) → List Entry → Type 0
AllAtMost better t [] = Unit {0}
AllAtMost better t ((name, none) ∷ entries) = AllAtMost better t entries
AllAtMost better t ((name, some u) ∷ entries) = (better u t ≡ false) × AllAtMost better t entries

abbrev pub Has : (name : Text) (t : ℕ) → List Entry → Type 0
Has name t [] = ⊥
Has name t ((other, u) ∷ entries) = ((other ≡ name) × (u ≡ some t)) ⊎ Has name t entries

same_text_iff : (s t : Text) → (same_text s t ≡ true) ↔ (s ≡ t)
unfolding same_text
same_text_iff [] [] = ((λ _. refl), (λ _. refl))
same_text_iff [] (y ∷ t) = ((λ e. cc), (λ e. cc))
same_text_iff (x ∷ s) [] = ((λ e. cc), (λ e. cc))
same_text_iff (x ∷ s) (y ∷ t) = elim (Bool-cases (x == y)) [
  | inl e ↦
      let xy = ==→eq x y e in
      let ih = same_text_iff s t in rw e ((λ h. let st = ih.0 h in cc), (λ h. ih.1 (cc)))
  | inr e ↦ rw e ((λ h. cc), (λ h. let xy : x ≡ y = cc in ground arith))
]

begins_iff : (s prefix : Text) → (begins s prefix ≡ true) ↔ ((rest : Text) × (s ≡ prefix ++ rest))
unfolding begins
begins_iff s [] = ((λ _. (s, refl)), (λ _. refl))
begins_iff [] (y ∷ t) = ((λ e. cc), (λ e. cc))
begins_iff (x ∷ s) (y ∷ t) = elim (Bool-cases (x == y)) [
  | inl e ↦
      let xy = ==→eq x y e in
      let ih = begins_iff s t in
      rw e
        ((λ h. let (rest, st) = ih.0 h in (rest, cc)), (λ h. let (rest, st) = h in ih.1 (rest, cc)))
  | inr e ↦ rw e ((λ h. cc), (λ h. let (rest, st) = h in let xy : x ≡ y = cc in ground arith))
]

drop-length : (start t : Text) → drop (length start) (start ++ t) ≡ t
drop-length [] t = refl
drop-length (x ∷ start) t = drop-length start t

-- `prefix_cmp` and `suffix_cmp` say whether the text begins or ends with the other.
pub affix_cmp_iff :
    (s t : Text)
    → ((prefix_cmp s t ≡ true) ↔ ((rest : Text) × (s ≡ t ++ rest)))
      × ((suffix_cmp s t ≡ true) ↔ ((start : Text) × (s ≡ start ++ t)))
unfolding prefix_cmp suffix_cmp
affix_cmp_iff s t = elim (Bool-cases (ltb (length s) (length t))) [
  | inl e ↦
      let short : length s < length t = ltb→lt (length s) (length t) e in
      rw e (
        ((λ h. cc), (λ h. absurd (omega (arith, ap length h.1, length-append t h.0)))),
        ((λ h. cc), (λ h. absurd (omega (arith, ap length h.1, length-append h.0 t)))),
      )
  | inr e ↦
      let k = length s - length t in
      rw e (
        begins_iff s t,
        (
          (λ h.
              let rest : drop k s ≡ t = (same_text_iff (drop k s) t).0 h in
              (take k s, sym (take-append-drop k s) ∙ ap (λ r. take k s ++ r) rest)),
          (λ h.
              let (start, st) = h in
              let size : k ≡ length start = omega (arith, ap length st, length-append start t) in
              (same_text_iff (drop k s) t).1
                (ap (λ j. drop j s) size ∙ ap (drop (length start)) st ∙ drop-length start t)),
        ),
      )
]

-- What `choice` yields: the name of one of the entries, and no entry has a better time.
abbrev pub Chosen : (better : ℕ → ℕ → Bool) → Option Text → List Entry → Type 0
Chosen better choice entries =
    (name : Text) × (t : ℕ) × (choice ≡ some name) × Has name t entries × AllAtMost better t entries

module _ (better : ℕ → ℕ → Bool) (irrefl : (t : ℕ) → better t t ≡ false)
    (asym : (t u : ℕ) → better t u ≡ true → better u t ≡ false)
    (trans : (t u v : ℕ) → better t u ≡ false → better u v ≡ false → better t v ≡ false) where
  pick_lem :
      (entries : List Entry) (old : Text) (u : ℕ)
      → HasTimes entries
      → (name : Text) × (t : ℕ) × (pick better entries (some (old, u)) ≡ some name)
        × (((name ≡ old) × (t ≡ u)) ⊎ Has name t entries)
        × AllAtMost better t entries
        × (better u t ≡ false)
  unfolding pick
  pick_lem [] old u h = (old, u, refl, inl (refl, refl), tt, irrefl u)
  pick_lem ((name, none) ∷ entries) old u h = absurd (impossible h.0.1)
    where
      impossible : {v : ℕ} → none ≡ some v → ⊥
      impossible e = cc
  pick_lem ((name, some t) ∷ entries) old u h = elim (Bool-cases (better t u)) [
    | inl e ↦
        let (best, v, runs, from, all, top) = pick_lem entries name t h.1 in
        let member : Has best v ((name, some t) ∷ entries) = elim from [
          | inl (n, time) ↦ inl (sym n, ap some (sym time))
          | inr there ↦ inr there
        ] in
        (best, v, rw e runs, inr member, (top, all), trans u t v (asym t u e) top)
    | inr e ↦
        let (best, v, runs, from, all, top) = pick_lem entries old u h.1 in
        let member : ((best ≡ old) × (v ≡ u)) ⊎ Has best v ((name, some t) ∷ entries) = elim from [
          | inl own ↦ inl own
          | inr there ↦ inr (inr there)
        ] in
        (best, v, rw e runs, member, (trans t u v e top, all), top)
  ]

  pick_file-Chosen :
      (e : Entry) (entries : List Entry)
      → HasTimes (e ∷ entries)
      → Chosen better (pick_file better (e ∷ entries)) (e ∷ entries)
  unfolding pick_file pick
  pick_file-Chosen (name, none) entries h = absurd (impossible h.0.1)
    where
      impossible : {v : ℕ} → none ≡ some v → ⊥
      impossible e = cc
  pick_file-Chosen (name, some t) [] h = (name, t, refl, inl (refl, refl), (irrefl t, tt))
  pick_file-Chosen (name, some t) (e ∷ entries) h =
      let (best, v, runs, from, all, top) = pick_lem (e ∷ entries) name t h.1 in
      let member : Has best v ((name, some t) ∷ e ∷ entries) = elim from [
        | inl (n, time) ↦ inl (sym n, ap some (sym time))
        | inr there ↦ inr there
      ] in
      (best, v, runs, member, (top, all))

-- Where there are devices and stat knows the time of each, the name that `find_ttyusb_last` chooses is
-- that of a device with the latest time, and the one that `find_ttyusb_first` chooses that of a device
-- with the earliest; where there are none, both panic. `find_ttyusb` chooses a name only where there is
-- one device, and then all three choose the same.
pub newest_file-oldest_file :
    (dev : List Entry)
    → HasTimes (scandir dev)
    → ((scandir dev ≡ [])
        × (newest_file dev ≡ none)
        × (oldest_file dev ≡ none)
        × (only_file dev ≡ none))
      ⊎ (Chosen (λ a b. ltb b a) (newest_file dev) (scandir dev)
          × Chosen ltb (oldest_file dev) (scandir dev)
          × ((name : Text)
              → (only_file dev ≡ some name) ↔ (
                  (length (scandir dev) ≡ 1)
                  × (newest_file dev ≡ some name)
                  × (oldest_file dev ≡ some name))))
unfolding newest_file oldest_file only_file only pick_file
newest_file-oldest_file dev times = choices (scandir dev) times
  where
    single :
        (entries : List Entry) (name : Text)
        → (only entries ≡ some name) ↔ (
            (length entries ≡ 1)
            × (pick_file (λ a b. ltb b a) entries ≡ some name)
            × (pick_file ltb entries ≡ some name))
    single [] name = ((λ e. cc), λ h. cc)
    single (e ∷ []) name = ((λ h. (refl, h, h)), λ h. h.1)
    single (e ∷ f ∷ entries) name = ((λ h. cc), λ h. absurd (omega (arith, h.0)))

    choices :
        (entries : List Entry)
        → HasTimes entries
        → ((entries ≡ [])
            × (pick_file (λ a b. ltb b a) entries ≡ none)
            × (pick_file ltb entries ≡ none)
            × (only entries ≡ none))
          ⊎ (Chosen (λ a b. ltb b a) (pick_file (λ a b. ltb b a) entries) entries
              × Chosen ltb (pick_file ltb entries) entries
              × ((name : Text)
                  → (only entries ≡ some name) ↔ (
                      (length entries ≡ 1)
                      × (pick_file (λ a b. ltb b a) entries ≡ some name)
                      × (pick_file ltb entries ≡ some name))))
    choices [] h = inl (refl, refl, refl, refl)
    choices (e ∷ entries) h = inr (
      pick_file-Chosen (λ a b. ltb b a) (λ t. ground arith) (λ t u h. ground arith)
          (λ t u v h k. ground arith) e entries h,
      pick_file-Chosen ltb (λ t. ground arith) (λ t u h. ground arith) (λ t u v h k. ground arith) e
          entries h,
      single (e ∷ entries),
    )
