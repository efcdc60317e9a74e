-- ===== src/Host/Done.antt =====
-- `pi_done`: which texts it takes for the end of the program.
use cs140e_final_parallel_co.Base.{
  ℕ, ◌≡◌, ◌≢◌, ◌⊎◌, inl, inr, refl, ap, ◌∙◌, List, [], ◌∷◌, ◌++◌, arith, ◌==◌, Bool-cases, ==→eq,
  ne→==,
}
use cs140e_final_parallel_co.Host.{exit_string, done_loop, pi_done}

-- The text begins with `start`.
abbrev Begins : (start s : List ℕ) → Type 0
Begins start s = (post : List ℕ) × (s ≡ start ++ post)

abbrev pub Contains : (part s : List ℕ) → Type 0
Contains part s = (pre : List ℕ) × (post : List ℕ) × (s ≡ pre ++ (part ++ post))

Contains-cons : (part s : List ℕ) (c : ℕ) → Contains part s → Contains part (c ∷ s)
Contains-cons part s c (pre, post, e) = (c ∷ pre, post, ap (◌∷◌ c) e)

done_loop-found : (left s : List ℕ) → done_loop left s ≡ 1 → Begins left s ⊎ Contains exit_string s
unfolding done_loop
done_loop-found [] s h = inl (s, refl)
done_loop-found (e ∷ left) [] h = absurd (omega arith)
done_loop-found (e ∷ left) (c ∷ s) h = elim (Bool-cases (c == 0)) [
  | inl zero_byte ↦ absurd (ground arith)
  | inr f ↦ elim (Bool-cases (c == e)) [
    | inl g ↦
        let more : done_loop left s ≡ 1 = ground arith in
        elim (done_loop-found left s more) [
          | inl (post, b) ↦ inl (post, ap (◌∷◌ c) b ∙ ap (λ x. x ∷ left ++ post) (==→eq c e g))
          | inr found ↦ inr (Contains-cons exit_string s c found)
        ]
    | inr g ↦
        let more : done_loop exit_string s ≡ 1 = ground arith in
        elim (done_loop-found exit_string s more) [
          | inl (post, b) ↦ inr (c ∷ [], post, ap (◌∷◌ c) b)
          | inr found ↦ inr (Contains-cons exit_string s c found)
        ]
  ]
]

-- The text has neither a 0 nor a `D`.
abbrev pub NoStart : List ℕ → Type 0
NoStart [] = Unit {0}
NoStart (c ∷ s) = (c ≢ 0) × (c ≢ b'D') × NoStart s

skips : (pre post : List ℕ) → NoStart pre → done_loop exit_string (pre ++ (exit_string ++ post)) ≡ 1
unfolding done_loop
skips [] post clean = refl
skips (c ∷ pre) post clean = rw (ne→== c 0 clean.0, ne→== c b'D' clean.1) (skips pre post clean.2)

-- `pi_done` is 1 only where the text contains the exit string, and it is 1 where the exit string comes
-- behind text without a `D`.
pub pi_done_lem :
    (s : List ℕ)
    → (pi_done s ≡ 1 → Contains exit_string s)
      × ((pre post : List ℕ) → NoStart pre → s ≡ pre ++ (exit_string ++ post) → pi_done s ≡ 1)
unfolding pi_done
pi_done_lem s = (
  λ h. elim (done_loop-found exit_string s h) [ inl (post, e) ↦ ([], post, e) | inr c ↦ c ],
  λ pre post clean e. rw e (skips pre post clean),
)
