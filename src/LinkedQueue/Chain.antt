-- ===== src/LinkedQueue/Chain.antt =====
-- Chains of elements through the heap.
use cs140e_final_parallel_co.Base.{ℕ, ◌≡◌, ◌≢◌, refl, sym, ◌∙◌, List, [], ◌∷◌, ◌++◌, ==_refl, ne→==}
use mathlib.Core.Path.{subst}
use cs140e_final_parallel_co.LinkedQueue.{Heap, set_next}

-- From `p` on the elements are these, and the last one's `next` is null.
abbrev pub Chain : Heap → ℕ → List ℕ → Type 0
Chain next p [] = p ≡ 0
Chain next p (x ∷ xs) = (p ≡ x) × (x ≢ 0) × Chain next (next x) xs

abbrev pub NotIn : ℕ → List ℕ → Type 0
NotIn e [] = Unit {0}
NotIn e (x ∷ xs) = (x ≢ e) × NotIn e xs

abbrev pub Distinct : List ℕ → Type 0
Distinct [] = Unit {0}
Distinct (x ∷ xs) = NotIn x xs × Distinct xs

abbrev pub last : List ℕ → ℕ
last [] = 0
last (x ∷ []) = x
last (x ∷ y ∷ ys) = last (y ∷ ys)

pub set_next_self : (next : Heap) (e v : ℕ) → set_next next e v e ≡ v
unfolding set_next
set_next_self next e v = rw (==_refl e) refl

pub set_next_ne : (next : Heap) (e v a : ℕ) → a ≢ e → set_next next e v a ≡ next a
unfolding set_next
set_next_ne next e v a ne = rw (ne→== a e ne) refl

-- A write to an element outside a chain leaves the chain.
pub Chain-set_next :
    (next : Heap) (e v p : ℕ) (xs : List ℕ)
    → NotIn e xs
    → Chain next p xs
    → Chain (set_next next e v) p xs
Chain-set_next next e v p [] out chain = chain
Chain-set_next next e v p (x ∷ xs) (ne, out) (at, real, chain) = (
  at,
  real,
  subst (λ p'. Chain (set_next next e v) p' xs) (sym (set_next_ne next e v x ne))
      (Chain-set_next next e v (next x) xs out chain),
)

last-NotIn : (x y : ℕ) (ys : List ℕ) → NotIn x (y ∷ ys) → x ≢ last (y ∷ ys)
last-NotIn x y [] (ne, _) e = ne (sym e)
last-NotIn x y (z ∷ zs) (ne, out) e = last-NotIn x z zs out e

-- The last element's `next` is set to a new one, whose own is null.
pub Chain-append :
    (next : Heap) (e p x : ℕ) (xs : List ℕ)
    → e ≢ 0
    → NotIn e (x ∷ xs)
    → Distinct (x ∷ xs)
    → Chain next p (x ∷ xs)
    → Chain (set_next (set_next next e 0) (last (x ∷ xs)) e) p ((x ∷ xs) ++ (e ∷ []))
Chain-append next e p x [] real (ne, _) _ (at, some_x, chain) = (
  at,
  some_x,
  (
    set_next_self (set_next next e 0) x e,
    real,
    set_next_ne (set_next next e 0) x e e (λ q. ne (sym q)) ∙ set_next_self next e 0,
  ),
)
Chain-append next e p x (y ∷ ys) real (ne, out) (apart, distinct) (at, some_x, chain) = (
  at,
  some_x,
  subst (λ p'. Chain (set_next (set_next next e 0) (last (y ∷ ys)) e) p' ((y ∷ ys) ++ (e ∷ [])))
      (sym (
        set_next_ne (set_next next e 0) (last (y ∷ ys)) e x (last-NotIn x y ys apart)
        ∙ set_next_ne next e 0 x ne))
      (Chain-append next e (next x) y ys real out distinct chain),
)

pub last-append : (x e : ℕ) (xs : List ℕ) → last ((x ∷ xs) ++ (e ∷ [])) ≡ e
last-append x e [] = refl
last-append x e (y ∷ ys) = last-append y e ys

pub NotIn-append : (a e : ℕ) (xs : List ℕ) → NotIn a xs → e ≢ a → NotIn a (xs ++ (e ∷ []))
NotIn-append a e [] out ne = (ne, tt)
NotIn-append a e (x ∷ xs) (h, out) ne = (h, NotIn-append a e xs out ne)

pub Distinct-append : (e : ℕ) (xs : List ℕ) → NotIn e xs → Distinct xs → Distinct (xs ++ (e ∷ []))
Distinct-append e [] out d = (tt, tt)
Distinct-append e (x ∷ xs) (ne, out) (apart, d) =
    (NotIn-append x e xs apart (λ q. ne (sym q)), Distinct-append e xs out d)

pub last-real : (next : Heap) (p x : ℕ) (xs : List ℕ) → Chain next p (x ∷ xs) → last (x ∷ xs) ≢ 0
last-real next p x [] (at, real, chain) = real
last-real next p x (y ∷ ys) (at, real, chain) = last-real next (next x) y ys chain
