-- ===== src/LinkedQueue/Sequence.antt =====
-- The queue is the sequence of its elements.
use cs140e_final_parallel_co.Base.{
  ℕ, ◌+◌, ◌-◌, ◌^◌, ◌<◌, ◌≡◌, ◌≢◌, refl, sym, ◌∙◌, some, List, [], ◌∷◌, ◌++◌, arith, ne→==, length,
  length-append, u32,
}
use mathlib.Core.Path.{subst}
use cs140e_final_parallel_co.LinkedQueue.{Q, Heap, set_next, q_empty, q_pop, q_append, q_push}
use cs140e_final_parallel_co.LinkedQueue.Chain.{
  Chain, NotIn, Distinct, last, set_next_self, Chain-set_next, Chain-append, last-append,
  Distinct-append, last-real,
}

-- The queue holds these elements, oldest first.
abbrev pub Holds : Heap → Q → List ℕ → Type 0
Holds next q xs = Chain next q.head xs × (q.tail ≡ last xs) × (q.cnt ≡ length xs) × Distinct xs

-- `Q_append` puts a new element at the end.
pub q_append_lem :
    (next : Heap) (q : Q) (e : ℕ) (xs : List ℕ)
    → Holds next q xs
    → e ≢ 0
    → NotIn e xs
    → length xs + 1 < 2 ^ 32
    → (next' : Heap) × (q' : Q) × (q_append next q e ≡ (next', q'))
      × Holds next' q' (xs ++ (e ∷ []))
unfolding q_append
q_append_lem next q e [] (chain, at, count, d) real out fits = (
  set_next next e 0,
  record { head = e; tail = e; cnt = u32 (q.cnt + 1) },
  rw at refl,
  ((refl, real, set_next_self next e 0), refl, omega (arith, count), (tt, tt)),
)
q_append_lem next q e (x ∷ xs) (chain, at, count, d) real out fits = (
  set_next (set_next next e 0) (last (x ∷ xs)) e,
  record { head = q.head; tail = e; cnt = u32 (q.cnt + 1) },
  rw (at, ne→== (last (x ∷ xs)) 0 (last-real next q.head x xs chain)) refl,
  (
    Chain-append next e q.head x xs real out d chain,
    sym (last-append x e xs),
    omega (arith, count, length-append xs (e ∷ [])),
    Distinct-append e (x ∷ xs) out d,
  ),
)

-- `Q_push` puts a new element at the front.
pub q_push_lem :
    (next : Heap) (q : Q) (e : ℕ) (xs : List ℕ)
    → Holds next q xs
    → e ≢ 0
    → NotIn e xs
    → length xs + 1 < 2 ^ 32
    → (next' : Heap) × (q' : Q) × (q_push next q e ≡ (next', q')) × Holds next' q' (e ∷ xs)
unfolding q_push
q_push_lem next q e [] (chain, at, count, d) real out fits = (
  set_next next e q.head,
  record { head = e; tail = e; cnt = u32 (q.cnt + 1) },
  rw at refl,
  ((refl, real, set_next_self next e q.head ∙ chain), refl, omega (arith, count), (tt, tt)),
)
q_push_lem next q e (x ∷ xs) (chain, at, count, d) real out fits = (
  set_next next e q.head,
  record { head = e; tail = q.tail; cnt = u32 (q.cnt + 1) },
  rw (at, ne→== (last (x ∷ xs)) 0 (last-real next q.head x xs chain)) refl,
  (
    (
      refl,
      real,
      subst (λ p. Chain (set_next next e q.head) p (x ∷ xs)) (sym (set_next_self next e q.head))
          (Chain-set_next next e q.head q.head (x ∷ xs) out chain),
    ),
    at,
    omega (arith, count),
    (out, d),
  ),
)

-- `Q_pop` takes the element at the front, and 0 from the empty queue, whose assertions hold.
pub q_pop_lem :
    (next : Heap) (q : Q) (x : ℕ) (xs : List ℕ) (q' : Q)
    → Holds next q (x ∷ xs)
    → length (x ∷ xs) < 2 ^ 32
    → Holds next q' []
    → (q_pop next q' ≡ some (0, q')) × ((r : Q) × (q_pop next q ≡ some (x, r)) × Holds next r xs)
unfolding q_pop q_empty
q_pop_lem next q x [] q' ((at, real, chain), tail, count, d) fits (empty, no_tail, no_count, _) = (
  rw (empty, no_tail, no_count) refl,
  rw (at, ne→== x 0 real, chain)
      (
        record { head = 0; tail = 0; cnt = u32 (q.cnt + 2 ^ 32 - 1) },
        refl,
        (refl, refl, omega (arith, count), tt),
      ),
)
q_pop_lem next q x (y ∷ ys) q' ((at, real, (at', real', chain)), tail, count, (apart, d)) fits
      (empty, no_tail, no_count, _) =
    (
      rw (empty, no_tail, no_count) refl,
      rw (at, ne→== x 0 real, at', ne→== y 0 real')
          (
            record { head = y; tail = q.tail; cnt = u32 (q.cnt + 2 ^ 32 - 1) },
            refl,
            ((refl, real', chain), tail, omega (arith, count), d),
          ),
    )
