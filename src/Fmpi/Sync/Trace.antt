-- ===== src/Fmpi/Sync/Trace.antt =====
-- What a run of the peer loop sends to one peer.
use cs140e_final_parallel_co.Base.{
  ℕ, zero, suc, ◌+◌, ◌≤◌, ◌<◌, ◌≡◌, refl, false, List, [], ◌∷◌, ◌++◌, map, append-nil, arith, ◌==◌,
  replicate, ==_refl, Bool-cases, inl, inr, ==→eq,
}
use cs140e_final_parallel_co.Fmpi.Link.{Act, sent, slept, lowered, sent_to}
use cs140e_final_parallel_co.Fmpi.Sync.Laws.{peers, acts_of}

pub sent_to-append : (p : ℕ) (t t' : List Act) → sent_to p (t ++ t') ≡ sent_to p t ++ sent_to p t'
sent_to-append p [] t' = refl
sent_to-append p (sent q b ∷ t) t' = ground (arith, sent_to-append p t t')
sent_to-append p (slept ms ∷ t) t' = sent_to-append p t t'
sent_to-append p (lowered pin ∷ t) t' = sent_to-append p t t'

pub sent_to-map_self : (p : ℕ) (bs : List ℕ) → sent_to p (map (sent p) bs) ≡ bs
sent_to-map_self p [] = refl
sent_to-map_self p (b ∷ bs) = rw (==_refl p, sent_to-map_self p bs)

pub sent_to-map_ne : (p q : ℕ) (bs : List ℕ) → (q == p) ≡ false → sent_to p (map (sent q) bs) ≡ []
sent_to-map_ne p q [] h = refl
sent_to-map_ne p q (b ∷ bs) h = rw (h, sent_to-map_ne p q bs h)

pub sent_to-replicate_self : (p n b : ℕ) → sent_to p (replicate n (sent p b)) ≡ replicate n b
sent_to-replicate_self p zero b = refl
sent_to-replicate_self p (suc n) b = rw (==_refl p, sent_to-replicate_self p n b)

pub sent_to-replicate_ne :
    (p q n b : ℕ) → (q == p) ≡ false → sent_to p (replicate n (sent q b)) ≡ []
sent_to-replicate_ne p q zero b h = refl
sent_to-replicate_ne p q (suc n) b h = rw (h, sent_to-replicate_ne p q n b h)

-- Where each round sends to its own peer alone, a peer gets what its round sends.
module _ (acts : ℕ → List Act) (own : (p q : ℕ) → (q == p) ≡ false → sent_to p (acts q) ≡ [])
    (root p : ℕ) where
  acts_of_below : (left i : ℕ) → p < i → sent_to p (acts_of acts (peers root left i)) ≡ []
  acts_of_below zero i h = refl
  acts_of_below (suc left) i h = elim (Bool-cases (i == root)) [
    | inl e ↦ rw e (acts_of_below left (i + 1) (omega arith))
    | inr e ↦ rw (
      e,
      sent_to-append p (acts i) (acts_of acts (peers root left (i + 1))),
      own p i (ground arith),
      acts_of_below left (i + 1) (omega arith),
    )
  ]

  pub sent_to-acts_of :
      (left i : ℕ)
      → i ≤ p
      → p < i + left
      → (p == root) ≡ false
      → sent_to p (acts_of acts (peers root left i)) ≡ sent_to p (acts p)
  sent_to-acts_of zero i l h ne = absurd (omega arith)
  sent_to-acts_of (suc left) i l h ne = elim (Bool-cases (i == root)) [
    | inl e ↦ rw e (sent_to-acts_of left (i + 1) (ground arith) (omega arith) ne)
    | inr e ↦
        rw (e, sent_to-append p (acts i) (acts_of acts (peers root left (i + 1))))
          (elim (Bool-cases (i == p)) [
            | inl same ↦ rw (acts_of_below left (i + 1) (ground arith), append-nil, ==→eq i p same)
            | inr other ↦
                rw (own p i other, sent_to-acts_of left (i + 1) (ground arith) (omega arith) ne)
          ])
  ]
