-- ===== src/Fmpi/Sync/Laws.antt =====
-- The loop over the peers in general, and `sync_root_last` on both sides.
use cs140e_final_parallel_co.Base.{
  ℕ, zero, suc, ◌+◌, ◌≤◌, ◌<◌, ◌≡◌, refl, ap, sym, ◌∙◌, true, false, List, [], ◌∷◌, ◌++◌, arith,
  ◌==◌, if◌then◌else◌, length, replicate, ==→eq, Bool-cases, inl, inr, length-append,
}
use cs140e_final_parallel_co.Fmpi.Link.{Rx, byte, Inbox, feed, Act, sent, slept, ok, M}
use cs140e_final_parallel_co.Fmpi.Transfer.{send_signal, wait_signal_timeout}
use cs140e_final_parallel_co.Fmpi.Transfer.Laws.{
  feed_self, feed_ne, feed_same, feed-feed, Unsignalled, wait_signal_lem, next_rx-cons,
}
use cs140e_final_parallel_co.Fmpi.Sync.{Comm, each_peer, poll, sync_root_last, sync_signal, delay}

-- The peers that the loop visits, in order.
abbrev pub peers : (root left i : ℕ) → List ℕ
peers root zero i = []
peers root (suc left) i = if i == root then peers root left (i + 1) else i ∷ peers root left (i + 1)

abbrev pub acts_of : (ℕ → List Act) → List ℕ → List Act
acts_of acts [] = []
acts_of acts (p ∷ ps) = acts p ++ acts_of acts ps

-- The outcomes that are left when each of `ps` has been brought to `rest`.
abbrev pub drain : (ℕ → List Rx) → List ℕ → Inbox → Inbox
drain rest [] ins = ins
drain rest (p ∷ ps) ins = drain rest ps (feed ins p (rest p))

abbrev pub fold_peers {ℓ} : {A : Type ℓ} → (ℕ → A → A) → List ℕ → A → A
fold_peers step [] a = a
fold_peers step (p ∷ ps) a = fold_peers step ps (step p a)

module _ {A : Type 0} (root bound : ℕ) (body : ℕ → A → M A) (step : ℕ → A → A)
    (start rest : ℕ → List Rx) (acts : ℕ → List Act) (Inv : A → Type 0)
    (keep : (j : ℕ) (a : A) → j < bound → Inv a → Inv (step j a))
    (run : (j : ℕ) (a : A) (ins : Inbox)
      → j < bound
      → (j == root) ≡ false
      → Inv a
      → ins j ≡ start j
      → body j a ins ≡ ok (step j a) (feed ins j (rest j)) (acts j)) where
  -- If each peer's round is known, so is the loop.
  pub each_peer_lem :
      (left i : ℕ) (a : A) (ins : Inbox)
      → i + left ≤ bound
      → Inv a
      → ((j : ℕ) → i ≤ j → j < bound → (j == root) ≡ false → ins j ≡ start j)
      → each_peer root body left i a ins
        ≡ ok
            (fold_peers step (peers root left i) a)
            (drain rest (peers root left i) ins)
            (acts_of acts (peers root left i))
  unfolding each_peer
  each_peer_lem zero i a ins h v known = refl
  each_peer_lem (suc left) i a ins h v known = elim (Bool-cases (i == root)) [
    | inl e ↦
        rw (e, each_peer_lem left (i + 1) a ins (omega arith) v (λ j l. known j (omega arith)))
    | inr e ↦ rw (
      e,
      run i a ins (omega arith) e v (known i (omega arith) (omega arith) e),
      each_peer_lem left (i + 1) (step i a) (feed ins i (rest i)) (omega arith)
          (keep i a (omega arith) v)
          (λ j l lt ne. feed_ne ins i j (rest i) (apart i j l) ∙ known j (omega arith) lt ne),
    )
  ]
    where
      apart : (i j : ℕ) → i + 1 ≤ j → (i == j) ≡ false
      apart i j h = ground arith

pub drain_same :
    (rest : ℕ → List Rx) (ps : List ℕ) (ins : Inbox)
    → ((j : ℕ) → ins j ≡ rest j)
    → drain rest ps ins ≡ ins
drain_same rest [] ins h = refl
drain_same rest (p ∷ ps) ins h = rw (feed_same ins p (h p)) (drain_same rest ps ins h)

-- Each peer's UART yields no `SYNC_SIGNAL` in the outcomes `noise`, then one, then `later`.
abbrev pub Answers : Comm → Inbox → (noise later : ℕ → List Rx) → Type 0
Answers c ins noise later =
    (j : ℕ)
    → j < c.size
    → (j == c.root) ≡ false
    → (ins j ≡ noise j ++ byte sync_signal ∷ later j) × Unsignalled sync_signal (noise j)

poll_lem :
    (p : ℕ) (noise left : List Rx) (ins : Inbox) (rest : List Rx)
    → ins p ≡ noise ++ byte sync_signal ∷ rest
    → Unsignalled sync_signal noise
    → length noise < length left
    → poll p left ins
      ≡ ok tt (feed ins p rest) (replicate (suc (length noise)) (sent p sync_signal))
unfolding poll send_signal wait_signal_timeout
poll_lem p noise [] ins rest e u h = absurd (omega arith)
poll_lem p [] (_ ∷ left) ins rest e u h = rw (next_rx-cons p ins e)
poll_lem p (r ∷ noise) (_ ∷ left) ins rest e u h = rw (
  next_rx-cons p ins e,
  u.0,
  poll_lem p noise left (feed ins p (noise ++ byte sync_signal ∷ rest)) rest (feed_self ins p _) u.1
      (omega arith),
  feed-feed,
)

-- What the root sends a peer that answers after `noise`: one signal for each wait.
abbrev pub sync_acts : (ℕ → List Rx) → ℕ → List Act
sync_acts noise j = replicate (suc (length (noise j))) (sent j sync_signal)

-- The root leaves `sync_root_last` once each peer has answered; it has sent a peer the signal once
-- more than the peer's UART yielded something else, and has taken those outcomes.
pub sync_root_lem :
    (c : Comm) (ins : Inbox) (noise later : ℕ → List Rx)
    → (c.rank == c.root) ≡ true
    → Answers c ins noise later
    → let ps = peers c.root c.size 0 in
      sync_root_last c ins ≡ ok tt (drain later ps ins) (acts_of (sync_acts noise) ps)
unfolding sync_root_last
sync_root_lem c ins noise later r known = rw r (
    each_peer_lem c.root c.size (λ i _ ins. poll i (ins i) ins) (λ _ a. a)
      (λ j. noise j ++ byte sync_signal ∷ later j) later (sync_acts noise) (λ _. Unit {0})
      (λ j a _ v. v)
      (λ j a ins h ne _ e.
        poll_lem j (noise j) (ins j) ins (later j) e (known j h ne).1
          (rw e (omega (arith, length-append (noise j) (byte sync_signal ∷ later j)))))
      c.size 0 tt ins (omega arith) tt (λ j _ h ne. (known j h ne).0))

-- A peer leaves `sync_root_last` at the first signal, and has answered it after the delay.
pub sync_peer_lem :
    (c : Comm) (ins : Inbox) (noise later : List Rx)
    → (c.rank == c.root) ≡ false
    → ins c.root ≡ noise ++ byte sync_signal ∷ later
    → Unsignalled sync_signal noise
    → sync_root_last c ins
      ≡ ok tt (feed ins c.root later) (slept delay ∷ sent c.root sync_signal ∷ [])
unfolding sync_root_last send_signal
sync_peer_lem c ins noise later r e u =
    rw (r, wait_signal_lem c.root sync_signal noise ins later e u)

-- A round that only sends leaves the outcomes alone, and so does the loop.
pub each_peer_send :
    (root bound : ℕ) (body : ℕ → Unit {0} → M (Unit {0})) (acts : ℕ → List Act)
    → ((j : ℕ) (ins : Inbox) → j < bound → body j tt ins ≡ ok tt ins (acts j))
    → (ins : Inbox)
    → each_peer root body bound 0 tt ins ≡ ok tt ins (acts_of acts (peers root bound 0))
each_peer_send root bound body acts sends ins =
    each_peer_lem root bound body (λ _ a. a) ins ins acts (λ _. Unit {0}) (λ j a _ v. v)
      (λ j a ins' h _ _ e. sends j ins' h ∙ ap (λ k. ok tt k (acts j)) (sym (feed_same ins' j e)))
      bound 0 tt ins (omega arith) tt (λ j _ _ _. refl)
    ∙ ap (λ k. ok tt k (acts_of acts (peers root bound 0)))
        (drain_same ins (peers root bound 0) ins (λ j. refl))

drain_below :
    (rest : ℕ → List Rx) (root left i : ℕ) (ins : Inbox) (j : ℕ)
    → j < i
    → drain rest (peers root left i) ins j ≡ ins j
drain_below rest root zero i ins j h = refl
drain_below rest root (suc left) i ins j h = elim (Bool-cases (i == root)) [
  | inl e ↦ rw e (drain_below rest root left (i + 1) ins j (omega arith))
  | inr e ↦ rw e (
      drain_below rest root left (i + 1) (feed ins i (rest i)) j (omega arith)
      ∙ feed_ne ins i j (rest i) (ground arith))
]

-- What the loop leaves of each peer's outcomes.
pub drain-peers :
    (rest : ℕ → List Rx) (root left i : ℕ) (ins : Inbox) (j : ℕ)
    → i ≤ j
    → j < i + left
    → (j == root) ≡ false
    → drain rest (peers root left i) ins j ≡ rest j
drain-peers rest root zero i ins j l h ne = absurd (omega arith)
drain-peers rest root (suc left) i ins j l h ne = elim (Bool-cases (i == root)) [
  | inl e ↦ rw e (drain-peers rest root left (i + 1) ins j (ground arith) (omega arith) ne)
  | inr e ↦ rw e (elim (Bool-cases (i == j)) [
    | inl same ↦
        drain_below rest root left (i + 1) (feed ins i (rest i)) j (ground arith)
        ∙ rw (==→eq i j same) (feed_self ins j (rest j))
    | inr other ↦
        drain-peers rest root left (i + 1) (feed ins i (rest i)) j (ground arith) (omega arith) ne
  ])
]
