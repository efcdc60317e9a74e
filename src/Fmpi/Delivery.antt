-- ===== src/Fmpi/Delivery.antt =====
-- Both sides of a collective call together: what a peer's buffer holds when its UART hears what the
-- root's run sent.
use cs140e_final_parallel_co.Base.{
  ℕ, zero, suc, ◌*◌, ◌≤◌, ◌<◌, ◌≡◌, refl, ap, ◌∙◌, true, false, List, [], ◌∷◌, ◌++◌, map, arith,
  ◌==◌, length, take, drop, slice, replicate, length-take, length-map, length-slice,
}
use cs140e_final_parallel_co.Fmpi.Link.{
  Rx, byte, Inbox, feed, Act, sent, slept, Run, ok, starved, fault, panicked, sent_to,
}
use cs140e_final_parallel_co.Fmpi.Transfer.{to_char}
use cs140e_final_parallel_co.Fmpi.Sync.{Comm, sync_signal, delay}
use cs140e_final_parallel_co.Fmpi.Sync.Laws.{peers, acts_of, Answers, sync_acts}
use cs140e_final_parallel_co.Fmpi.Sync.Trace.{
  sent_to-append, sent_to-map_self, sent_to-map_ne, sent_to-replicate_self, sent_to-replicate_ne,
  sent_to-acts_of,
}
use cs140e_final_parallel_co.Fmpi.Collective.{bcast, scatter}
use cs140e_final_parallel_co.Fmpi.Collective.Bcast.{bcast_root, bcast_peer}
use cs140e_final_parallel_co.Fmpi.Collective.Scatter.{
  scatter_acts, scatter_root, scatter_peer, chunk_fits,
}

-- What a run did, however it ended.
abbrev pub trace {ℓ} : {A : Type ℓ} → Run A → List Act
trace (ok a ins t) = t
trace (starved t) = t
trace (fault t) = t
trace (panicked t) = t

-- The buffer that a finished run leaves.
abbrev pub value : Run (List ℕ) → List ℕ
value (ok a ins t) = a
value (starved t) = []
value (fault t) = []
value (panicked t) = []

-- What peer `i` hears of `t` when its UART was not listening for the first `missed` bytes to it.
abbrev pub heard : (i missed : ℕ) → List Act → List Rx
heard i missed t = map byte (drop missed (sent_to i t))

pub map-to_char_byte : (bs : List ℕ) → map to_char (map byte bs) ≡ bs
map-to_char_byte [] = refl
map-to_char_byte (b ∷ bs) = ap (◌∷◌ b) (map-to_char_byte bs)

pub drop-replicate : (k a : ℕ) (xs : List ℕ) → drop k (replicate (suc k) a ++ xs) ≡ a ∷ xs
drop-replicate zero a xs = refl
drop-replicate (suc k) a xs = drop-replicate k a xs

-- Of two loops over the peers, a peer gets what its two rounds send.
two_rounds :
    (c : Comm) (noise : ℕ → List Rx) (acts : ℕ → List Act) (i : ℕ)
    → ((p q : ℕ) → (q == p) ≡ false → sent_to p (acts q) ≡ [])
    → i < c.size
    → (i == c.root) ≡ false
    → let ps = peers c.root c.size 0 in
      sent_to i (acts_of (sync_acts noise) ps ++ acts_of acts ps)
      ≡ replicate (suc (length (noise i))) sync_signal ++ sent_to i (acts i)
two_rounds c noise acts i own lt ne =
    let ps = peers c.root c.size 0 in
    rw
      (
        sent_to-append i (acts_of (sync_acts noise) ps) (acts_of acts ps),
        sent_to-acts_of (sync_acts noise)
            (λ p q h. sent_to-replicate_ne p q (suc (length (noise q))) sync_signal h) c.root i
            c.size 0 (omega arith) (omega arith) ne,
        sent_to-acts_of acts own c.root i c.size 0 (omega arith) (omega arith) ne,
      )
      (ap (λ xs. xs ++ sent_to i (acts i))
        (sent_to-replicate_self i (suc (length (noise i))) sync_signal))

-- What is heard of such a run from the last signal on.
heard_rounds :
    (c : Comm) (noise : ℕ → List Rx) (acts : ℕ → List Act) (i : ℕ)
    → ((p q : ℕ) → (q == p) ≡ false → sent_to p (acts q) ≡ [])
    → i < c.size
    → (i == c.root) ≡ false
    → let ps = peers c.root c.size 0 in
      heard i (length (noise i)) (acts_of (sync_acts noise) ps ++ acts_of acts ps)
      ≡ byte sync_signal ∷ map byte (sent_to i (acts i))
heard_rounds c noise acts i own lt ne = ap (map byte) (
    ap (drop (length (noise i))) (two_rounds c noise acts i own lt ne)
    ∙ drop-replicate (length (noise i)) sync_signal (sent_to i (acts i)))

sent_to-scatter_ne :
    (sendbuff : List ℕ) (n p q : ℕ) → (q == p) ≡ false → sent_to p (scatter_acts sendbuff n q) ≡ []
sent_to-scatter_ne sendbuff n p q h = sent_to-map_ne p q (slice sendbuff (q * n) n) h

-- A peer that hears the last of the signals that the root sent it, and what follows, ends
-- `FMPI_Bcast` with the root's first `count * data_size` bytes at the front of its buffer.
pub bcast_delivers :
    (c : Comm) (i : ℕ) (buffer buffer' : List ℕ) (count data_size : ℕ) (ins ins' : Inbox)
    (noise later : ℕ → List Rx) (rest : List Rx)
    → (c.rank == c.root) ≡ true
    → Answers c ins noise later
    → i < c.size
    → (i == c.root) ≡ false
    → count * data_size ≤ length buffer
    → count * data_size ≤ length buffer'
    → ins' c.root ≡ heard i (length (noise i)) (trace (bcast c buffer count data_size ins)) ++ rest
    → bcast (record c { rank = i }) buffer' count data_size ins'
      ≡ ok
          (take (count * data_size) buffer ++ drop (count * data_size) buffer')
          (feed ins' c.root rest)
          (slept delay ∷ sent c.root sync_signal ∷ [])
bcast_delivers c i buffer buffer' count data_size ins ins' noise later rest r known lt ne h h' e =
    let n = count * data_size in
    let bytes = take n buffer in
    bcast_peer (record c { rank = i }) buffer' count data_size ins' [] (map byte bytes) rest ne
      (e
        ∙ ap (λ xs. xs ++ rest)
            (ap (λ t. heard i (length (noise i)) (trace t))
                (bcast_root c buffer count data_size ins noise later r known h)
              ∙ heard_rounds c noise (λ j. map (sent j) bytes) i (λ p q. sent_to-map_ne p q bytes)
                  lt ne
              ∙ ap (λ xs. byte sync_signal ∷ map byte xs) (sent_to-map_self i bytes)))
      tt (length-map byte bytes ∙ omega (arith, length-take n buffer)) h'
    ∙ ap
        (λ bs.
          ok (bs ++ drop n buffer') (feed ins' c.root rest)
            (slept delay ∷ sent c.root sync_signal ∷ []))
        (map-to_char_byte bytes)

-- A peer that hears the last of the signals that the root sent it, and what follows, ends
-- `FMPI_Scatter` with its own chunk of the root's send buffer at the front of its receive buffer.
pub scatter_delivers :
    (c : Comm) (i : ℕ) (sendbuff recvbuff sendbuff' recvbuff' : List ℕ) (count data_size : ℕ)
    (ins ins' : Inbox) (noise later : ℕ → List Rx) (rest : List Rx)
    → (c.rank == c.root) ≡ true
    → c.root < c.size
    → Answers c ins noise later
    → i < c.size
    → (i == c.root) ≡ false
    → c.size * (count * data_size) ≤ length sendbuff
    → count * data_size ≤ length recvbuff
    → count * data_size ≤ length recvbuff'
    → ins' c.root
      ≡ heard i (length (noise i)) (trace (scatter c sendbuff count recvbuff count data_size ins))
        ++ rest
    → scatter (record c { rank = i }) sendbuff' count recvbuff' count data_size ins'
      ≡ ok
          (slice sendbuff (i * (count * data_size)) (count * data_size)
            ++ drop (count * data_size) recvbuff')
          (feed ins' c.root rest)
          (slept delay ∷ sent c.root sync_signal ∷ [])
scatter_delivers c i sendbuff recvbuff sendbuff' recvbuff' count data_size ins ins' noise later rest
      r in_range known lt ne h k k' e =
    let n = count * data_size in
    let bytes = slice sendbuff (i * n) n in
    scatter_peer (record c { rank = i }) sendbuff' recvbuff' count data_size ins' []
      (map byte bytes) rest ne
      (e
        ∙ ap (λ xs. xs ++ rest)
            (ap (λ t. heard i (length (noise i)) (trace t))
                (scatter_root c sendbuff recvbuff count data_size ins noise later r in_range known h
                  k)
              ∙ heard_rounds c noise (scatter_acts sendbuff n) i (sent_to-scatter_ne sendbuff n) lt
                  ne
              ∙ ap (λ xs. byte sync_signal ∷ map byte xs) (sent_to-map_self i bytes)))
      tt
      (length-map byte bytes
        ∙ length-slice sendbuff (i * n) n (omega (arith, chunk_fits i c.size n lt)))
      k'
    ∙ ap
        (λ bs.
          ok (bs ++ drop n recvbuff') (feed ins' c.root rest)
            (slept delay ∷ sent c.root sync_signal ∷ []))
        (map-to_char_byte bytes)
