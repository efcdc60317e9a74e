-- ===== src/Fmpi/Collective/Gather.antt =====
-- `FMPI_Gather` on both sides.
use cs140e_final_parallel_co.Base.{
  ℕ, zero, suc, ◌+◌, ◌*◌, ◌≤◌, ◌<◌, ◌≡◌, ◌⊎◌, refl, ap, ◌∙◌, true, false, List, [], ◌∷◌, ◌++◌, map,
  append-nil, arith, ◌==◌, if◌then◌else◌, length, take, slice, ==_refl, length-take, length-map,
  Bool-cases, inl, inr, ==→eq,
}
use native.Mathlib.Nat.{mul_assoc}
use cs140e_final_parallel_co.Fmpi.Link.{Rx, byte, Inbox, feed, sent, slept, ok, ◌>>◌}
use cs140e_final_parallel_co.Fmpi.Transfer.{to_char, recv, overwrite, send_signal}
use cs140e_final_parallel_co.Fmpi.Transfer.Laws.{
  Unsignalled, send_lem, recv_lem, feed_self, feed-feed, memcpy_lem, wait_signal_lem,
  slice-overwrite, slice-overwrite_front, length-overwrite,
}
use cs140e_final_parallel_co.Fmpi.Sync.{Comm, sync_signal, send_signal_byte, delay}
use cs140e_final_parallel_co.Fmpi.Sync.Laws.{
  peers, acts_of, drain, fold_peers, drain-peers, Answers, sync_acts, sync_root_lem, sync_peer_lem,
  each_peer_lem,
}
use cs140e_final_parallel_co.Fmpi.Collective.Scatter.{chunk_fits}
use cs140e_final_parallel_co.Fmpi.Collective.{gather}

-- The receive buffer once the chunks of `ps` have been written.
abbrev pub filled : (ℕ → List Rx) → ℕ → List ℕ → List ℕ → List ℕ
filled rs n ps buffer = fold_peers (λ j b. overwrite b (j * n) (map to_char (rs j))) ps buffer

length-filled :
    (rs : ℕ → List Rx) (n : ℕ) (ps buffer : List ℕ) → length (filled rs n ps buffer) ≡ length buffer
length-filled rs n [] buffer = refl
length-filled rs n (p ∷ ps) buffer =
    length-filled rs n ps (overwrite buffer (p * n) (map to_char (rs p)))
    ∙ length-overwrite buffer (p * n) (map to_char (rs p))

-- The root synchronises with every peer, asks each in order for its chunk, writes chunk `j` of its
-- buffer from peer `j`'s bytes, and at last copies its own bytes to the front.
pub gather_root :
    (c : Comm) (sendbuff recvbuff : List ℕ) (count data_size : ℕ) (ins : Inbox)
    (noise rs rest : ℕ → List Rx)
    → (c.rank == c.root) ≡ true
    → c.root < c.size
    → Answers c ins noise (λ j. rs j ++ rest j)
    → ((j : ℕ) → j < c.size → (j == c.root) ≡ false → length (rs j) ≡ count * data_size)
    → c.size * (count * data_size) ≤ length recvbuff
    → count * data_size ≤ length sendbuff
    → let n = count * data_size in
      let ps = peers c.root c.size 0 in
      gather c sendbuff count recvbuff count data_size ins
      ≡ ok
          (overwrite (filled rs n ps recvbuff) 0 (take n sendbuff))
          (drain rest ps (drain (λ j. rs j ++ rest j) ps ins))
          (acts_of (sync_acts noise) ps ++ acts_of (λ j. sent j send_signal_byte ∷ []) ps)
unfolding gather send_signal
gather_root c sendbuff recvbuff count data_size ins noise rs rest r in_range known len h k =
    let n = count * data_size in
    let ps = peers c.root c.size 0 in
    let later : ℕ → List Rx = λ j. rs j ++ rest j in
    rw (
      ==_refl count,
      sync_root_lem c ins noise later r known,
      r,
      each_peer_lem c.root c.size
          (λ i buffer.
            send_signal i send_signal_byte >> recv buffer (i * count * data_size) i count data_size)
          (λ j b. overwrite b (j * n) (map to_char (rs j))) later rest
          (λ j. sent j send_signal_byte ∷ []) (λ b. length b ≡ length recvbuff)
          (λ j b lt v. length-overwrite b (j * n) (map to_char (rs j)) ∙ v)
          (λ j b ins' lt ne v e. rw (
            mul_assoc j count data_size,
            recv_lem b (j * n) j count data_size ins' (rs j) (rest j) e (len j lt ne)
                (omega (arith, chunk_fits j c.size n lt)),
          ))
          c.size 0 recvbuff (drain later ps ins) (omega arith) refl
          (λ j l lt ne. drain-peers later c.root c.size 0 ins j l (omega arith) ne),
      memcpy_lem (filled rs n ps recvbuff) sendbuff n (drain rest ps (drain later ps ins))
          (omega (arith, length-filled rs n ps recvbuff, chunk_fits c.root c.size n in_range)) k,
      append-nil,
    )

-- A peer answers the signal, waits for `SEND_SIGNAL`, and after the delay sends its bytes; its
-- receive buffer stays as it is.
pub gather_peer :
    (c : Comm) (sendbuff recvbuff : List ℕ) (count data_size : ℕ) (ins : Inbox)
    (noise noise' rest : List Rx)
    → (c.rank == c.root) ≡ false
    → ins c.root ≡ noise ++ byte sync_signal ∷ (noise' ++ byte send_signal_byte ∷ rest)
    → Unsignalled sync_signal noise
    → Unsignalled send_signal_byte noise'
    → count * data_size ≤ length sendbuff
    → gather c sendbuff count recvbuff count data_size ins
      ≡ ok recvbuff (feed ins c.root rest) (
          slept delay
          ∷ sent c.root sync_signal
          ∷ slept delay
          ∷ map (sent c.root) (take (count * data_size) sendbuff))
unfolding gather
gather_peer c sendbuff recvbuff count data_size ins noise noise' rest r e u u' h =
    let later = noise' ++ byte send_signal_byte ∷ rest in
    rw (
      ==_refl count,
      sync_peer_lem c ins noise later r e u,
      r,
      wait_signal_lem c.root send_signal_byte noise' (feed ins c.root later) rest
          (feed_self ins c.root later) u',
      feed-feed,
      send_lem sendbuff 0 c.root count data_size (feed ins c.root rest) (omega arith),
      append-nil,
    )

module _ (rs : ℕ → List Rx) (root n size : ℕ)
    (len : (j : ℕ) → j < size → (j == root) ≡ false → length (rs j) ≡ n) where
  -- Writing peer `k`'s chunk, seen at chunk `i`.
  chunk_written :
      (buffer : List ℕ) (k i : ℕ)
      → k < size
      → (k == root) ≡ false
      → i < size
      → size * n ≤ length buffer
      → slice (overwrite buffer (k * n) (map to_char (rs k))) (i * n) n
        ≡ (if i == k then map to_char (rs k) else slice buffer (i * n) n)
  chunk_written buffer k i hk ne hi h =
      slice-overwrite buffer (map to_char (rs k)) i k n (length-map to_char (rs k) ∙ len k hk ne)
        (omega (arith, chunk_fits k size n hk)) (omega (arith, chunk_fits i size n hi))

  -- A chunk that no round of the loop writes.
  slice-filled_out :
      (left k : ℕ) (buffer : List ℕ) (i : ℕ)
      → k + left ≤ size
      → size * n ≤ length buffer
      → i < size
      → (i < k) ⊎ ((i == root) ≡ true)
      → slice (filled rs n (peers root left k) buffer) (i * n) n ≡ slice buffer (i * n) n
  slice-filled_out zero k buffer i b h lt out = refl
  slice-filled_out (suc left) k buffer i b h lt out = elim (Bool-cases (k == root)) [
    | inl e ↦ rw e (slice-filled_out left (k + 1) buffer i (omega arith) h lt (ground arith))
    | inr e ↦ rw e (
        slice-filled_out left (k + 1) (overwrite buffer (k * n) (map to_char (rs k))) i
          (omega arith) (omega (arith, length-overwrite buffer (k * n) (map to_char (rs k)))) lt
          (ground arith)
        ∙ chunk_written buffer k i (omega arith) e lt h
        ∙ rw (other k i e out))
  ]
    where
      other : (k i : ℕ) → (k == root) ≡ false → (i < k) ⊎ ((i == root) ≡ true) → (i == k) ≡ false
      other k i e out = ground arith

  -- A peer's chunk holds its bytes.
  slice-filled_in :
      (left k : ℕ) (buffer : List ℕ) (i : ℕ)
      → k + left ≤ size
      → size * n ≤ length buffer
      → k ≤ i
      → i < k + left
      → (i == root) ≡ false
      → slice (filled rs n (peers root left k) buffer) (i * n) n ≡ map to_char (rs i)
  slice-filled_in zero k buffer i b h l lt ne = absurd (omega arith)
  slice-filled_in (suc left) k buffer i b h l lt ne = elim (Bool-cases (k == root)) [
    | inl e ↦
        rw e (slice-filled_in left (k + 1) buffer i (omega arith) h (ground arith) (omega arith) ne)
    | inr e ↦ rw e (
        let buffer' = overwrite buffer (k * n) (map to_char (rs k)) in
        let h' : size * n ≤ length buffer' =
          omega (arith, length-overwrite buffer (k * n) (map to_char (rs k))) in
        elim (Bool-cases (i == k)) [
          | inl same ↦
              slice-filled_out left (k + 1) buffer' i (omega arith) h' (omega arith)
                (inl (ground arith))
              ∙ chunk_written buffer k i (omega arith) e (omega arith) h
              ∙ rw (same, ==→eq i k same)
          | inr other ↦
              slice-filled_in left (k + 1) buffer' i (omega arith) h' (ground arith) (omega arith)
                ne
        ])
  ]

-- What the root's receive buffer holds after `FMPI_Gather`, chunk by chunk: its own bytes in chunk
-- 0, each peer's bytes in the peer's chunk, and the old bytes in the root's own chunk. Where the
-- root is not rank 0, the bytes of rank 0 are overwritten and the root's chunk is not written.
pub gather_chunks :
    (c : Comm) (sendbuff recvbuff : List ℕ) (n : ℕ) (rs : ℕ → List Rx) (i : ℕ)
    → c.root < c.size
    → ((j : ℕ) → j < c.size → (j == c.root) ≡ false → length (rs j) ≡ n)
    → c.size * n ≤ length recvbuff
    → n ≤ length sendbuff
    → i < c.size
    → slice (overwrite (filled rs n (peers c.root c.size 0) recvbuff) 0 (take n sendbuff)) (i * n) n
      ≡ (if i == 0
          then take n sendbuff
          else if i == c.root
          then slice recvbuff (i * n) n
          else map to_char (rs i))
gather_chunks c sendbuff recvbuff n rs i in_range len h k lt =
    let buffer = filled rs n (peers c.root c.size 0) recvbuff in
    let whole : c.size * n ≤ length buffer =
      omega (arith, length-filled rs n (peers c.root c.size 0) recvbuff) in
    slice-overwrite_front buffer (take n sendbuff) i n (omega (arith, length-take n sendbuff))
      (omega (arith, chunk_fits c.root c.size n in_range)) (omega (arith, chunk_fits i c.size n lt))
    ∙ ap (λ x. if i == 0 then take n sendbuff else x)
        (elim (Bool-cases (i == c.root)) [
          | inl e ↦ rw e (
              slice-filled_out rs c.root n c.size len c.size 0 recvbuff i (omega arith) h lt
                (inr e))
          | inr e ↦ rw e (
              slice-filled_in rs c.root n c.size len c.size 0 recvbuff i (omega arith) h
                (omega arith) (omega arith) e)
        ])
