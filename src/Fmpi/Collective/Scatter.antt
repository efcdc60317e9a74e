-- ===== src/Fmpi/Collective/Scatter.antt =====
-- `FMPI_Scatter` on both sides.
use cs140e_final_parallel_co.Base.{
  ℕ, ◌+◌, ◌*◌, ◌≤◌, ◌<◌, ◌≡◌, ◌≢◌, true, false, List, [], ◌∷◌, ◌++◌, map, append-nil, arith, ◌==◌,
  length, take, drop, slice, ==_refl, ne→==,
}
use native.Mathlib.Nat.{mul_assoc}
use cs140e_final_parallel_co.Fmpi.Link.{
  Rx, byte, Inbox, feed, Act, sent, slept, ok, delay_ms, ◌>>◌, panicked,
}
use cs140e_final_parallel_co.Fmpi.Transfer.{to_char, send}
use cs140e_final_parallel_co.Fmpi.Transfer.Laws.{
  Unsignalled, send_lem, recv_front, feed_self, feed-feed, memcpy_front,
}
use cs140e_final_parallel_co.Fmpi.Sync.{Comm, sync_signal, delay}
use cs140e_final_parallel_co.Fmpi.Sync.Laws.{
  peers, acts_of, drain, Answers, sync_acts, sync_root_lem, sync_peer_lem, each_peer_send,
}
use cs140e_final_parallel_co.Fmpi.Collective.{scatter}

-- Chunk `i` of a buffer that holds a chunk for each rank ends inside it.
pub chunk_fits : (i size n : ℕ) → i < size → i * n + n ≤ size * n
chunk_fits i size n h = grind arith

-- What the root does for peer `j`: it waits, and sends the peer's chunk.
abbrev pub scatter_acts : List ℕ → ℕ → ℕ → List Act
scatter_acts sendbuff n j = slept delay ∷ map (sent j) (slice sendbuff (j * n) n)

-- The root synchronises with every peer, sends peer `j` chunk `j`, in order, and keeps chunk 0,
-- whatever its own rank is.
pub scatter_root :
    (c : Comm) (sendbuff recvbuff : List ℕ) (count data_size : ℕ) (ins : Inbox)
    (noise later : ℕ → List Rx)
    → (c.rank == c.root) ≡ true
    → c.root < c.size
    → Answers c ins noise later
    → c.size * (count * data_size) ≤ length sendbuff
    → count * data_size ≤ length recvbuff
    → let n = count * data_size in
      let ps = peers c.root c.size 0 in
      scatter c sendbuff count recvbuff count data_size ins
      ≡ ok
          (take n sendbuff ++ drop n recvbuff)
          (drain later ps ins)
          (acts_of (sync_acts noise) ps ++ acts_of (scatter_acts sendbuff n) ps)
unfolding scatter
scatter_root c sendbuff recvbuff count data_size ins noise later r in_range known h k =
    let n = count * data_size in
    let ps = peers c.root c.size 0 in
    rw (
      ==_refl count,
      sync_root_lem c ins noise later r known,
      r,
      each_peer_send c.root c.size
          (λ i _. delay_ms delay >> send sendbuff (i * count * data_size) i count data_size)
          (scatter_acts sendbuff n)
          (λ j ins' lt. rw (
            mul_assoc j count data_size,
            send_lem sendbuff (j * n) j count data_size ins'
                (omega (arith, chunk_fits j c.size n lt)),
          ))
          (drain later ps ins),
      memcpy_front recvbuff sendbuff n (drain later ps ins) k
          (omega (arith, chunk_fits c.root c.size n in_range)),
      append-nil,
    )

-- A peer answers the signal and then takes its chunk into its buffer.
pub scatter_peer :
    (c : Comm) (sendbuff recvbuff : List ℕ) (count data_size : ℕ) (ins : Inbox)
    (noise rs rest : List Rx)
    → (c.rank == c.root) ≡ false
    → ins c.root ≡ noise ++ byte sync_signal ∷ (rs ++ rest)
    → Unsignalled sync_signal noise
    → length rs ≡ count * data_size
    → count * data_size ≤ length recvbuff
    → scatter c sendbuff count recvbuff count data_size ins
      ≡ ok
          (map to_char rs ++ drop (count * data_size) recvbuff)
          (feed ins c.root rest)
          (slept delay ∷ sent c.root sync_signal ∷ [])
unfolding scatter
scatter_peer c sendbuff recvbuff count data_size ins noise rs rest r e u len h = rw (
  ==_refl count,
  sync_peer_lem c ins noise (rs ++ rest) r e u,
  r,
  recv_front recvbuff c.root count data_size (feed ins c.root (rs ++ rest)) rs rest
      (feed_self ins c.root (rs ++ rest)) len h,
  feed-feed,
)

-- With two different counts the call stops at once, on either side.
pub scatter_counts :
    (c : Comm) (sendbuff recvbuff : List ℕ) (sendcount recvcount data_size : ℕ) (ins : Inbox)
    → sendcount ≢ recvcount
    → scatter c sendbuff sendcount recvbuff recvcount data_size ins ≡ panicked []
unfolding scatter
scatter_counts c sendbuff recvbuff sendcount recvcount data_size ins ne =
    rw (ne→== sendcount recvcount ne)
