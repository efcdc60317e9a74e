-- ===== src/Fmpi/Collective/Bcast.antt =====
-- `FMPI_Bcast` on both sides, and from the root to a peer.
use cs140e_final_parallel_co.Base.{
  ℕ, ◌*◌, ◌≤◌, ◌≡◌, true, false, List, [], ◌∷◌, ◌++◌, map, append-nil, arith, ◌==◌, length, take,
  drop,
}
use cs140e_final_parallel_co.Fmpi.Link.{Rx, byte, Inbox, feed, Act, sent, slept, ok}
use cs140e_final_parallel_co.Fmpi.Transfer.{to_char, send}
use cs140e_final_parallel_co.Fmpi.Transfer.Laws.{
  Unsignalled, send_lem, recv_front, feed_self, feed-feed,
}
use cs140e_final_parallel_co.Fmpi.Sync.{Comm, sync_signal, delay}
use cs140e_final_parallel_co.Fmpi.Sync.Laws.{
  peers, acts_of, drain, Answers, sync_acts, sync_root_lem, sync_peer_lem, each_peer_send,
}
use cs140e_final_parallel_co.Fmpi.Collective.{bcast}

-- What the root does in `FMPI_Bcast`.
abbrev pub bcast_acts : Comm → (ℕ → List Rx) → List ℕ → List Act
bcast_acts c noise bytes =
    let ps = peers c.root c.size 0 in
    acts_of (sync_acts noise) ps ++ acts_of (λ j. map (sent j) bytes) ps

-- The root synchronises with every peer first, in order, and then sends each peer, in order, the
-- first `count * data_size` bytes; its buffer stays as it is.
pub bcast_root :
    (c : Comm) (buffer : List ℕ) (count data_size : ℕ) (ins : Inbox) (noise later : ℕ → List Rx)
    → (c.rank == c.root) ≡ true
    → Answers c ins noise later
    → count * data_size ≤ length buffer
    → bcast c buffer count data_size ins
      ≡ ok buffer
          (drain later (peers c.root c.size 0) ins)
          (bcast_acts c noise (take (count * data_size) buffer))
unfolding bcast
bcast_root c buffer count data_size ins noise later r known h = rw (
  sync_root_lem c ins noise later r known,
  r,
  each_peer_send c.root c.size (λ i _. send buffer 0 i count data_size)
      (λ j. map (sent j) (take (count * data_size) buffer))
      (λ j ins' _. send_lem buffer 0 j count data_size ins' (omega arith))
      (drain later (peers c.root c.size 0) ins),
  append-nil,
)

-- A peer answers the signal and then takes `count * data_size` outcomes into its buffer.
pub bcast_peer :
    (c : Comm) (buffer : List ℕ) (count data_size : ℕ) (ins : Inbox) (noise rs rest : List Rx)
    → (c.rank == c.root) ≡ false
    → ins c.root ≡ noise ++ byte sync_signal ∷ (rs ++ rest)
    → Unsignalled sync_signal noise
    → length rs ≡ count * data_size
    → count * data_size ≤ length buffer
    → bcast c buffer count data_size ins
      ≡ ok
          (map to_char rs ++ drop (count * data_size) buffer)
          (feed ins c.root rest)
          (slept delay ∷ sent c.root sync_signal ∷ [])
unfolding bcast
bcast_peer c buffer count data_size ins noise rs rest r e u len h = rw (
  sync_peer_lem c ins noise (rs ++ rest) r e u,
  r,
  recv_front buffer c.root count data_size (feed ins c.root (rs ++ rest)) rs rest
      (feed_self ins c.root (rs ++ rest)) len h,
  feed-feed,
)
