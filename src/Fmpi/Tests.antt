-- ===== src/Fmpi/Tests.antt =====
-- Concrete runs of fmpi.c on three ranks: peer 1 answers the second signal, peer 2 the first.
use cs140e_final_parallel_co.Base.{
  ℕ, ◌+◌, ◌*◌, ◌≡◌, refl, Bool, true, false, List, [], ◌∷◌, ◌++◌, map, arith, ◌==◌, length, take,
  drop, slice,
}
use cs140e_final_parallel_co.Fmpi.Link.{Rx, byte, quiet, Inbox, feed, sent, slept, ok}
use cs140e_final_parallel_co.Fmpi.Transfer.{overwrite}
use cs140e_final_parallel_co.Fmpi.Transfer.Laws.{Unsignalled}
use cs140e_final_parallel_co.Fmpi.Sync.{Comm, sync_root_last, sync_signal, send_signal_byte, delay}
use cs140e_final_parallel_co.Fmpi.Sync.Laws.{
  peers, acts_of, drain, sync_acts, sync_root_lem, sync_peer_lem,
}
use cs140e_final_parallel_co.Fmpi.Collective.{bcast, scatter, gather}
use cs140e_final_parallel_co.Fmpi.Collective.Bcast.{bcast_root, bcast_acts}
use cs140e_final_parallel_co.Fmpi.Collective.Scatter.{scatter_root, scatter_acts}
use cs140e_final_parallel_co.Fmpi.Collective.Gather.{gather_root, gather_peer, filled}
use cs140e_final_parallel_co.Fmpi.Delivery.{trace, value, heard, bcast_delivers, scatter_delivers}
use cs140e_final_parallel_co.Fmpi.RoundTrip.{scatter_at, gather-scatter, gather_delivers}

abbrev comm : Comm
comm = record { rank = 0; size = 3; root = 0 }

abbrev peer : ℕ → Comm
peer i = record comm { rank = i }

abbrev sendbuff : List ℕ
sendbuff = 1 ∷ 2 ∷ 3 ∷ 4 ∷ 5 ∷ 6 ∷ []

abbrev recvbuff : List ℕ
recvbuff = 0 ∷ 0 ∷ 0 ∷ 0 ∷ 0 ∷ 0 ∷ []

abbrev once_quiet : Bool → List Rx
once_quiet true = quiet ∷ []
once_quiet false = []

abbrev noise : ℕ → List Rx
noise j = once_quiet (j == 1)

noise-Unsignalled : (signal : ℕ) (late : Bool) → Unsignalled signal (once_quiet late)
noise-Unsignalled signal true = (refl, tt)
noise-Unsignalled signal false = tt

abbrev no_rx : ℕ → List Rx
no_rx j = []

-- What the root hears: the answer, and two bytes that depend on the peer.
abbrev chunk : ℕ → List Rx
chunk j = byte (10 * j) ∷ byte (10 * j + 1) ∷ []

abbrev synced : Inbox
synced j = noise j ++ byte sync_signal ∷ []

abbrev with_chunks : Inbox
with_chunks j = noise j ++ byte sync_signal ∷ (chunk j ++ [])

-- What peer `j` hears of a scatter.
abbrev hears : ℕ → Inbox
hears j q =
    heard j (length (noise j)) (trace (scatter comm sendbuff 1 recvbuff 1 2 synced)) ++ no_rx j

abbrev received : ℕ → List ℕ
received j = take 2 (value (scatter_at comm j recvbuff 1 2 (hears j)))

abbrev sent_back : Inbox
sent_back j = noise j ++ byte sync_signal ∷ (map byte (received j) ++ [])

gather-scatter_example :
    take 6 (
      value (
        gather comm (value (scatter comm sendbuff 1 recvbuff 1 2 synced)) 1 recvbuff 1 2 sent_back))
    ≡ take 6 sendbuff
gather-scatter_example =
    gather-scatter comm sendbuff recvbuff 1 2 synced noise no_rx refl (omega arith)
      (λ j lt ne. (refl, noise-Unsignalled sync_signal (j == 1))) (omega arith) (omega arith)
      (λ j. recvbuff) hears no_rx (λ j. omega arith) (λ j lt ne. refl) recvbuff sent_back noise
      no_rx refl (λ j lt ne. (refl, noise-Unsignalled sync_signal (j == 1))) (omega arith)

scatter_delivers_example :
    scatter (peer 1) [] 1 recvbuff 1 2 (hears 1)
    ≡ ok
        (slice sendbuff (1 * (1 * 2)) (1 * 2) ++ drop (1 * 2) recvbuff)
        (feed (hears 1) 0 [])
        (slept delay ∷ sent 0 sync_signal ∷ [])
scatter_delivers_example =
    scatter_delivers comm 1 sendbuff recvbuff [] recvbuff 1 2 synced (hears 1) noise no_rx [] refl
      (omega arith) (λ j lt ne. (refl, noise-Unsignalled sync_signal (j == 1))) (omega arith) refl
      (omega arith) (omega arith) (omega arith) refl

abbrev hears_bcast : Inbox
hears_bcast q = heard 1 (length (noise 1)) (trace (bcast comm sendbuff 2 2 synced)) ++ []

bcast_delivers_example :
    bcast (peer 1) recvbuff 2 2 hears_bcast
    ≡ ok
        (take (2 * 2) sendbuff ++ drop (2 * 2) recvbuff)
        (feed hears_bcast 0 [])
        (slept delay ∷ sent 0 sync_signal ∷ [])
bcast_delivers_example =
    bcast_delivers comm 1 sendbuff recvbuff 2 2 synced hears_bcast noise no_rx [] refl
      (λ j lt ne. (refl, noise-Unsignalled sync_signal (j == 1))) (omega arith) refl (omega arith)
      (omega arith) refl

gather_delivers_example :
    slice (value (gather comm sendbuff 1 recvbuff 1 2 with_chunks)) (1 * (1 * 2)) (1 * 2)
    ≡ 10 ∷ 11 ∷ []
gather_delivers_example =
    gather_delivers comm sendbuff recvbuff 1 2 with_chunks noise chunk no_rx 1 refl (omega arith)
      (λ j lt ne. (refl, noise-Unsignalled sync_signal (j == 1))) (λ j lt ne. refl) (omega arith)
      (omega arith) (omega arith)

gather_root_example :
    gather comm sendbuff 1 recvbuff 1 2 with_chunks
    ≡ ok
        (overwrite (filled chunk 2 (peers 0 3 0) recvbuff) 0 (take 2 sendbuff))
        (drain no_rx (peers 0 3 0) (drain (λ j. chunk j ++ no_rx j) (peers 0 3 0) with_chunks))
        (acts_of (sync_acts noise) (peers 0 3 0)
          ++ acts_of (λ j. sent j send_signal_byte ∷ []) (peers 0 3 0))
gather_root_example =
    gather_root comm sendbuff recvbuff 1 2 with_chunks noise chunk no_rx refl (omega arith)
      (λ j lt ne. (refl, noise-Unsignalled sync_signal (j == 1))) (λ j lt ne. refl) (omega arith)
      (omega arith)

scatter_root_example :
    scatter comm sendbuff 1 recvbuff 1 2 synced
    ≡ ok
        (take 2 sendbuff ++ drop 2 recvbuff)
        (drain no_rx (peers 0 3 0) synced)
        (acts_of (sync_acts noise) (peers 0 3 0) ++ acts_of (scatter_acts sendbuff 2) (peers 0 3 0))
scatter_root_example =
    scatter_root comm sendbuff recvbuff 1 2 synced noise no_rx refl (omega arith)
      (λ j lt ne. (refl, noise-Unsignalled sync_signal (j == 1))) (omega arith) (omega arith)

bcast_root_example :
    bcast comm sendbuff 2 2 synced
    ≡ ok sendbuff (drain no_rx (peers 0 3 0) synced) (bcast_acts comm noise (take 4 sendbuff))
bcast_root_example =
    bcast_root comm sendbuff 2 2 synced noise no_rx refl
      (λ j lt ne. (refl, noise-Unsignalled sync_signal (j == 1))) (omega arith)

abbrev asked : Inbox
asked q = once_quiet true ++ byte sync_signal ∷ (once_quiet true ++ byte send_signal_byte ∷ [])

gather_peer_example :
    gather (peer 1) sendbuff 1 recvbuff 1 2 asked
    ≡ ok recvbuff
        (feed asked 0 [])
        (slept delay ∷ sent 0 sync_signal ∷ slept delay ∷ map (sent 0) (take (1 * 2) sendbuff))
gather_peer_example =
    gather_peer (peer 1) sendbuff recvbuff 1 2 asked (once_quiet true) (once_quiet true) [] refl
      refl (noise-Unsignalled sync_signal true) (noise-Unsignalled send_signal_byte true)
      (omega arith)

sync_root_lem_example :
    sync_root_last comm synced
    ≡ ok tt (drain no_rx (peers 0 3 0) synced) (acts_of (sync_acts noise) (peers 0 3 0))
sync_root_lem_example =
    sync_root_lem comm synced noise no_rx refl
      (λ j lt ne. (refl, noise-Unsignalled sync_signal (j == 1)))

sync_peer_lem_example :
    sync_root_last (peer 1) synced
    ≡ ok tt (feed synced 0 []) (slept delay ∷ sent 0 sync_signal ∷ [])
sync_peer_lem_example = sync_peer_lem (peer 1) synced [] [] refl refl tt
