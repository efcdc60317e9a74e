-- ===== src/Matmul/Ranks/Peer.antt =====
-- A rank other than 0 in `notmain` of matmul-hard.c.
use cs140e_final_parallel_co.Base.{
  ℕ, ◌*◌, ◌<◌, ◌≡◌, ◌∙◌, false, List, [], ◌∷◌, ◌++◌, arith, ◌==◌, drop, slice, map, none,
  length-map, take_all,
}
use cs140e_final_parallel_co.Fmpi.Collective.{barrier}
use cs140e_final_parallel_co.Fmpi.Collective.Bcast.{bcast_peer}
use cs140e_final_parallel_co.Fmpi.Collective.Scatter.{scatter_peer}
use cs140e_final_parallel_co.Fmpi.Collective.Gather.{gather_peer}
use cs140e_final_parallel_co.Fmpi.Link.{Rx, byte, Inbox, feed, sent, slept, ok}
use cs140e_final_parallel_co.Fmpi.Transfer.Laws.{Unsignalled, feed_self, feed-feed}
use cs140e_final_parallel_co.Fmpi.Sync.{Comm, sync_signal, send_signal_byte, delay}
use cs140e_final_parallel_co.Fmpi.Sync.Laws.{sync_peer_lem}
use cs140e_final_parallel_co.Fmpi.Delivery.{map-to_char_byte}
use cs140e_final_parallel_co.Matmul.{Matrix}
use cs140e_final_parallel_co.Matmul.Bytes.{store, length-store}
use cs140e_final_parallel_co.Matmul.Ranks.{multiply_ranks, notmain}
use cs140e_final_parallel_co.Matmul.Ranks.Share.{IsInt32, part, store-share, chunk_length}

-- What a peer hears of rank 0: the matrix `b`, its rows of `a`, and the signals, each after outcomes
-- that are not the signal.
abbrev pub HearsRoot :
    Comm → (n rows : ℕ) → (a b : Matrix) → Inbox → (n1 n2 n3 n4 n5 n6 last : List Rx) → Type 0
HearsRoot c n rows a b ins n1 n2 n3 n4 n5 n6 last =
    (ins c.root
      ≡ n1
        ++ byte sync_signal
          ∷ (map byte (store n n 0 b)
              ++ (n2
                  ++ byte sync_signal
                    ∷ (map byte (slice (store n n 0 a) (c.rank * (rows * n * 4)) (rows * n * 4))
                        ++ (n3
                            ++ byte sync_signal
                              ∷ (n4
                                  ++ byte sync_signal
                                    ∷ (n5
                                        ++ byte send_signal_byte
                                          ∷ (n6 ++ byte sync_signal ∷ last))))))))
    × Unsignalled sync_signal n1
    × Unsignalled sync_signal n2
    × Unsignalled sync_signal n3
    × Unsignalled sync_signal n4
    × Unsignalled send_signal_byte n5
    × Unsignalled sync_signal n6

-- A peer that hears the matrices from rank 0 runs to the end. It answers the five signals and sends
-- its rows of the product, whatever its own arrays held.
pub notmain_peer :
    (c : Comm) (n rows : ℕ) (a b a0 b0 expected c0 a_sub c_sub : Matrix) (ins : Inbox)
    (n1 n2 n3 n4 n5 n6 last : List Rx)
    → c.root ≡ 0
    → (c.rank == c.root) ≡ false
    → c.rank < c.size
    → c.size * rows ≡ n
    → IsInt32 n a
    → IsInt32 n b
    → HearsRoot c n rows a b ins n1 n2 n3 n4 n5 n6 last
    → notmain c n rows a0 b0 expected c0 a_sub c_sub ins
      ≡ ok none (feed ins c.root last) (
          slept delay
          ∷ sent c.root sync_signal
          ∷ slept delay
          ∷ sent c.root sync_signal
          ∷ slept delay
          ∷ sent c.root sync_signal
          ∷ slept delay
          ∷ sent c.root sync_signal
          ∷ slept delay
          ∷ (map (sent c.root) (store n rows 0 (part n rows a b c.rank))
              ++ (slept delay ∷ sent c.root sync_signal ∷ [])))
unfolding notmain multiply_ranks barrier
notmain_peer c n rows a b a0 b0 expected c0 a_sub c_sub ins n1 n2 n3 n4 n5 n6 last zero_root peer
      in_range whole ia ib hears =
    let chunk = rows * n * 4 in
    let root = c.root in
    let a_bytes = slice (store n n 0 a) (c.rank * chunk) chunk in
    let sum = store n rows 0 (part n rows a b c.rank) in
    let d6 = n6 ++ byte sync_signal ∷ last in
    let d5 = n5 ++ byte send_signal_byte ∷ d6 in
    let d4 = n4 ++ byte sync_signal ∷ d5 in
    let d3 = n3 ++ byte sync_signal ∷ d4 in
    let d2 = n2 ++ byte sync_signal ∷ (map byte a_bytes ++ d3) in
    let not_zero : (c.rank == 0) ≡ false = ground arith in
    rw (
      not_zero,
      bcast_peer c (store n n 0 b0) (n * n) 4 ins n1 (map byte (store n n 0 b)) d2 peer (hears.0)
          (hears.1) (length-map byte (store n n 0 b) ∙ omega (arith, length-store n n 0 b))
          (omega (arith, length-store n n 0 b0)),
      map-to_char_byte (store n n 0 b),
      scatter_peer c (store n n 0 a0) (store n rows 0 a_sub) (rows * n) 4 (feed ins root d2) n2
          (map byte a_bytes) d3 peer (feed_self ins root d2) (hears.2)
          (length-map byte a_bytes
            ∙ chunk_length n rows c.size c.rank (store n n 0 a) whole in_range
                (length-store n n 0 a))
          (omega (arith, length-store n rows 0 a_sub)),
      map-to_char_byte a_bytes,
      feed-feed,
      sync_peer_lem c (feed ins root d3) n3 d4 peer (feed_self ins root d3) (hears.3),
      feed-feed,
      store-share n rows c.size c.rank a b c_sub (drop chunk (store n rows 0 a_sub))
          (drop (n * n * 4) (store n n 0 b0)) whole in_range ia ib,
      gather_peer c sum (store n n 0 c0) (rows * n) 4 (feed ins root d4) n4 n5 d6 peer
          (feed_self ins root d4) (hears.4) (hears.5)
          (omega (arith, length-store n rows 0 (part n rows a b c.rank))),
      feed-feed,
      take_all chunk sum (omega (arith, length-store n rows 0 (part n rows a b c.rank))),
      sync_peer_lem c (feed ins root d6) n6 last peer (feed_self ins root d6) (hears.6),
      feed-feed,
    )
