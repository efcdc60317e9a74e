-- ===== src/Fmpi/RoundTrip.antt =====
-- `FMPI_Scatter` and then `FMPI_Gather` of what each rank received.
use cs140e_final_parallel_co.Base.{
  ℕ, ◌*◌, ◌≤◌, ◌<◌, ◌≡◌, ap, ◌∙◌, true, false, List, ◌++◌, map, arith, ◌==◌, length, take, drop,
  if◌then◌else◌, slice, length-take, length-map, length-slice, chunks_ext, take-append, Bool-cases,
  inl, inr, ==→eq,
}
use native.Mathlib.Nat.{zero-mul}
use cs140e_final_parallel_co.Fmpi.Link.{Rx, byte, Inbox, Run}
use cs140e_final_parallel_co.Fmpi.Transfer.{to_char}
use cs140e_final_parallel_co.Fmpi.Sync.{Comm}
use cs140e_final_parallel_co.Fmpi.Sync.Laws.{Answers}
use cs140e_final_parallel_co.Fmpi.Collective.{scatter, gather}
use cs140e_final_parallel_co.Fmpi.Collective.Scatter.{scatter_root, chunk_fits}
use cs140e_final_parallel_co.Fmpi.Collective.Gather.{gather_root, gather_chunks}
use cs140e_final_parallel_co.Fmpi.Delivery.{trace, value, heard, map-to_char_byte, scatter_delivers}

-- The run of `FMPI_Scatter` at peer `j`, whose buffers are both `buffer`.
abbrev pub scatter_at : Comm → ℕ → List ℕ → (count data_size : ℕ) → Inbox → Run (List ℕ)
scatter_at c j buffer count data_size ins =
    scatter (record c { rank = j }) buffer count buffer count data_size ins

module _ (c : Comm) (sendbuff recvbuff : List ℕ) (count data_size : ℕ) (ins : Inbox)
    (noise later : ℕ → List Rx) (root_rank : (c.rank == c.root) ≡ true) (in_range : c.root < c.size)
    (known : Answers c ins noise later) (enough : c.size * (count * data_size) ≤ length sendbuff)
    (room : count * data_size ≤ length recvbuff)
    -- the peers' buffers and what their UARTs hear
    (bufs : ℕ → List ℕ) (hears : ℕ → Inbox) (rest : ℕ → List Rx)
    (rooms : (j : ℕ) → count * data_size ≤ length (bufs j))
    (links : (j : ℕ)
      → j < c.size
      → (j == c.root) ≡ false
      → hears j c.root
        ≡ heard j (length (noise j)) (trace (scatter c sendbuff count recvbuff count data_size ins))
          ++ rest j) where
  -- A peer's buffer begins with its chunk.
  take-scatter_at :
      (j : ℕ)
      → j < c.size
      → (j == c.root) ≡ false
      → take (count * data_size) (value (scatter_at c j (bufs j) count data_size (hears j)))
        ≡ slice sendbuff (j * (count * data_size)) (count * data_size)
  take-scatter_at j lt ne =
      let n = count * data_size in
      ap (λ r. take n (value r))
        (scatter_delivers c j sendbuff recvbuff (bufs j) (bufs j) count data_size ins (hears j)
          noise later (rest j) root_rank in_range known lt ne enough room (rooms j) (links j lt ne))
      ∙ take-append (slice sendbuff (j * n) n) (drop n (bufs j)) n
          (length-slice sendbuff (j * n) n (omega (arith, chunk_fits j c.size n lt)))

  take-scatter_root :
      take (count * data_size) (value (scatter c sendbuff count recvbuff count data_size ins))
      ≡ take (count * data_size) sendbuff
  take-scatter_root =
      let n = count * data_size in
      ap (λ r. take n (value r))
        (scatter_root c sendbuff recvbuff count data_size ins noise later root_rank in_range known
          enough room)
      ∙ take-append (take n sendbuff) (drop n recvbuff) n
          (omega (arith, length-take n sendbuff, chunk_fits c.root c.size n in_range))

  -- With rank 0 as the root, a scatter and then a gather of what each rank received, sent from the
  -- front of its buffer, restores the scattered bytes in rank order.
  pub gather-scatter :
      (recvbuff' : List ℕ) (ins' : Inbox) (noise' rest' : ℕ → List Rx)
      → c.root ≡ 0
      → Answers c ins' noise' (λ j.
        map byte
          (take (count * data_size) (value (scatter_at c j (bufs j) count data_size (hears j))))
        ++ rest' j)
      → c.size * (count * data_size) ≤ length recvbuff'
      → take (c.size * (count * data_size)) (
          value (
            gather c
              (value (scatter c sendbuff count recvbuff count data_size ins))
              count
              recvbuff'
              count
              data_size
              ins'))
        ≡ take (c.size * (count * data_size)) sendbuff
  gather-scatter recvbuff' ins' noise' rest' zero_root known' enough' =
      let n = count * data_size in
      let kept = value (scatter c sendbuff count recvbuff count data_size ins) in
      let rs : ℕ → List Rx =
        λ j. map byte (take n (value (scatter_at c j (bufs j) count data_size (hears j)))) in
      let len : (j : ℕ) → j < c.size → (j == c.root) ≡ false → length (rs j) ≡ n = λ j lt ne.
        length-map byte (take n (value (scatter_at c j (bufs j) count data_size (hears j))))
        ∙ ap (λ bs. length bs) (take-scatter_at j lt ne)
        ∙ length-slice sendbuff (j * n) n (omega (arith, chunk_fits j c.size n lt)) in
      let long : n ≤ length kept = omega (
        arith,
        length-take n kept,
        ap (λ bs. length bs) take-scatter_root,
        length-take n sendbuff,
        chunk_fits c.root c.size n in_range,
      ) in
      chunks_ext c.size n (value (gather c kept count recvbuff' count data_size ins')) sendbuff
        (λ i lt.
          ap (λ r. slice (value r) (i * n) n)
            (gather_root c kept recvbuff' count data_size ins' noise' rs rest' root_rank in_range
              known' len enough' long)
          ∙ gather_chunks c kept recvbuff' n rs i in_range len enough' long lt
          ∙ elim (Bool-cases (i == 0)) [
            | inl e ↦ rw e (take-scatter_root ∙ rw (==→eq i 0 e, zero-mul))
            | inr e ↦
                let ne : (i == c.root) ≡ false = ground arith in
                rw (e, ne, map-to_char_byte) (take-scatter_at i lt ne)
          ])

-- What the root's receive buffer holds after `FMPI_Gather`, chunk by chunk: its own bytes in chunk
-- 0, each peer's bytes in the peer's chunk, and the old bytes in the root's own chunk. Where the
-- root is not rank 0, the bytes of rank 0 are overwritten and the root's chunk is not written.
pub gather_delivers :
    (c : Comm) (sendbuff recvbuff : List ℕ) (count data_size : ℕ) (ins : Inbox)
    (noise rs rest : ℕ → List Rx) (i : ℕ)
    → (c.rank == c.root) ≡ true
    → c.root < c.size
    → Answers c ins noise (λ j. rs j ++ rest j)
    → ((j : ℕ) → j < c.size → (j == c.root) ≡ false → length (rs j) ≡ count * data_size)
    → c.size * (count * data_size) ≤ length recvbuff
    → count * data_size ≤ length sendbuff
    → i < c.size
    → let n = count * data_size in
      slice (value (gather c sendbuff count recvbuff count data_size ins)) (i * n) n ≡ (
        if i == 0
        then take n sendbuff
        else if i == c.root
        then slice recvbuff (i * n) n
        else map to_char (rs i))
gather_delivers c sendbuff recvbuff count data_size ins noise rs rest i r in_range known len room
      enough lt =
    let n = count * data_size in
    ap (λ r. slice (value r) (i * n) n)
      (gather_root c sendbuff recvbuff count data_size ins noise rs rest r in_range known len room
        enough)
    ∙ gather_chunks c sendbuff recvbuff n rs i in_range len room enough lt
