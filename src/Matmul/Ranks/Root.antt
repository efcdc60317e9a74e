-- ===== src/Matmul/Ranks/Root.antt =====
-- Rank 0 in `notmain` of matmul-hard.c.
use cs140e_final_parallel_co.Base.{
  ℕ, zero, suc, ◌+◌, ◌-◌, ◌*◌, ◌≤◌, ◌<◌, ◌≡◌, refl, sym, ap, ap₂, ◌∙◌, true, false, List, [], ◌∷◌,
  ◌++◌, arith, ◌==◌, Bool-cases, inl, inr, ==→eq, length, take, drop, slice, map, Option, none,
  some, append-nil, length-map, take_all,
}
use native.Mathlib.Decide.{dec_lt}
use native.Mathlib.Nat.{zero-mul}
use cs140e_final_parallel_co.Fmpi.Collective.Scatter.{scatter_root}
use cs140e_final_parallel_co.Fmpi.Collective.Bcast.{bcast_root}
use cs140e_final_parallel_co.Fmpi.Collective.Gather.{gather_root, gather_chunks, filled}
use cs140e_final_parallel_co.Fmpi.Collective.{barrier}
use cs140e_final_parallel_co.Fmpi.Link.{Rx, byte, Inbox, Run, ok, starved, fault, panicked}
use cs140e_final_parallel_co.Fmpi.Transfer.{overwrite}
use cs140e_final_parallel_co.Fmpi.Transfer.Laws.{Unsignalled}
use cs140e_final_parallel_co.Fmpi.Sync.{Comm, sync_signal}
use cs140e_final_parallel_co.Fmpi.Sync.Laws.{peers, drain, drain-peers, Answers, sync_root_lem}
use cs140e_final_parallel_co.Fmpi.Delivery.{map-to_char_byte}
use cs140e_final_parallel_co.Matmul.{Matrix, matrix_multiply, verify_result}
use cs140e_final_parallel_co.Matmul.Check.{verify_result_ext}
use cs140e_final_parallel_co.Matmul.Bytes.{load, store, load-store, load-slice, length-store}
use cs140e_final_parallel_co.Matmul.Product.{u32-product}
use cs140e_final_parallel_co.Matmul.Ranks.{multiply_share, multiply_ranks}
use cs140e_final_parallel_co.Matmul.Ranks.Share.{
  IsInt32, part, rank_fits, store-share, chunks_whole,
}

-- What rank 0 returns from a run that finished.
abbrev pub verdict : Run (Option ℕ) → Option ℕ
verdict (ok a ins t) = a
verdict (starved t) = none
verdict (fault t) = none
verdict (panicked t) = none

-- Each row is a row of some rank.
by_rank :
    (size rows : ℕ) (P : ℕ → Type 0)
    → ((i q : ℕ) → i < size → q < rows → P (i * rows + q))
    → (r : ℕ) → r < size * rows
    → P r
by_rank zero rows P h r lt = absurd (omega arith)
by_rank (suc size) rows P h r lt = elim (dec_lt r (size * rows)) [
  | yes p ↦ by_rank size rows P (λ i q l. h i q (omega arith)) r p
  | no p ↦
      let at : size * rows + (r - size * rows) ≡ r = omega arith in
      rw at at (h size (r - size * rows) (omega arith) (omega arith))
]

Answers-drain :
    (c : Comm) (ins : Inbox) (left noise later : ℕ → List Rx)
    → ((j : ℕ)
        → j < c.size
        → (j == c.root) ≡ false
        → (left j ≡ noise j ++ byte sync_signal ∷ later j) × Unsignalled sync_signal (noise j))
    → Answers c (drain left (peers c.root c.size 0) ins) noise later
Answers-drain c ins left noise later h j lt ne = (
  drain-peers left c.root c.size 0 ins j (omega arith) (omega arith) ne ∙ (h j lt ne).0,
  (h j lt ne).1,
)

-- What rank 0 hears of each peer: an answer in each of the five rounds, after outcomes that are no
-- signal, and in the gather the rows of the product that are the peer's.
abbrev pub Hears :
    Comm → (n rows : ℕ) → (a b : Matrix) → Inbox → (n1 n2 n3 n4 n5 last : ℕ → List Rx) → Type 0
Hears c n rows a b ins n1 n2 n3 n4 n5 last =
    (j : ℕ)
    → j < c.size
    → (j == c.root) ≡ false
    → (ins j
        ≡ n1 j
          ++ byte sync_signal
            ∷ (n2 j
                ++ byte sync_signal
                  ∷ (n3 j
                      ++ byte sync_signal
                        ∷ (n4 j
                            ++ byte sync_signal
                              ∷ (map byte (store n rows 0 (part n rows a b j))
                                  ++ (n5 j ++ byte sync_signal ∷ last j))))))
      × Unsignalled sync_signal (n1 j)
      × Unsignalled sync_signal (n2 j)
      × Unsignalled sync_signal (n3 j)
      × Unsignalled sync_signal (n4 j)
      × Unsignalled sync_signal (n5 j)

module _ (c : Comm) (n rows : ℕ) (a b : Matrix) (zero_root : c.root ≡ 0)
    (in_range : c.root < c.size) (whole : c.size * rows ≡ n) (ia : IsInt32 n a)
    (ib : IsInt32 n b) where
  abbrev own : List ℕ
  own = store n rows 0 (part n rows a b 0)

  -- What rank 0 computes from its own chunk.
  own_part :
      (c_sub : Matrix) (rest : List ℕ)
      → store n rows 0 (
          multiply_share n rows 0
            (load n (take (rows * n * 4) (store n n 0 a) ++ rest))
            (load n (store n n 0 b))
            c_sub)
        ≡ own
  own_part c_sub rest =
      ap₂
        (λ k bs. store n rows 0 (
          multiply_share n rows 0 (load n (take (rows * n * 4) (drop k (store n n 0 a)) ++ rest))
            (load n bs) c_sub))
        (sym (zero-mul (rows * n * 4))) (sym (append-nil (store n n 0 b)))
      ∙ store-share n rows c.size 0 a b c_sub rest [] whole (omega arith) ia ib

  abbrev sends : ℕ → List Rx
  sends j = map byte (store n rows 0 (part n rows a b j))

  length-part : (j : ℕ) → length (store n rows 0 (part n rows a b j)) ≡ rows * n * 4
  length-part j = length-store n rows 0 (part n rows a b j) ∙ omega arith

  length-sends : (j : ℕ) → length (sends j) ≡ rows * n * 4
  length-sends j = length-map byte (store n rows 0 (part n rows a b j)) ∙ length-part j

  whole_fits : c.size * (rows * n * 4) ≤ n * n * 4
  whole_fits = omega (arith, chunks_whole n rows c.size whole)

  abbrev received : Matrix → List ℕ
  received c0 =
      overwrite (filled sends (rows * n * 4) (peers c.root c.size 0) (store n n 0 c0)) 0
        (take (rows * n * 4) own)

  slice-received :
      (c0 : Matrix) (i : ℕ)
      → i < c.size
      → slice (received c0) (i * (rows * n * 4)) (rows * n * 4) ≡ store n rows 0 (part n rows a b i)
  slice-received c0 i lt =
      let chunk = rows * n * 4 in
      gather_chunks c own (store n n 0 c0) chunk sends i in_range (λ j _ _. length-sends j)
        (omega (arith, length-store n n 0 c0, whole_fits)) (omega (arith, length-part 0)) lt
      ∙ elim (Bool-cases (i == 0)) [
        | inl e ↦ rw e (
            take_all chunk own (omega (arith, length-part 0))
            ∙ ap (λ k. store n rows 0 (part n rows a b k)) (sym (==→eq i 0 e)))
        | inr e ↦
            let ne : (i == c.root) ≡ false = ground arith in
            rw (e, ne) (map-to_char_byte (store n rows 0 (part n rows a b i)))
      ]

  -- The gathered matrix is the product.
  load-received :
      (c0 : Matrix) (r j : ℕ)
      → r < n
      → j < n
      → load n (received c0) r j ≡ matrix_multiply n a b (λ _ _. 0) r j
  load-received c0 r j hr hj =
      by_rank c.size rows (λ r. load n (received c0) r j ≡ matrix_multiply n a b (λ _ _. 0) r j)
        (λ i q hi hq.
          sym (load-slice n rows i (received c0) q j hq hj)
          ∙ ap (λ bs. load n bs q j) (slice-received c0 i hi)
          ∙ load-store n rows (part n rows a b i) q j hq hj
          ∙ u32-product n a b (i * rows + q) j (rw (sym whole) (rank_fits i c.size q rows hi hq))
              hj)
        r (omega arith)

  -- Rank 0 of the program, with the rows that each peer sends, checks the product of the two
  -- matrices as one processor computes it.
  pub multiply_ranks_root :
      (expected c0 a_sub c_sub : Matrix) (ins : Inbox) (n1 n2 n3 n4 n5 last : ℕ → List Rx)
      → (c.rank == c.root) ≡ true
      → Hears c n rows a b ins n1 n2 n3 n4 n5 last
      → verdict (multiply_ranks c n rows a b expected c0 a_sub c_sub ins)
        ≡ some (verify_result n (matrix_multiply n a b (λ _ _. 0)) expected)
  unfolding multiply_ranks barrier
  multiply_ranks_root expected c0 a_sub c_sub ins n1 n2 n3 n4 n5 last root_rank hears =
      let ps = peers c.root c.size 0 in
      let chunk = rows * n * 4 in
      let d5 : ℕ → List Rx = λ j. n5 j ++ byte sync_signal ∷ last j in
      let d4 : ℕ → List Rx = λ j. sends j ++ d5 j in
      let d3 : ℕ → List Rx = λ j. n4 j ++ byte sync_signal ∷ d4 j in
      let d2 : ℕ → List Rx = λ j. n3 j ++ byte sync_signal ∷ d3 j in
      let d1 : ℕ → List Rx = λ j. n2 j ++ byte sync_signal ∷ d2 j in
      let ins1 = drain d1 ps ins in
      let ins2 = drain d2 ps ins1 in
      let ins3 = drain d3 ps ins2 in
      let ins4 = drain d5 ps (drain d4 ps ins3) in
      let rank_zero : (c.rank == 0) ≡ true = ground arith in
      rw
        (
          bcast_root c (store n n 0 b) (n * n) 4 ins n1 d1 root_rank
              (λ j lt ne. ((hears j lt ne).0, (hears j lt ne).1))
              (omega (arith, length-store n n 0 b)),
          scatter_root c (store n n 0 a) (store n rows 0 a_sub) (rows * n) 4 ins1 n2 d2 root_rank
              in_range (Answers-drain c ins d1 n2 d2 (λ j lt ne. (refl, (hears j lt ne).2)))
              (omega (arith, length-store n n 0 a, whole_fits))
              (omega (arith, length-store n rows 0 a_sub)),
          sync_root_lem c ins2 n3 d3 root_rank
              (Answers-drain c ins1 d2 n3 d3 (λ j lt ne. (refl, (hears j lt ne).3))),
          own_part c_sub (drop chunk (store n rows 0 a_sub)),
          gather_root c own (store n n 0 c0) (rows * n) 4 ins3 n4 sends d5 root_rank in_range
              (Answers-drain c ins2 d3 n4 d4 (λ j lt ne. (refl, (hears j lt ne).4)))
              (λ j _ _. length-sends j) (omega (arith, length-store n n 0 c0, whole_fits))
              (omega (arith, length-part 0)),
          sync_root_lem c ins4 n5 last root_rank (
              Answers-drain c (drain d4 ps ins3) d5 n5 last (λ j lt ne. (refl, (hears j lt ne).5))),
          rank_zero,
        )
        (ap some (
          verify_result_ext n (load n (received c0)) (matrix_multiply n a b (λ _ _. 0)) expected
            (load-received c0)))
