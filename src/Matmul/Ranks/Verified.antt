-- ===== src/Matmul/Ranks/Verified.antt =====
-- The outcome of matmul-hard.c on rank 0.
use cs140e_final_parallel_co.Base.{ℕ, ◌*◌, ◌^◌, ◌<◌, ◌≡◌, true, ap, ◌∙◌, arith, ◌==◌, List, some}
use cs140e_final_parallel_co.Fmpi.Link.{Rx, Inbox}
use cs140e_final_parallel_co.Fmpi.Sync.{Comm}
use cs140e_final_parallel_co.Matmul.{Matrix, generate_matrices}
use cs140e_final_parallel_co.Matmul.Generated.{generated_a, generated_b, verify_result-generated}
use cs140e_final_parallel_co.Matmul.Ranks.{notmain}
use cs140e_final_parallel_co.Matmul.Ranks.Root.{Hears, verdict, multiply_ranks_root}

-- If every peer answers the signals and sends its rows of the product of the generated matrices,
-- rank 0 ends with a successful verification, for any number of ranks whose shares make up the
-- matrix and any size `n` below 2 ^ 32.
pub notmain_verifies :
    (c : Comm) (n rows : ℕ) (a b expected c0 a_sub c_sub : Matrix) (ins : Inbox)
    (n1 n2 n3 n4 n5 last : ℕ → List Rx)
    → c.root ≡ 0
    → (c.rank == c.root) ≡ true
    → c.root < c.size
    → c.size * rows ≡ n
    → n < 2 ^ 32
    → let made = generate_matrices n a b expected in
      Hears c n rows (made.0) (made.1) ins n1 n2 n3 n4 n5 last
      → verdict (notmain c n rows a b expected c0 a_sub c_sub ins) ≡ some 1
unfolding notmain
notmain_verifies c n rows a b expected c0 a_sub c_sub ins n1 n2 n3 n4 n5 last zero_root root_rank
      in_range whole small hears =
    let made = generate_matrices n a b expected in
    let rank_zero : (c.rank == 0) ≡ true = ground arith in
    rw rank_zero (
      multiply_ranks_root c n rows (made.0) (made.1) zero_root in_range whole
        (λ i j hi hj. omega (arith, generated_a n a b expected i j hi hj))
        (λ i j hi hj. omega (arith, generated_b n a b expected i j hi hj)) (made.2) c0 a_sub c_sub
        ins n1 n2 n3 n4 n5 last root_rank hears
      ∙ ap some (verify_result-generated n a b expected))
