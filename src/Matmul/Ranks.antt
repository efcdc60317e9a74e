-- ===== src/Matmul/Ranks.antt =====
-- `notmain` of src/tests/1-matmul/matmul-hard.c: what each rank does after `FMPI_Init`.
mod Share
mod Root
mod Peer
mod Verified
mod Tests
use cs140e_final_parallel_co.Base.{
  ℕ, zero, suc, ◌+◌, ◌*◌, Option, none, some, List, ◌==◌, if◌then◌else◌,
}
use cs140e_final_parallel_co.Fmpi.Link.{M, ◌>>=◌, ◌>>◌, pure}
use cs140e_final_parallel_co.Fmpi.Sync.{Comm}
use cs140e_final_parallel_co.Fmpi.Collective.{bcast, scatter, gather, barrier}
use cs140e_final_parallel_co.Matmul.{Matrix, put_elem, matmul, generate_matrices, verify_result}
use cs140e_final_parallel_co.Matmul.Bytes.{load, store}

abbrev pub data_size : ℕ
data_size = 4

-- The loop over the rows of the rank's share, with `left` rows to go.
unfoldable pub multiply_share : (n left i : ℕ) → (a_sub b c_sub : Matrix) → Matrix
multiply_share n zero i a_sub b c_sub = c_sub
multiply_share n (suc left) i a_sub b c_sub =
    multiply_share n left (i + 1) a_sub b (put_elem c_sub i (matmul n (a_sub i) b (c_sub i)))

-- From the broadcast to the second barrier and the check of rank 0, whose result this returns. `rows`
-- is `rows_per_process`. The prints and the cycle counts are left out.
unfoldable pub multiply_ranks :
    Comm → (n rows : ℕ) → (a b expected c a_sub c_sub : Matrix) → M (Option ℕ)
multiply_ranks comm n rows a b expected c a_sub c_sub = do
  b_bytes ← bcast comm (store n n 0 b) (n * n) data_size
  a_bytes ← scatter comm (store n n 0 a) (rows * n) (store n rows 0 a_sub) (rows * n) data_size
  barrier comm
  c_bytes ←
      gather comm (store n rows 0 (multiply_share n rows 0 (load n a_bytes) (load n b_bytes) c_sub))
        (rows * n) (store n n 0 c) (rows * n) data_size
  barrier comm
  pure (if comm.rank == 0 then some (verify_result n (load n c_bytes) expected) else none)

-- `notmain`, with what the arrays on the stack hold at first.
unfoldable pub notmain : Comm → (n rows : ℕ) → (a b expected c a_sub c_sub : Matrix) → M (Option ℕ)
notmain comm n rows a b expected c a_sub c_sub =
    if comm.rank == 0
    then (let made = generate_matrices n a b expected in
        multiply_ranks comm n rows (made.0) (made.1) (made.2) c a_sub c_sub)
    else multiply_ranks comm n rows a b expected c a_sub c_sub
