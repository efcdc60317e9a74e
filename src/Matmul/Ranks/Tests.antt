-- ===== src/Matmul/Ranks/Tests.antt =====
-- matmul-hard.c on two ranks, with two rows and one row for each rank.
use cs140e_final_parallel_co.Base.{ℕ, ◌≡◌, refl, List, [], ◌∷◌, ◌++◌, map, arith, some, none, slice}
use cs140e_final_parallel_co.Fmpi.Link.{Rx, byte, quiet, Inbox, feed, sent, slept, ok}
use cs140e_final_parallel_co.Fmpi.Sync.{Comm, sync_signal, send_signal_byte, delay}
use cs140e_final_parallel_co.Matmul.{Matrix, generate_matrices, matrix_multiply, verify_result}
use cs140e_final_parallel_co.Matmul.Bytes.{store}
use cs140e_final_parallel_co.Matmul.Ranks.{multiply_ranks, notmain}
use cs140e_final_parallel_co.Matmul.Ranks.Share.{part}
use cs140e_final_parallel_co.Matmul.Ranks.Root.{verdict, multiply_ranks_root}
use cs140e_final_parallel_co.Matmul.Ranks.Peer.{notmain_peer}
use cs140e_final_parallel_co.Matmul.Ranks.Verified.{notmain_verifies}

abbrev comm : Comm
comm = record { rank = 0; size = 2; root = 0 }

abbrev zeros : Matrix
zeros i j = 0

abbrev fives : Matrix
fives i j = 5

abbrev twos : Matrix
twos i j = 2

-- The first wait for the peer's answer ends without a byte.
abbrev late : ℕ → List Rx
late j = quiet ∷ []

abbrev none_heard : ℕ → List Rx
none_heard j = []

abbrev heard_from : (a b : Matrix) → Inbox
heard_from a b j =
    late j
    ++ byte sync_signal
      ∷ (none_heard j
          ++ byte sync_signal
            ∷ (none_heard j
                ++ byte sync_signal
                  ∷ (none_heard j
                      ++ byte sync_signal
                        ∷ (map byte (store 2 1 0 (part 2 1 a b j))
                            ++ (none_heard j ++ byte sync_signal ∷ [])))))

multiply_ranks_root_example :
    verdict (multiply_ranks comm 2 1 fives twos zeros zeros zeros zeros (heard_from fives twos))
    ≡ some (verify_result 2 (matrix_multiply 2 fives twos (λ _ _. 0)) zeros)
multiply_ranks_root_example =
    multiply_ranks_root comm 2 1 fives twos refl (omega arith) refl (λ i j hi hj. omega arith)
      (λ i j hi hj. omega arith) zeros zeros zeros zeros (heard_from fives twos) late none_heard
      none_heard none_heard none_heard none_heard refl
      (λ j lt ne. (refl, (refl, tt), tt, tt, tt, tt))

abbrev made : Matrix × Matrix × Matrix
made = generate_matrices 2 zeros zeros zeros

notmain_verifies_example :
    verdict (notmain comm 2 1 zeros zeros zeros zeros zeros zeros (heard_from (made.0) (made.1)))
    ≡ some 1
notmain_verifies_example =
    notmain_verifies comm 2 1 zeros zeros zeros zeros zeros zeros (heard_from (made.0) (made.1))
      late none_heard none_heard none_heard none_heard none_heard refl refl (omega arith) refl
      (omega arith) (λ j lt ne. (refl, (refl, tt), tt, tt, tt, tt))

abbrev peer : Comm
peer = record comm { rank = 1 }

abbrev from_root : Inbox
from_root j =
    byte sync_signal
    ∷ (map byte (store 2 2 0 twos)
        ++ ((quiet ∷ [])
            ++ byte sync_signal
              ∷ (map byte (slice (store 2 2 0 fives) 8 8)
                  ++ (byte sync_signal
                      ∷ byte sync_signal
                      ∷ byte send_signal_byte
                      ∷ byte sync_signal
                      ∷ []))))

notmain_peer_example :
    notmain peer 2 1 zeros zeros zeros zeros zeros zeros from_root
    ≡ ok none (feed from_root 0 []) (
        slept delay
        ∷ sent 0 sync_signal
        ∷ slept delay
        ∷ sent 0 sync_signal
        ∷ slept delay
        ∷ sent 0 sync_signal
        ∷ slept delay
        ∷ sent 0 sync_signal
        ∷ slept delay
        ∷ (map (sent 0) (store 2 1 0 (part 2 1 fives twos 1))
            ++ (slept delay ∷ sent 0 sync_signal ∷ [])))
notmain_peer_example =
    notmain_peer peer 2 1 fives twos zeros zeros zeros zeros zeros zeros from_root [] (quiet ∷ [])
      [] [] [] [] [] refl refl (omega arith) refl (λ i j hi hj. omega arith)
      (λ i j hi hj. omega arith) (refl, tt, (refl, tt), tt, tt, tt, tt)
