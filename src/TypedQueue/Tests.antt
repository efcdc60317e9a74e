-- ===== src/TypedQueue/Tests.antt =====
-- Queues of four places that hold pairs.
use cs140e_final_parallel_co.Base.{ℕ, ◌+◌, ◌≡◌, refl, true, [], ◌∷◌, some, arith, ◌^◌}
use cs140e_final_parallel_co.TypedQueue.{Queue, get}
use cs140e_final_parallel_co.TypedQueue.Sequence.{IsInRange, contents, get_lem}
use cs140e_final_parallel_co.TypedQueue.Newest.{push_all_w_drop, push_w_drop-last_n}

-- Three elements, from index 3 over the end to index 1.
abbrev three : Queue (ℕ × ℕ)
three = record {
  c_buf = λ i. (i, i + 10);
  fence = 0x12345678;
  head = 2;
  tail = 3;
  overflow = 0;
  errors_fatal_p = true;
}

get_lem_example : get 4 three 2 ≡ some (1, 11)
unfolding contents
get_lem_example = get_lem 4 (2 ^ 30) three 2 refl (omega arith, omega arith)

push_w_drop-last_n_example :
    (q' : Queue (ℕ × ℕ)) × (push_all_w_drop 4 three ((7, 8) ∷ (9, 9) ∷ []) ≡ some q')
    × IsInRange 4 q'
    × (contents 4 q' ≡ (1, 11) ∷ (7, 8) ∷ (9, 9) ∷ [])
unfolding contents
push_w_drop-last_n_example =
    push_w_drop-last_n 4 (2 ^ 30) three ((7, 8) ∷ (9, 9) ∷ []) refl (omega arith)
      (omega arith, omega arith)
