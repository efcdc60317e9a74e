-- ===== src/LinkedQueue/Tests.antt =====
-- A queue of the elements 8 and 16.
use cs140e_final_parallel_co.Base.{◌≡◌, refl, some, [], ◌∷◌, arith, ◌==◌, if◌then◌else◌}
use cs140e_final_parallel_co.LinkedQueue.{Q, Heap, q_init, q_pop, q_append}
use cs140e_final_parallel_co.LinkedQueue.Sequence.{Holds, q_append_lem, q_pop_lem}

abbrev heap : Heap
heap a = if a == 8 then 16 else 0

abbrev queue : Q
queue = record { head = 8; tail = 16; cnt = 2 }

queue-Holds : Holds heap queue (8 ∷ 16 ∷ [])
queue-Holds = (
  (refl, (λ e. omega (arith, e)), (refl, (λ e. omega (arith, e)), refl)),
  refl,
  refl,
  (((λ e. omega (arith, e)), tt), (tt, tt)),
)

q_init-Holds : Holds heap q_init []
unfolding q_init
q_init-Holds = (refl, refl, refl, tt)

q_append_lem_example :
    (next' : Heap) × (q' : Q) × (q_append heap queue 24 ≡ (next', q'))
    × Holds next' q' (8 ∷ 16 ∷ 24 ∷ [])
q_append_lem_example =
    q_append_lem heap queue 24 (8 ∷ 16 ∷ []) queue-Holds (λ e. omega (arith, e))
      ((λ e. omega (arith, e)), ((λ e. omega (arith, e)), tt)) (omega arith)

q_pop_lem_example :
    (q_pop heap q_init ≡ some (0, q_init))
    × ((r : Q) × (q_pop heap queue ≡ some (8, r)) × Holds heap r (16 ∷ []))
q_pop_lem_example = q_pop_lem heap queue 8 (16 ∷ []) q_init queue-Holds (omega arith) q_init-Holds
