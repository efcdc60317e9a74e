-- ===== src/Circular/Tests.antt =====
-- Concrete queues of eight bytes: one that wraps around with two bytes in it, and an empty one.
use cs140e_final_parallel_co.Base.{
  ℕ, ◌+◌, ◌^◌, ◌<◌, ◌≡◌, refl, true, List, [], ◌∷◌, ◌++◌, some, arith,
}
use cs140e_final_parallel_co.Circular.{
  Cq, cleared, cq_push, cq_pop_nonblock, cq_pop_n, cq_pop_n_noblk, cq_peek_n, cq_push_n, cq_push32,
  cq_pop32, cq_pop32_noblk, cq_init, cq_ckpt, cq_restore, word_bytes,
}
use cs140e_final_parallel_co.Circular.Window.{InRange, contents}
use cs140e_final_parallel_co.Circular.Fifo.{Pops, at_tail, cq_push_lem, cq_pop_nonblock_lem}
use cs140e_final_parallel_co.Circular.Fifo.Batch.{cq_pop_n_noblk_lem, cq_peek_n_lem, cq_push_n_lem}
use cs140e_final_parallel_co.Circular.Words.{
  words, cq_push32_lem, cq_pop32_lem, cq_restore-cq_ckpt, cq_init_lem,
}

-- Bytes 107 and 100 at the indices 7 and 0.
abbrev wrapped : Cq
wrapped = record (cleared true) { c_buf = λ i. 100 + i; head = 1; tail = 7 }

-- Eight bytes from index 0 on are two words.
abbrev two_words : Cq
two_words = record (cleared true) { c_buf = λ i. i; head = 8; tail = 0 }

cq_push_lem_example :
    (q' : Cq) × (cq_push 8 wrapped 5 ≡ some (true, q'))
    × InRange 8 q'
    × (contents 8 q' ≡ contents 8 wrapped ++ (5 ∷ []))
unfolding contents
cq_push_lem_example = cq_push_lem 8 (2 ^ 29) wrapped 5 refl (omega arith, omega arith)

cq_pop_nonblock_lem_example : Pops 8 wrapped (contents 8 wrapped) (cq_pop_nonblock 8 wrapped)
cq_pop_nonblock_lem_example = cq_pop_nonblock_lem 8 (2 ^ 29) wrapped refl (omega arith, omega arith)

cq_pop_n_noblk_lem_example :
    (t : ℕ) × (cq_pop_n_noblk 8 wrapped 2 ≡ some (some (107 ∷ 100 ∷ [], at_tail wrapped t)))
    × (t < 8)
    × (contents 8 (at_tail wrapped t) ≡ [])
unfolding contents
cq_pop_n_noblk_lem_example = cq_pop_n_noblk_lem 8 (2 ^ 29) wrapped 2 refl (omega arith, omega arith)

cq_peek_n_lem_example : cq_peek_n 8 wrapped 2 ≡ some (some (107 ∷ 100 ∷ [], wrapped))
unfolding contents
cq_peek_n_lem_example = cq_peek_n_lem 8 (2 ^ 29) wrapped 2 refl (omega arith, omega arith)

cq_push_n_lem_example :
    (q' : Cq) × (cq_push_n 8 wrapped (1 ∷ 2 ∷ 3 ∷ []) ≡ some (true, q'))
    × InRange 8 q'
    × (contents 8 q' ≡ contents 8 wrapped ++ (1 ∷ 2 ∷ 3 ∷ []))
unfolding contents
cq_push_n_lem_example =
    cq_push_n_lem 8 (2 ^ 29) wrapped (1 ∷ 2 ∷ 3 ∷ []) refl (omega arith, omega arith) (omega arith)

cq_push32_lem_example :
    (q' : Cq) × (cq_push32 16 two_words 77 ≡ some (true, q'))
    × InRange 16 q'
    × (contents 16 q' ≡ words (0x03020100 ∷ 0x07060504 ∷ 77 ∷ []))
unfolding contents word_bytes
cq_push32_lem_example =
    cq_push32_lem 16 (2 ^ 28) two_words 77 (0x03020100 ∷ 0x07060504 ∷ []) refl
      (omega arith, omega arith) refl (omega arith)

cq_pop32_lem_example :
    (q' : Cq) × (cq_pop32 16 two_words ≡ some (0x03020100, q'))
    × (cq_pop32_noblk 16 two_words ≡ some (some (0x03020100, q')))
    × InRange 16 q'
    × (contents 16 q' ≡ words (0x07060504 ∷ []))
unfolding contents word_bytes
cq_pop32_lem_example =
    cq_pop32_lem 16 (2 ^ 28) two_words 0x03020100 (0x07060504 ∷ []) refl (omega arith, omega arith)
      refl (omega arith)

cq_restore-cq_ckpt_example :
    (bytes : List ℕ) × (q' : Cq) × (cq_pop_n 8 wrapped 2 ≡ some (bytes, q'))
    × (cq_restore q' (cq_ckpt wrapped) ≡ wrapped)
unfolding contents
cq_restore-cq_ckpt_example =
    cq_restore-cq_ckpt 8 (2 ^ 29) wrapped 2 refl (omega arith, omega arith) (omega arith)

cq_init_lem_example :
    (q : Cq) × (cq_init 8192 true ≡ some q) × InRange 8192 q × (contents 8192 q ≡ [])
cq_init_lem_example = cq_init_lem 8192 (2 ^ 19) true refl (omega arith)
