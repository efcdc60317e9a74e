-- ===== src/Circular.antt =====
-- libpi/libc/circular.h: the circular queue of bytes. `cq_n` is the macro CQ_N; `gcc_mb` only orders
-- accesses. A failed `assert` or `panic`, and a wait for an interrupt that is to push, are `none`.
pub mod Window
pub mod Fifo
pub mod Words
mod Tests
use cs140e_final_parallel_co.Base.{
  ℕ, zero, suc, ◌+◌, ◌-◌, ◌*◌, ◌/◌, ◌%◌, ◌^◌, Bool, true, false, ◌&&◌, not, List, [], ◌∷◌, Option,
  none, some, ltb, leb, ◌==◌, if◌then◌else◌, u8, u32, length,
}
use cs140e_final_parallel_co.Base.Results.{◌>>=◌, ◌>>◌, require}

pub record Cq : Type 0 where
  pub c_buf : ℕ → ℕ
  pub fence : ℕ
  pub head : ℕ
  pub tail : ℕ
  pub overflow : ℕ
  pub errors_fatal_p : Bool

unfoldable pub poke {ℓ} : {A : Type ℓ} → (ℕ → A) → ℕ → A → ℕ → A
poke mem i v j = if j == i then v else mem j

unfoldable pub cq_empty : Cq → Bool
cq_empty q = q.head == q.tail

unfoldable pub cq_full : ℕ → Cq → Bool
cq_full cq_n q = u32 (q.head + 1) % cq_n == q.tail

-- The difference is of `unsigned`.
unfoldable pub cq_nelem : ℕ → Cq → ℕ
cq_nelem cq_n q = u32 (q.head + 2 ^ 32 - q.tail) % cq_n

unfoldable pub cq_nspace : ℕ → Cq → ℕ
unfolding cq_nelem
cq_nspace cq_n q = u32 (cq_n - 1 + 2 ^ 32 - cq_nelem cq_n q)

-- `none` is the result 0, which leaves `*e`.
unfoldable pub cq_pop_nonblock : ℕ → Cq → Option (ℕ × Cq)
unfolding cq_empty
cq_pop_nonblock cq_n c =
    if cq_empty c then none else some (c.c_buf c.tail, record c { tail = u32 (c.tail + 1) % cq_n })

-- `none` where it waits.
unfoldable pub cq_pop : ℕ → Cq → Option (ℕ × Cq)
unfolding cq_pop_nonblock
cq_pop cq_n c = cq_pop_nonblock cq_n c

-- The result is 0 or 1.
unfoldable pub cq_push : ℕ → Cq → ℕ → Option (Bool × Cq)
unfolding cq_full cq_nspace poke
cq_push cq_n c x = if cq_full cq_n c then some (false, c) else (do
  require (ltb 0 (cq_nspace cq_n c))
  some (true, record c { c_buf = poke c.c_buf c.head x; head = u32 (c.head + 1) % cq_n }))

unfoldable pub cq_peek : Cq → Option ℕ
unfolding cq_empty
cq_peek c = if cq_empty c then none else some (c.c_buf c.tail)

unfoldable pub cq_pop_n : ℕ → Cq → ℕ → Option (List ℕ × Cq)
unfolding cq_pop
cq_pop_n cq_n c zero = some ([], c)
cq_pop_n cq_n c (suc n) = do
  e ← cq_pop cq_n c
  rest ← cq_pop_n cq_n e.1 n
  some (e.0 ∷ rest.0, rest.1)

-- The result 0 is `some none`.
unfoldable pub cq_pop_n_noblk : ℕ → Cq → ℕ → Option (Option (List ℕ × Cq))
unfolding cq_nelem cq_pop_n
cq_pop_n_noblk cq_n q n =
    if ltb (cq_nelem cq_n q) n then some none else (do r ← cq_pop_n cq_n q n; some (some r))

-- The result 0, which leaves the queue, is `some none`.
unfoldable pub cq_peek_n : ℕ → Cq → ℕ → Option (Option (List ℕ × Cq))
unfolding cq_nelem cq_pop_n_noblk
cq_peek_n cq_n c n = if ltb (cq_nelem cq_n c) n then some none else (do
  popped ← cq_pop_n_noblk cq_n c n
  elim popped [
    | none ↦ some none
    | some r ↦
        let back : Cq = record r.1 { tail = c.tail } in
        require (cq_nelem cq_n c == cq_nelem cq_n back) >> some (some (r.0, back))
  ])

-- The loop of `cq_push_n`, which panics where a push is refused.
unfoldable pub push_all : ℕ → Cq → List ℕ → Option Cq
unfolding cq_push
push_all cq_n c [] = some c
push_all cq_n c (x ∷ xs) = do r ← cq_push cq_n c x; require r.0; push_all cq_n r.1 xs

unfoldable pub cq_push_n : ℕ → Cq → List ℕ → Option (Bool × Cq)
unfolding cq_nspace push_all
cq_push_n cq_n c bytes = do
  require (not (length bytes == 0))
  if ltb (cq_nspace cq_n c) (length bytes)
      then some (false, c)
      else (do c' ← push_all cq_n c bytes; some (true, c'))

-- The four bytes of a word as the machine stores it, least significant first, and the word again.
unfoldable pub word_bytes : ℕ → List ℕ
word_bytes x = u8 x ∷ u8 (x / 2 ^ 8) ∷ u8 (x / 2 ^ 16) ∷ u8 (x / 2 ^ 24) ∷ []

unfoldable pub bytes_word : List ℕ → ℕ
bytes_word [] = 0
bytes_word (b ∷ bs) = b + 2 ^ 8 * bytes_word bs

unfoldable pub cq_push32 : ℕ → Cq → ℕ → Option (Bool × Cq)
unfolding cq_push_n word_bytes
cq_push32 cq_n c x = cq_push_n cq_n c (word_bytes x)

unfoldable pub cq_pop32_noblk : ℕ → Cq → Option (Option (ℕ × Cq))
unfolding cq_pop_n_noblk bytes_word
cq_pop32_noblk cq_n c = do
  popped ← cq_pop_n_noblk cq_n c 4
  elim popped [ none ↦ some none | some r ↦ some (some (bytes_word r.0, r.1)) ]

unfoldable pub cq_pop32 : ℕ → Cq → Option (ℕ × Cq)
unfolding cq_pop_n bytes_word
cq_pop32 cq_n c = do r ← cq_pop_n cq_n c 4; some (bytes_word r.0, r.1)

unfoldable pub cq_ok : Cq → Option (Unit {0})
cq_ok c = require (c.fence == 0x12345678)

-- The queue behind `memset` and the assignments.
abbrev pub cleared : Bool → Cq
cleared errors_fatal_p = record {
  c_buf = λ _. 0;
  fence = 0x12345678;
  head = 0;
  tail = 0;
  overflow = 0;
  errors_fatal_p = errors_fatal_p;
}

unfoldable pub cq_init : ℕ → Bool → Option Cq
unfolding cq_empty cq_full cq_nelem cq_pop_nonblock
cq_init cq_n errors_fatal_p = do
  let c = cleared errors_fatal_p
  require (cq_empty c)
  require (not (cq_full cq_n c))
  require (cq_nelem cq_n c == 0)
  require (elim (cq_pop_nonblock cq_n c) [ none ↦ true | some r ↦ false ])
  some c

abbrev pub cq_ckpt : Cq → ℕ
cq_ckpt c = c.tail

abbrev pub cq_restore : Cq → ℕ → Cq
cq_restore c ckpt = record c { tail = ckpt }
