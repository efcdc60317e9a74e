-- ===== src/TypedQueue.antt =====
-- libpi/libc/circular-T.h: the circular queue of elements of any type that `gen_circular_T` makes.
-- `n` is its N; `gcc_mb` only orders accesses. A `panic` or a failed `assert` is `none`.
mod Newest
mod Sequence
mod Tests
use cs140e_final_parallel_co.Base.{
  ℕ, ◌+◌, ◌-◌, ◌%◌, ◌^◌, Bool, true, false, Option, none, some, not, leb, ◌==◌, if◌then◌else◌, u32,
}
use cs140e_final_parallel_co.Base.Results.{◌>>=◌, ◌>>◌, require}
use cs140e_final_parallel_co.Circular.{poke}

pub record Queue (A : Type 0) : Type 0 where
  pub c_buf : ℕ → A
  pub fence : ℕ
  pub head : ℕ
  pub tail : ℕ
  pub overflow : ℕ
  pub errors_fatal_p : Bool

module _ {A : Type 0} where
  unfoldable pub empty : Queue A → Bool
  empty q = q.head == q.tail

  unfoldable pub full : ℕ → Queue A → Bool
  full n q = u32 (q.head + 1) % n == q.tail

  -- The difference is of `unsigned`.
  unfoldable pub cnt : ℕ → Queue A → ℕ
  cnt n q = u32 (q.head + 2 ^ 32 - q.tail) % n

  -- `none` is the result 0, which leaves `*e`.
  unfoldable pub pop_nonblk : ℕ → Queue A → Option (A × Queue A)
  pop_nonblk n c =
      if empty c then none else some (c.c_buf c.tail, record c { tail = u32 (c.tail + 1) % n })

  unfoldable pub pop : ℕ → Queue A → Option (A × Queue A)
  pop n c = pop_nonblk n c

  unfoldable pub push : ℕ → Queue A → A → Bool × Queue A
  push n c x =
      if full n c
      then (false, c)
      else (true, record c { c_buf = poke c.c_buf c.head x; head = u32 (c.head + 1) % n })

  -- The element in place of the pointer to it.
  unfoldable pub get : ℕ → Queue A → ℕ → Option A
  get n c i = if leb (cnt n c) i then none else some (c.c_buf (u32 (c.tail + i) % n))

  unfoldable pub push_w_drop : ℕ → Queue A → A → Option (Queue A)
  push_w_drop n q e = do
    room ← (if full n q then (do r ← pop n q; some (r.1)) else some q)
    require ((push n room e).0)
    some ((push n room e).1)

  -- `zero_elem` is the element of zero bytes.
  unfoldable pub mk : (n : ℕ) (zero_elem : A) → Option (Queue A)
  mk n zero_elem = do
    let cq : Queue A = record {
      c_buf = λ i. zero_elem;
      fence = 0x12345678;
      head = 0;
      tail = 0;
      overflow = 0;
      errors_fatal_p = true;
    }
    require (empty cq)
    require (not (full n cq))
    require (cnt n cq == 0)
    some cq
