-- ===== src/LinkedQueue.antt =====
-- libpi/libc/Q.h: the queue that runs through the `next` fields of its elements. An element is its
-- address, the null pointer is 0, and the heap is the `next` field of every element. A failed
-- `assert` or `demand` is `none`.
pub mod Chain
pub mod Sequence
mod Tests
use cs140e_final_parallel_co.Base.{
  ℕ, ◌+◌, ◌-◌, ◌^◌, Bool, true, false, not, Option, none, some, ◌==◌, if◌then◌else◌, u32,
}
use cs140e_final_parallel_co.Base.Results.{◌>>=◌, ◌>>◌, require}

pub record Q : Type 0 where
  pub head : ℕ
  pub tail : ℕ
  pub cnt : ℕ

abbrev pub Heap : Type 0
Heap = ℕ → ℕ

-- `e->next = v`.
unfoldable pub set_next : Heap → ℕ → ℕ → Heap
set_next next e v a = if a == e then v else next a

unfoldable pub q_empty : Q → Option ℕ
q_empty q =
    if not (q.head == 0) then some 0 else (do require (q.cnt == 0); require (q.tail == 0); some 1)

-- With the element removed, 0 where there is none.
unfoldable pub q_pop : Heap → Q → Option (ℕ × Q)
q_pop next q =
    if q.head == 0
    then (do r ← q_empty q; require (not (r == 0)); some (0, q))
    else (let head' = next q.head in
        some (
          q.head,
          record {
            head = head';
            tail = if head' == 0 then 0 else q.tail;
            cnt = u32 (q.cnt + 2 ^ 32 - 1);
          },
        ))

unfoldable pub q_append : Heap → Q → ℕ → Heap × Q
q_append next q e =
    let next' = set_next next e 0 in
    if q.tail == 0
    then (next', record { head = e; tail = e; cnt = u32 (q.cnt + 1) })
    else (set_next next' q.tail e, record { head = q.head; tail = e; cnt = u32 (q.cnt + 1) })

unfoldable pub q_push : Heap → Q → ℕ → Heap × Q
q_push next q e = (
  set_next next e q.head,
  record { head = e; tail = if q.tail == 0 then e else q.tail; cnt = u32 (q.cnt + 1) },
)

-- `Q_init` and `Q_mk`.
unfoldable pub q_init : Q
q_init = record { head = 0; tail = 0; cnt = 0 }

unfoldable pub q_insert_after : Heap → Q → (e e_new : ℕ) → Heap × Q
q_insert_after next q e e_new =
    if e == 0 then q_push next q e_new else if q.tail == e then q_append next q e_new else (
      set_next (set_next next e_new (next e)) e e_new,
      record { head = q.head; tail = q.tail; cnt = u32 (q.cnt + 1) },
    )
