-- ===== src/Libc.antt =====
-- The routines of libpi/libc on memory: memmove.c, memcpy.c, memset.c, memcmp.c, memiszero.c and
-- lmemcpy.h, and redzone_check of libpi/include/redzone.h. Memory is a function from addresses to
-- bytes. No object reaches past the end of the address space, so pointers do not wrap around.
pub mod Move
pub mod Fill
pub mod Compare
pub mod Text
mod Tests
use cs140e_final_parallel_co.Base.{
  ℕ, zero, suc, ◌+◌, ◌-◌, ◌*◌, ◌/◌, ◌%◌, Bool, ◌&&◌, not, Option, some, ltb, leb, ◌==◌,
  if◌then◌else◌, u8,
}
use cs140e_final_parallel_co.Base.Results.{◌>>=◌, ◌>>◌, require}
use cs140e_final_parallel_co.Base.Int.{ℤ, pos, sub_ℕ}

abbrev pub Memory : Type 0
Memory = ℕ → ℕ

-- The address `x` lies in the `n` bytes at `p`.
abbrev pub within : (p n x : ℕ) → Bool
within p n x = leb p x && ltb x (p + n)

unfoldable pub put_byte : ℕ → ℕ → Memory → Memory
put_byte p v m x = if x == p then v else m x

-- `while (count--) *a++ = *b++`.
unfoldable pub copy_up : (count a b : ℕ) → Memory → Memory
copy_up zero a b m = m
copy_up (suc count) a b m = copy_up count (a + 1) (b + 1) (put_byte a (m b) m)

-- `while (count--) *a-- = *b--`.
unfoldable pub copy_down : (count a b : ℕ) → Memory → Memory
copy_down zero a b m = m
copy_down (suc count) a b m = copy_down count (a - 1) (b - 1) (put_byte a (m b) m)

-- The result is `dst`.
unfoldable pub memmove : (dst src count : ℕ) → Memory → ℕ × Memory
memmove dst src count m =
    if src == dst
    then (dst, m)
    else if ltb dst src
    then (dst, copy_up count dst src m)
    else (dst, copy_down count (dst + count - 1) (src + count - 1) m)

-- `d[i] = s[i]` of elements of `w` bytes: the element is read whole before it is written.
unfoldable pub copy_elem : (w i d s : ℕ) → Memory → Memory
copy_elem w i d s m x = if within (d + i * w) w x then m (s + i * w + (x - (d + i * w))) else m x

unfoldable pub copy_elems : (w left i d s : ℕ) → Memory → Memory
copy_elems w zero i d s m = m
copy_elems w (suc left) i d s m = copy_elems w left (i + 1) d s (copy_elem w i d s m)

abbrev pub aligned : (n p : ℕ) → Bool
aligned n p = p % n == 0

unfoldable pub memcpy : (dst src nbytes : ℕ) → Memory → ℕ × Memory
memcpy dst src nbytes m =
    if aligned 8 dst && aligned 8 src && aligned 8 nbytes
    then (dst, copy_elems 8 (nbytes / 8) 0 dst src m)
    else if aligned 4 dst && aligned 4 src && aligned 4 nbytes
    then (dst, copy_elems 4 (nbytes / 4) 0 dst src m)
    else (dst, copy_elems 1 nbytes 0 dst src m)

-- `none` is the panic.
unfoldable pub memcpy256 : (dst src nbytes : ℕ) → Memory → Option Memory
memcpy256 dst src nbytes m = do
  require (nbytes % 32 == 0)
  some (copy_elems 32 (nbytes / 32) 0 dst src m)

-- `none` is a failed `assert`.
unfoldable pub lmemcpy : (dst src nbytes : ℕ) → Memory → Option Memory
lmemcpy dst src nbytes m = do
  require (not (dst == 0))
  require (not (src == 0))
  require (nbytes % 4 == 0)
  require (aligned 4 dst)
  some (copy_elems 4 (nbytes / 4) 0 dst src m)

unfoldable pub llmemcpy : (dst src nbytes : ℕ) → Memory → Option Memory
llmemcpy dst src nbytes m = do
  require (not (dst == 0))
  require (not (src == 0))
  require (nbytes % 8 == 0)
  require (aligned 8 dst)
  some (copy_elems 8 (nbytes / 8) 0 dst src m)

-- `*p++ = c` where `c` is 0 in every byte of the element, and for single bytes.
unfoldable pub fill_elem : (w p c : ℕ) → Memory → Memory
fill_elem w p c m x = if within p w x then c else m x

-- The memory behind the loop, and the pointer.
unfoldable pub fill_elems : (w n p c : ℕ) → Memory → ℕ × Memory
fill_elems w zero p c m = (p, m)
fill_elems w (suc n) p c m = fill_elems w n (p + w) c (fill_elem w p c m)

-- The pointer that is returned is the one behind the loop.
unfoldable pub memset : (dst c n : ℕ) → Memory → ℕ × Memory
memset dst c n m =
    if n == 0
    then (dst, m)
    else if c == 0 && aligned 8 dst && aligned 8 n
    then fill_elems 8 (n / 8) dst 0 m
    else if c == 0 && aligned 4 dst && aligned 4 n
    then fill_elems 4 (n / 4) dst 0 m
    else fill_elems 1 n dst (u8 c) m

-- From byte `i` on, with `left` bytes to go.
unfoldable pub compare_loop : (left i s1 s2 : ℕ) → Memory → ℤ
compare_loop zero i s1 s2 m = pos 0
compare_loop (suc left) i s1 s2 m =
    let rest = compare_loop left (i + 1) s1 s2 m in
    if m (s1 + i) == m (s2 + i) then rest else sub_ℕ (m (s1 + i)) (m (s2 + i))

unfoldable pub memcmp : (s1 s2 nbytes : ℕ) → Memory → ℤ
memcmp s1 s2 nbytes m = compare_loop nbytes 0 s1 s2 m

unfoldable pub zero_loop : (left i p : ℕ) → Memory → ℕ
zero_loop zero i p m = 1
zero_loop (suc left) i p m =
    let rest = zero_loop left (i + 1) p m in if m (p + i) == 0 then rest else 0

unfoldable pub memiszero : (p n : ℕ) → Memory → ℕ
memiszero p n m = zero_loop n 0 p m
