-- ===== src/Libc/Text.antt =====
-- The routines of libpi/libc on C strings: strlen.c, strcmp.c, strncmp.c, strchr.c, strcpy.c,
-- strcat.c and safe-strcpy.c. A `char` is unsigned on ARM. An array is a list from the pointer to the
-- array's end; `none` is an access behind the end.
pub mod Laws
pub mod Bounded
use cs140e_final_parallel_co.Base.{
  ℕ, zero, suc, ◌+◌, ◌-◌, Bool, true, false, ◌&&◌, not, List, [], ◌∷◌, Option, none, some, ltb,
  ◌==◌, if◌then◌else◌, length, get_elem?, set, u8,
}
use cs140e_final_parallel_co.Base.Results.{◌>>=◌, ◌>>◌, require}
use cs140e_final_parallel_co.Base.Int.{ℤ, pos, sub_ℕ}

unfoldable pub strlen_loop : List ℕ → ℕ → Option ℕ
strlen_loop [] ret = none
strlen_loop (c ∷ p) ret = let rest = strlen_loop p (ret + 1) in if c == 0 then some ret else rest

unfoldable pub strlen : List ℕ → Option ℕ
strlen p = strlen_loop p 0

unfoldable pub strcmp : (a b : List ℕ) → Option ℤ
strcmp [] b = none
strcmp (x ∷ a) [] = none
strcmp (x ∷ a) (y ∷ b) =
    let rest = strcmp a b in if not (x == 0) && x == y then rest else some (sub_ℕ x y)

unfoldable pub strncmp : (s1 s2 : List ℕ) (n : ℕ) → Option ℤ
strncmp s1 s2 zero = some (pos 0)
strncmp [] s2 (suc n) = none
strncmp (x ∷ s1) [] (suc n) = none
strncmp (x ∷ s1) (y ∷ s2) (suc n) =
    let rest = strncmp s1 s2 n in if x == y then rest else some (sub_ℕ x y)

-- The offset of the character from the pointer, which is `i` ahead; the inner `none` is NULL.
unfoldable pub strchr_loop : List ℕ → (c i : ℕ) → Option (Option ℕ)
strchr_loop [] c i = none
strchr_loop (x ∷ s) c i =
    let rest = strchr_loop s c (i + 1) in
    if x == u8 c then some (some i) else if x == 0 then some none else rest

unfoldable pub strchr : List ℕ → ℕ → Option (Option ℕ)
strchr s c = strchr_loop s c 0

-- `*s++ = *s2++` until a 0 is written, from index `i` of the destination on.
unfoldable pub copy_loop : (src : List ℕ) (i : ℕ) (dst : List ℕ) → Option (List ℕ)
copy_loop [] i dst = none
copy_loop (c ∷ src) i dst =
    let rest = copy_loop src (i + 1) (set dst i c) in
    require (ltb i (length dst)) >> (if c == 0 then some (set dst i c) else rest)

unfoldable pub strcpy : (dst src : List ℕ) → Option (List ℕ)
strcpy dst src = copy_loop src 0 dst

-- The loop that leaves `s1` one behind the 0.
unfoldable pub end_loop : List ℕ → ℕ → Option ℕ
end_loop [] s1 = none
end_loop (c ∷ dest) s1 = let rest = end_loop dest (s1 + 1) in if c == 0 then some (s1 + 1) else rest

-- `s1 -= 2`, and `*++s1 = c` then begins at the 0.
unfoldable pub strcat : (dest src : List ℕ) → Option (List ℕ)
strcat dest src = do s1 ← end_loop dest 0; copy_loop src (s1 - 1) dest

-- The loop over the first `n - 1` bytes, with `left` of them to go; it yields whether a 0 was copied.
unfoldable pub safe_loop : (left i : ℕ) (dst src : List ℕ) → Option (Bool × List ℕ)
safe_loop zero i dst src = some (false, dst)
safe_loop (suc left) i dst [] = none
safe_loop (suc left) i dst (c ∷ src) =
    let rest = safe_loop left (i + 1) (set dst i c) src in
    require (ltb i (length dst)) >> (if c == 0 then some (true, set dst i c) else rest)

unfoldable pub safe_strcpy : (dst src : List ℕ) (n : ℕ) → Option (List ℕ)
safe_strcpy dst src n = if n == 0 then some dst else (do
  r ← safe_loop (n - 1) 0 dst src
  if r.0 then some r.1 else (do require (ltb (n - 1) (length dst)); some (set r.1 (n - 1) 0)))
