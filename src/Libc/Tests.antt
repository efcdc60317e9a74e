-- ===== src/Libc/Tests.antt =====
-- The blocks at 16 and 18 overlap, those at 16 and 32 do not; "ab" and "cd" as texts.
use cs140e_final_parallel_co.Base.{
  ℕ, ◌+◌, ◌%◌, ◌≤◌, ◌<◌, ◌≡◌, ◌↔◌, inl, refl, some, List, [], ◌∷◌, ◌++◌, arith, length, drop,
}
use cs140e_final_parallel_co.Base.Results.{◌>>=◌}
use cs140e_final_parallel_co.Base.Int.{pos, negsuc, sub_ℕ}
use cs140e_final_parallel_co.Libc.{
  Memory, memmove, memcpy, memset, memcmp, copy_down, put_byte, compare_loop,
}
use cs140e_final_parallel_co.Libc.Move.{moved, memmove-moved, memcpy-moved}
use cs140e_final_parallel_co.Libc.Fill.{filled, memset-filled}
use cs140e_final_parallel_co.Libc.Compare.{Same, FirstDifference, memcmp-first}
use cs140e_final_parallel_co.Libc.Text.{
  strlen, strcat, safe_strcpy, strncmp, strchr, strchr_loop, strcmp,
}
use cs140e_final_parallel_co.Libc.Text.Laws.{ended, strlen-strcat, strcmp-eq}
use cs140e_final_parallel_co.Libc.Text.Bounded.{safe_strcpy-ended}

abbrev memory : Memory
memory x = x % 7

memmove-moved_example : memmove 16 18 8 memory ≡ (16, moved 16 18 8 memory)
memmove-moved_example = memmove-moved 16 18 8 memory

memmove_backwards : (memmove 18 16 8 memory).1 25 ≡ 23 % 7
unfolding memmove copy_down put_byte
memmove_backwards = refl

memcpy-moved_example : memcpy 16 32 16 memory ≡ (16, moved 16 32 16 memory)
memcpy-moved_example = memcpy-moved 16 32 16 memory (inl (omega arith))

memset-filled_example : memset 16 300 5 memory ≡ (21, filled 16 5 44 memory)
memset-filled_example = memset-filled 16 300 5 memory

memcmp-first_example :
    (Same 0 7 9 memory → memcmp 0 7 9 memory ≡ pos 0)
    × ((k : ℕ)
        → FirstDifference 0 7 9 k memory
        → memcmp 0 7 9 memory ≡ sub_ℕ (memory (0 + k)) (memory (7 + k)))
memcmp-first_example = memcmp-first 0 7 9 memory

memcmp_sign : memcmp 1 2 4 memory ≡ negsuc 0
unfolding memcmp compare_loop
memcmp_sign = refl

abbrev ab : List ℕ
ab = b'a' ∷ b'b' ∷ []

abbrev cd : List ℕ
cd = b'c' ∷ b'd' ∷ []

strlen-strcat_example :
    (strcat (ended ab (1 ∷ 2 ∷ 3 ∷ [])) (ended cd []) ≡ some (ended (ab ++ cd) (3 ∷ [])))
    × ((strcat (ended ab (1 ∷ 2 ∷ 3 ∷ [])) (ended cd []) >>= strlen) ≡ some (2 + 2))
strlen-strcat_example =
    strlen-strcat ab (1 ∷ 2 ∷ 3 ∷ []) cd [] (omega arith) (omega arith) (omega arith)

strcmp-eq_example : (strcmp (ended ab (1 ∷ [])) (ended ab (2 ∷ [])) ≡ some (pos 0)) ↔ (ab ≡ ab)
strcmp-eq_example = strcmp-eq ab ab (1 ∷ []) (2 ∷ []) (omega arith) (omega arith)

abbrev target : List ℕ
target = 1 ∷ 2 ∷ 3 ∷ 4 ∷ []

safe_strcpy-ended_example :
    (length ab ≡ 0 → safe_strcpy target (ended ab []) (length ab) ≡ some target)
    × (2 < length ab
        → safe_strcpy target (ended ab []) (length ab) ≡ some (ended ab (drop 3 target)))
    × (0 < length ab
        → length ab ≤ 2
        → safe_strcpy target (ended ab []) (length ab) ≡ some (ended (b'a' ∷ []) (3 ∷ 4 ∷ [])))
safe_strcpy-ended_example = safe_strcpy-ended target ab [] (length ab) (omega arith) (omega arith)

-- Two equal texts, with other bytes behind their ends.
strncmp_behind_end : strncmp (ended ab (1 ∷ [])) (ended ab (2 ∷ [])) 4 ≡ some (negsuc 0)
unfolding strncmp
strncmp_behind_end = refl

strchr_end : strchr (ended ab []) 0 ≡ some (some 2)
unfolding strchr strchr_loop
strchr_end = refl
