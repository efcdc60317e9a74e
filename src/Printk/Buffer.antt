-- ===== src/Printk/Buffer.antt =====
-- libpi/libc/sprintk.c: the same interpreter as in printk.c, with a `putchar` that fills a buffer.
use cs140e_final_parallel_co.Base.{
  ℕ, zero, suc, ◌+◌, ◌≤◌, ◌≡◌, refl, Bool, true, false, Option, none, some, List, [], ◌∷◌, ◌++◌,
  arith, length, length-append, ltb, if◌then◌else◌,
}
use cs140e_final_parallel_co.Base.Results.{◌>>=◌}
use cs140e_final_parallel_co.Printk.{Arg, printk}

-- `putchar` of each character, with room for `room` more: its `assert` fails where there is none.
unfoldable pub put_all : (room : ℕ) → List ℕ → Option (List ℕ)
put_all room [] = some []
put_all zero (c ∷ cs) = none
put_all (suc room) (c ∷ cs) = do rest ← put_all room cs; some (c ∷ rest)

-- `vsnprintk` and `snprintk`: what is written from the start of the buffer on. The final 0 is written
-- without a check.
unfoldable pub snprintk : (n : ℕ) (fmt : List ℕ) → List Arg → Option (List ℕ)
snprintk n fmt args = do out ← printk fmt args; chars ← put_all n out; some (chars ++ (0 ∷ []))

put_all_lem :
    (room : ℕ) (cs : List ℕ) → put_all room cs ≡ (if ltb room (length cs) then none else some cs)
unfolding put_all
put_all_lem room [] = ground arith
put_all_lem zero (c ∷ cs) = ground arith
put_all_lem (suc room) (c ∷ cs) =
    rw (put_all_lem room cs, shorter room (length cs)) (lifted (ltb room (length cs)))
  where
    shorter : (a b : ℕ) → ltb (suc a) (suc b) ≡ ltb a b
    shorter a b = ground arith

    lifted :
        (t : Bool)
        → ((if t then none else some cs) >>= λ rest. some (c ∷ rest))
          ≡ (if t then none else some (c ∷ cs))
    lifted true = refl
    lifted false = refl

-- `snprintk` writes what `printk` prints, and a 0 behind it, when the text without the 0 fits the
-- buffer; the 0 of a text of exactly `n` characters is written behind the buffer.
pub snprintk_lem :
    (n : ℕ) (fmt out : List ℕ) (args : List Arg)
    → printk fmt args ≡ some out
    → length out ≤ n
    → (snprintk n fmt args ≡ some (out ++ (0 ∷ []))) × (length (out ++ (0 ∷ [])) ≤ n + 1)
unfolding snprintk
snprintk_lem n fmt out args e fits =
    let room : ltb n (length out) ≡ false = ground arith in
    (rw (e, put_all_lem n out, room) refl, omega (arith, length-append out (0 ∷ [])))
