-- ===== src/Printk/Tests.antt =====
-- Concrete formats.
use cs140e_final_parallel_co.Base.{ℕ, ◌+◌, ◌-◌, ◌^◌, ◌≡◌, refl, List, [], ◌∷◌, some, arith}
use cs140e_final_parallel_co.Printk.{
  long, digits_loop, emit_val, long_hex, directive, vprintk_loop, printk,
}
use cs140e_final_parallel_co.Printk.Numbers.{Numeral, emit_val_lem}
use cs140e_final_parallel_co.Printk.Format.{
  Piece, plain, hex, signed, string, formats, arguments, AllShown, printk_lem,
}

emit_val_lem_example : (ds : List ℕ) × (emit_val 16 0xdeadbeef ≡ some ds) × Numeral 16 0xdeadbeef ds
emit_val_lem_example = emit_val_lem 16 0xdeadbeef refl (omega arith)

-- "a%x%d%s" of 255, -7 and "ok".
abbrev pieces : List Piece
pieces = plain 97 ∷ hex 255 ∷ signed (2 ^ 32 - 7) ∷ string (111 ∷ 107 ∷ []) ∷ []

printk_lem_example :
    (out : List ℕ) × (printk (formats pieces) (arguments pieces) ≡ some out) × AllShown pieces out
printk_lem_example =
    printk_lem pieces ((λ e. omega (arith, e)), (omega arith, (omega arith, (tt, tt))))

-- It prints "a0xff-7ok".
printed :
    printk (formats pieces) (arguments pieces)
    ≡ some (97 ∷ 48 ∷ 120 ∷ 102 ∷ 102 ∷ 45 ∷ 55 ∷ 111 ∷ 107 ∷ [])
unfolding printk vprintk_loop directive long_hex emit_val digits_loop
printed = refl

-- "%llx" of 2 ^ 32 + 5 prints "0x15", as it does of 0x15.
long_without_zeros :
    printk (37 ∷ 108 ∷ 108 ∷ 120 ∷ []) (long (2 ^ 32 + 5) ∷ []) ≡ some (48 ∷ 120 ∷ 49 ∷ 53 ∷ [])
unfolding printk vprintk_loop directive long_hex emit_val digits_loop
long_without_zeros = refl
