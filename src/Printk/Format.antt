-- ===== src/Printk/Format.antt =====
-- `printk` of a format that is made of text and directives.
use cs140e_final_parallel_co.Base.{
  ℕ, zero, suc, ◌-◌, ◌^◌, ◌≤◌, ◌<◌, ◌≡◌, ◌≢◌, refl, ◌∙◌, Bool, List, [], ◌∷◌, ◌++◌, some, arith,
  leb, if◌then◌else◌, u32, length, Bool-cases, inl, inr, ne→==,
}
use cs140e_final_parallel_co.Base.Results.{◌>>=◌}
use cs140e_final_parallel_co.Printk.{Arg, word, text, directive, vprintk_loop, printk}
use cs140e_final_parallel_co.Printk.Numbers.{Numeral, emit_val_lem}

-- One character of text, or one directive with its argument.
pub data Piece : Type 0 where
  plain : ℕ → Piece
  binary : ℕ → Piece
  unsigned : ℕ → Piece
  hex : ℕ → Piece
  signed : ℕ → Piece
  char : ℕ → Piece
  string : List ℕ → Piece

-- Text has no `%`, and numbers are words.
abbrev pub Fits : Piece → Type 0
Fits (plain c) = c ≢ 37
Fits (binary u) = u < 2 ^ 32
Fits (unsigned u) = u < 2 ^ 32
Fits (hex u) = u < 2 ^ 32
Fits (signed u) = u < 2 ^ 32
Fits (char c) = Unit {0}
Fits (string s) = Unit {0}

abbrev pub AllFit : List Piece → Type 0
AllFit [] = Unit {0}
AllFit (p ∷ ps) = Fits p × AllFit ps

abbrev pub format_of : Piece → List ℕ → List ℕ
format_of (plain c) rest = c ∷ rest
format_of (binary u) rest = 37 ∷ 98 ∷ rest
format_of (unsigned u) rest = 37 ∷ 117 ∷ rest
format_of (hex u) rest = 37 ∷ 120 ∷ rest
format_of (signed u) rest = 37 ∷ 100 ∷ rest
format_of (char c) rest = 37 ∷ 99 ∷ rest
format_of (string s) rest = 37 ∷ 115 ∷ rest

abbrev pub args_of : Piece → List Arg → List Arg
args_of (plain c) rest = rest
args_of (binary u) rest = word u ∷ rest
args_of (unsigned u) rest = word u ∷ rest
args_of (hex u) rest = word u ∷ rest
args_of (signed u) rest = word u ∷ rest
args_of (char c) rest = word c ∷ rest
args_of (string s) rest = text s ∷ rest

abbrev pub formats : List Piece → List ℕ
formats [] = []
formats (p ∷ ps) = format_of p (formats ps)

abbrev pub arguments : List Piece → List Arg
arguments [] = []
arguments (p ∷ ps) = args_of p (arguments ps)

-- The value of a word as an `int`: whether it is negative, and its absolute value.
abbrev pub negative : ℕ → Bool
negative u = leb (2 ^ 31) u

abbrev pub magnitude : ℕ → ℕ
magnitude u = if negative u then 2 ^ 32 - u else u

-- What a piece looks like when it is printed.
abbrev pub Shown : Piece → List ℕ → Type 0
Shown (plain c) out = out ≡ c ∷ []
Shown (binary u) out = Numeral 2 u out
Shown (unsigned u) out = Numeral 10 u out
Shown (hex u) out = (ds : List ℕ) × (out ≡ 48 ∷ 120 ∷ ds) × Numeral 16 u ds
Shown (signed u) out =
    (ds : List ℕ) × (out ≡ (if negative u then 45 ∷ ds else ds)) × Numeral 10 (magnitude u) ds
Shown (char c) out = out ≡ c ∷ []
Shown (string s) out = out ≡ s

abbrev pub AllShown : List Piece → List ℕ → Type 0
AllShown [] out = out ≡ []
AllShown (p ∷ ps) out =
    (first : List ℕ) × (rest : List ℕ) × (out ≡ first ++ rest) × Shown p first × AllShown ps rest

-- One round of the loop prints one piece.
piece_lem :
    (p : Piece) (left : ℕ) (fmt : List ℕ) (args : List Arg)
    → Fits p
    → (first : List ℕ) × Shown p first
      × (vprintk_loop (suc left) (format_of p fmt) (args_of p args)
          ≡ (do rest ← vprintk_loop left fmt args; some (first ++ rest)))
unfolding vprintk_loop directive
piece_lem (plain c) left fmt args fits = (c ∷ [], refl, rw (ne→== c 37 fits) refl)
piece_lem (binary u) left fmt args fits =
    let (ds, e, shown) = emit_val_lem 2 u refl fits in (ds, shown, rw e refl)
piece_lem (unsigned u) left fmt args fits =
    let (ds, e, shown) = emit_val_lem 10 u refl fits in (ds, shown, rw e refl)
piece_lem (hex u) left fmt args fits =
    let (ds, e, shown) = emit_val_lem 16 u refl fits in
    (48 ∷ 120 ∷ ds, (ds, refl, shown), rw e refl)
piece_lem (signed u) left fmt args fits = elim (Bool-cases (negative u)) [
  | inl neg ↦
      let small : u32 (2 ^ 32 - u) ≡ 2 ^ 32 - u = ground arith in
      let (ds, e, shown) = emit_val_lem 10 (2 ^ 32 - u) refl (ground arith) in
      (45 ∷ ds, (ds, rw neg refl, rw neg shown), rw (neg, small, e) refl)
  | inr pos ↦
      let (ds, e, shown) = emit_val_lem 10 u refl fits in
      (ds, (ds, rw pos refl, rw pos shown), rw (pos, e) refl)
]
piece_lem (char c) left fmt args fits = (c ∷ [], refl, refl)
piece_lem (string s) left fmt args fits = (s, refl, refl)

length-format_of : (p : Piece) (rest : List ℕ) → suc (length rest) ≤ length (format_of p rest)
length-format_of (plain c) rest = omega arith
length-format_of (binary u) rest = omega arith
length-format_of (unsigned u) rest = omega arith
length-format_of (hex u) rest = omega arith
length-format_of (signed u) rest = omega arith
length-format_of (char c) rest = omega arith
length-format_of (string s) rest = omega arith

pieces_lem :
    (ps : List Piece) (left : ℕ)
    → AllFit ps
    → length (formats ps) ≤ left
    → (out : List ℕ) × (vprintk_loop left (formats ps) (arguments ps) ≡ some out) × AllShown ps out
unfolding vprintk_loop
pieces_lem [] zero fits h = ([], refl, refl)
pieces_lem [] (suc left) fits h = ([], refl, refl)
pieces_lem (p ∷ ps) zero fits h = absurd (omega (arith, length-format_of p (formats ps)))
pieces_lem (p ∷ ps) (suc left) (fit, fits) h =
    let (rest, e, shown) =
      pieces_lem ps left fits (omega (arith, length-format_of p (formats ps))) in
    let (first, looks, ran) = piece_lem p left (formats ps) (arguments ps) fit in
    (first ++ rest, ran ∙ rw e refl, (first, rest, refl, looks, shown))

-- `printk` of text and of the directives %b, %u, %x, %d, %c and %s with their arguments prints each
-- piece in order: the text, the numeral in its base, for %x behind 0x and for %d behind a minus sign
-- when the `int` is negative, the character or the string.
pub printk_lem :
    (ps : List Piece)
    → AllFit ps
    → (out : List ℕ) × (printk (formats ps) (arguments ps) ≡ some out) × AllShown ps out
unfolding printk
printk_lem ps fits = pieces_lem ps (length (formats ps)) fits (omega arith)
