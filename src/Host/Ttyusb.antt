-- ===== src/Host/Ttyusb.antt =====
-- The choice of a Pi's serial device in libunix/find-ttyusb.c, and the tests of libunix/suffix.c. What
-- scandir yields of /dev, in its order, with the times that stat yields, is an argument. `none` is a
-- panic. The model ends with the name that is chosen. The copies that then put "/dev/" before it overlap
-- and leave their buffer, so that what the three functions return has no defined value: they, and
-- `find_ttyusb_i`, which calls one of them, are not modelled.
pub mod Pick
use cs140e_final_parallel_co.Base.{
  ℕ, zero, suc, ◌+◌, ◌-◌, Bool, true, false, ◌&&◌, ◌||◌, List, [], ◌∷◌, ◌++◌, Option, none, some,
  ltb, leb, ◌==◌, if◌then◌else◌, length, drop,
}
use cs140e_final_parallel_co.Base.Results.{◌>>=◌}

-- A name without its final 0.
abbrev pub Text : Type 0
Text = List ℕ

-- `strcmp(..) == 0`.
unfoldable pub same_text : Text → Text → Bool
same_text [] [] = true
same_text [] (y ∷ t) = false
same_text (x ∷ s) [] = false
same_text (x ∷ s) (y ∷ t) = x == y && same_text s t

-- `strncmp(s, prefix, strlen(prefix)) == 0`.
unfoldable pub begins : Text → (prefix : Text) → Bool
begins s [] = true
begins [] (y ∷ t) = false
begins (x ∷ s) (y ∷ t) = x == y && begins s t

unfoldable pub prefix_cmp : (s prefix : Text) → Bool
prefix_cmp s prefix = if ltb (length s) (length prefix) then false else begins s prefix

unfoldable pub suffix_cmp : (s suffix : Text) → Bool
suffix_cmp s suffix =
    if ltb (length s) (length suffix)
    then false
    else same_text (drop (length s - length suffix) s) suffix

-- "ttyUSB", "ttyACM", "cu.SLAB_USB" and "cu.usbserial".
abbrev pub ttyusb_prefixes : List Text
ttyusb_prefixes =
    (116 ∷ 116 ∷ 121 ∷ 85 ∷ 83 ∷ 66 ∷ [])
    ∷ (116 ∷ 116 ∷ 121 ∷ 65 ∷ 67 ∷ 77 ∷ [])
    ∷ (99 ∷ 117 ∷ 46 ∷ 83 ∷ 76 ∷ 65 ∷ 66 ∷ 95 ∷ 85 ∷ 83 ∷ 66 ∷ [])
    ∷ (99 ∷ 117 ∷ 46 ∷ 117 ∷ 115 ∷ 98 ∷ 115 ∷ 101 ∷ 114 ∷ 105 ∷ 97 ∷ 108 ∷ [])
    ∷ []

unfoldable pub any_prefix : List Text → Text → Bool
any_prefix [] name = false
any_prefix (prefix ∷ prefixes) name = begins name prefix || any_prefix prefixes name

-- An entry of /dev, with its time, or none where stat fails.
abbrev pub Entry : Type 0
Entry = Text × Option ℕ

-- What scandir leaves of the entries by the function `filter`.
unfoldable pub scandir : List Entry → List Entry
scandir [] = []
scandir (e ∷ entries) =
    let rest = scandir entries in if any_prefix ttyusb_prefixes e.0 then e ∷ rest else rest

-- The name that `find_ttyusb` copies: that of the one device.
unfoldable pub only : List Entry → Option Text
only [] = none
only (e ∷ []) = some (e.0)
only (e ∷ f ∷ entries) = none

unfoldable pub only_file : List Entry → Option Text
only_file entries = only (scandir entries)

-- The loop over the names, with the best one so far and its time; `better` compares the new time with it.
unfoldable pub pick : (better : ℕ → ℕ → Bool) → List Entry → Option (Text × ℕ) → Option Text
pick better [] none = none
pick better [] (some (name, t)) = some name
pick better ((name, none) ∷ entries) best = none
pick better ((name, some t) ∷ entries) none = pick better entries (some (name, t))
pick better ((name, some t) ∷ entries) (some (old, u)) =
    pick better entries (if better t u then some (name, t) else some (old, u))

-- One device is taken without a look at its time.
unfoldable pub pick_file : (better : ℕ → ℕ → Bool) → List Entry → Option Text
pick_file better [] = none
pick_file better (e ∷ []) = some (e.0)
pick_file better (e ∷ f ∷ entries) = pick better (e ∷ f ∷ entries) none

-- `newest_file` of `find_ttyusb_last`.
unfoldable pub newest_file : List Entry → Option Text
newest_file entries = pick_file (λ t newest. ltb newest t) (scandir entries)

-- `oldest_file` of `find_ttyusb_first`.
unfoldable pub oldest_file : List Entry → Option Text
oldest_file entries = pick_file (λ t oldest. ltb t oldest) (scandir entries)
