-- ===== src/Base/Lists.antt =====
-- C arrays as lists with native indices.
use Prim.Native.Nat.{ℕ, zero, suc, ◌+◌, ◌-◌, ◌*◌, ◌≤◌, ◌<◌, min}
use mathlib.Core.Path.{◌≡◌, refl, sym, ap, ◌∙◌}
use mathlib.Core.Logic.{◌≢◌}
use mathlib.Core.List.{List, [], ◌∷◌, ◌++◌, map}
use mathlib.Core.Option.{Option, none, some}
use native.Mathlib.Omega.{arith}
use native.Mathlib.Decide.{dec_lt}
use native.Mathlib.Nat.{zero-add, suc-add, zero-mul}
use native.Mathlib.Numerals.{add-one}

module _ {ℓ} {A : Type ℓ} where
  abbrev pub length : List A → ℕ
  length [] = 0
  length (x ∷ xs) = suc (length xs)

  abbrev pub get_elem? : List A → ℕ → Option A
  get_elem? [] i = none
  get_elem? (x ∷ xs) zero = some x
  get_elem? (x ∷ xs) (suc i) = get_elem? xs i

  abbrev pub get_or : List A → ℕ → A → A
  get_or [] i d = d
  get_or (x ∷ xs) zero d = x
  get_or (x ∷ xs) (suc i) d = get_or xs i d

  -- A write out of bounds changes nothing.
  abbrev pub set : List A → ℕ → A → List A
  set [] i v = []
  set (x ∷ xs) zero v = v ∷ xs
  set (x ∷ xs) (suc i) v = x ∷ set xs i v

  abbrev pub take : ℕ → List A → List A
  take zero xs = []
  take (suc n) [] = []
  take (suc n) (x ∷ xs) = x ∷ take n xs

  abbrev pub drop : ℕ → List A → List A
  drop zero xs = xs
  drop (suc n) [] = []
  drop (suc n) (x ∷ xs) = drop n xs

  abbrev pub replicate : ℕ → A → List A
  replicate zero a = []
  replicate (suc n) a = a ∷ replicate n a

  pub length-append : (xs ys : List A) → length (xs ++ ys) ≡ length xs + length ys
  length-append [] ys = omega arith
  length-append (x ∷ xs) ys = omega (arith, length-append xs ys)

  pub length-set : (xs : List A) (i : ℕ) (v : A) → length (set xs i v) ≡ length xs
  length-set [] i v = refl
  length-set (x ∷ xs) zero v = refl
  length-set (x ∷ xs) (suc i) v = ap suc (length-set xs i v)

  pub length-take : (n : ℕ) (xs : List A) → length (take n xs) ≡ min n (length xs)
  length-take zero xs = omega arith
  length-take (suc n) [] = omega arith
  length-take (suc n) (x ∷ xs) = omega (arith, length-take n xs)

  pub length-drop : (n : ℕ) (xs : List A) → length (drop n xs) ≡ length xs - n
  length-drop zero xs = omega arith
  length-drop (suc n) [] = omega arith
  length-drop (suc n) (x ∷ xs) = omega (arith, length-drop n xs)

  pub take-append-drop : (n : ℕ) (xs : List A) → take n xs ++ drop n xs ≡ xs
  take-append-drop zero xs = refl
  take-append-drop (suc n) [] = refl
  take-append-drop (suc n) (x ∷ xs) = ap (◌∷◌ x) (take-append-drop n xs)

  pub get_elem?-set_self :
      (xs : List A) (i : ℕ) (v : A) → i < length xs → get_elem? (set xs i v) i ≡ some v
  get_elem?-set_self [] i v h = absurd (omega arith)
  get_elem?-set_self (x ∷ xs) zero v h = refl
  get_elem?-set_self (x ∷ xs) (suc i) v h = get_elem?-set_self xs i v (omega arith)

  pub get_elem?-set_ne :
      (xs : List A) (i j : ℕ) (v : A) → i ≢ j → get_elem? (set xs i v) j ≡ get_elem? xs j
  get_elem?-set_ne [] i j v ne = refl
  get_elem?-set_ne (x ∷ xs) zero zero v ne = absurd (ne refl)
  get_elem?-set_ne (x ∷ xs) zero (suc j) v ne = refl
  get_elem?-set_ne (x ∷ xs) (suc i) zero v ne = refl
  get_elem?-set_ne (x ∷ xs) (suc i) (suc j) v ne = get_elem?-set_ne xs i j v (λ e. ne (ap suc e))

  pub get_elem?-take : (n i : ℕ) (xs : List A) → i < n → get_elem? (take n xs) i ≡ get_elem? xs i
  get_elem?-take zero i xs h = absurd (omega arith)
  get_elem?-take (suc n) i [] h = refl
  get_elem?-take (suc n) zero (x ∷ xs) h = refl
  get_elem?-take (suc n) (suc i) (x ∷ xs) h = get_elem?-take n i xs (omega arith)

  pub get_elem?-none : (xs : List A) (i : ℕ) → length xs ≤ i → get_elem? xs i ≡ none
  get_elem?-none [] i h = refl
  get_elem?-none (x ∷ xs) zero h = absurd (omega arith)
  get_elem?-none (x ∷ xs) (suc i) h = get_elem?-none xs i (omega arith)

  pub get_elem?-eq-get_or :
      (xs : List A) (i : ℕ) (d : A) → i < length xs → get_elem? xs i ≡ some (get_or xs i d)
  get_elem?-eq-get_or [] i d h = absurd (omega arith)
  get_elem?-eq-get_or (x ∷ xs) zero d h = refl
  get_elem?-eq-get_or (x ∷ xs) (suc i) d h = get_elem?-eq-get_or xs i d (omega arith)

  -- Two arrays of one length that agree at every index are equal.
  pub get_elem?_ext : (xs ys : List A) → ((i : ℕ) → get_elem? xs i ≡ get_elem? ys i) → xs ≡ ys
  get_elem?_ext [] [] h = refl
  get_elem?_ext [] (y ∷ ys) h = absurd (none≢some (h 0))
    where
      none≢some : {a : A} → none ≡ some a → ⊥
      none≢some e = cc
  get_elem?_ext (x ∷ xs) [] h = absurd (some≢none (h 0))
    where
      some≢none : {a : A} → some a ≡ none → ⊥
      some≢none e = cc
  get_elem?_ext (x ∷ xs) (y ∷ ys) h = cons_path (h 0) (get_elem?_ext xs ys (λ i. h (suc i)))
    where
      cons_path : some x ≡ some y → xs ≡ ys → x ∷ xs ≡ y ∷ ys
      cons_path p q = cc

module _ {ℓ} {A : Type ℓ} where
  -- The elements `offset` to `offset + n - 1`.
  abbrev pub slice : List A → (offset n : ℕ) → List A
  slice xs offset n = take n (drop offset xs)

  drop-get_or :
      (xs : List A) (i : ℕ) (d : A) → i < length xs → drop i xs ≡ get_or xs i d ∷ drop (i + 1) xs
  drop-get_or [] i d h = absurd (omega arith)
  drop-get_or (x ∷ xs) zero d h = refl
  drop-get_or (x ∷ xs) (suc i) d h = rw add-one (rw add-one at (drop-get_or xs i d (omega arith)))

  pub slice-suc :
      (xs : List A) (i n : ℕ) (d : A)
      → i < length xs
      → slice xs i (suc n) ≡ get_or xs i d ∷ slice xs (i + 1) n
  slice-suc xs i n d h = ap (take (suc n)) (drop-get_or xs i d h)

  pub length-slice :
      (xs : List A) (offset n : ℕ) → offset + n ≤ length xs → length (slice xs offset n) ≡ n
  length-slice xs offset n h = omega (arith, length-take n (drop offset xs), length-drop offset xs)

  pub get_elem?-drop :
      (xs : List A) (offset i : ℕ) → get_elem? (drop offset xs) i ≡ get_elem? xs (offset + i)
  get_elem?-drop xs zero i = rw zero-add
  get_elem?-drop [] (suc offset) i = refl
  get_elem?-drop (x ∷ xs) (suc offset) i =
      get_elem?-drop xs offset i ∙ ap (get_elem? (x ∷ xs)) (sym (suc-add offset i))

  pub get_elem?-slice :
      (xs : List A) (offset n i : ℕ)
      → i < n
      → get_elem? (slice xs offset n) i ≡ get_elem? xs (offset + i)
  get_elem?-slice xs offset n i h =
      get_elem?-take n i (drop offset xs) h ∙ get_elem?-drop xs offset i

  pub take_all : (n : ℕ) (xs : List A) → length xs ≤ n → take n xs ≡ xs
  take_all zero [] h = refl
  take_all zero (x ∷ xs) h = absurd (omega arith)
  take_all (suc n) [] h = refl
  take_all (suc n) (x ∷ xs) h = ap (◌∷◌ x) (take_all n xs (omega arith))

  -- A slice is known from its elements.
  pub slice_ext :
      (xs : List A) (offset n : ℕ) (ys : List A)
      → length ys ≡ n
      → offset + n ≤ length xs
      → ((k : ℕ) → k < n → get_elem? xs (offset + k) ≡ get_elem? ys k)
      → slice xs offset n ≡ ys
  slice_ext xs offset n ys len h same = get_elem?_ext (slice xs offset n) ys λ k.
      elim (dec_lt k n) [
        | yes p ↦ get_elem?-slice xs offset n k p ∙ same k p
        | no p ↦
            get_elem?-none (slice xs offset n) k (omega (arith, length-slice xs offset n h))
            ∙ sym (get_elem?-none ys k (omega arith))
      ]

module _ {ℓ κ} {A : Type ℓ} {B : Type κ} where
  pub length-map : (f : A → B) (xs : List A) → length (map f xs) ≡ length xs
  length-map f [] = refl
  length-map f (x ∷ xs) = ap suc (length-map f xs)

module _ {ℓ} {A : Type ℓ} where
  pub take-add : (m n : ℕ) (xs : List A) → take (m + n) xs ≡ take m xs ++ slice xs m n
  take-add zero n xs = rw zero-add
  take-add (suc m) zero [] = rw suc-add
  take-add (suc m) (suc n) [] = rw suc-add
  take-add (suc m) n (x ∷ xs) = rw suc-add (ap (◌∷◌ x) (take-add m n xs))

  pub take-append : (xs ys : List A) (n : ℕ) → length xs ≡ n → take n (xs ++ ys) ≡ xs
  take-append [] ys zero h = refl
  take-append [] ys (suc n) h = absurd (omega arith)
  take-append (x ∷ xs) ys zero h = absurd (omega arith)
  take-append (x ∷ xs) ys (suc n) h = ap (◌∷◌ x) (take-append xs ys n (omega arith))

  -- Arrays that agree chunk by chunk agree on all the chunks.
  pub chunks_ext :
      (size n : ℕ) (xs ys : List A)
      → ((i : ℕ) → i < size → slice xs (i * n) n ≡ slice ys (i * n) n)
      → take (size * n) xs ≡ take (size * n) ys
  chunks_ext zero n xs ys same = rw zero-mul
  chunks_ext (suc size) n xs ys same = rw (
    suc-mul size n,
    take-add (size * n) n xs,
    take-add (size * n) n ys,
    chunks_ext size n xs ys (λ i h. same i (omega arith)),
    same size (omega arith),
  )
    where
      suc-mul : (a b : ℕ) → suc a * b ≡ a * b + b
      suc-mul a b = omega arith
