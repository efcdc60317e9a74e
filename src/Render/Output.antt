-- ===== src/Render/Output.antt =====
-- `send_back_to_laptop`: the order of the bytes on the wire.
use cs140e_final_parallel_co.Base.{
  ℕ, zero, suc, ◌+◌, ◌*◌, ◌<◌, ◌≡◌, refl, sym, ap, ◌∙◌, arith, List, [], ◌∷◌, ◌++◌, append_assoc,
  append-nil, some, length, length-append, get_elem?,
}
use cs140e_final_parallel_co.Render.{Pixel, Image, send_columns, send_rows, send_back_to_laptop}

-- The channels of a pixel by number.
abbrev pub channel : Pixel → ℕ → ℕ
channel p zero = p.red
channel p (suc zero) = p.green
channel p (suc (suc c)) = p.blue

columns : (left i j : ℕ) → Image → List ℕ
columns zero i j image = []
columns (suc left) i j image =
    let p = image i j in p.red ∷ p.green ∷ p.blue ∷ columns left i (j + 1) image

rows : (n left i : ℕ) → Image → List ℕ
rows n zero i image = []
rows n (suc left) i image = columns n i 0 image ++ rows n left (i + 1) image

send_columns-columns :
    (left i j : ℕ) (image : Image) (out : List ℕ)
    → send_columns left i j image out ≡ out ++ columns left i j image
unfolding send_columns columns
send_columns-columns zero i j image out = sym (append-nil out)
send_columns-columns (suc left) i j image out =
    let p = image i j in
    let three = p.red ∷ p.green ∷ p.blue ∷ [] in
    send_columns-columns left i (j + 1) image (out ++ three)
    ∙ append_assoc out three (columns left i (j + 1) image)

send_rows-rows :
    (n left i : ℕ) (image : Image) (out : List ℕ)
    → send_rows n left i image out ≡ out ++ rows n left i image
unfolding send_rows rows
send_rows-rows n zero i image out = sym (append-nil out)
send_rows-rows n (suc left) i image out =
    send_rows-rows n left (i + 1) image (send_columns n i 0 image out)
    ∙ ap (λ o. o ++ rows n left (i + 1) image) (send_columns-columns n i 0 image out)
    ∙ append_assoc out (columns n i 0 image) (rows n left (i + 1) image)

get_elem?-append_left :
    (xs ys : List ℕ) (i : ℕ) → i < length xs → get_elem? (xs ++ ys) i ≡ get_elem? xs i
get_elem?-append_left [] ys i h = absurd (omega arith)
get_elem?-append_left (x ∷ xs) ys zero h = refl
get_elem?-append_left (x ∷ xs) ys (suc i) h = get_elem?-append_left xs ys i (omega arith)

get_elem?-append_right :
    (xs ys : List ℕ) (i j : ℕ) → i ≡ length xs + j → get_elem? (xs ++ ys) i ≡ get_elem? ys j
get_elem?-append_right [] ys i j e = ap (get_elem? ys) (omega arith)
get_elem?-append_right (x ∷ xs) ys zero j e = absurd (omega arith)
get_elem?-append_right (x ∷ xs) ys (suc i) j e = get_elem?-append_right xs ys i j (omega arith)

length-columns : (left i j : ℕ) (image : Image) → length (columns left i j image) ≡ left * 3
unfolding columns
length-columns zero i j image = omega arith
length-columns (suc left) i j image = omega (arith, length-columns left i (j + 1) image)

length-rows : (n left i : ℕ) (image : Image) → length (rows n left i image) ≡ left * n * 3
unfolding rows
length-rows n zero i image = omega arith
length-rows n (suc left) i image = omega (
  arith,
  length-rows n left (i + 1) image,
  length-columns n i 0 image,
  length-append (columns n i 0 image) (rows n left (i + 1) image),
)

three_of :
    (p : Pixel) (rest : List ℕ) (c : ℕ)
    → c < 3
    → get_elem? (p.red ∷ p.green ∷ p.blue ∷ rest) c ≡ some (channel p c)
three_of p rest zero h = refl
three_of p rest (suc zero) h = refl
three_of p rest (suc (suc zero)) h = refl
three_of p rest (suc (suc (suc c))) h = absurd (omega arith)

columns-channel :
    (left i j k c : ℕ) (image : Image)
    → k < left
    → c < 3
    → get_elem? (columns left i j image) (k * 3 + c) ≡ some (channel (image i (j + k)) c)
unfolding columns
columns-channel zero i j k c image hk hc = absurd (omega arith)
columns-channel (suc left) i j zero c image hk hc =
    let p = image i j in
    let at : zero * 3 + c ≡ c = omega arith in
    let same : j + zero ≡ j = omega arith in
    rw (at, same) (three_of p (columns left i (j + 1) image) c hc)
columns-channel (suc left) i j (suc k) c image hk hc =
    let p = image i j in
    let same : j + suc k ≡ j + 1 + k = omega arith in
    let rest = columns left i (j + 1) image in
    get_elem?-append_right (p.red ∷ p.green ∷ p.blue ∷ []) rest (suc k * 3 + c) (k * 3 + c)
      (omega arith)
    ∙ columns-channel left i (j + 1) k c image (omega arith) hc
    ∙ ap (λ q. some (channel (image i q) c)) (sym same)

rows-channel :
    (n left i r k c : ℕ) (image : Image)
    → r < left
    → k < n
    → c < 3
    → get_elem? (rows n left i image) ((r * n + k) * 3 + c) ≡ some (channel (image (i + r) k) c)
unfolding rows
rows-channel n zero i r k c image hr hk hc = absurd (omega arith)
rows-channel n (suc left) i zero k c image hr hk hc =
    let at : (zero * n + k) * 3 + c ≡ k * 3 + c = omega arith in
    let same : i + zero ≡ i = omega arith in
    let col : 0 + k ≡ k = omega arith in
    rw (at, same)
      (get_elem?-append_left (columns n i 0 image) (rows n left (i + 1) image) (k * 3 + c)
          (omega (arith, length-columns n i 0 image))
        ∙ columns-channel n i 0 k c image hk hc
        ∙ ap (λ q. some (channel (image i q) c)) col)
rows-channel n (suc left) i (suc r) k c image hr hk hc =
    let same : i + suc r ≡ i + 1 + r = omega arith in
    rw same (
      get_elem?-append_right (columns n i 0 image) (rows n left (i + 1) image)
        ((suc r * n + k) * 3 + c) ((r * n + k) * 3 + c) (omega (arith, length-columns n i 0 image))
      ∙ rows-channel n left (i + 1) r k c image (omega arith) hk hc)

-- The laptop receives `n * n * 3` bytes: the one at place `(i * n + j) * 3 + c` is channel `c` of the
-- pixel in row `i` and column `j`.
pub send_back_to_laptop-channel :
    (n : ℕ) (image : Image)
    → (length (send_back_to_laptop n image) ≡ n * n * 3)
      × ((i j c : ℕ)
          → i < n
          → j < n
          → c < 3
          → get_elem? (send_back_to_laptop n image) ((i * n + j) * 3 + c)
            ≡ some (channel (image i j) c))
unfolding send_back_to_laptop
send_back_to_laptop-channel n image =
    let sent = send_rows-rows n n 0 image [] in
    (
      ap length sent ∙ length-rows n n 0 image,
      λ i j c hi hj hc.
          ap (λ o. get_elem? o ((i * n + j) * 3 + c)) sent
          ∙ rows-channel n n 0 i j c image hi hj hc
          ∙ ap (λ q. some (channel (image q j) c)) (omega arith),
    )
