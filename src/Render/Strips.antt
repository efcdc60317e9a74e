-- ===== src/Render/Strips.antt =====
-- The images: `render` on the ranks' strips, and `render_all`.
use cs140e_final_parallel_co.Base.{
  ℕ, zero, suc, ◌+◌, ◌*◌, ◌<◌, ◌≡◌, refl, ◌∙◌, true, ◌&&◌, arith, ltb, leb, ◌==◌, if◌then◌else◌,
}
use cs140e_final_parallel_co.Render.{
  Circles, Pixel, Image, is_inside_circle, put_pixel, column_loop, row_loop, paint, render, cover,
  render_all,
}

-- What a loop makes of the pixel at `r` and `c`.
column_loop_lem :
    (left i j : ℕ) (f : ℕ → ℕ → Pixel → Pixel) (image : Image) (r c : ℕ)
    → column_loop left i j f image r c
      ≡ (if r == i && leb j c && ltb c (j + left) then f i c (image i c) else image r c)
unfolding column_loop put_pixel
column_loop_lem zero i j f image r c = ground arith
column_loop_lem (suc left) i j f image r c =
    column_loop_lem left i (j + 1) f (put_pixel image i j (f i j (image i j))) r c ∙ ground arith

row_loop_lem :
    (n left i : ℕ) (f : ℕ → ℕ → Pixel → Pixel) (image : Image) (r c : ℕ)
    → row_loop n left i f image r c
      ≡ (if leb i r && ltb r (i + left) && ltb c n then f r c (image r c) else image r c)
unfolding row_loop
row_loop_lem n zero i f image r c = ground arith
row_loop_lem n (suc left) i f image r c =
    row_loop_lem n left (i + 1) f (column_loop n i 0 f image) r c
    ∙ ground (arith, column_loop_lem n i 0 f image r c)

loop_all :
    (rows n : ℕ) (f : ℕ → ℕ → Pixel → Pixel) (image : Image) (r c : ℕ)
    → row_loop n rows 0 f image r c
      ≡ (if ltb r rows && ltb c n then f r c (image r c) else image r c)
loop_all rows n f image r c = row_loop_lem n rows 0 f image r c ∙ ground arith

-- The strips that the ranks render, one below the other, are the image that one rank renders by itself:
-- row `i` of the strip of rank `rank` is row `rank * rows + i` of the whole, for any number of ranks, on
-- buffers that hold the same pixels before.
pub render-strips :
    (rows n circles size : ℕ) (cs : Circles) (strip whole : Image) (rank i j : ℕ)
    → rank < size
    → i < rows
    → strip i j ≡ whole (rank * rows + i) j
    → render rows n circles cs strip rank i j
      ≡ render (size * rows) n circles cs whole 0 (rank * rows + i) j
unfolding render
render-strips rows n circles size cs strip whole rank i j hr hi same =
    let row = rank * rows + i in
    let inside : row < size * rows = grind arith in
    let in_strip : ltb i rows ≡ true = ground arith in
    let in_whole : ltb row (size * rows) ≡ true = ground arith in
    let first : 0 * (size * rows) + row ≡ row = omega arith in
    let a = loop_all rows n (λ i j p. paint circles 0 (rank * rows + i) j cs p) strip i j in
    let b =
      loop_all (size * rows) n (λ i j p. paint circles 0 (0 * (size * rows) + i) j cs p) whole row
        j in
    rw (a, b, in_strip, in_whole, first, same) refl

-- The colour at a pixel of the circle with the highest index below `count` that holds it.
abbrev pub topmost : (count px py : ℕ) → Circles → Pixel → Pixel
topmost zero px py cs p = p
topmost (suc k) px py cs p =
    if is_inside_circle (cs.x k) (cs.y k) px py (cs.radius k)
    then record { red = cs.r k; green = cs.g k; blue = cs.b k }
    else topmost k px py cs p

cover-suc :
    (left k px py : ℕ) (cs : Circles) (p : Pixel)
    → cover (suc left) k px py cs p ≡ (
        if is_inside_circle (cs.x (k + left)) (cs.y (k + left)) px py (cs.radius (k + left))
        then record { red = cs.r (k + left); green = cs.g (k + left); blue = cs.b (k + left) }
        else cover left k px py cs p)
unfolding cover
cover-suc zero k px py cs p = let at : k + 0 ≡ k = omega arith in rw at refl
cover-suc (suc left) k px py cs p =
    let at : k + suc left ≡ k + 1 + left = omega arith in
    rw at (
      cover-suc left (k + 1) px py cs (
        if is_inside_circle (cs.x k) (cs.y k) px py (cs.radius k)
        then record { red = cs.r k; green = cs.g k; blue = cs.b k }
        else p))

cover-topmost :
    (count px py : ℕ) (cs : Circles) (p : Pixel)
    → cover count 0 px py cs p ≡ topmost count px py cs p
unfolding cover
cover-topmost zero px py cs p = refl
cover-topmost (suc count) px py cs p =
    let at : 0 + count ≡ count = omega arith in
    let ih = cover-topmost count px py cs p in cover-suc count 0 px py cs p ∙ rw (at, ih) refl

-- In the image of `render_all` each of the `n` times `n` pixels has the colour of the last circle that
-- holds it, and its old one where there is none; no other pixel changes.
pub render_all-topmost :
    (n circles : ℕ) (cs : Circles) (image : Image) (i j : ℕ)
    → render_all n circles cs image i j
      ≡ (if ltb i n && ltb j n then topmost circles i j cs (image i j) else image i j)
unfolding render_all
render_all-topmost n circles cs image i j =
    loop_all n n (λ i j p. cover circles 0 i j cs p) image i j
    ∙ rw (cover-topmost circles i j cs (image i j)) refl
