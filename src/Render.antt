-- ===== src/Render.antt =====
-- The rendering program src/tests/2-render/render.c. Coordinates are never negative, and neither are
-- the arguments of `random_range`; `image` and its strips are functions of row, column and channel.
pub mod Random
pub mod Strips
pub mod Cycles
pub mod Output
mod Tests
use cs140e_final_parallel_co.Base.{
  ℕ, zero, suc, ◌+◌, ◌-◌, ◌*◌, ◌/◌, ◌^◌, Bool, List, [], ◌∷◌, ◌++◌, bit_and, leb, ◌==◌, ◌&&◌,
  if◌then◌else◌, u8, u32,
}

-- The counter behind the call, and the result.
unfoldable pub lcg : ℕ → ℕ × ℕ
lcg seed = let seed' = u32 (1664525 * seed + 1013904223) in (seed', bit_and seed' 0x7fffffff)

unfoldable pub random_range : (min max seed : ℕ) → ℕ × ℕ
random_range min max seed = let (seed', r) = lcg seed in (seed', bit_and r ((max - min) - 1) + min)

-- The arrays x, y, radius, r, g and b.
pub record Circles : Type 0 where
  pub x : ℕ → ℕ
  pub y : ℕ → ℕ
  pub radius : ℕ → ℕ
  pub r : ℕ → ℕ
  pub g : ℕ → ℕ
  pub b : ℕ → ℕ

unfoldable pub write_at : (ℕ → ℕ) → (i v : ℕ) → ℕ → ℕ
write_at f i v k = if k == i then v else f k

-- One round of the loop that makes the circles, for images of `n` rows.
unfoldable pub make_circle : (n i : ℕ) → Circles × ℕ → Circles × ℕ
make_circle n i (cs, s0) =
    let (s1, x) = random_range 0 n s0 in
    let (s2, y) = random_range 0 n s1 in
    let (s3, radius) = random_range (n / 20) (n / 7) s2 in
    let (s4, r) = random_range 0 256 s3 in
    let (s5, g) = random_range 0 256 s4 in
    let (s6, b) = random_range 0 256 s5 in
    (
      record {
        x = write_at cs.x i x;
        y = write_at cs.y i y;
        radius = write_at cs.radius i radius;
        r = write_at cs.r i (u8 r);
        g = write_at cs.g i (u8 g);
        b = write_at cs.b i (u8 b);
      },
      s6,
    )

unfoldable pub make_circles : (n left i : ℕ) → Circles × ℕ → Circles × ℕ
make_circles n zero i s = s
make_circles n (suc left) i s = make_circles n left (i + 1) (make_circle n i s)

-- The distance of two coordinates, whose square is that of their difference.
abbrev pub distance : ℕ → ℕ → ℕ
distance a b = if leb b a then a - b else b - a

unfoldable pub is_inside_circle : (cx cy x y r : ℕ) → Bool
is_inside_circle cx cy x y r =
    leb (distance x cx * distance x cx + distance y cy * distance y cy) (r * r)

pub record Pixel : Type 0 where
  pub red : ℕ
  pub green : ℕ
  pub blue : ℕ

abbrev pub Image : Type 0
Image = ℕ → ℕ → Pixel

-- `(r[c_idx] >> 1) + (image_sub[i][j][0] >> 1)`, stored in a byte.
unfoldable pub blend : ℕ → ℕ → ℕ
blend colour old = u8 (colour / 2 + old / 2)

-- The loop over the circles at one pixel.
unfoldable pub paint : (left c_idx px py : ℕ) → Circles → Pixel → Pixel
paint zero c_idx px py cs p = p
paint (suc left) c_idx px py cs p = paint left (c_idx + 1) px py cs (
    if is_inside_circle (cs.x c_idx) (cs.y c_idx) px py (cs.radius c_idx)
    then record {
      red = blend (cs.r c_idx) p.red;
      green = blend (cs.g c_idx) p.green;
      blue = blend (cs.b c_idx) p.blue;
    }
    else p)

unfoldable pub put_pixel : Image → (i j : ℕ) → Pixel → Image
put_pixel image i j p i' j' = if i' == i && j' == j then p else image i' j'

-- A loop over the columns from `j` on, in row `i`, with the pixel's new value from its old one.
unfoldable pub column_loop : (left i j : ℕ) → (ℕ → ℕ → Pixel → Pixel) → Image → Image
column_loop zero i j f image = image
column_loop (suc left) i j f image =
    column_loop left i (j + 1) f (put_pixel image i j (f i j (image i j)))

unfoldable pub row_loop : (n left i : ℕ) → (ℕ → ℕ → Pixel → Pixel) → Image → Image
row_loop n zero i f image = image
row_loop n (suc left) i f image = row_loop n left (i + 1) f (column_loop n i 0 f image)

-- `rows` is rows_per_process, `n` is N and `circles` is NUM_CIRCLES.
unfoldable pub render : (rows n circles : ℕ) → Circles → Image → (rank : ℕ) → Image
render rows n circles cs image_sub rank =
    row_loop n rows 0 (λ i j p. paint circles 0 (rank * rows + i) j cs p) image_sub

-- The loop of `render_all`, which overwrites.
unfoldable pub cover : (left c_idx px py : ℕ) → Circles → Pixel → Pixel
cover zero c_idx px py cs p = p
cover (suc left) c_idx px py cs p = cover left (c_idx + 1) px py cs (
    if is_inside_circle (cs.x c_idx) (cs.y c_idx) px py (cs.radius c_idx)
    then record { red = cs.r c_idx; green = cs.g c_idx; blue = cs.b c_idx }
    else p)

unfoldable pub render_all : (n circles : ℕ) → Circles → Image → Image
render_all n circles cs image_sub = row_loop n n 0 (λ i j p. cover circles 0 i j cs p) image_sub

unfoldable pub elapsed_cycles : (start end : ℕ) → ℕ
elapsed_cycles start end = if leb start end then end - start else u32 (0xffffffff - start + end + 1)

unfoldable pub has_overflow : (start end : ℕ) → ℕ
has_overflow start end = if leb start end then 0 else 1

-- The bytes that `uart_put8` is given, the three of a pixel one after the other.
unfoldable pub send_columns : (left i j : ℕ) → Image → List ℕ → List ℕ
send_columns zero i j image out = out
send_columns (suc left) i j image out =
    let p = image i j in send_columns left i (j + 1) image (out ++ (p.red ∷ p.green ∷ p.blue ∷ []))

unfoldable pub send_rows : (n left i : ℕ) → Image → List ℕ → List ℕ
send_rows n zero i image out = out
send_rows n (suc left) i image out = send_rows n left (i + 1) image (send_columns n i 0 image out)

unfoldable pub send_back_to_laptop : (n : ℕ) → Image → List ℕ
send_back_to_laptop n image = send_rows n n 0 image []
