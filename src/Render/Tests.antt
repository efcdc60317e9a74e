-- ===== src/Render/Tests.antt =====
-- One circle of radius 2 around row 3 and column 3, and images of eight rows.
use cs140e_final_parallel_co.Base.{
  ℕ, ◌+◌, ◌-◌, ◌*◌, ◌/◌, ◌%◌, ◌^◌, ◌<◌, ◌≤◌, ◌≡◌, refl, some, arith, length, get_elem?, sub32, ltb,
  ◌&&◌, if◌then◌else◌,
}
use cs140e_final_parallel_co.Render.{
  Circles, Image, render, render_all, random_range, lcg, make_circles, elapsed_cycles, has_overflow,
  send_back_to_laptop,
}
use cs140e_final_parallel_co.Render.Random.{InImage, random_range_bounds, circles_bounds}
use cs140e_final_parallel_co.Render.Strips.{topmost, render-strips, render_all-topmost}
use cs140e_final_parallel_co.Render.Cycles.{elapsed_cycles-wraps}
use cs140e_final_parallel_co.Render.Output.{channel, send_back_to_laptop-channel}

abbrev one : Circles
one = record { x = λ k. 3; y = λ k. 3; radius = λ k. 2; r = λ k. 200; g = λ k. 100; b = λ k. 50 }

abbrev black : Image
black i j = record { red = 0; green = 0; blue = 0 }

random_range_bounds_example :
    (6 ≤ (random_range 6 18 12345).1)
    × ((random_range 6 18 12345).1 < 18)
    × ((k : ℕ) → 18 - 6 ≡ 2 ^ k → (random_range 6 18 12345).1 ≡ (lcg 12345).1 % 2 ^ k + 6)
random_range_bounds_example = random_range_bounds 6 18 12345 (omega arith)

circles_bounds_example : InImage 128 (make_circles 128 5 0 (one, 12345)).0 3
circles_bounds_example = circles_bounds 128 5 12345 3 one (omega arith) (omega arith)

render-strips_example : render 4 8 1 one black 1 0 3 ≡ render (2 * 4) 8 1 one black 0 (1 * 4 + 0) 3
render-strips_example = render-strips 4 8 1 2 one black black 1 0 3 (omega arith) (omega arith) refl

render_all-topmost_example :
    render_all 8 1 one black 4 4
    ≡ (if ltb 4 8 && ltb 4 8 then topmost 1 4 4 one (black 4 4) else black 4 4)
render_all-topmost_example = render_all-topmost 8 1 one black 4 4

elapsed_cycles-wraps_example :
    (2 ^ 33 + 5 - (2 ^ 32 + 9)
      ≡ elapsed_cycles 9 5
        + 2 ^ 32 * ((2 ^ 33 + 5) / 2 ^ 32 - (2 ^ 32 + 9) / 2 ^ 32 - has_overflow 9 5))
    × (elapsed_cycles 9 5 ≡ sub32 5 9)
elapsed_cycles-wraps_example = elapsed_cycles-wraps (2 ^ 32 + 9) (2 ^ 33 + 5) (omega arith)

send_back_to_laptop-channel_example :
    (length (send_back_to_laptop 2 black) ≡ 2 * 2 * 3)
    × ((i j c : ℕ)
        → i < 2
        → j < 2
        → c < 3
        → get_elem? (send_back_to_laptop 2 black) ((i * 2 + j) * 3 + c)
          ≡ some (channel (black i j) c))
send_back_to_laptop-channel_example = send_back_to_laptop-channel 2 black
