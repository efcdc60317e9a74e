-- ===== src/Host/Picture.antt =====
-- From render.c on the first Pi to pi-echo.c on the laptop.
use cs140e_final_parallel_co.Base.{ℕ, ◌+◌, ◌*◌, ◌<◌, ◌≤◌, ◌≡◌, sym, ◌∙◌, List, some, arith}
use cs140e_final_parallel_co.Render.{Image, send_back_to_laptop}
use cs140e_final_parallel_co.Render.Output.{channel, send_back_to_laptop-channel}
use cs140e_final_parallel_co.Host.{Screen, echo_all}
use cs140e_final_parallel_co.Host.Echo.{
  concat, NoneEnds, console, Holds, same_place, echo_all-Holds,
}

-- The picture that `send_back_to_laptop` sends is the picture that `pi_echo` has behind the reads that
-- yield its bytes, in whatever pieces, where the Pi is not done at first, the screen is at its first byte
-- and no read holds what `pi_done` takes for the exit string:
-- every channel of every pixel is in its place, the picture is complete, none of its bytes is printed as
-- text, and the Pi is still listened to.
pub echo_all-send_back_to_laptop :
    (n : ℕ) (image : Image) (reads : List (List ℕ)) (s : Screen) (out : List ℕ)
    → 0 < n
    → concat reads ≡ send_back_to_laptop n image
    → NoneEnds reads
    → s.x ≡ 0
    → s.y ≡ 0
    → s.idx ≡ 0
    → (t : Screen) × (echo_all n reads (console s out) ≡ console t out)
      × (t.x ≡ n)
      × ((i j c : ℕ) → i < n → j < n → c < 3 → t.image i j c ≡ channel (image i j) c)
echo_all-send_back_to_laptop n image reads s out pos cut live x0 y0 idx0 =
    let all = send_back_to_laptop n image in
    let wire = send_back_to_laptop-channel n image in
    let begin : Holds n pos all wire.0 0 s = record {
      place = rw (x0, y0, idx0) (omega arith);
      column = omega arith;
      channel = omega arith;
      kept = λ i j c hi hj hc lt. absurd (omega arith);
    } in
    let (t, runs, h) =
      echo_all-Holds n pos all wire.0 reads s out 0 live begin (omega arith) (sym cut) in
    (
      t,
      runs,
      (same_place n pos all wire.0 t.x t.y t.idx n 0 0 h.column h.channel pos (omega arith)
          (h.place ∙ omega arith)).0,
      λ i j c hi hj hc.
          let up : i * n + n ≤ n * n = grind arith in
          same_some (sym (h.kept i j c hi hj hc (omega arith)) ∙ wire.1 i j c hi hj hc),
    )
  where
    same_some : {a b : ℕ} → some a ≡ some b → a ≡ b
    same_some e = cc
