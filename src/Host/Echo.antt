-- ===== src/Host/Echo.antt =====
-- The image that the first Pi sends arrives, however the reads cut its bytes.
use cs140e_final_parallel_co.Base.{
  ℕ, zero, suc, ◌+◌, ◌*◌, ◌<◌, ◌≤◌, ◌≡◌, inl, inr, refl, sym, ap, ◌∙◌, true, false, ◌&&◌, List, [],
  ◌∷◌, ◌++◌, some, arith, ltb, ◌==◌, Bool-cases, ==→eq, length, get_elem?, drop, get_elem?-drop,
  length-append, length-drop, ne→==, lt→ltb, append-nil,
}
use native.Mathlib.Decide.{dec_lt}
use cs140e_final_parallel_co.Host.{
  Screen, Console, update_pixel, put_channel, update_image, take_bytes, echo, echo_all,
  remove_nonprint, pi_done,
}

eq→== : (a b : ℕ) → a ≡ b → (a == b) ≡ true
eq→== a b e = ground arith

drop-suc :
    (p : ℕ) (xs : List ℕ) (b : ℕ) (rest : List ℕ) → drop p xs ≡ b ∷ rest → drop (p + 1) xs ≡ rest
drop-suc zero [] b rest e = cc
drop-suc zero (x ∷ xs) b rest e = cc
drop-suc (suc p) [] b rest e = cc
drop-suc (suc p) (x ∷ xs) b rest e =
    let one : suc p + 1 ≡ suc (p + 1) = omega arith in rw one (drop-suc p xs b rest e)

drop-append : (p : ℕ) (xs ys zs : List ℕ) → drop p xs ≡ ys ++ zs → drop (p + length ys) xs ≡ zs
drop-append p xs [] zs e = let at : p + 0 ≡ p = omega arith in rw at e
drop-append p xs (y ∷ ys) zs e =
    let at : p + suc (length ys) ≡ p + 1 + length ys = omega arith in
    rw at (drop-append (p + 1) xs ys zs (drop-suc p xs y (ys ++ zs) e))

-- The bytes of the reads, one after the other.
abbrev pub concat : List (List ℕ) → List ℕ
concat [] = []
concat (buf ∷ reads) = buf ++ concat reads

-- No read holds what `pi_done` takes for the exit string.
abbrev pub NoneEnds : List (List ℕ) → Type 0
NoneEnds [] = Unit {0}
NoneEnds (buf ∷ reads) = (pi_done buf ≡ 0) × NoneEnds reads

-- A Pi that is not done.
abbrev pub console : Screen → List ℕ → Console
console s out = record { screen = s; out = out; done = false }

module _ (n : ℕ) (pos : 0 < n) (all : List ℕ) (size : length all ≡ n * n * 3) where
  -- The next byte is byte `p`, and the bytes before it are in the image.
  pub record Holds (p : ℕ) (s : Screen) : Type 0 where
    pub place : (s.x * n + s.y) * 3 + s.idx ≡ p
    pub column : s.y < n
    pub channel : s.idx < 3
    pub kept :
        (i j c : ℕ)
        → i < n
        → j < n
        → c < 3
        → (i * n + j) * 3 + c < p
        → get_elem? all ((i * n + j) * 3 + c) ≡ some (s.image i j c)

  -- Places are equal only where row, column and channel are.
  pub same_place :
      (i j c x y d : ℕ)
      → j < n
      → c < 3
      → y < n
      → d < 3
      → (i * n + j) * 3 + c ≡ (x * n + y) * 3 + d
      → (i ≡ x) × (j ≡ y) × (c ≡ d)
  same_place i j c x y d hj hc hy hd e =
      let last : c ≡ d = omega arith in
      let rest : i * n + j ≡ x * n + y = omega arith in
      let low =
        λ (h : i < x). let up : i * n + n ≤ x * n = grind arith in absurd {A = ⊥} (omega arith) in
      let high =
        λ (h : x < i). let up : x * n + n ≤ i * n = grind arith in absurd {A = ⊥} (omega arith) in
      let row : i ≡ x = elim (dec_lt i x) [
        | yes h ↦ absurd (low h)
        | no h ↦ elim (dec_lt x i) [ yes k ↦ absurd (high k) | no k ↦ omega arith ]
      ] in
      let product : i * n ≡ x * n = ap (λ k. k * n) row in (row, omega arith, last)

  stored :
      (s : Screen) (p b : ℕ)
      → Holds p s
      → get_elem? all p ≡ some b
      → (i j c : ℕ) → i < n
      → j < n
      → c < 3
      → (i * n + j) * 3 + c < p + 1
      → get_elem? all ((i * n + j) * 3 + c) ≡ some (put_channel s.image s.x s.y s.idx b i j c)
  unfolding put_channel
  stored s p b h at i j c hi hj hc lt = elim (Bool-cases (i == s.x && j == s.y && c == s.idx)) [
    | inl e ↦
        let row : i ≡ s.x = ground (arith, e) in
        let column : j ≡ s.y = ground (arith, e) in
        let channel : c ≡ s.idx = ground (arith, e) in
        rw e (ap (get_elem? all) (ap₃ row column channel ∙ h.place) ∙ at)
    | inr e ↦ rw e (h.kept i j c hi hj hc (before e))
  ]
    where
      ap₃ : {i j c x y d : ℕ} → i ≡ x → j ≡ y → c ≡ d → (i * n + j) * 3 + c ≡ (x * n + y) * 3 + d
      ap₃ e f g = λ k. (e k * n + f k) * 3 + g k

      before : (i == s.x && j == s.y && c == s.idx) ≡ false → (i * n + j) * 3 + c < p
      before e = elim (dec_lt ((i * n + j) * 3 + c) p) [
        | yes lower ↦ lower
        | no k ↦
            let same =
              same_place i j c s.x s.y s.idx hj hc h.column h.channel (omega (arith, h.place)) in
            absurd (ground (arith, same.0, same.1, same.2))
      ]

  -- One byte more.
  update_pixel-Holds :
      (s : Screen) (p b : ℕ)
      → Holds p s
      → p < n * n * 3
      → get_elem? all p ≡ some b
      → let r = update_pixel n (record s { image = put_channel s.image s.x s.y s.idx b }) in
        Holds (p + 1) r.0 × (r.1 ≡ (p + 1 == n * n * 3))
  unfolding update_pixel
  update_pixel-Holds s p b h lt at =
      let keep = stored s p b h at in
      let place = h.place in
      let inside : s.x < n = elim (dec_lt s.x n) [
        | yes k ↦ k
        | no k ↦ let up : n * n ≤ s.x * n = grind arith in absurd (omega (arith, h.place))
      ] in
      let row : s.x * n + n ≤ n * n = grind arith in
      elim (Bool-cases (suc s.idx == 3)) [
        | inr e ↦
            let small : suc s.idx < 3 = ground (arith, h.channel) in
            let ends : (p + 1 == n * n * 3) ≡ false =
              ne→== (p + 1) (n * n * 3) (λ z. omega (arith, h.place)) in
            rw (e, ends, ne→== s.x n (λ z. omega arith))
              (
                record {
                  place = omega (arith, h.place);
                  column = h.column;
                  channel = small;
                  kept = keep;
                },
                refl,
              )
        | inl e ↦
            let full : suc s.idx ≡ 3 = ==→eq (suc s.idx) 3 e in
            elim (Bool-cases (suc s.y == n)) [
              | inr f ↦
                  let more : suc s.y < n = ground (arith, h.column) in
                  let ends : (p + 1 == n * n * 3) ≡ false =
                    ne→== (p + 1) (n * n * 3) (λ z. omega (arith, h.place)) in
                  rw (e, f, ends, ne→== s.x n (λ z. omega arith))
                    (
                      record {
                        place = omega (arith, h.place);
                        column = more;
                        channel = omega arith;
                        kept = keep;
                      },
                      refl,
                    )
              | inl f ↦
                  let last : suc s.y ≡ n = ==→eq (suc s.y) n f in
                  let next : suc s.x * n ≡ s.x * n + n = omega arith in
                  let ends : (suc s.x == n) ≡ (p + 1 == n * n * 3) =
                    elim (Bool-cases (suc s.x == n)) [
                      | inl g ↦
                          let top : suc s.x ≡ n = ==→eq (suc s.x) n g in
                          let square : suc s.x * n ≡ n * n = ap (λ k. k * n) top in
                          rw (g, eq→== (p + 1) (n * n * 3) (omega (arith, h.place))) refl
                      | inr g ↦
                          let below : suc s.x < n = ground arith in
                          let up : suc s.x * n + n ≤ n * n = grind arith in
                          rw (g, ne→== (p + 1) (n * n * 3) (λ z. omega (arith, h.place))) refl
                    ] in
                  rw (e, f)
                    (
                      record {
                        place = omega (arith, h.place);
                        column = pos;
                        channel = omega arith;
                        kept = keep;
                      },
                      ends,
                    )
            ]
      ]

  update_image-Holds :
      (buf rest : List ℕ) (s : Screen) (p : ℕ)
      → Holds p s
      → drop p all ≡ buf ++ rest
      → Holds (p + length buf) (update_image n buf s)
  unfolding update_image
  update_image-Holds [] rest s p h e = let at : p + 0 ≡ p = omega arith in rw at h
  update_image-Holds (b ∷ buf) rest s p h e =
      let long = ap length e in
      let room : p < n * n * 3 =
        omega (arith, size, length-drop p all, length-append (b ∷ buf) rest) in
      let at : get_elem? all p ≡ some b =
        let here : p + 0 ≡ p = omega arith in
        ap (get_elem? all) (sym here) ∙ sym (get_elem?-drop all p 0) ∙ ap (λ l. get_elem? l 0) e in
      let one = update_pixel-Holds s p b h room at in
      let next = drop-suc p all b (buf ++ rest) e in
      elim (Bool-cases (p + 1 == n * n * 3)) [
        | inl f ↦ rw (one.1, f) (last buf next f one.0)
        | inr f ↦
            let total : p + suc (length buf) ≡ p + 1 + length buf = omega arith in
            rw (one.1, f, total) (update_image-Holds buf rest _ (p + 1) one.0 next)
      ]
    where
      last :
          (buf : List ℕ)
          → drop (p + 1) all ≡ buf ++ rest
          → (p + 1 == n * n * 3) ≡ true
          → {t : Screen} → Holds (p + 1) t
          → Holds (p + suc (length buf)) t
      last [] e f h = h
      last (c ∷ buf) e f h =
          absurd
            (omega (arith, ap length e, size, length-drop (p + 1) all, ==→eq (p + 1) (n * n * 3) f))

  not_past : (s : Screen) (p : ℕ) → Holds p s → p < n * n * 3 → s.x < n
  not_past s p h lt = elim (dec_lt s.x n) [
    | yes k ↦ k
    | no k ↦ let up : n * n ≤ s.x * n = grind arith in absurd (omega (arith, h.place))
  ]

  pub echo_all-Holds :
      (reads : List (List ℕ)) (s : Screen) (out : List ℕ) (p : ℕ)
      → NoneEnds reads
      → Holds p s
      → p ≤ n * n * 3
      → drop p all ≡ concat reads
      → (t : Screen) × (echo_all n reads (console s out) ≡ console t out) × Holds (n * n * 3) t
  unfolding echo_all echo take_bytes remove_nonprint update_image
  echo_all-Holds [] s out p live h le e =
      let at : p ≡ n * n * 3 = omega (arith, size, ap length e, length-drop p all) in
      (s, refl, let whole : Holds (n * n * 3) s = rw at at h in whole)
  echo_all-Holds ([] ∷ reads) s out p live h le e =
      let (t, runs, holds) = echo_all-Holds reads s out p live.1 h le e in
      (
        t,
        elim (Bool-cases (ltb s.x n)) [
          | inl f ↦ rw (f, live.0) runs
          | inr f ↦ rw (f, live.0, append-nil out) runs
        ],
        holds,
      )
  echo_all-Holds ((b ∷ buf) ∷ reads) s out p live h le e =
      let len : (p < n * n * 3) × (p + suc (length buf) ≤ n * n * 3) =
        omega
          (arith, size, ap length e, length-drop p all, length-append (b ∷ buf) (concat reads)) in
      let more : ltb s.x n ≡ true = lt→ltb s.x n (not_past s p h len.0) in
      let (t, runs, holds) =
        echo_all-Holds reads (update_image n (b ∷ buf) s) out (p + suc (length buf)) live.1
          (update_image-Holds (b ∷ buf) (concat reads) s p h e) len.1
          (drop-append p all (b ∷ buf) (concat reads) e) in
      (t, rw (more, live.0) runs, holds)
