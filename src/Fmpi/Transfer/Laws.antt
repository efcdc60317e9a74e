-- ===== src/Fmpi/Transfer/Laws.antt =====
-- What the transfers do on a UART whose outcomes are known: exact equations.
use cs140e_final_parallel_co.Base.{
  ℕ, zero, suc, ◌+◌, ◌*◌, ◌≤◌, ◌<◌, ◌≡◌, refl, ap, ◌∙◌, fun_ext, false, List, [], ◌∷◌, ◌++◌, map,
  arith, ◌==◌, if◌then◌else◌, length, get_elem?, set, take, drop, slice, slice-suc, length-take,
  slice_ext, length-slice, get_elem?-slice, length-map, if◌then◌else◌, drop, false, length-append,
  get_elem?-set_self, get_elem?-set_ne, sym, ◌⊎◌, ==→eq, length-set, get_elem?-eq-get_or, ==_refl,
  lt→ltb, Bool-cases, inl, inr,
}
use native.Mathlib.Nat.{add-zero, zero-mul}
use native.Mathlib.Numerals.{add-one}
use native.Mathlib.Decide.{dec_lt}
use cs140e_final_parallel_co.Fmpi.Link.{Rx, byte, Inbox, feed, sent, ok, next_rx}
use cs140e_final_parallel_co.Fmpi.Transfer.{
  send_loop, send, recv_loop, recv, to_char, overwrite, memcpy, is_signal, wait_loop, wait_signal,
}

pub feed_self : (ins : Inbox) (p : ℕ) (xs : List Rx) → feed ins p xs p ≡ xs
unfolding feed
feed_self ins p xs = rw (==_refl p)

pub feed_ne : (ins : Inbox) (p q : ℕ) (xs : List Rx) → (p == q) ≡ false → feed ins p xs q ≡ ins q
unfolding feed
feed_ne ins p q xs h = rw h

pub feed-feed : (ins : Inbox) (p : ℕ) (xs ys : List Rx) → feed (feed ins p xs) p ys ≡ feed ins p ys
unfolding feed
feed-feed ins p xs ys = fun_ext λ q. ground arith

pub feed_same : (ins : Inbox) (p : ℕ) {xs : List Rx} → ins p ≡ xs → feed ins p xs ≡ ins
unfolding feed
feed_same ins p {xs} h =
    fun_ext
      λ q. elim (Bool-cases (p == q)) [ inl e ↦ rw e (sym h ∙ ap ins (==→eq p q e)) | inr e ↦ rw e ]

pub next_rx-cons :
    (p : ℕ) (ins : Inbox) {r : Rx} {rs : List Rx}
    → ins p ≡ r ∷ rs
    → next_rx p (ins p) ins ≡ ok r (feed ins p rs) []
unfolding next_rx
next_rx-cons p ins h = rw h

send_loop_lem :
    (buffer : List ℕ) (p n i : ℕ) (ins : Inbox)
    → i + n ≤ length buffer
    → send_loop buffer p n i ins ≡ ok tt ins (map (sent p) (slice buffer i n))
unfolding send_loop
send_loop_lem buffer p zero i ins h = refl
send_loop_lem buffer p (suc n) i ins h = rw (
  get_elem?-eq-get_or buffer i 0 (omega arith),
  slice-suc buffer i n 0 (omega arith),
  send_loop_lem buffer p n (i + 1) ins (omega arith),
)

pub send_lem :
    (buffer : List ℕ) (offset p count data_size : ℕ) (ins : Inbox)
    → offset + count * data_size ≤ length buffer
    → send buffer offset p count data_size ins
      ≡ ok tt ins (map (sent p) (slice buffer offset (count * data_size)))
unfolding send
send_lem buffer offset p count data_size ins h =
    send_loop_lem buffer p (count * data_size) offset ins h

recv_loop_lem :
    (p n i : ℕ) (buffer : List ℕ) (ins : Inbox) (rs rest : List Rx)
    → ins p ≡ rs ++ rest
    → length rs ≡ n
    → i + n ≤ length buffer
    → recv_loop p n i buffer ins ≡ ok (overwrite buffer i (map to_char rs)) (feed ins p rest) []
unfolding recv_loop overwrite
recv_loop_lem p zero i buffer ins [] rest e len h =
    ap (λ k. ok buffer k []) (sym (feed_same ins p e))
recv_loop_lem p zero i buffer ins (r ∷ rs) rest e len h = absurd (omega arith)
recv_loop_lem p (suc n) i buffer ins [] rest e len h = absurd (omega arith)
recv_loop_lem p (suc n) i buffer ins (r ∷ rs) rest e len h = rw (
  next_rx-cons p ins e,
  lt→ltb i (length buffer) (omega arith),
  recv_loop_lem p n (i + 1) (set buffer i (to_char r)) (feed ins p (rs ++ rest)) rs rest
      (feed_self ins p (rs ++ rest)) (omega arith) (omega (arith, length-set buffer i (to_char r))),
  feed-feed,
)

pub recv_lem :
    (buffer : List ℕ) (offset p count data_size : ℕ) (ins : Inbox) (rs rest : List Rx)
    → ins p ≡ rs ++ rest
    → length rs ≡ count * data_size
    → offset + count * data_size ≤ length buffer
    → recv buffer offset p count data_size ins
      ≡ ok (overwrite buffer offset (map to_char rs)) (feed ins p rest) []
unfolding recv
recv_lem buffer offset p count data_size ins rs rest e len h =
    recv_loop_lem p (count * data_size) offset buffer ins rs rest e len h

-- No byte of `rs` is the signal.
abbrev pub Unsignalled : ℕ → List Rx → Type 0
Unsignalled signal [] = Unit {0}
Unsignalled signal (r ∷ rs) = (is_signal signal r ≡ false) × Unsignalled signal rs

wait_loop_lem :
    (p signal : ℕ) (noise left : List Rx) (ins : Inbox) (rest : List Rx)
    → ins p ≡ noise ++ byte signal ∷ rest
    → Unsignalled signal noise
    → length noise < length left
    → wait_loop p signal left ins ≡ ok tt (feed ins p rest) []
unfolding wait_loop
wait_loop_lem p signal noise [] ins rest e u h = absurd (omega arith)
wait_loop_lem p signal [] (_ ∷ left) ins rest e u h = rw (next_rx-cons p ins e, ==_refl signal)
wait_loop_lem p signal (r ∷ noise) (_ ∷ left) ins rest e u h = rw (
  next_rx-cons p ins e,
  u.0,
  wait_loop_lem p signal noise left (feed ins p (noise ++ byte signal ∷ rest)) rest
      (feed_self ins p _) u.1 (omega arith),
  feed-feed,
)

pub wait_signal_lem :
    (p signal : ℕ) (noise : List Rx) (ins : Inbox) (rest : List Rx)
    → ins p ≡ noise ++ byte signal ∷ rest
    → Unsignalled signal noise
    → wait_signal p signal ins ≡ ok tt (feed ins p rest) []
unfolding wait_signal
wait_signal_lem p signal noise ins rest e u =
    wait_loop_lem p signal noise (ins p) ins rest e u
      (rw e (omega (arith, length-append noise (byte signal ∷ rest))))

pub memcpy_lem :
    (dst src : List ℕ) (n : ℕ) (ins : Inbox)
    → n ≤ length dst
    → n ≤ length src
    → memcpy dst src n ins ≡ ok (overwrite dst 0 (take n src)) ins []
unfolding memcpy
memcpy_lem dst src n ins h k = ground arith

pub length-overwrite :
    (buffer : List ℕ) (i : ℕ) (bs : List ℕ) → length (overwrite buffer i bs) ≡ length buffer
unfolding overwrite
length-overwrite buffer i [] = refl
length-overwrite buffer i (b ∷ bs) =
    length-overwrite (set buffer i b) (i + 1) bs ∙ length-set buffer i b

-- An overwrite leaves the rest of the buffer.
pub get_elem?-overwrite_out :
    (buffer : List ℕ) (i : ℕ) (bs : List ℕ) (j : ℕ)
    → (j < i) ⊎ (i + length bs ≤ j)
    → get_elem? (overwrite buffer i bs) j ≡ get_elem? buffer j
unfolding overwrite
get_elem?-overwrite_out buffer i [] j h = refl
get_elem?-overwrite_out buffer i (b ∷ bs) j h =
    get_elem?-overwrite_out (set buffer i b) (i + 1) bs j (omega arith)
    ∙ get_elem?-set_ne buffer i j b (omega arith)

-- An overwrite puts `bs` at `i`.
pub get_elem?-overwrite_in :
    (buffer : List ℕ) (i : ℕ) (bs : List ℕ) (j : ℕ)
    → i + length bs ≤ length buffer
    → j < length bs
    → get_elem? (overwrite buffer i bs) (i + j) ≡ get_elem? bs j
unfolding overwrite
get_elem?-overwrite_in buffer i [] j h k = absurd (omega arith)
get_elem?-overwrite_in buffer i (b ∷ bs) zero h k =
    get_elem?-overwrite_out (set buffer i b) (i + 1) bs (i + 0) (omega arith)
    ∙ rw add-zero (get_elem?-set_self buffer i b (omega arith))
get_elem?-overwrite_in buffer i (b ∷ bs) (suc j) h k =
    ap (get_elem? (overwrite (set buffer i b) (i + 1) bs)) (shift i j)
    ∙ get_elem?-overwrite_in (set buffer i b) (i + 1) bs j (omega (arith, length-set buffer i b))
        (omega arith)
  where
    shift : (i j : ℕ) → i + suc j ≡ i + 1 + j
    shift i j = omega arith

overwrite-cons :
    (x : ℕ) (xs : List ℕ) (i : ℕ) (bs : List ℕ)
    → overwrite (x ∷ xs) (suc i) bs ≡ x ∷ overwrite xs i bs
unfolding overwrite
overwrite-cons x xs i [] = refl
overwrite-cons x xs i (b ∷ bs) = rw add-one (overwrite-cons x (set xs i b) (suc i) bs ∙ rw add-one)

-- At the start of a buffer: `bs`, then what was behind them.
pub overwrite-zero :
    (buffer bs : List ℕ)
    → length bs ≤ length buffer
    → overwrite buffer 0 bs ≡ bs ++ drop (length bs) buffer
unfolding overwrite
overwrite-zero buffer [] h = refl
overwrite-zero [] (b ∷ bs) h = absurd (omega arith)
overwrite-zero (x ∷ xs) (b ∷ bs) h =
    overwrite-cons b xs 0 bs ∙ ap (◌∷◌ b) (overwrite-zero xs bs (omega arith))

-- A receive at the start of a buffer.
pub recv_front :
    (buffer : List ℕ) (p count data_size : ℕ) (ins : Inbox) (rs rest : List Rx)
    → ins p ≡ rs ++ rest
    → length rs ≡ count * data_size
    → count * data_size ≤ length buffer
    → recv buffer 0 p count data_size ins
      ≡ ok (map to_char rs ++ drop (count * data_size) buffer) (feed ins p rest) []
recv_front buffer p count data_size ins rs rest e len h =
    recv_lem buffer 0 p count data_size ins rs rest e len (omega arith)
    ∙ ap (λ b. ok b (feed ins p rest) [])
        (overwrite-zero buffer (map to_char rs) (omega (arith, length-map to_char rs))
          ∙ ap (λ k. map to_char rs ++ drop k buffer) (length-map to_char rs ∙ len))

-- Chunks `i` and `j` of `n` bytes do not overlap.
chunks_apart :
    (i j n k : ℕ) → k < n → (i == j) ≡ false → (i * n + k < j * n) ⊎ (j * n + n ≤ i * n + k)
chunks_apart i j n k h ne = elim (dec_lt i j) [
  | yes p ↦ inl (omega (arith, le-mul_right (suc i) j n p))
  | no p ↦ inr (omega (arith, le-mul_right (suc j) i n (ground arith)))
]
  where
    le-mul_right : (a b n : ℕ) → a ≤ b → a * n ≤ b * n
    le-mul_right a b n h = grind arith

-- Chunk `i` of a buffer of which chunk `j` was overwritten.
pub slice-overwrite :
    (buffer bs : List ℕ) (i j n : ℕ)
    → length bs ≡ n
    → j * n + n ≤ length buffer
    → i * n + n ≤ length buffer
    → slice (overwrite buffer (j * n) bs) (i * n) n
      ≡ (if i == j then bs else slice buffer (i * n) n)
slice-overwrite buffer bs i j n len hj hi = elim (Bool-cases (i == j)) [
  | inl e ↦ rw e (
      slice_ext (overwrite buffer (j * n) bs) (i * n) n bs len
        (omega (arith, length-overwrite buffer (j * n) bs))
        λ k h.
          rw (==→eq i j e) (get_elem?-overwrite_in buffer (j * n) bs k (omega arith) (omega arith)))
  | inr e ↦ rw e (
      slice_ext (overwrite buffer (j * n) bs) (i * n) n (slice buffer (i * n) n)
        (length-slice buffer (i * n) n hi) (omega (arith, length-overwrite buffer (j * n) bs))
        λ k h.
          get_elem?-overwrite_out buffer (j * n) bs (i * n + k)
            (omega (arith, chunks_apart i j n k h e))
          ∙ sym (get_elem?-slice buffer (i * n) n k h))
]

-- A `memcpy` to the start of a buffer.
pub memcpy_front :
    (dst src : List ℕ) (n : ℕ) (ins : Inbox)
    → n ≤ length dst
    → n ≤ length src
    → memcpy dst src n ins ≡ ok (take n src ++ drop n dst) ins []
memcpy_front dst src n ins h k =
    let len : length (take n src) ≡ n = omega (arith, length-take n src) in
    memcpy_lem dst src n ins h k
    ∙ ap (λ b. ok b ins [])
        (overwrite-zero dst (take n src) (omega arith) ∙ ap (λ m. take n src ++ drop m dst) len)

-- Chunk `i` of a buffer of which the first chunk was overwritten.
pub slice-overwrite_front :
    (buffer bs : List ℕ) (i n : ℕ)
    → length bs ≡ n
    → n ≤ length buffer
    → i * n + n ≤ length buffer
    → slice (overwrite buffer 0 bs) (i * n) n ≡ (if i == 0 then bs else slice buffer (i * n) n)
slice-overwrite_front buffer bs i n len h hi =
    rw zero-mul at (slice-overwrite buffer bs i 0 n len (omega arith) hi)
