-- ===== src/Fmpi/Async/Signals.antt =====
-- The handshake, and the words of the packets.
use cs140e_final_parallel_co.Base.{
  ℕ, zero, suc, ◌*◌, ◌^◌, ◌<◌, ◌≡◌, refl, sym, ap, ◌∙◌, List, [], ◌∷◌, ◌++◌, map, arith, length,
  length-append, replicate, append-nil, get_or, take, drop, length-map,
}
use cs140e_final_parallel_co.Circular.{word_bytes, bytes_word}
use cs140e_final_parallel_co.Fmpi.Link.{Rx, byte, Inbox, feed, sent, ok}
use cs140e_final_parallel_co.Fmpi.Transfer.{to_char, send, recv}
use cs140e_final_parallel_co.Fmpi.Transfer.Laws.{
  feed-feed, next_rx-cons, feed_self, Unsignalled, send_lem, recv_front,
}
use cs140e_final_parallel_co.Fmpi.Sync.{Comm, each_peer, sync_signal}
use cs140e_final_parallel_co.Fmpi.Async.{
  poll_async, wait_signal_timeout_async, sync_me_last, big_endian, field, packet, send_async,
  recv_async,
}

poll_async_lem :
    (p : ℕ) (noise left : List Rx) (ins : Inbox) (rest : List Rx)
    → ins p ≡ noise ++ byte sync_signal ∷ rest
    → Unsignalled sync_signal noise
    → length noise < length left
    → poll_async p left ins
      ≡ ok tt (feed ins p rest) (replicate (suc (length noise)) (sent p sync_signal))
unfolding poll_async wait_signal_timeout_async
poll_async_lem p noise [] ins rest e u h = absurd (omega arith)
poll_async_lem p [] (_ ∷ left) ins rest e u h = rw (next_rx-cons p ins e) refl
poll_async_lem p (r ∷ noise) (_ ∷ left) ins rest e (other, u) h =
    rw
      (
        next_rx-cons p ins e,
        other,
        poll_async_lem p noise left (feed ins p (noise ++ byte sync_signal ∷ rest)) rest
            (feed_self ins p (noise ++ byte sync_signal ∷ rest)) u (omega arith),
        feed-feed ins p (noise ++ byte sync_signal ∷ rest) rest,
      )
      refl

-- One of two ranks.
abbrev pub two : (me root : ℕ) → Comm
two me root = record { rank = me; size = 2; root = root }

-- In a group of two ranks `sync_me_last` makes one handshake, and sends the signal once more than
-- the peer's UART yields something else.
pub sync_me_last_lem :
    (me root p : ℕ) (ins : Inbox) (noise later : List Rx)
    → me < 2
    → ins p ≡ noise ++ byte sync_signal ∷ later
    → Unsignalled sync_signal noise
    → sync_me_last (two me root) p ins
      ≡ ok tt (feed ins p later) (replicate (suc (length noise)) (sent p sync_signal))
unfolding sync_me_last each_peer
sync_me_last_lem zero root p ins noise later h e u =
    rw
      (
        poll_async_lem p noise (ins p) ins later e u
            (rw e (omega (arith, length-append noise (byte sync_signal ∷ later)))),
        append-nil,
      )
      refl
sync_me_last_lem (suc zero) root p ins noise later h e u =
    rw
      (
        poll_async_lem p noise (ins p) ins later e u
            (rw e (omega (arith, length-append noise (byte sync_signal ∷ later)))),
        append-nil,
      )
      refl
sync_me_last_lem (suc (suc me)) root p ins noise later h e u = absurd (omega arith)

pub packet-fields :
    (command address value : ℕ)
    → address < 2 ^ 32
    → value < 2 ^ 32
    → (get_or (packet command address value) 0 0 ≡ command)
      × (field (packet command address value) 1 ≡ address)
      × (field (packet command address value) 5 ≡ value)
unfolding packet field big_endian
packet-fields command address value ha hv = (refl, omega arith, omega arith)

pub length-packet : (command address value : ℕ) → length (packet command address value) ≡ 9
unfolding packet big_endian
length-packet command address value = refl

pub length-word_bytes : (x : ℕ) → length (word_bytes x) ≡ 4
unfolding word_bytes
length-word_bytes x = refl

pub bytes_word-word_bytes : (x : ℕ) → x < 2 ^ 32 → bytes_word (word_bytes x) ≡ x
unfolding bytes_word word_bytes
bytes_word-word_bytes x h = omega arith

take-length : (bs : List ℕ) → take (length bs) bs ≡ bs
take-length [] = refl
take-length (b ∷ bs) = ap (◌∷◌ b) (take-length bs)

-- All of a buffer is sent.
pub send_async_lem :
    (bs : List ℕ) (p count data_size : ℕ) (ins : Inbox)
    → count * data_size ≡ length bs
    → send_async bs p count data_size ins ≡ ok tt ins (map (sent p) bs)
unfolding send_async send
send_async_lem bs p count data_size ins e =
    send_lem bs 0 p count data_size ins (omega (arith, e))
    ∙ ap (λ n. ok tt ins (map (sent p) (take n bs))) e
    ∙ ap (λ l. ok tt ins (map (sent p) l)) (take-length bs)

map-to_char_byte : (bs : List ℕ) → map to_char (map byte bs) ≡ bs
map-to_char_byte [] = refl
map-to_char_byte (b ∷ bs) = ap (◌∷◌ b) (map-to_char_byte bs)

drop-length : (bs : List ℕ) → drop (length bs) bs ≡ []
drop-length [] = refl
drop-length (b ∷ bs) = drop-length bs

-- Bytes that fill a buffer replace it.
pub recv_async_lem :
    (buffer bs : List ℕ) (p count data_size : ℕ) (ins : Inbox) (rest : List Rx)
    → ins p ≡ map byte bs ++ rest
    → count * data_size ≡ length bs
    → length buffer ≡ length bs
    → recv_async buffer p count data_size ins ≡ ok bs (feed ins p rest) []
unfolding recv_async recv
recv_async_lem buffer bs p count data_size ins rest e n m =
    recv_front buffer p count data_size ins (map byte bs) rest e (length-map byte bs ∙ sym n)
      (omega (arith, n, m))
    ∙ ap (λ l. ok l (feed ins p rest) [])
        (ap (λ l. l ++ drop (count * data_size) buffer) (map-to_char_byte bs)
          ∙ ap (λ k. bs ++ drop k buffer) (n ∙ sym m)
          ∙ ap (λ l. bs ++ l) (drop-length buffer)
          ∙ append-nil bs)
