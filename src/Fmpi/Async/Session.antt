-- ===== src/Fmpi/Async/Session.antt =====
-- FMPI_PUT and FMPI_GET in a group of two ranks, together with the handler of the other rank.
use cs140e_final_parallel_co.Base.{
  ℕ, suc, ◌+◌, ◌^◌, ◌<◌, ◌≡◌, ◌≢◌, refl, sym, ap, ◌∙◌, List, [], ◌∷◌, ◌++◌, map, arith, length,
  replicate, append-nil, ==_refl, ne→==,
}
use cs140e_final_parallel_co.Gpio.{put32, update, gpeds0, gpio_event_clear}
use cs140e_final_parallel_co.Circular.{word_bytes}
use cs140e_final_parallel_co.Fmpi.Link.{
  Rx, byte, Inbox, feed, Act, sent, slept, lowered, ok, sent_to,
}
use cs140e_final_parallel_co.Fmpi.Transfer.Laws.{feed-feed, feed_self, Unsignalled}
use cs140e_final_parallel_co.Fmpi.Sync.{sync_signal}
use cs140e_final_parallel_co.Fmpi.Sync.Trace.{
  sent_to-append, sent_to-map_self, sent_to-replicate_self,
}
use cs140e_final_parallel_co.Fmpi.Delivery.{heard, trace, drop-replicate}
use cs140e_final_parallel_co.Fmpi.Async.{
  tx_async, async_delay, packet, fmpi_put, fmpi_get, Board, falling_handler,
}
use cs140e_final_parallel_co.Fmpi.Async.Signals.{
  two, sync_me_last_lem, length-packet, length-word_bytes, bytes_word-word_bytes, send_async_lem,
  recv_async_lem,
}
use cs140e_final_parallel_co.Fmpi.Async.Serve.{
  FallingEdge, served, falling_handler_put, falling_handler_get,
}

-- What a call does: it pulls the line down, signals `n` times more than once, and sends the packet.
abbrev pub call_acts : (p n : ℕ) → List ℕ → List Act
call_acts p n bytes =
    lowered tx_async ∷ (replicate (suc n) (sent p sync_signal) ++ map (sent p) bytes)

-- The other rank hears the last of the signals and the packet.
heard-call_acts :
    (p n : ℕ) (bytes : List ℕ) → heard p n (call_acts p n bytes) ≡ byte sync_signal ∷ map byte bytes
heard-call_acts p n bytes =
    rw
      (
        sent_to-append p (replicate (suc n) (sent p sync_signal)) (map (sent p) bytes),
        sent_to-replicate_self p (suc n) sync_signal,
        sent_to-map_self p bytes,
      )
      (ap (map byte) (drop-replicate n sync_signal bytes))

fmpi_put_lem :
    (me root p value address : ℕ) (ins : Inbox) (noise later : List Rx)
    → me < 2
    → ins p ≡ noise ++ byte sync_signal ∷ later
    → Unsignalled sync_signal noise
    → fmpi_put (two me root) p value address ins
      ≡ ok tt (feed ins p later) (call_acts p (length noise) (packet 1 address value))
unfolding fmpi_put
fmpi_put_lem me root p value address ins noise later h e u =
    rw
      (
        sync_me_last_lem me root p ins noise later h e u,
        send_async_lem (packet 1 address value) p 1 9 (feed ins p later)
            (sym (length-packet 1 address value)),
      )
      refl

-- FMPI_PUT of a word to an address: when the other rank's handler hears the last signal and the
-- packet, it writes the word to the address and returns 1, and afterwards the address reads as the
-- word. The address is not that of the event register, which the handler writes as well.
pub fmpi_put-falling_handler :
    (me root p value address : ℕ) (ins ins' : Inbox) (noise later rest : List Rx) (b : Board)
    (buffer : List ℕ)
    → me < 2
    → ins p ≡ noise ++ byte sync_signal ∷ later
    → Unsignalled sync_signal noise
    → address < 2 ^ 32
    → value < 2 ^ 32
    → address ≢ gpeds0
    → FallingEdge b
    → length buffer ≡ 9
    → ins' 0 ≡ heard p (length noise) (trace (fmpi_put (two me root) p value address ins)) ++ rest
    → (b' : Board) × (acts : List Act) × (falling_handler buffer b ins'
        ≡ ok (1, b') (feed ins' 0 rest) acts)
      × (b'.bus.mem address ≡ value)
      × (b'.n_falling ≡ b.n_falling + 1)
unfolding gpio_event_clear update
fmpi_put-falling_handler me root p value address ins ins' noise later rest b buffer h e u ha hv ne
      edge room hears =
    (
      served b (put32 address value b.bus),
      slept async_delay ∷ sent 0 sync_signal ∷ slept async_delay ∷ [],
      falling_handler_put b buffer sync_signal ins' rest edge room address value ha hv (
          hears
          ∙ ap (λ r. heard p (length noise) (trace r) ++ rest)
              (fmpi_put_lem me root p value address ins noise later h e u)
          ∙ ap (λ l. l ++ rest) (heard-call_acts p (length noise) (packet 1 address value))),
      rw (ne→== address gpeds0 ne, ==_refl address) refl,
      refl,
    )

fmpi_get_lem :
    (me root p address v : ℕ) (junk : List ℕ) (ins : Inbox) (noise later : List Rx)
    → me < 2
    → length junk ≡ 4
    → v < 2 ^ 32
    → ins p ≡ noise ++ byte sync_signal ∷ (map byte (word_bytes v) ++ later)
    → Unsignalled sync_signal noise
    → fmpi_get (two me root) junk p address ins
      ≡ ok v (feed ins p later) (call_acts p (length noise) (packet 2 address 0))
unfolding fmpi_get
fmpi_get_lem me root p address v junk ins noise later h four hv e u =
    let answer = map byte (word_bytes v) ++ later in
    rw
      (
        sync_me_last_lem me root p ins noise answer h e u,
        send_async_lem (packet 2 address 0) p 1 9 (feed ins p answer)
            (sym (length-packet 2 address 0)),
        recv_async_lem junk (word_bytes v) p 4 1 (feed ins p answer) later (feed_self ins p answer)
            (sym (length-word_bytes v)) (four ∙ sym (length-word_bytes v)),
        bytes_word-word_bytes v hv,
        feed-feed ins p answer later,
        append-nil (map (sent p) (packet 2 address 0)),
      )
      refl

-- FMPI_GET of an address: with what the two ranks hear of each other, the handler answers with the
-- word that the address reads as, and the call returns it. Each rank hears what the other one sends.
pub fmpi_get-falling_handler :
    (me root p address : ℕ) (junk : List ℕ) (ins ins' : Inbox) (noise later rest : List Rx)
    (b : Board) (buffer : List ℕ)
    → me < 2
    → length junk ≡ 4
    → length buffer ≡ 9
    → address < 2 ^ 32
    → b.bus.mem address < 2 ^ 32
    → FallingEdge b
    → Unsignalled sync_signal noise
    → ins p ≡ noise ++ (map byte (sync_signal ∷ word_bytes (b.bus.mem address)) ++ later)
    → ins' 0 ≡ map byte (sync_signal ∷ packet 2 address 0) ++ rest
    → (acts acts' : List Act) × (fmpi_get (two me root) junk p address ins
        ≡ ok (b.bus.mem address) (feed ins p later) acts)
      × (falling_handler buffer b ins' ≡ ok (1, served b b.bus) (feed ins' 0 rest) acts')
      × (heard p (length noise) acts ≡ map byte (sync_signal ∷ packet 2 address 0))
      × (sent_to 0 acts' ≡ sync_signal ∷ word_bytes (b.bus.mem address))
fmpi_get-falling_handler me root p address junk ins ins' noise later rest b buffer h four nine ha hv
      edge u e e' =
    (
      call_acts p (length noise) (packet 2 address 0),
      slept async_delay
          ∷ sent 0 sync_signal
          ∷ slept async_delay
          ∷ map (sent 0) (word_bytes (b.bus.mem address)),
      fmpi_get_lem me root p address (b.bus.mem address) junk ins noise later h four hv e u,
      falling_handler_get b buffer sync_signal ins' rest edge nine address 0 ha (omega arith) e',
      heard-call_acts p (length noise) (packet 2 address 0),
      ap (◌∷◌ sync_signal) (sent_to-map_self 0 (word_bytes (b.bus.mem address))),
    )
