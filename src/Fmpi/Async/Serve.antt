-- ===== src/Fmpi/Async/Serve.antt =====
-- What the handler of a falling edge does with a packet.
use cs140e_final_parallel_co.Base.{
  ℕ, ◌+◌, ◌^◌, ◌<◌, ◌≡◌, refl, sym, ap, ◌∙◌, true, false, List, [], ◌∷◌, ◌++◌, map, ◌==◌, length,
  append-nil,
}
use cs140e_final_parallel_co.Gpio.{Bus, put32, gpio_read, gpio_event_detected, gpio_event_clear}
use cs140e_final_parallel_co.Circular.{word_bytes}
use cs140e_final_parallel_co.Fmpi.Link.{Rx, byte, Inbox, feed, sent, slept, ok}
use cs140e_final_parallel_co.Fmpi.Transfer.Laws.{next_rx-cons, feed_self, feed-feed}
use cs140e_final_parallel_co.Fmpi.Sync.{sync_signal}
use cs140e_final_parallel_co.Fmpi.Async.{
  rx_async, async_delay, sync_receiver, wait_signal_timeout_async, packet, Board, is_low, serve,
  falling_handler,
}
use cs140e_final_parallel_co.Fmpi.Async.Signals.{
  packet-fields, length-packet, length-word_bytes, send_async_lem, recv_async_lem,
}

sync_receiver_lem :
    (p s : ℕ) (ins : Inbox) (later : List Rx)
    → ins p ≡ byte s ∷ later
    → sync_receiver p ins ≡ ok 1 (feed ins p later) (slept async_delay ∷ sent p sync_signal ∷ [])
unfolding sync_receiver wait_signal_timeout_async
sync_receiver_lem p s ins later e = rw (next_rx-cons p ins e) refl

-- The board behind a served interrupt.
abbrev pub served : Board → Bus → Board
served b bus = record { n_falling = b.n_falling + 1; bus = gpio_event_clear rx_async bus }

-- An interrupt by a falling edge: there is an event of the pin and the line is low.
abbrev pub FallingEdge : Board → Type 0
FallingEdge b =
    ((gpio_event_detected rx_async b.bus == 0) ≡ false) × (is_low (gpio_read rx_async b.bus) ≡ true)

module _ (b : Board) (buffer : List ℕ) (s : ℕ) (ins : Inbox) (rest : List Rx) (edge : FallingEdge b)
    (room : length buffer ≡ 9) where
  -- At a falling edge, after any byte and a packet of the command 1, the handler answers the byte,
  -- writes the packet's word to the packet's address, clears the event and returns 1.
  pub falling_handler_put :
      (address value : ℕ)
      → address < 2 ^ 32
      → value < 2 ^ 32
      → ins 0 ≡ byte s ∷ (map byte (packet 1 address value) ++ rest)
      → falling_handler buffer b ins
        ≡ ok
            (1, served b (put32 address value b.bus))
            (feed ins 0 rest)
            (slept async_delay ∷ sent 0 sync_signal ∷ slept async_delay ∷ [])
  unfolding falling_handler serve
  falling_handler_put address value ha hv e =
      let later = map byte (packet 1 address value) ++ rest in
      let fields = packet-fields 1 address value ha hv in
      rw
        (
          edge.0,
          edge.1,
          sync_receiver_lem 0 s ins later e,
          recv_async_lem buffer (packet 1 address value) 0 9 1 (feed ins 0 later) rest
              (feed_self ins 0 later) (sym (length-packet 1 address value))
              (room ∙ sym (length-packet 1 address value)),
          feed-feed ins 0 later rest,
          fields.0,
          fields.1,
          fields.2,
        )
        refl

  -- After a packet of the command 2 the handler sends the word at the packet's address, least
  -- significant byte first, and writes nothing but the event.
  pub falling_handler_get :
      (address value : ℕ)
      → address < 2 ^ 32
      → value < 2 ^ 32
      → ins 0 ≡ byte s ∷ (map byte (packet 2 address value) ++ rest)
      → falling_handler buffer b ins
        ≡ ok
            (1, served b b.bus)
            (feed ins 0 rest)
            (slept async_delay
              ∷ sent 0 sync_signal
              ∷ slept async_delay
              ∷ map (sent 0) (word_bytes (b.bus.mem address)))
  unfolding falling_handler serve
  falling_handler_get address value ha hv e =
      let later = map byte (packet 2 address value) ++ rest in
      let fields = packet-fields 2 address value ha hv in
      rw
        (
          edge.0,
          edge.1,
          sync_receiver_lem 0 s ins later e,
          recv_async_lem buffer (packet 2 address value) 0 9 1 (feed ins 0 later) rest
              (feed_self ins 0 later) (sym (length-packet 2 address value))
              (room ∙ sym (length-packet 2 address value)),
          feed-feed ins 0 later rest,
          fields.0,
          fields.1,
          send_async_lem (word_bytes (b.bus.mem address)) 0 1 4 (feed ins 0 rest)
              (sym (length-word_bytes (b.bus.mem address))),
          append-nil (map (sent 0) (word_bytes (b.bus.mem address))),
        )
        (ap
          (λ l.
            ok (1, served b b.bus) (feed ins 0 rest)
              (slept async_delay ∷ sent 0 sync_signal ∷ slept async_delay ∷ l))
          (append-nil (map (sent 0) (word_bytes (b.bus.mem address)))))
