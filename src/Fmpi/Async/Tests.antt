-- ===== src/Fmpi/Async/Tests.antt =====
-- Rank 0 of two ranks calls rank 1; the peer answers the second signal.
use cs140e_final_parallel_co.Base.{
  ℕ, ◌+◌, ◌^◌, ◌≡◌, refl, List, [], ◌∷◌, ◌++◌, map, arith, replicate, ◌==◌, if◌then◌else◌,
}
use cs140e_final_parallel_co.Gpio.{gpeds0, gpio_event_detected, gpio_read}
use cs140e_final_parallel_co.Circular.{word_bytes}
use cs140e_final_parallel_co.Fmpi.Link.{byte, quiet, Inbox, feed, Act, ok, sent_to}
use cs140e_final_parallel_co.Fmpi.Sync.{sync_signal}
use cs140e_final_parallel_co.Fmpi.Delivery.{heard, trace}
use cs140e_final_parallel_co.Fmpi.Async.{packet, fmpi_put, fmpi_get, Board, falling_handler}
use cs140e_final_parallel_co.Fmpi.Async.Signals.{two}
use cs140e_final_parallel_co.Fmpi.Async.Serve.{FallingEdge, served}
use cs140e_final_parallel_co.Fmpi.Async.Session.{fmpi_put-falling_handler, fmpi_get-falling_handler}

-- An event of pin 13, whose line is low; every other register reads as 77.
abbrev board : Board
board = record {
  n_falling = 4;
  bus = record {
    mem = λ a. if a == gpeds0 then 2 ^ 13 else if a == 0x20200034 then 0 else 77;
    writes = [];
  };
}

board-FallingEdge : FallingEdge board
unfolding gpio_event_detected gpio_read
board-FallingEdge = (refl, refl)

abbrev zeros : ℕ → List ℕ
zeros n = replicate n 0

abbrev answered : Inbox
answered q = (quiet ∷ []) ++ byte sync_signal ∷ []

abbrev hears_put : Inbox
hears_put q = heard 1 1 (trace (fmpi_put (two 0 0) 1 0xdeadbeef 0x9000 answered)) ++ []

fmpi_put-falling_handler_example :
    (b' : Board) × (acts : List Act) × (falling_handler (zeros 9) board hears_put
      ≡ ok (1, b') (feed hears_put 0 []) acts)
    × (b'.bus.mem 0x9000 ≡ 0xdeadbeef)
    × (b'.n_falling ≡ 4 + 1)
fmpi_put-falling_handler_example =
    fmpi_put-falling_handler 0 0 1 0xdeadbeef 0x9000 answered hears_put (quiet ∷ []) [] [] board
      (zeros 9) (omega arith) refl (refl, tt) (omega arith) (omega arith) (λ e. omega (arith, e))
      board-FallingEdge refl refl

abbrev answers : Inbox
answers q = (quiet ∷ []) ++ (map byte (sync_signal ∷ word_bytes 77) ++ [])

abbrev hears_get : Inbox
hears_get q = map byte (sync_signal ∷ packet 2 0x9000 0) ++ []

fmpi_get-falling_handler_example :
    (acts acts' : List Act) × (fmpi_get (two 0 0) (zeros 4) 1 0x9000 answers
      ≡ ok 77 (feed answers 1 []) acts)
    × (falling_handler (zeros 9) board hears_get
        ≡ ok (1, served board board.bus) (feed hears_get 0 []) acts')
    × (heard 1 1 acts ≡ map byte (sync_signal ∷ packet 2 0x9000 0))
    × (sent_to 0 acts' ≡ sync_signal ∷ word_bytes 77)
fmpi_get-falling_handler_example =
    fmpi_get-falling_handler 0 0 1 0x9000 (zeros 4) answers hears_get (quiet ∷ []) [] [] board
      (zeros 9) (omega arith) refl refl (omega arith) (omega arith) board-FallingEdge (refl, tt)
      refl refl
