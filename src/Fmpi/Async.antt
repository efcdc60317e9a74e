-- ===== src/Fmpi/Async.antt =====
-- The asynchronous calls of libpi/src/fmpi-async.c, and the interrupt handler of
-- libpi/src/test-interrupts.c that serves them. The UARTs are those of the array `u_async`.
pub mod Signals
pub mod Serve
pub mod Session
pub mod Setup
mod Tests
use cs140e_final_parallel_co.Base.{
  ℕ, zero, suc, ◌+◌, ◌*◌, ◌/◌, ◌^◌, Bool, true, false, Option, none, some, List, [], ◌∷◌, ◌++◌,
  ◌==◌, if◌then◌else◌, get_or, u8,
}
use cs140e_final_parallel_co.Gpio.{
  Bus, get32, put32, gpio_read, gpio_event_detected, gpio_event_clear,
}
use cs140e_final_parallel_co.Circular.{word_bytes, bytes_word}
use cs140e_final_parallel_co.Fmpi.Link.{
  Rx, byte, quiet, M, ◌>>=◌, ◌>>◌, pure, put8, get8, delay_ms, set_off,
}
use cs140e_final_parallel_co.Fmpi.Transfer.{send_loop, recv_loop, is_signal}
use cs140e_final_parallel_co.Fmpi.Sync.{Comm, each_peer, sync_signal}

abbrev pub tx_async : ℕ
tx_async = 12

-- RX_ASYNC, and `in_pin` of the handler.
abbrev pub rx_async : ℕ
rx_async = 13

abbrev pub async_delay : ℕ
async_delay = 20

abbrev pub async_timeout : ℕ
async_timeout = 100

-- The same loop as that of `send`.
unfoldable pub send_async : (buffer : List ℕ) (recv_pi count data_size : ℕ) → M (Unit {0})
send_async buffer recv_pi count data_size = send_loop buffer recv_pi (count * data_size) 0

-- The same loop as that of `recv`.
unfoldable pub recv_async : (buffer : List ℕ) (send_pi count data_size : ℕ) → M (List ℕ)
recv_async buffer send_pi count data_size = recv_loop send_pi (count * data_size) 0 buffer

unfoldable pub wait_signal_timeout_async : (recv_pi signal msec : ℕ) → M Rx
wait_signal_timeout_async recv_pi signal msec = get8 recv_pi

-- The `do .. while` of `sync_me_last`. The outcomes at the start bound the rounds.
unfoldable pub poll_async : ℕ → List Rx → M (Unit {0})
poll_async i [] = do
  put8 i sync_signal
  r ← wait_signal_timeout_async i sync_signal async_timeout
  pure tt
poll_async i (_ ∷ left) = do
  put8 i sync_signal
  r ← wait_signal_timeout_async i sync_signal async_timeout
  if is_signal sync_signal r then pure tt else poll_async i left

-- One handshake with `recv_pi` for each rank but the own one.
unfoldable pub sync_me_last : Comm → ℕ → M (Unit {0})
sync_me_last c recv_pi =
    each_peer c.rank (λ i _ ins. poll_async recv_pi (ins recv_pi) ins) c.size 0 tt

unfoldable pub sync_receiver : ℕ → M ℕ
sync_receiver send_pi = wait_signal_timeout_async send_pi sync_signal 1000 >>= λ get_signal.
    elim get_signal [
      | quiet ↦ pure 0
      | byte b ↦ do delay_ms async_delay; put8 send_pi sync_signal; pure 1
    ]

-- The four bytes of a word, most significant first, and the word.
unfoldable pub big_endian : ℕ → List ℕ
big_endian x = u8 (x / 2 ^ 24) ∷ u8 (x / 2 ^ 16) ∷ u8 (x / 2 ^ 8) ∷ u8 x ∷ []

-- The word at a byte of a packed structure.
unfoldable pub field : List ℕ → ℕ → ℕ
field bs i =
    get_or bs i 0 * 2 ^ 24
    + get_or bs (i + 1) 0 * 2 ^ 16
    + get_or bs (i + 2) 0 * 2 ^ 8
    + get_or bs (i + 3) 0

-- The nine bytes of a `Packet`, which is packed and stored big-endian.
unfoldable pub packet : (command address value : ℕ) → List ℕ
packet command address value = command ∷ (big_endian address ++ big_endian value)

unfoldable pub fmpi_put : Comm → (recv_pi value address : ℕ) → M (Unit {0})
fmpi_put c recv_pi value address = do
  set_off tx_async
  sync_me_last c recv_pi
  send_async (packet 1 address value) recv_pi 1 9

-- `recv_p` starts with what the stack holds; `junk` is that.
unfoldable pub fmpi_get : Comm → (junk : List ℕ) (recv_pi address : ℕ) → M ℕ
fmpi_get c junk recv_pi address = do
  set_off tx_async
  sync_me_last c recv_pi
  send_async (packet 2 address 0) recv_pi 1 9
  recv_p ← recv_async junk recv_pi 4 1
  pure (bytes_word recv_p)

-- The counter of the handler and the bus.
pub record Board : Type 0 where
  pub n_falling : ℕ
  pub bus : Bus

-- `!gpio_read(in_pin)`.
abbrev pub is_low : Option ℕ → Bool
is_low none = false
is_low (some v) = v == 0

-- The two commands; any other one does nothing.
unfoldable pub serve : List ℕ → Bus → M Bus
serve p bus =
    if get_or p 0 0 == 1
    then pure (put32 (field p 1) (field p 5) bus)
    else if get_or p 0 0 == 2
    then (do send_async (word_bytes (get32 (field p 1) bus)) 0 1 4; pure bus)
    else pure bus

-- `buffer` starts with what the stack holds.
unfoldable pub falling_handler : (buffer : List ℕ) → Board → M (ℕ × Board)
falling_handler buffer b =
    if gpio_event_detected rx_async b.bus == 0
    then pure (0, b)
    else if is_low (gpio_read rx_async b.bus)
    then (sync_receiver 0 >>= λ sync_success.
        if sync_success == 0
        then pure (1, record { n_falling = b.n_falling + 1; bus = gpio_event_clear rx_async b.bus })
        else (do
          p ← recv_async buffer 0 9 1
          delay_ms async_delay
          bus ← serve p b.bus
          pure (1, record { n_falling = b.n_falling + 1; bus = gpio_event_clear rx_async bus })))
    else pure (0, b)
