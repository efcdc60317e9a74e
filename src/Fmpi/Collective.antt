-- ===== src/Fmpi/Collective.antt =====
-- `FMPI_Bcast`, `FMPI_Scatter`, `FMPI_Gather` and `FMPI_Barrier`.
pub mod Bcast
pub mod Scatter
pub mod Gather
use cs140e_final_parallel_co.Base.{ℕ, ◌*◌, List, ◌==◌, if◌then◌else◌}
use cs140e_final_parallel_co.Fmpi.Link.{M, ◌>>=◌, ◌>>◌, pure, delay_ms, require}
use cs140e_final_parallel_co.Fmpi.Transfer.{send, recv, memcpy, send_signal, wait_signal}
use cs140e_final_parallel_co.Fmpi.Sync.{Comm, each_peer, sync_root_last, delay, send_signal_byte}

-- The buffer as the call leaves it.
unfoldable pub bcast : Comm → (buffer : List ℕ) (count data_size : ℕ) → M (List ℕ)
bcast c buffer count data_size = do
  sync_root_last c
  if c.rank == c.root
      then (do each_peer c.root (λ i _. send buffer 0 i count data_size) c.size 0 tt; pure buffer)
      else recv buffer 0 c.root count data_size

-- The receive buffer as the call leaves it.
unfoldable pub scatter :
    Comm
    → (sendbuff : List ℕ) (sendcount : ℕ) (recvbuff : List ℕ) (recvcount data_size : ℕ) → M (List ℕ)
scatter c sendbuff sendcount recvbuff recvcount data_size = do
  require (sendcount == recvcount)
  sync_root_last c
  if c.rank == c.root
      then (do
        each_peer c.root
            (λ i _.
              delay_ms delay >> send sendbuff (i * sendcount * data_size) i sendcount data_size)
            c.size 0 tt
        memcpy recvbuff sendbuff (recvcount * data_size))
      else recv recvbuff 0 c.root recvcount data_size

unfoldable pub gather :
    Comm
    → (sendbuff : List ℕ) (sendcount : ℕ) (recvbuff : List ℕ) (recvcount data_size : ℕ) → M (List ℕ)
gather c sendbuff sendcount recvbuff recvcount data_size = do
  require (sendcount == recvcount)
  sync_root_last c
  if c.rank == c.root
      then (do
        filled ←
            each_peer c.root
              (λ i buffer.
                send_signal i send_signal_byte
                >> recv buffer (i * sendcount * data_size) i sendcount data_size)
              c.size 0 recvbuff
        memcpy filled sendbuff (recvcount * data_size))
      else (do
        wait_signal c.root send_signal_byte
        delay_ms delay
        send sendbuff 0 c.root sendcount data_size
        pure recvbuff)

unfoldable pub barrier : Comm → M (Unit {0})
barrier c = sync_root_last c
