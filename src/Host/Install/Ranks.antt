-- ===== src/Host/Install/Ranks.antt =====
-- Each Pi finds its own rank and the number of Pis where FMPI_Init looks for them.
use cs140e_final_parallel_co.Base.{
  ℕ, ◌+◌, ◌^◌, ◌≤◌, ◌<◌, ◌≡◌, ◌≢◌, ◌⊎◌, ap, ◌∙◌, true, List, [], ◌∷◌, ◌++◌, some, arith, length,
  get_or, drop, u8, ◌*◌,
}
use cs140e_final_parallel_co.Crc.{crc32}
use cs140e_final_parallel_co.Crc.Division.{Bytes}
use cs140e_final_parallel_co.Boot.{armbase, print_string}
use cs140e_final_parallel_co.Boot.Port.{done}
use cs140e_final_parallel_co.Boot.Words.{port}
use cs140e_final_parallel_co.Boot.Pi.{Look, has_data_timeout, mem_bytes, get_code}
use cs140e_final_parallel_co.Boot.Load.{TimedOut}
use cs140e_final_parallel_co.Boot.Send.Session.{boot_session}
use cs140e_final_parallel_co.Host.Install.{stamp, boot_one}

-- A Pi that asks for code: the looks before and at the answer, its memory, and where its loader stands.
pub record Board : Type 0 where
  pub lo : ℕ
  pub hi : ℕ
  pub calls : List (List Look)
  pub last : List Look
  pub later : List (List Look)
  pub mem : ℕ → ℕ

pub record Asks (b : Board) (size : ℕ) : Type 0 where
  pub misses : TimedOut b.calls
  pub hit : has_data_timeout (300 * 1000) b.last ≡ some true
  pub apart : (armbase + size ≤ b.lo) ⊎ (b.hi ≤ armbase)

-- The Pi and the host end their runs on each other's bytes, and the two bytes and the program behind
-- them are in the Pi's memory.
pub record Booted (b : Board) (rank size : ℕ) (code from_pi from_host : List ℕ) (mem : ℕ → ℕ)
    : Type 0 where
  pub pi :
      get_code b.lo b.hi (b.calls ++ b.last ∷ b.later) b.mem (port from_host [])
      ≡ done (armbase, mem) (port [] from_pi)
  pub host : boot_one rank size code (port from_pi []) ≡ done tt (port [] from_host)
  pub own_rank : mem armbase ≡ rank
  pub own_size : mem (armbase + 1) ≡ size
  pub program : mem_bytes mem armbase (length (drop 2 code)) 2 ≡ drop 2 code

small : (v : ℕ) → v < 256 → u8 v ≡ v
small v h = omega arith

-- A line without errors to a Pi that asks for code: the boot of device `i` and the Pi's run end on each
-- other's bytes, the program is loaded, and the Pi has `i` at 0x8000 and the number of Pis at 0x8001.
-- Both are less than 256, the program has two bytes or more and fits the address space below the
-- loaders, and the checksum of the stamped program is not the opcode PRINT_STRING.
pub boot_one-ranks :
    (i num_pis a b : ℕ) (rest : List ℕ) (board : Board)
    → Asks board (length (a ∷ b ∷ rest))
    → Bytes (a ∷ b ∷ rest)
    → armbase + length (a ∷ b ∷ rest) < 2 ^ 32
    → crc32 (stamp i num_pis (a ∷ b ∷ rest)) ≢ print_string
    → i < 256
    → num_pis < 256
    → (from_pi : List ℕ) × (from_host : List ℕ) × (mem : ℕ → ℕ) × Booted board i num_pis
        (a ∷ b ∷ rest)
        from_pi
        from_host
        mem
unfolding stamp mem_bytes boot_one
boot_one-ranks i num_pis a b rest board asks bytes fits sum hi hn =
    let (from_pi, from_host, mem, pi, host, kept) =
      boot_session board.lo board.hi board.calls board.later board.last board.mem
        (stamp i num_pis (a ∷ b ∷ rest)) asks.misses asks.hit
        (omega arith, (omega arith, bytes.1.1)) fits asks.apart sum in
    (
      from_pi,
      from_host,
      mem,
      record {
        pi = pi;
        host = host;
        own_rank = ap (λ l. get_or l 0 0) kept ∙ small i hi;
        own_size = ap (λ l. get_or l 1 0) kept ∙ small num_pis hn;
        program = ap (drop 2) kept;
      },
    )
