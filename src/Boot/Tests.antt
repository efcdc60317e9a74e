-- ===== src/Boot/Tests.antt =====
-- A program of three bytes, with a loader from 0x200000 to 0x300000. The Pi asks twice.
use cs140e_final_parallel_co.Base.{
  ℕ, ◌*◌, ◌≡◌, ◌≢◌, refl, inl, true, false, List, [], ◌∷◌, ◌++◌, some, arith,
}
use cs140e_final_parallel_co.Crc.{crc32}
use cs140e_final_parallel_co.Crc.Division.{Bytes}
use cs140e_final_parallel_co.Boot.{armbase, get_prog_info, boot_success, boot_error, print_string}
use cs140e_final_parallel_co.Boot.Port.{done, panicked, rebooted}
use cs140e_final_parallel_co.Boot.Words.{port}
use cs140e_final_parallel_co.Boot.Pi.{
  Look, has_data_timeout, mem_bytes, success_msg, crc_msg, get_code,
}
use cs140e_final_parallel_co.Boot.Unix.{simple_boot}
use cs140e_final_parallel_co.Boot.Load.{TimedOut, repeated, host_bytes, request_bytes, report}
use cs140e_final_parallel_co.Boot.Load.Outcomes.{get_code_loads, get_code_detects, get_code_refuses}
use cs140e_final_parallel_co.Boot.Send.{pi_bytes, sent_bytes, simple_boot_lem}
use cs140e_final_parallel_co.Boot.Send.Session.{boot_session}

abbrev code : List ℕ
code = 1 ∷ 2 ∷ 3 ∷ []

code-Bytes : Bytes code
code-Bytes = (omega arith, (omega arith, (omega arith, tt)))

abbrev missed : List (List Look)
missed = ((false, 1) ∷ (false, 300001) ∷ []) ∷ []

abbrev found : List Look
found = (false, 1) ∷ (true, 2) ∷ []

missed-TimedOut : TimedOut missed
unfolding has_data_timeout
missed-TimedOut = (refl, tt)

found_data : has_data_timeout (300 * 1000) found ≡ some true
unfolding has_data_timeout
found_data = refl

abbrev blank : ℕ → ℕ
blank a = 0

code-crc : crc32 code ≢ print_string
unfolding crc32
code-crc e = omega (arith, e)

boot_session_example :
    (from_pi : List ℕ) × (from_host : List ℕ) × (mem' : ℕ → ℕ) × (get_code 0x200000 0x300000
        (missed ++ found ∷ [])
        blank
        (port from_host [])
      ≡ done (armbase, mem') (port [] from_pi))
    × (simple_boot code (port from_pi []) ≡ done tt (port [] from_host))
    × (mem_bytes mem' armbase 3 0 ≡ code)
boot_session_example =
    boot_session 0x200000 0x300000 missed [] found blank code missed-TimedOut found_data code-Bytes
      (omega arith) (inl (omega arith)) code-crc

get_code_loads_example :
    (mem' : ℕ → ℕ) × (get_code 0x200000 0x300000
        (missed ++ found ∷ [])
        blank
        (port (host_bytes armbase (crc32 code) code []) [])
      ≡ done
          (armbase, mem')
          (port [] (report (request_bytes 2 (crc32 code)) success_msg boot_success)))
    × (mem_bytes mem' armbase 3 0 ≡ code)
get_code_loads_example =
    get_code_loads 0x200000 0x300000 armbase missed [] found blank [] missed-TimedOut found_data
      code code-Bytes (omega arith) (inl (omega arith))

get_code_detects_example :
    get_code 0x200000 0x300000
      (missed ++ found ∷ [])
      blank
      (port (host_bytes armbase (crc32 code) (1 ∷ 66 ∷ 3 ∷ []) []) [])
    ≡ rebooted (report (request_bytes 2 (crc32 code)) crc_msg boot_error)
get_code_detects_example =
    get_code_detects 0x200000 0x300000 armbase missed [] found blank [] missed-TimedOut found_data
      (1 ∷ []) (3 ∷ []) 2 66 (omega arith, tt) (omega arith, tt) (omega arith) (omega arith)
      (λ e. omega (arith, e)) (omega arith) (inl (omega arith))

get_code_refuses_example :
    get_code 0x8002 0x9000 (missed ++ found ∷ []) blank (port (host_bytes armbase 5 code []) [])
    ≡ panicked (repeated 2 get_prog_info [])
get_code_refuses_example =
    get_code_refuses 0x8002 0x9000 armbase missed [] found blank [] missed-TimedOut found_data code
      5 (omega arith) (omega arith) (omega arith) (omega arith)

simple_boot_lem_example :
    simple_boot code (port (pi_bytes 1 (crc32 code) (104 ∷ 105 ∷ []) 33 []) [])
    ≡ done tt (port [] (sent_bytes code))
simple_boot_lem_example =
    simple_boot_lem code (104 ∷ 105 ∷ []) [] 1 33 code-Bytes (omega arith) code-crc (omega arith)
