-- ===== src/Boot/Send/Session.antt =====
-- Both ends of a session together: each reads what the other one writes.
use cs140e_final_parallel_co.Base.{
  ℕ, zero, suc, ◌+◌, ◌*◌, ◌^◌, ◌≤◌, ◌<◌, ◌≡◌, ◌≢◌, ◌⊎◌, refl, sym, ap, ◌∙◌, true, List, [], ◌∷◌,
  ◌++◌, some, arith, length, append_assoc, append-nil,
}
use cs140e_final_parallel_co.Circular.{word_bytes}
use cs140e_final_parallel_co.Crc.{crc32}
use cs140e_final_parallel_co.Crc.Division.{Bytes}
use cs140e_final_parallel_co.Boot.{armbase, get_prog_info, get_code_op, boot_success, print_string}
use cs140e_final_parallel_co.Boot.Port.{done}
use cs140e_final_parallel_co.Boot.Words.{port}
use cs140e_final_parallel_co.Boot.Pi.{Look, has_data_timeout, mem_bytes, success_msg, get_code}
use cs140e_final_parallel_co.Boot.Unix.{simple_boot}
use cs140e_final_parallel_co.Boot.Load.{TimedOut, repeated, host_bytes, request_bytes, report}
use cs140e_final_parallel_co.Boot.Load.Outcomes.{get_code_loads}
use cs140e_final_parallel_co.Boot.Send.{several, pi_bytes, sent_bytes, simple_boot_lem}

repeated-append : (n u : ℕ) (out rest : List ℕ) → repeated n u out ++ rest ≡ out ++ several n u rest
repeated-append zero u out rest = refl
repeated-append (suc n) u out rest =
    repeated-append n u (out ++ word_bytes u) rest
    ∙ append_assoc out (word_bytes u) (several n u rest)

-- What the host sends, from the left and from the right.
sent_bytes-host_bytes : (buf : List ℕ) → sent_bytes buf ≡ host_bytes armbase (crc32 buf) buf []
sent_bytes-host_bytes buf = simp (append_assoc, append-nil)

-- The message but its last character.
abbrev message : List ℕ
message = without_last success_msg
  where
    without_last : List ℕ → List ℕ
    without_last [] = []
    without_last (x ∷ []) = []
    without_last (x ∷ y ∷ ys) = x ∷ without_last (y ∷ ys)

from_right :
    (s a b c d m e : List ℕ)
    → (((((s ++ a) ++ b) ++ c) ++ d) ++ m) ++ e ≡ s ++ (a ++ (b ++ (c ++ (d ++ (m ++ e)))))
from_right s a b c d m e = simp append_assoc

-- What the Pi sends, from the left and from the right.
report-pi_bytes :
    (n cksum : ℕ)
    → report (request_bytes (suc n) cksum) success_msg boot_success ≡ pi_bytes n cksum message 33 []
report-pi_bytes n cksum =
    let tail =
      word_bytes print_string
      ++ (word_bytes (length success_msg) ++ (success_msg ++ word_bytes boot_success)) in
    from_right (repeated (suc n) get_prog_info []) (word_bytes get_code_op) (word_bytes cksum)
      (word_bytes print_string) (word_bytes (length success_msg)) success_msg
      (word_bytes boot_success)
    ∙ repeated-append (suc n) get_prog_info []
        (word_bytes get_code_op ++ (word_bytes cksum ++ tail))
    ∙ ap
        (λ e. several (suc n) get_prog_info (
          word_bytes get_code_op
          ++ (word_bytes cksum
              ++ (word_bytes print_string
                  ++ (word_bytes (length success_msg) ++ (success_msg ++ e))))))
        (sym (append-nil (word_bytes boot_success)))

-- A session without errors on the line: the host's run reads what the Pi's run writes and the other
-- way round, both end, and the code is in the Pi's memory at 0x8000. The loader is not where the code
-- goes, and the checksum is not the opcode PRINT_STRING.
pub boot_session :
    (lo hi : ℕ) (calls later : List (List Look)) (last : List Look) (mem : ℕ → ℕ) (buf : List ℕ)
    → TimedOut calls
    → has_data_timeout (300 * 1000) last ≡ some true
    → Bytes buf
    → armbase + length buf < 2 ^ 32
    → (armbase + length buf ≤ lo) ⊎ (hi ≤ armbase)
    → crc32 buf ≢ print_string
    → (from_pi : List ℕ) × (from_host : List ℕ) × (mem' : ℕ → ℕ) × (get_code lo hi
          (calls ++ last ∷ later)
          mem
          (port from_host [])
        ≡ done (armbase, mem') (port [] from_pi))
      × (simple_boot buf (port from_pi []) ≡ done tt (port [] from_host))
      × (mem_bytes mem' armbase (length buf) 0 ≡ buf)
boot_session lo hi calls later last mem buf misses hit bytes fits apart sum =
    let (mem', e, kept) =
      get_code_loads lo hi armbase calls later last mem [] misses hit buf bytes fits apart in
    (
      report (request_bytes (suc (length calls)) (crc32 buf)) success_msg boot_success,
      host_bytes armbase (crc32 buf) buf [],
      mem',
      e,
      rw (report-pi_bytes (length calls) (crc32 buf), sym (sent_bytes-host_bytes buf))
          (simple_boot_lem buf message [] (length calls) 33 bytes (omega (arith, fits)) sum
            (omega arith)),
      kept,
    )
