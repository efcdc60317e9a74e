-- ===== src/Boot/Send.antt =====
-- What `simple_boot` does with what the Pi sends.
pub mod Session
use cs140e_final_parallel_co.Base.{
  ℕ, zero, suc, ◌+◌, ◌-◌, ◌*◌, ◌/◌, ◌%◌, ◌^◌, ◌≤◌, ◌<◌, ◌≡◌, ◌≢◌, refl, sym, ap, ◌∙◌, Bool, true,
  false, List, [], ◌∷◌, ◌++◌, arith, ltb, ◌==◌, if◌then◌else◌, u32, length, length-append, ==_refl,
  ne→==, lt→ltb,
}
use native.Mathlib.Nat.{mod-eq_of_lt}
use cs140e_final_parallel_co.Circular.{word_bytes}
use cs140e_final_parallel_co.Crc.{crc32}
use cs140e_final_parallel_co.Crc.Division.{Bytes}
use cs140e_final_parallel_co.Crc.Detection.{crc32-lt}
use cs140e_final_parallel_co.Boot.{
  armbase, get_prog_info, put_prog_info, get_code_op, put_code, boot_success, print_string,
}
use cs140e_final_parallel_co.Boot.Port.{Port, Run, done, M, ◌>>=◌, ◌>>◌, pure, read8, write, check}
use cs140e_final_parallel_co.Boot.Words.{port, get_uint32-word_bytes, put_uint32-word_bytes}
use cs140e_final_parallel_co.Boot.Unix.{
  skip, get_op_fuel, get_op, find_start, drain_ops, wait_success, bounded, simple_boot,
}

length-word_bytes : (u : ℕ) (rest : List ℕ) → length (word_bytes u ++ rest) ≡ suc (3 + length rest)
unfolding word_bytes
length-word_bytes u rest = omega arith

get_op_fuel-word :
    (fuel u : ℕ) (rest out : List ℕ)
    → u < 2 ^ 32
    → u ≢ print_string
    → get_op_fuel (suc fuel) (port (word_bytes u ++ rest) out) ≡ done u (port rest out)
unfolding get_op_fuel
get_op_fuel-word fuel u rest out h ne =
    rw (get_uint32-word_bytes u rest out h, ne→== u print_string ne) refl

-- An opcode other than PRINT_STRING is returned.
get_op-word :
    (u : ℕ) (rest out : List ℕ)
    → u < 2 ^ 32
    → u ≢ print_string
    → get_op (port (word_bytes u ++ rest) out) ≡ done u (port rest out)
unfolding get_op
get_op-word u rest out h ne =
    ap (λ n. get_op_fuel n (port (word_bytes u ++ rest) out)) (length-word_bytes u rest)
    ∙ get_op_fuel-word (3 + length rest) u rest out h ne

skip_lem :
    (msg rest out : List ℕ) → skip (length msg) (port (msg ++ rest) out) ≡ done tt (port rest out)
unfolding skip
skip_lem [] rest out = refl
skip_lem (c ∷ msg) rest out = skip_lem msg rest out

-- A printed string, and then an opcode.
get_op-printed :
    (c u : ℕ) (msg rest out : List ℕ)
    → length msg < 511
    → u < 2 ^ 32
    → u ≢ print_string
    → get_op (
        port
          (word_bytes print_string
            ++ (word_bytes (suc (length msg)) ++ (msg ++ (c ∷ (word_bytes u ++ rest)))))
          out)
      ≡ done u (port rest out)
unfolding get_op get_op_fuel
get_op-printed c u msg rest out short h ne =
    let after = msg ++ (c ∷ (word_bytes u ++ rest)) in
    let counted = word_bytes (suc (length msg)) ++ after in
    ap (λ n. get_op_fuel n (port (word_bytes print_string ++ counted) out))
      (length-word_bytes print_string counted ∙ more (length counted))
    ∙ rw
        (
          get_uint32-word_bytes print_string counted out (omega arith),
          get_uint32-word_bytes (suc (length msg)) after out (omega arith),
          lt→ltb (suc (length msg)) 512 (omega arith),
          less,
          skip_lem msg (c ∷ (word_bytes u ++ rest)) out,
        )
        (get_op_fuel-word (suc (suc (length counted))) u rest out h ne)
  where
    more : (n : ℕ) → suc (3 + n) ≡ suc (suc (suc (suc n)))
    more n = omega arith

    less : u32 (suc (length msg) + 2 ^ 32 - 1) ≡ length msg
    less = omega arith

abbrev pub several : (n u : ℕ) → List ℕ → List ℕ
several zero u rest = rest
several (suc n) u rest = word_bytes u ++ several n u rest

drain_ops_lem :
    (n fuel : ℕ) (rest out : List ℕ)
    → n < fuel
    → drain_ops fuel (port (several n get_prog_info (word_bytes get_code_op ++ rest)) out)
      ≡ done tt (port rest out)
unfolding drain_ops
drain_ops_lem n zero rest out h = absurd (omega arith)
drain_ops_lem zero (suc fuel) rest out h =
    rw (get_op-word get_code_op rest out (omega arith) (λ e. omega (arith, e))) refl
drain_ops_lem (suc n) (suc fuel) rest out h =
    rw
      (get_op-word get_prog_info (several n get_prog_info (word_bytes get_code_op ++ rest)) out
        (omega arith) (λ e. omega (arith, e)))
      (drain_ops_lem n fuel rest out (omega arith))

length-several : (n u : ℕ) (rest : List ℕ) → n + length rest ≤ length (several n u rest)
length-several zero u rest = omega arith
length-several (suc n) u rest =
    omega (arith, length-word_bytes u (several n u rest), length-several n u rest)

-- What the Pi sends when it has asked `n` times more than once and the code was right: the request,
-- the message `msg ++ c ∷ []`, and the report of success.
abbrev pub pi_bytes : (n cksum : ℕ) (msg : List ℕ) (c : ℕ) → List ℕ → List ℕ
pi_bytes n cksum msg c rest =
    word_bytes get_prog_info
    ++ several n get_prog_info (
        word_bytes get_code_op
        ++ (word_bytes cksum
            ++ (word_bytes print_string
                ++ (word_bytes (suc (length msg))
                    ++ (msg ++ (c ∷ (word_bytes boot_success ++ rest)))))))

abbrev pub sent_bytes : List ℕ → List ℕ
sent_bytes buf =
    ((((word_bytes put_prog_info ++ word_bytes armbase) ++ word_bytes (length buf))
        ++ word_bytes (crc32 buf))
      ++ word_bytes put_code)
    ++ buf

find_start_lem :
    (rest out : List ℕ)
    → bounded find_start (port (word_bytes get_prog_info ++ rest) out) ≡ done tt (port rest out)
unfolding find_start
find_start_lem rest out =
    ap (λ n. find_start n (port (word_bytes get_prog_info ++ rest) out))
      (length-word_bytes get_prog_info rest)
    ∙ rw (get_op-word get_prog_info rest out (omega arith) (λ e. omega (arith, e))) refl

wait_success_lem :
    (c : ℕ) (msg rest out : List ℕ)
    → length msg < 511
    → bounded wait_success (
        port
          (word_bytes print_string
            ++ (word_bytes (suc (length msg)) ++ (msg ++ (c ∷ (word_bytes boot_success ++ rest)))))
          out)
      ≡ done tt (port rest out)
unfolding wait_success
wait_success_lem c msg rest out short =
    let after = word_bytes (suc (length msg)) ++ (msg ++ (c ∷ (word_bytes boot_success ++ rest))) in
    ap (λ n. wait_success n (port (word_bytes print_string ++ after) out))
      (length-word_bytes print_string after)
    ∙ rw (get_op-printed c boot_success msg rest out short (omega arith) (λ e. omega (arith, e)))
        refl

-- `simple_boot` ends when the Pi asks one or more times, requests the code with the right checksum,
-- prints and reports success, unless the checksum is the opcode PRINT_STRING, and it has sent the
-- code's address, size and checksum and the code.
pub simple_boot_lem :
    (buf msg rest : List ℕ) (n c : ℕ)
    → Bytes buf
    → length buf < 2 ^ 32
    → crc32 buf ≢ print_string
    → length msg < 511
    → simple_boot buf (port (pi_bytes n (crc32 buf) msg c rest) [])
      ≡ done tt (port rest (sent_bytes buf))
unfolding simple_boot
simple_boot_lem buf msg rest n c bytes size sum short =
    let after =
      word_bytes print_string
      ++ (word_bytes (suc (length msg)) ++ (msg ++ (c ∷ (word_bytes boot_success ++ rest)))) in
    let told =
      several n get_prog_info (word_bytes get_code_op ++ (word_bytes (crc32 buf) ++ after)) in
    let asked = word_bytes (crc32 buf) ++ after in
    let fuel : n < length told = omega (
      arith,
      length-several n get_prog_info (word_bytes get_code_op ++ asked),
      length-word_bytes get_code_op asked,
    ) in
    let out1 = word_bytes put_prog_info in
    let out2 = out1 ++ word_bytes armbase in
    let out3 = out2 ++ word_bytes (length buf) in
    let out4 = out3 ++ word_bytes (crc32 buf) in
    rw
      (
        find_start_lem told [],
        put_uint32-word_bytes put_prog_info told [],
        put_uint32-word_bytes armbase told out1,
        put_uint32-word_bytes (length buf) told out2,
        put_uint32-word_bytes (crc32 buf) told out3,
        drain_ops_lem n (length told) (word_bytes (crc32 buf) ++ after) out4 fuel,
        get_op-word (crc32 buf) after out4 (crc32-lt buf bytes) sum,
        ==_refl (crc32 buf),
        put_uint32-word_bytes put_code after out4,
      )
      (wait_success_lem c msg rest (sent_bytes buf) short)
