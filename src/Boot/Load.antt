-- ===== src/Boot/Load.antt =====
-- What `get_code` does with what the host sends.
pub mod Outcomes
use cs140e_final_parallel_co.Base.{
  ℕ, zero, suc, ◌+◌, ◌-◌, ◌*◌, ◌/◌, ◌%◌, ◌^◌, ◌≤◌, ◌<◌, ◌≡◌, ◌≢◌, ◌⊎◌, refl, sym, ap, ◌∙◌, Bool,
  true, false, ◌&&◌, not, List, [], ◌∷◌, ◌++◌, Option, none, some, arith, ltb, ◌==◌, if◌then◌else◌,
  Bool-cases, inl, inr, u8, u32, length, replicate, append_assoc, append-nil, ==_refl, ne→==,
}
use native.Mathlib.Nat.{mod-eq_of_lt}
use cs140e_final_parallel_co.Circular.{word_bytes}
use cs140e_final_parallel_co.Crc.{crc32}
use cs140e_final_parallel_co.Boot.{
  armbase, get_prog_info, put_prog_info, get_code_op, put_code, boot_success, boot_error,
  print_string,
}
use cs140e_final_parallel_co.Boot.Port.{
  Port, Run, done, rebooted, M, ◌>>=◌, ◌>>◌, pure, read8, write, check,
}
use cs140e_final_parallel_co.Boot.Words.{port, boot_get32-word_bytes, boot_put32-word_bytes}
use cs140e_final_parallel_co.Boot.Pi.{
  Look, has_data_timeout, wait_for_data, boot_putk, boot_err, put8, copy_code, mem_bytes,
  success_msg, crc_msg, get_code,
}

-- Each of these calls of `has_data_timeout` runs into its time-out of 300 milliseconds.
abbrev pub TimedOut : List (List Look) → Type 0
TimedOut [] = Unit {0}
TimedOut (looks ∷ calls) = (has_data_timeout (300 * 1000) looks ≡ some false) × TimedOut calls

-- A word several times over, behind some bytes.
abbrev pub repeated : (n u : ℕ) → List ℕ → List ℕ
repeated zero u out = out
repeated (suc n) u out = repeated n u (out ++ word_bytes u)

pub wait_for_data_lem :
    (calls later : List (List Look)) (last : List Look) (inp out : List ℕ)
    → TimedOut calls
    → has_data_timeout (300 * 1000) last ≡ some true
    → wait_for_data (300 * 1000) (calls ++ last ∷ later) (port inp out)
      ≡ done tt (port inp (repeated (suc (length calls)) get_prog_info out))
unfolding wait_for_data
wait_for_data_lem [] later last inp out _ hit =
    rw (hit, boot_put32-word_bytes get_prog_info inp out) refl
wait_for_data_lem (looks ∷ calls) later last inp out (miss, misses) hit =
    rw (miss, boot_put32-word_bytes get_prog_info inp out)
      (wait_for_data_lem calls later last inp (out ++ word_bytes get_prog_info) misses hit)

-- Memory with the code stored from byte `i` on.
abbrev pub stored : (ℕ → ℕ) → (addr i : ℕ) → List ℕ → (ℕ → ℕ)
stored mem addr i [] = mem
stored mem addr i (b ∷ bs) = stored (put8 mem (u32 (addr + i)) b) addr (i + 1) bs

copy_code_lem :
    (addr i : ℕ) (code rest out : List ℕ) (mem : ℕ → ℕ)
    → copy_code addr (length code) i mem (port (code ++ rest) out)
      ≡ done (stored mem addr i code) (port rest out)
unfolding copy_code
copy_code_lem addr i [] rest out mem = refl
copy_code_lem addr i (b ∷ bs) rest out mem =
    copy_code_lem addr (i + 1) bs rest out (put8 mem (u32 (addr + i)) b)

-- The stores leave what lies below them.
stored_below :
    (mem : ℕ → ℕ) (addr i : ℕ) (code : List ℕ) (a : ℕ)
    → addr + i + length code < 2 ^ 32
    → a < addr + i
    → stored mem addr i code a ≡ mem a
unfolding put8
stored_below mem addr i [] a fits h = refl
stored_below mem addr i (b ∷ bs) a fits h =
    let at : u32 (addr + i) ≡ addr + i = mod-eq_of_lt (omega arith) in
    stored_below (put8 mem (u32 (addr + i)) b) addr (i + 1) bs a (omega arith) (omega arith)
    ∙ rw (at, ne→== a (addr + i) (λ e. omega (arith, e))) refl

-- The code is read back from where it was stored.
pub mem_bytes-stored :
    (mem : ℕ → ℕ) (addr i : ℕ) (code : List ℕ)
    → addr + i + length code < 2 ^ 32
    → mem_bytes (stored mem addr i code) addr (length code) i ≡ code
unfolding mem_bytes put8
mem_bytes-stored mem addr i [] fits = refl
mem_bytes-stored mem addr i (b ∷ bs) fits =
    let at : u32 (addr + i) ≡ addr + i = mod-eq_of_lt (omega arith) in
    let mem' = put8 mem (u32 (addr + i)) b in
    let first : stored mem' addr (i + 1) bs (u32 (addr + i)) ≡ b =
      ap (stored mem' addr (i + 1) bs) at
      ∙ stored_below mem' addr (i + 1) bs (addr + i) (omega arith) (omega arith)
      ∙ rw (at, ==_refl (addr + i)) refl in
    rw first (ap (◌∷◌ b) (mem_bytes-stored mem' addr (i + 1) bs (omega arith)))

-- What the host sends.
abbrev pub host_bytes : (addr cksum : ℕ) → List ℕ → List ℕ → List ℕ
host_bytes addr cksum code rest =
    word_bytes put_prog_info
    ++ (word_bytes addr
        ++ (word_bytes (length code)
            ++ (word_bytes cksum ++ (word_bytes put_code ++ (code ++ rest)))))

-- What the Pi sends before the code comes.
abbrev pub request_bytes : (starts cksum : ℕ) → List ℕ
request_bytes starts cksum =
    (repeated starts get_prog_info [] ++ word_bytes get_code_op) ++ word_bytes cksum

-- What `boot_putk` has written behind `out`, and a word behind that.
abbrev pub printed : (out msg : List ℕ) → List ℕ
printed out msg = ((out ++ word_bytes print_string) ++ word_bytes (length msg)) ++ msg

abbrev pub report : (out msg : List ℕ) (op : ℕ) → List ℕ
report out msg op = printed out msg ++ word_bytes op

boot_putk_lem :
    (msg inp out : List ℕ) → boot_putk msg (port inp out) ≡ done tt (port inp (printed out msg))
unfolding boot_putk
boot_putk_lem msg inp out =
    rw
      (
        boot_put32-word_bytes print_string inp out,
        boot_put32-word_bytes (length msg) inp (out ++ word_bytes print_string),
      )
      refl

-- For code that ends inside the address space and does not overlap the loader, `get_code` asks until
-- there is data, requests the code, stores it and checks it. With the right checksum it returns the
-- address, with the code in memory, and reports success; with another it reports the error and
-- reboots.
pub get_code_lem :
    (lo hi addr cksum : ℕ) (calls later : List (List Look)) (last : List Look) (mem : ℕ → ℕ)
    (code rest : List ℕ)
    → TimedOut calls
    → has_data_timeout (300 * 1000) last ≡ some true
    → addr + length code < 2 ^ 32
    → cksum < 2 ^ 32
    → (addr + length code ≤ lo) ⊎ (hi ≤ addr)
    → get_code lo hi (calls ++ last ∷ later) mem (port (host_bytes addr cksum code rest) []) ≡ (
        let out = request_bytes (suc (length calls)) cksum in
        if crc32 code == cksum
        then done (addr, stored mem addr 0 code) (port rest (report out success_msg boot_success))
        else rebooted (report out crc_msg boot_error))
unfolding get_code boot_err
get_code_lem lo hi addr cksum calls later last mem code rest misses hit fits sum apart =
    let start = repeated (suc (length calls)) get_prog_info [] in
    let after =
      word_bytes (length code) ++ (word_bytes cksum ++ (word_bytes put_code ++ (code ++ rest))) in
    let out = request_bytes (suc (length calls)) cksum in
    let no_overlap : (not (ltb lo (u32 (addr + length code)) && ltb addr hi)) ≡ true =
      ground arith in
    rw
      (
        wait_for_data_lem calls later last (host_bytes addr cksum code rest) [] misses hit,
        boot_get32-word_bytes put_prog_info (word_bytes addr ++ after) start (omega arith),
        boot_get32-word_bytes addr after start (omega arith),
        boot_get32-word_bytes (length code)
            (word_bytes cksum ++ (word_bytes put_code ++ (code ++ rest))) start (omega arith),
        boot_get32-word_bytes cksum (word_bytes put_code ++ (code ++ rest)) start sum,
        no_overlap,
        boot_put32-word_bytes get_code_op (word_bytes put_code ++ (code ++ rest)) start,
        boot_put32-word_bytes cksum (word_bytes put_code ++ (code ++ rest))
            (start ++ word_bytes get_code_op),
        boot_get32-word_bytes put_code (code ++ rest) out (omega arith),
        copy_code_lem addr 0 code rest out mem,
        mem_bytes-stored mem addr 0 code (omega arith),
      )
      (elim (Bool-cases (crc32 code == cksum)) [
        | inl e ↦
            rw
              (
                e,
                boot_putk_lem success_msg rest out,
                boot_put32-word_bytes boot_success rest (printed out success_msg),
              )
              refl
        | inr e ↦
            rw
              (
                e,
                boot_putk_lem crc_msg rest out,
                boot_put32-word_bytes boot_error rest (printed out crc_msg),
              )
              refl
      ])
