-- ===== src/Boot/Load/Outcomes.antt =====
-- The ways in which `get_code` ends.
use cs140e_final_parallel_co.Base.{
  ℕ, suc, ◌+◌, ◌*◌, ◌^◌, ◌≤◌, ◌<◌, ◌≡◌, ◌≢◌, ◌⊎◌, refl, sym, ◌∙◌, true, false, ◌&&◌, not, List, [],
  ◌∷◌, ◌++◌, some, arith, ltb, u32, length, ==_refl, ne→==,
}
use cs140e_final_parallel_co.Circular.{word_bytes}
use cs140e_final_parallel_co.Crc.{crc32}
use cs140e_final_parallel_co.Crc.Division.{Bytes}
use cs140e_final_parallel_co.Crc.Detection.{crc32-lt, crc32_one_byte, Bytes-append}
use cs140e_final_parallel_co.Boot.{get_prog_info, put_prog_info, boot_success, boot_error}
use cs140e_final_parallel_co.Boot.Port.{done, panicked, rebooted}
use cs140e_final_parallel_co.Boot.Words.{port, boot_get32-word_bytes}
use cs140e_final_parallel_co.Boot.Pi.{
  Look, has_data_timeout, mem_bytes, success_msg, crc_msg, get_code,
}
use cs140e_final_parallel_co.Boot.Load.{
  TimedOut, repeated, stored, host_bytes, request_bytes, report, wait_for_data_lem,
  mem_bytes-stored, get_code_lem,
}

module _ (lo hi addr : ℕ) (calls later : List (List Look)) (last : List Look) (mem : ℕ → ℕ)
    (rest : List ℕ) (misses : TimedOut calls)
    (hit : has_data_timeout (300 * 1000) last ≡ some true) where
  -- Code that comes with its checksum, ends inside the address space and does not overlap the loader
  -- is in memory at the address when `get_code` returns, and the Pi has reported success.
  pub get_code_loads :
      (code : List ℕ)
      → Bytes code
      → addr + length code < 2 ^ 32
      → (addr + length code ≤ lo) ⊎ (hi ≤ addr)
      → (mem' : ℕ → ℕ) × (get_code lo hi
            (calls ++ last ∷ later)
            mem
            (port (host_bytes addr (crc32 code) code rest) [])
          ≡ done
              (addr, mem')
              (port rest (
                report (request_bytes (suc (length calls)) (crc32 code)) success_msg boot_success)))
        × (mem_bytes mem' addr (length code) 0 ≡ code)
  get_code_loads code bytes fits apart = (
    stored mem addr 0 code,
    get_code_lem lo hi addr (crc32 code) calls later last mem code rest misses hit fits
          (crc32-lt code bytes) apart
        ∙ rw (==_refl (crc32 code)) refl,
    mem_bytes-stored mem addr 0 code (omega arith),
  )

  -- Where one byte of the code differs from the code whose checksum was sent, `get_code` reports the
  -- error and reboots.
  pub get_code_detects :
      (xs ys : List ℕ) (b b' : ℕ)
      → Bytes xs
      → Bytes ys
      → b < 2 ^ 8
      → b' < 2 ^ 8
      → b ≢ b'
      → addr + length (xs ++ b' ∷ ys) < 2 ^ 32
      → (addr + length (xs ++ b' ∷ ys) ≤ lo) ⊎ (hi ≤ addr)
      → let cksum = crc32 (xs ++ b ∷ ys) in
        get_code lo hi
          (calls ++ last ∷ later)
          mem
          (port (host_bytes addr cksum (xs ++ b' ∷ ys) rest) [])
        ≡ rebooted (report (request_bytes (suc (length calls)) cksum) crc_msg boot_error)
  get_code_detects xs ys b b' hxs hys hb hb' ne fits apart =
      let cksum = crc32 (xs ++ b ∷ ys) in
      get_code_lem lo hi addr cksum calls later last mem (xs ++ b' ∷ ys) rest misses hit fits
        (crc32-lt (xs ++ b ∷ ys) (Bytes-append xs (b ∷ ys) hxs (hb, hys))) apart
      ∙ rw
          (ne→== (crc32 (xs ++ b' ∷ ys)) cksum
            (crc32_one_byte xs ys b' b hxs hys hb' hb (λ e. ne (sym e))))
          refl

  -- Code that overlaps the loader, which lies between `lo` and `hi`, is refused: `get_code` panics
  -- before it has requested the code.
  pub get_code_refuses :
      (code : List ℕ) (cksum : ℕ)
      → addr + length code < 2 ^ 32
      → cksum < 2 ^ 32
      → lo < addr + length code
      → addr < hi
      → get_code lo hi (calls ++ last ∷ later) mem (port (host_bytes addr cksum code rest) [])
        ≡ panicked (repeated (suc (length calls)) get_prog_info [])
  unfolding get_code
  get_code_refuses code cksum fits sum above below =
      let start = repeated (suc (length calls)) get_prog_info [] in
      let tail = word_bytes 0x77778888 ++ (code ++ rest) in
      let after = word_bytes (length code) ++ (word_bytes cksum ++ tail) in
      let overlap : (not (ltb lo (u32 (addr + length code)) && ltb addr hi)) ≡ false =
        ground arith in
      rw
        (
          wait_for_data_lem calls later last (host_bytes addr cksum code rest) [] misses hit,
          boot_get32-word_bytes put_prog_info (word_bytes addr ++ after) start (omega arith),
          boot_get32-word_bytes addr after start (omega arith),
          boot_get32-word_bytes (length code) (word_bytes cksum ++ tail) start (omega arith),
          boot_get32-word_bytes cksum tail start sum,
          overlap,
        )
        refl
