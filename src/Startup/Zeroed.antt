-- ===== src/Startup/Zeroed.antt =====
-- What is 0 when `notmain` is called.
use cs140e_final_parallel_co.Base.{
  ℕ, zero, suc, ◌+◌, ◌-◌, ◌*◌, ◌<◌, ◌≤◌, ◌≡◌, ◌≢◌, refl, ap, ◌∙◌, fun_ext, true, false, ◌&&◌, ◌||◌,
  arith, ltb, leb, ◌==◌, if◌then◌else◌, Bool-cases, inl, inr, none, some,
}
use cs140e_final_parallel_co.Libc.{Memory, put_byte, memset}
use cs140e_final_parallel_co.Libc.Fill.{filled, memset-filled}
use cs140e_final_parallel_co.Startup.{
  redzone_word, redzone_loop, redzone_check, redzone_init, zero_bss, cstart, rz_nbytes,
}

redzone_loop_zero :
    (left i nfail : ℕ) (m : Memory)
    → ((k : ℕ) → i * 4 ≤ k → k < (i + left) * 4 → m k ≡ 0)
    → redzone_loop left i nfail m ≡ nfail
unfolding redzone_loop redzone_word
redzone_loop_zero zero i nfail m h = refl
redzone_loop_zero (suc left) i nfail m h =
    let same : (if redzone_word (i * 4) m == 0 then nfail else nfail + 1) ≡ nfail = ground (
      arith,
      h (i * 4) (omega arith) (omega arith),
      h (i * 4 + 1) (omega arith) (omega arith),
      h (i * 4 + 2) (omega arith) (omega arith),
      h (i * 4 + 3) (omega arith) (omega arith),
    ) in
    ap (λ n. redzone_loop left (i + 1) n m) same
    ∙ redzone_loop_zero left (i + 1) nfail m (λ k lo hi. h k (omega arith) (omega arith))

zero_bss-filled : (left bss : ℕ) (m : Memory) → zero_bss left bss m ≡ filled bss left 0 m
unfolding zero_bss put_byte
zero_bss-filled zero bss m = fun_ext λ x. ground arith
zero_bss-filled (suc left) bss m =
    zero_bss-filled left (bss + 1) (put_byte bss 0 m) ∙ fun_ext (λ x. ground arith)

redzone_loop-grows : (left i nfail : ℕ) (m : Memory) → nfail ≤ redzone_loop left i nfail m
unfolding redzone_loop
redzone_loop-grows zero i nfail m = omega arith
redzone_loop-grows (suc left) i nfail m =
    ground (
      arith,
      redzone_loop-grows left (i + 1) nfail m,
      redzone_loop-grows left (i + 1) (nfail + 1) m,
    )

redzone_word-zero : (p k : ℕ) (m : Memory) → redzone_word p m ≡ 0 → p ≤ k → k < p + 4 → m k ≡ 0
unfolding redzone_word
redzone_word-zero p k m e lo hi = ground arith

redzone_loop-fails :
    (left i k nfail : ℕ) (m : Memory)
    → i * 4 ≤ k
    → k < (i + left) * 4
    → m k ≢ 0
    → nfail < redzone_loop left i nfail m
unfolding redzone_loop redzone_word
redzone_loop-fails zero i k nfail m lo hi ne = absurd (omega arith)
redzone_loop-fails (suc left) i k nfail m lo hi ne =
    elim (Bool-cases (redzone_word (i * 4) m == 0)) [
      | inl e ↦
          let past : (leb (i * 4 + 4) k) ≡ true =
            ground (arith, redzone_word-zero (i * 4) k m, e) in
          rw e (redzone_loop-fails left (i + 1) k nfail m (ground arith) (omega arith) ne)
      | inr e ↦
          let grows = redzone_loop-grows left (i + 1) (nfail + 1) m in rw e (omega (arith, grows))
    ]

-- `redzone_check` returns 1 where the first 4096 bytes are 0, and panics where one of them is not.
pub redzone_check_lem :
    (m : Memory)
    → (((k : ℕ) → k < 4096 → m k ≡ 0) → redzone_check m ≡ some 1)
      × ((k : ℕ) → k < 4096 → m k ≢ 0 → redzone_check m ≡ none)
unfolding redzone_check
redzone_check_lem m = (
  (λ h. rw (redzone_loop_zero 1024 0 0 m (λ k lo hi. h k (omega arith))) refl),
  (λ k hi ne.
      let fails = redzone_loop-fails 1024 0 k 0 m (omega arith) (omega arith) ne in
      let bad : (redzone_loop 1024 0 0 m == 0) ≡ false = ground arith in rw bad refl),
)

-- When `notmain` is called, the first 4096 bytes and the bss section are 0 and the rest of memory is
-- as it was loaded; the check of the red zone does not panic.
pub cstart-zeroed :
    (bss_start bss_end : ℕ) (m : Memory)
    → (m' : Memory) × (cstart bss_start bss_end m ≡ some m')
      × ((x : ℕ) → m' x ≡ (if ltb x 4096 || (leb bss_start x && ltb x bss_end) then 0 else m x))
unfolding cstart redzone_init
cstart-zeroed bss_start bss_end m =
    let left = bss_end - bss_start in
    let bss = filled bss_start left 0 m in
    let m' = filled 0 4096 0 bss in
    let cleared : (memset 0 0 rz_nbytes bss).1 ≡ m' = ap (λ r. r.1) (memset-filled 0 0 4096 bss) in
    (
      m',
      rw
          (
            zero_bss-filled left bss_start m,
            cleared,
            (redzone_check_lem m').0 (λ k hi. ground arith),
          )
          refl,
      λ x. ground arith,
    )
