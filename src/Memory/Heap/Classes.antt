-- ===== src/Memory/Heap/Classes.antt =====
-- The size classes: which block a request gets.
use pico_cpu.Prelude.{
  ℕ, ◌+◌, ◌*◌, ◌/◌, ◌^◌, ◌<◌, ◌≤◌, ◌≡◌, arith, add64, not64, if◌then◌else◌, ltb, lt→ltb, ◌∙◌, ◌⊎◌,
  Bool-cases, ltb→lt, inl, inr, false,
}
use pico_cpu.Prelude.Bits.Step.{bit_and_step}
use pico_cpu.Prelude.Bits.Masks.{bit_and_low}
use pico_cpu.Memory.Heap.{round_up, class_loop, class_for, block_size, align}

-- Sixteen bytes at a time.
round_up_lem : (v : ℕ) → v + 15 < 2 ^ 64 → round_up v 16 ≡ (v + 15) / 16 * 16
unfolding round_up
round_up_lem v h =
    let x = add64 v 15 in
    let m = not64 15 in
    omega (
      arith,
      bit_and_step x m,
      bit_and_step (x / 2) (m / 2),
      bit_and_step (x / 2 / 2) (m / 2 / 2),
      bit_and_step (x / 2 / 2 / 2) (m / 2 / 2 / 2),
      bit_and_low 60 (x / 2 / 2 / 2 / 2),
    )

-- The size that the loop looks for a class for.
abbrev rounded : ℕ → ℕ
rounded bytes = round_up (if ltb bytes align then align else bytes) align

rounded_small : (bytes : ℕ) → bytes < 16 → rounded bytes ≡ 16
rounded_small bytes h = rw (lt→ltb bytes 16 h) (round_up_lem 16 (omega arith) ∙ numeral)
  where
    numeral : (16 + 15) / 16 * 16 ≡ 16
    numeral = omega arith

rounded_large :
    (bytes : ℕ) → 16 ≤ bytes → bytes + 15 < 2 ^ 64 → rounded bytes ≡ (bytes + 15) / 16 * 16
rounded_large bytes h k = rw not_small (round_up_lem bytes k)
  where
    not_small : ltb bytes 16 ≡ false
    not_small = ground arith

-- What the loop finds for a size that has a class, and for one that has none.
loop_fits :
    (q : ℕ)
    → q ≤ 2 ^ 15
    → let block = block_size (class_loop 15 0 16 (q * 16)) in
      (q * 16 ≤ block) × ((block ≡ 16) ⊎ (block + 32 ≤ q * 16 + q * 16))
unfolding class_loop
loop_fits q h = ground arith

loop_capped : (q : ℕ) → 2 ^ 15 ≤ q → block_size (class_loop 15 0 16 (q * 16)) ≡ 2 ^ 19
unfolding class_loop
loop_capped q h = ground arith

-- A request of at most 512 KiB gets a class whose block holds it, of 16 bytes or of less than
-- twice the request.
pub class_for-fits :
    (bytes : ℕ)
    → bytes ≤ 2 ^ 19
    → let block = block_size (class_for bytes) in
      (bytes ≤ block) × ((block ≡ 16) ⊎ (block < bytes + bytes))
unfolding class_for
class_for-fits bytes h = elim (Bool-cases (ltb bytes 16)) [
  | inl e ↦
      let small = ltb→lt bytes 16 e in
      rw (rounded_small bytes small)
        (let (a, b) = loop_fits 1 (omega arith) in (omega arith, omega arith))
  | inr e ↦
      let large : 16 ≤ bytes = ground arith in
      rw (rounded_large bytes large (omega arith))
        (let (a, b) = loop_fits ((bytes + 15) / 16) (omega arith) in (omega arith, omega arith))
]

-- A request above 512 KiB gets the class of the blocks of 512 KiB, for a request below 2^64 -
-- 15.
pub class_for-capped :
    (bytes : ℕ) → 2 ^ 19 < bytes → bytes + 15 < 2 ^ 64 → block_size (class_for bytes) ≡ 2 ^ 19
unfolding class_for
class_for-capped bytes h k =
    rw (rounded_large bytes (omega arith) k) (loop_capped ((bytes + 15) / 16) (omega arith))

loop_bounded : (sz : ℕ) → block_size (class_loop 15 0 16 sz) ≤ 2 ^ 19
unfolding class_loop
loop_bounded sz = ground arith

pub block_size-class_for : (bytes : ℕ) → block_size (class_for bytes) ≤ 2 ^ 19
unfolding class_for
block_size-class_for bytes = loop_bounded (rounded bytes)
