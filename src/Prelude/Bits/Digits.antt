-- ===== src/Prelude/Bits/Digits.antt =====
-- Each bit of `a & b`, `a | b`, `a ^ b` is computed from the same bit of `a` and of `b`.
use Prim.Native.Nat.{ℕ, zero, suc, ◌+◌, ◌*◌, ◌/◌, ◌%◌, ◌^◌, ◌<◌, min, max, bit_and, bit_or, bit_xor}
use Prim.Native.Nat.{differ as digit_differ}
use mathlib.Core.Path.{◌≡◌, refl, sym, ◌∙◌, ap}
use mathlib.Core.Bool.{◌&&◌, ◌||◌}
use native.Mathlib.Nat.{pow-suc, div-div-eq-div-mul}
use native.Mathlib.Omega.{arith}
use pico_cpu.Prelude.Tests.{◌==◌, differ}
use pico_cpu.Prelude.Words.{bit}
use pico_cpu.Prelude.Bits.Step.{bit_and_step, bit_or_step, bit_xor_step}

pub div-pow-suc : (x k : ℕ) → x / 2 ^ suc k ≡ x / 2 ^ k / 2
div-pow-suc x k = ap (λ (t : ℕ). x / t) (pow-suc 2 k) ∙ sym (div-div-eq-div-mul x (2 ^ k) 2)

-- An operation that works digit by digit commutes with a shift to the right.
module _ (op f : ℕ → ℕ → ℕ) (step : (a b : ℕ) → op a b ≡ op (a / 2) (b / 2) * 2 + f (a % 2) (b % 2))
    (small : (x y : ℕ) → x < 2 → y < 2 → f x y < 2) where
  half-op : (a b : ℕ) → op a b / 2 ≡ op (a / 2) (b / 2)
  half-op a b = omega (arith, step a b, small (a % 2) (b % 2) (omega arith) (omega arith))

  pub op_shift : (k a b : ℕ) → op a b / 2 ^ k ≡ op (a / 2 ^ k) (b / 2 ^ k)
  op_shift zero a b = rw (div_one (op a b), div_one a, div_one b)
    where
      div_one : (x : ℕ) → x / 2 ^ 0 ≡ x
      div_one x = omega arith
  op_shift (suc k) a b =
      rw (div-pow-suc (op a b) k, div-pow-suc a k, div-pow-suc b k)
        (ap (λ (t : ℕ). t / 2) (op_shift k a b) ∙ half-op (a / 2 ^ k) (b / 2 ^ k))

  pub op_digit : (k a b : ℕ) → op a b / 2 ^ k % 2 ≡ f (a / 2 ^ k % 2) (b / 2 ^ k % 2)
  op_digit k a b = omega (
    arith,
    op_shift k a b,
    step (a / 2 ^ k) (b / 2 ^ k),
    small (a / 2 ^ k % 2) (b / 2 ^ k % 2) (omega arith) (omega arith),
  )

min_small : (x y : ℕ) → x < 2 → y < 2 → min x y < 2
min_small x y h k = omega arith

max_small : (x y : ℕ) → x < 2 → y < 2 → max x y < 2
max_small x y h k = omega arith

digit_differ_small : (x y : ℕ) → x < 2 → y < 2 → digit_differ x y < 2
digit_differ_small zero y h k = k
digit_differ_small (suc x) zero h k = h
digit_differ_small (suc x) (suc y) h k = digit_differ_small x y (omega arith) (omega arith)

min_test : (x y : ℕ) → x < 2 → y < 2 → (min x y == 1) ≡ ((x == 1) && (y == 1))
min_test x y h k = ground arith

max_test : (x y : ℕ) → x < 2 → y < 2 → (max x y == 1) ≡ ((x == 1) || (y == 1))
max_test x y h k = ground arith

differ_test : (x y : ℕ) → x < 2 → y < 2 → (digit_differ x y == 1) ≡ differ (x == 1) (y == 1)
differ_test zero zero h k = refl
differ_test zero (suc zero) h k = refl
differ_test (suc zero) zero h k = refl
differ_test (suc zero) (suc zero) h k = refl
differ_test (suc (suc x)) y h k = absurd (omega arith)
differ_test x (suc (suc y)) h k = absurd (omega arith)

pub bit-bit_and : (a b k : ℕ) → bit (bit_and a b) k ≡ (bit a k && bit b k)
bit-bit_and a b k =
    ap (λ (t : ℕ). t == 1) (op_digit bit_and min bit_and_step min_small k a b)
    ∙ min_test (a / 2 ^ k % 2) (b / 2 ^ k % 2) (omega arith) (omega arith)

pub bit-bit_or : (a b k : ℕ) → bit (bit_or a b) k ≡ (bit a k || bit b k)
bit-bit_or a b k =
    ap (λ (t : ℕ). t == 1) (op_digit bit_or max bit_or_step max_small k a b)
    ∙ max_test (a / 2 ^ k % 2) (b / 2 ^ k % 2) (omega arith) (omega arith)

pub bit-bit_xor : (a b k : ℕ) → bit (bit_xor a b) k ≡ differ (bit a k) (bit b k)
bit-bit_xor a b k =
    ap (λ (t : ℕ). t == 1) (op_digit bit_xor digit_differ bit_xor_step digit_differ_small k a b)
    ∙ differ_test (a / 2 ^ k % 2) (b / 2 ^ k % 2) (omega arith) (omega arith)

-- Shifts of the whole word, used for the bounds.
pub bit_or_shift : (k a b : ℕ) → bit_or a b / 2 ^ k ≡ bit_or (a / 2 ^ k) (b / 2 ^ k)
bit_or_shift = op_shift bit_or max bit_or_step max_small

pub bit_and_shift : (k a b : ℕ) → bit_and a b / 2 ^ k ≡ bit_and (a / 2 ^ k) (b / 2 ^ k)
bit_and_shift = op_shift bit_and min bit_and_step min_small
