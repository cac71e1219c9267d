-- ===== src/Prelude/Bits/Step.antt =====
-- What the lowest binary digits make of `a & b`, `a | b` and `a ^ b`: one law for the three, from
-- the recursion on digits that the native operations stand for.
use Prim.Native.Nat.{
  ℕ, zero, suc, ◌+◌, ◌*◌, ◌/◌, ◌%◌, ◌≤◌, min, max, differ, digits, bitwise, bit_and, bit_or,
  bit_xor, bit_and-bitwise, bit_or-bitwise, bit_xor-bitwise,
}
use mathlib.Core.Path.{◌≡◌, refl, sym, ◌∙◌}
use native.Mathlib.Omega.{arith}

-- `rest` is what the operation gives once the first operand is used up.
module _ (rest : ℕ → ℕ) (f : ℕ → ℕ → ℕ) where
  used_up : (fuel b : ℕ) → digits rest f fuel zero b ≡ rest b
  used_up zero b = refl
  used_up (suc fuel) b = refl

  same_digits : (a b m n : ℕ) → a ≤ m → a ≤ n → digits rest f m a b ≡ digits rest f n a b
  same_digits zero b m n h k = used_up m b ∙ sym (used_up n b)
  same_digits (suc a) b zero n h k = absurd (omega arith)
  same_digits (suc a) b (suc m) zero h k = absurd (omega arith)
  same_digits (suc a) b (suc m) (suc n) h k =
      let ih = same_digits (suc a / 2) (b / 2) m n (omega arith) (omega arith) in omega arith

  module _ (op : ℕ → ℕ → ℕ) (means : (a b : ℕ) → op a b ≡ bitwise rest f a b)
      (low : (b : ℕ) → rest b ≡ rest (b / 2) * 2 + f 0 (b % 2)) where
    pub digit_law : (a b : ℕ) → op a b ≡ op (a / 2) (b / 2) * 2 + f (a % 2) (b % 2)
    digit_law zero b = omega (arith, means 0 b, means 0 (b / 2), low b)
    digit_law (suc a) b =
        let half = suc a / 2 in
        let shorter = same_digits half (b / 2) a half (omega arith) (omega arith) in
        omega (arith, means (suc a) b, means half (b / 2), shorter)

pub bit_and_step : (a b : ℕ) → bit_and a b ≡ bit_and (a / 2) (b / 2) * 2 + min (a % 2) (b % 2)
bit_and_step = digit_law (λ y. 0) min bit_and bit_and-bitwise (λ b. omega arith)

pub bit_or_step : (a b : ℕ) → bit_or a b ≡ bit_or (a / 2) (b / 2) * 2 + max (a % 2) (b % 2)
bit_or_step = digit_law (λ y. y) max bit_or bit_or-bitwise (λ b. omega arith)

pub bit_xor_step : (a b : ℕ) → bit_xor a b ≡ bit_xor (a / 2) (b / 2) * 2 + differ (a % 2) (b % 2)
bit_xor_step = digit_law (λ y. y) differ bit_xor bit_xor-bitwise (λ b. omega arith)
