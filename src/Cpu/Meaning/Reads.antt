-- ===== src/Cpu/Meaning/Reads.antt =====
-- The readers after an operation that computes all six flags.
use pico_cpu.Prelude.{
  ℕ, zero, suc, ◌+◌, ◌-◌, ◌*◌, ◌/◌, ◌%◌, ◌^◌, ◌<◌, ◌≡◌, sym, ap, ap₂, ◌∙◌, bit_and, bit_xor, Bool,
  ◌&&◌, nonzero, differ, arith, bit, leb, ◌==◌,
}
use native.Mathlib.Nat.{pow-suc, mod-lt, one-le-pow}
use pico_cpu.Prelude.Bits.Digits.{bit-bit_and, bit-bit_xor}
use pico_cpu.Prelude.Bits.Masks.{nonzero_single, bit_low, bit-suc}
use pico_cpu.Cpu.Rflags
use pico_cpu.Cpu.Widths.{mask_for, sign_mask, IsSize}
use pico_cpu.Cpu.Widths.Laws.{bit_and-mask_for, nonzero-sign_mask}
use pico_cpu.Cpu.Flags.Bits.{zero_flag, sign_flag, parity_flag}
use pico_cpu.Cpu.Flags.Merge.{flag_word, bit-flag_word, bit-merge}
use pico_cpu.Cpu.Lazy.{merge}

module _ (p s r : ℕ) (c o a : Bool) where
  abbrev word : ℕ
  word = merge p (flag_word Rflags.always_one s r c o a)

  pub word-cf : nonzero (bit_and word Rflags.cf) ≡ c
  word-cf =
      nonzero_single 0 word
      ∙ bit-merge p _ 0 (omega arith)
      ∙ bit-flag_word 2 s r 0 c o a (omega arith)

  pub word-of : nonzero (bit_and word Rflags.of) ≡ o
  word-of =
      nonzero_single 11 word
      ∙ bit-merge p _ 11 (omega arith)
      ∙ bit-flag_word 2 s r 11 c o a (omega arith)

  pub word-zf : nonzero (bit_and word Rflags.zf) ≡ zero_flag s r
  word-zf =
      nonzero_single 6 word
      ∙ bit-merge p _ 6 (omega arith)
      ∙ bit-flag_word 2 s r 6 c o a (omega arith)

  pub word-sf : nonzero (bit_and word Rflags.sf) ≡ sign_flag s r
  word-sf =
      nonzero_single 7 word
      ∙ bit-merge p _ 7 (omega arith)
      ∙ bit-flag_word 2 s r 7 c o a (omega arith)

  pub word-pf : nonzero (bit_and word Rflags.pf) ≡ parity_flag s r
  word-pf =
      nonzero_single 2 word
      ∙ bit-merge p _ 2 (omega arith)
      ∙ bit-flag_word 2 s r 2 c o a (omega arith)

-- The top bit of a value of `n + 1` bits.
pub top_bit : (n x : ℕ) → x < 2 ^ suc n → bit x n ≡ leb (2 ^ n) x
top_bit zero x h = bit_low x ∙ one_bit
  where
    one_bit : (x % 2 == 1) ≡ leb (2 ^ 0) x
    one_bit = ground arith
top_bit (suc n) x h =
    bit-suc x n
    ∙ top_bit n (x / 2) (omega (arith, pow-suc 2 (suc n), pow-suc 2 n))
    ∙ halved (2 ^ n) (2 ^ suc n) (pow-suc 2 n)
  where
    halved : (m m' : ℕ) → m' ≡ m * 2 → leb m (x / 2) ≡ leb m' x
    halved m m' e = ground arith

-- The modulus of a width, and the weight of its sign bit.
abbrev pub modulus : ℕ → ℕ
modulus s = 2 ^ (s * 8)

abbrev pub top : ℕ → ℕ
top s = 2 ^ (s * 8 - 1)

module _ (s : ℕ) (h : IsSize s) where
  one_more : suc (s * 8 - 1) ≡ s * 8
  one_more = omega arith

  pub modulus-eq-top : modulus s ≡ top s + top s
  modulus-eq-top = ap (λ (t : ℕ). 2 ^ t) (sym one_more) ∙ omega (arith, pow-suc 2 (s * 8 - 1))

  sign_bit : (v : ℕ) → v < modulus s → bit v (s * 8 - 1) ≡ leb (top s) v
  sign_bit v hv = top_bit (s * 8 - 1) v (rw one_more hv)

  -- `(v & sign_mask) != 0`, for a masked value.
  pub sign_test : (v : ℕ) → v < modulus s → nonzero (bit_and v (sign_mask s)) ≡ leb (top s) v
  sign_test v hv = nonzero-sign_mask v s h ∙ sign_bit v hv

  -- `((v ^ w) & (u ^ t) & sign_mask) != 0`, for masked values.
  pub overflow_test :
      (v w u t : ℕ)
      → v < modulus s
      → w < modulus s
      → u < modulus s
      → t < modulus s
      → nonzero (bit_and (bit_and (bit_xor v w) (bit_xor u t)) (sign_mask s))
        ≡ (differ (leb (top s) v) (leb (top s) w) && differ (leb (top s) u) (leb (top s) t))
  overflow_test v w u t hv hw hu ht =
      nonzero-sign_mask _ s h
      ∙ bit-bit_and (bit_xor v w) (bit_xor u t) (s * 8 - 1)
      ∙ ap₂ ◌&&◌ (bit-bit_xor v w (s * 8 - 1) ∙ ap₂ differ (sign_bit v hv) (sign_bit w hw))
          (bit-bit_xor u t (s * 8 - 1) ∙ ap₂ differ (sign_bit u hu) (sign_bit t ht))

  pub masked-lt : (x : ℕ) → bit_and x (mask_for s) < modulus s
  masked-lt x = rw (bit_and-mask_for x s h) (mod-lt x (one-le-pow (s * 8) 2 (omega arith)))
