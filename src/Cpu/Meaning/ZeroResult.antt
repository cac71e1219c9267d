-- ===== src/Cpu/Meaning/ZeroResult.antt =====
-- The flags after a logic operation with the result 0: ZF is set, CF, OF and SF are clear.
use pico_cpu.Prelude.{ℕ, ◌≡◌, ap, ◌∙◌, bit_and, true, false, nonzero, ◌==◌, arith}
use pico_cpu.Prelude.Bits.Masks.{nonzero_single, bit_and-lt}
use pico_cpu.Cpu.Rflags
use pico_cpu.Cpu.Widths.{mask_for, sign_mask}
use pico_cpu.Cpu.Flags.{apply_zsp, compute_logic}
use pico_cpu.Cpu.Flags.Bits.{bit-apply_zsp}
use pico_cpu.Cpu.Flags.Merge.{bit-merge}
use pico_cpu.Cpu.Lazy.{LazyFlags, sync_flags, computed, merge, stash_logic, cf, zf, sf, of}

zero_and : (x : ℕ) → bit_and 0 x ≡ 0
zero_and x = omega (arith, bit_and-lt 0 0 x)

module _ (s : ℕ) (c : LazyFlags) where
  abbrev pub after_zero : LazyFlags
  after_zero = stash_logic s 0 c

  abbrev word : ℕ
  word = merge c.rflags (apply_zsp Rflags.always_one s 0)

  pub zf-zero_result : zf after_zero ≡ true
  unfolding zf sync_flags computed stash_logic compute_logic
  zf-zero_result =
      nonzero_single 6 word
      ∙ bit-merge c.rflags _ 6 (omega arith)
      ∙ bit-apply_zsp 2 s 0 6 (omega arith)
      ∙ ap (λ n. n == 0) (zero_and (mask_for s))

  pub cf-zero_result : cf after_zero ≡ false
  unfolding cf sync_flags computed stash_logic compute_logic
  cf-zero_result =
      nonzero_single 0 word
      ∙ bit-merge c.rflags _ 0 (omega arith)
      ∙ bit-apply_zsp 2 s 0 0 (omega arith)

  pub of-zero_result : of after_zero ≡ false
  unfolding of sync_flags computed stash_logic compute_logic
  of-zero_result =
      nonzero_single 11 word
      ∙ bit-merge c.rflags _ 11 (omega arith)
      ∙ bit-apply_zsp 2 s 0 11 (omega arith)

  pub sf-zero_result : sf after_zero ≡ false
  unfolding sf sync_flags computed stash_logic compute_logic
  sf-zero_result =
      nonzero_single 7 word
      ∙ bit-merge c.rflags _ 7 (omega arith)
      ∙ bit-apply_zsp 2 s 0 7 (omega arith)
      ∙ ap (λ n. nonzero (bit_and n (sign_mask s))) (zero_and (mask_for s))
      ∙ ap nonzero (zero_and (sign_mask s))
