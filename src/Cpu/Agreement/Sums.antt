-- ===== src/Cpu/Agreement/Sums.antt =====
-- ADD, ADC, SUB and SBB: the lazy word is the word of the eager reference.
use pico_cpu.Prelude.{
  ℕ, ◌*◌, ◌%◌, ◌^◌, ◌<◌, ◌≡◌, sym, ◌∙◌, bit_and, bit_or, bit_xor, Bool, false, nonzero, to_bit,
  arith, add64, sub64, if◌then◌else◌, ltb, leb, subst,
}
use native.Mathlib.Nat.{mod-lt, one-le-pow}
use pico_cpu.Cpu.Rflags
use pico_cpu.Cpu.Widths.{mask_for, sign_mask, IsSize}
use pico_cpu.Cpu.Widths.Laws.{
  bit_and-mask_for, mask_idem, recover_add, recover_sub, carry_means, masked_sum, to_bit-lt,
}
use pico_cpu.Cpu.Flags.{apply_zsp, compute_add, compute_adc, compute_sub, compute_sbb}
use pico_cpu.Cpu.Flags.Merge.{flag_word, merge-flag_word}
use pico_cpu.Cpu.Lazy.{
  LazyFlags, merge, sync_flags, computed, stash_add, stash_adc, stash_sub, stash_sbb,
}
use pico_cpu.Cpu.Eager.{
  set_flags_add_eager, set_flags_adc_eager, set_flags_sub_eager, set_flags_sbb_eager,
}

-- `apply_zsp` masks its argument itself.
pub apply_zsp_masked :
    (y r s : ℕ) → IsSize s → apply_zsp y s (bit_and r (mask_for s)) ≡ apply_zsp y s r
unfolding apply_zsp
apply_zsp_masked y r s h = rw (mask_idem r s h)

-- The words of a sum and of a difference, from the masked operands `x`, `y` and result `z`.
abbrev sum_word : ℕ → ℕ → ℕ → ℕ → ℕ → ℕ → Bool → ℕ
sum_word p s r x y z c =
    flag_word p s r c (nonzero (bit_and (bit_and (bit_xor x z) (bit_xor y z)) (sign_mask s)))
      (nonzero (bit_and (bit_xor (bit_xor x y) z) 0x10))

abbrev difference_word : ℕ → ℕ → ℕ → ℕ → ℕ → ℕ → Bool → ℕ
difference_word p s r x y z c =
    flag_word p s r c (nonzero (bit_and (bit_and (bit_xor x y) (bit_xor x z)) (sign_mask s)))
      (nonzero (bit_and (bit_xor (bit_xor x y) z) 0x10))

nonzero-to_bit : (b : Bool) → nonzero (to_bit b) ≡ b
nonzero-to_bit b = ground arith

module _ (p s r : ℕ) (h : IsSize s) (hp : p < 2 ^ 64) where
  sum_agrees :
      (x x' y z : ℕ) (c c' : Bool)
      → x' ≡ x
      → c' ≡ c
      → merge p (sum_word Rflags.always_one s (bit_and r (mask_for s)) x' y z c')
        ≡ bit_or (sum_word p s r x y z c) Rflags.always_one
  sum_agrees x x' y z c c' ex ec =
      rw (ex, ec, apply_zsp_masked Rflags.always_one r s h) (merge-flag_word p s r c _ _ hp)

  difference_agrees :
      (x x' y z : ℕ) (c c' : Bool)
      → x' ≡ x
      → c' ≡ c
      → merge p (difference_word Rflags.always_one s (bit_and r (mask_for s)) x' y z c')
        ≡ bit_or (difference_word p s r x y z c) Rflags.always_one
  difference_agrees x x' y z c c' ex ec =
      rw (ex, ec, apply_zsp_masked Rflags.always_one r s h) (merge-flag_word p s r c _ _ hp)

-- `r = (a + b) & m` and `(a + b + 0) & m`.
pub add64-zero : (a b : ℕ) → add64 (add64 a b) 0 ≡ add64 a b
add64-zero a b = omega arith

pub sub64-zero : (a b : ℕ) → sub64 (sub64 a b) 0 ≡ sub64 a b
sub64-zero a b = omega arith

module _ (s a b : ℕ) (h : IsSize s) where
  abbrev m : ℕ
  m = mask_for s

  mask-lt : (x : ℕ) → bit_and x m < 2 ^ (s * 8)
  mask-lt x = rw (bit_and-mask_for x s h) (mod-lt x (one-le-pow (s * 8) 2 (omega arith)))

  -- The lazy path compares the result with `b` and the eager path with `a`: it is one carry.
  carry_swap :
      (cin : Bool)
      → let z = bit_and (bit_and (add64 (add64 a b) (to_bit cin)) m) m in
        (if cin then leb z (bit_and b m) else ltb z (bit_and b m))
        ≡ (if cin then leb z (bit_and a m) else ltb z (bit_and a m))
  carry_swap cin = rw (masked_sum a b (to_bit cin) s h) (
      carry_means (2 ^ (s * 8)) (bit_and a m) (bit_and b m) cin (mask-lt a) (mask-lt b)
      ∙ sym (
          subst
            (λ (t : ℕ).
              (if cin
                then leb (t % 2 ^ (s * 8)) (bit_and a m)
                else ltb (t % 2 ^ (s * 8)) (bit_and a m))
              ≡ leb (2 ^ (s * 8)) t)
            (omega arith)
            (carry_means (2 ^ (s * 8)) (bit_and b m) (bit_and a m) cin (mask-lt b) (mask-lt a))))

  -- After ADC, with either carry in, the lazy flags are the RFLAGS word of the eager reference,
  -- at every width, for an RFLAGS word below 2^64.
  pub stash_adc-eager :
      (cin : Bool) (c : LazyFlags)
      → c.rflags < 2 ^ 64
      → let r = bit_and (add64 (add64 a b) (to_bit cin)) m in
        (sync_flags (stash_adc s b cin r c)).rflags ≡ (set_flags_adc_eager s a b cin r c).rflags
  unfolding sync_flags computed stash_adc set_flags_adc_eager compute_adc
  stash_adc-eager cin c hp =
      let z = bit_and (bit_and (add64 (add64 a b) (to_bit cin)) m) m in
      rw (nonzero-to_bit cin) (
        sum_agrees c.rflags s (bit_and (add64 (add64 a b) (to_bit cin)) m) h hp (bit_and a m)
          (bit_and (sub64 (sub64 z (bit_and b m)) (to_bit cin)) m) (bit_and b m) z
          (if cin then leb z (bit_and a m) else ltb z (bit_and a m))
          (if cin then leb z (bit_and b m) else ltb z (bit_and b m))
          (recover_add a b (to_bit cin) s (to_bit-lt cin) h) (carry_swap cin))

  -- After ADD the lazy flags, once synced, are the whole RFLAGS word of the eager reference, at
  -- every width, for an RFLAGS word below 2^64.
  pub stash_add-eager :
      (c : LazyFlags)
      → c.rflags < 2 ^ 64
      → let r = bit_and (add64 a b) m in
        (sync_flags (stash_add s b r c)).rflags ≡ (set_flags_add_eager s a b r c).rflags
  unfolding sync_flags computed stash_add set_flags_add_eager compute_add
  stash_add-eager c hp =
      let z = bit_and (bit_and (add64 a b) m) m in
      sum_agrees c.rflags s (bit_and (add64 a b) m) h hp (bit_and a m)
        (bit_and (sub64 z (bit_and b m)) m) (bit_and b m) z (ltb z (bit_and a m))
        (ltb z (bit_and b m))
        (rw (← sub64-zero z (bit_and b m), ← add64-zero a b) (recover_add a b 0 s (omega arith) h))
        (rw (← add64-zero a b) (carry_swap false))

  -- After SBB, with either borrow in, the lazy flags are the RFLAGS word of the eager reference,
  -- at every width, for a second operand and an RFLAGS word below 2^64.
  pub stash_sbb-eager :
      (bin : Bool) (c : LazyFlags)
      → b < 2 ^ 64
      → c.rflags < 2 ^ 64
      → let r = bit_and (sub64 (sub64 a b) (to_bit bin)) m in
        (sync_flags (stash_sbb s b bin r c)).rflags ≡ (set_flags_sbb_eager s a b bin r c).rflags
  unfolding sync_flags computed stash_sbb set_flags_sbb_eager compute_sbb
  stash_sbb-eager bin c hb hp =
      let z = bit_and (bit_and (sub64 (sub64 a b) (to_bit bin)) m) m in
      let x = bit_and a m in
      let x' = bit_and (add64 (add64 z (bit_and b m)) (to_bit bin)) m in
      let back : x' ≡ x = recover_sub a b (to_bit bin) s (to_bit-lt bin) hb h in
      rw (nonzero-to_bit bin) (
        difference_agrees c.rflags s (bit_and (sub64 (sub64 a b) (to_bit bin)) m) h hp x x'
          (bit_and b m) z (if bin then leb x (bit_and b m) else ltb x (bit_and b m))
          (if bin then leb x' (bit_and b m) else ltb x' (bit_and b m)) back (rw back))

  -- After SUB and CMP the lazy flags, once synced, are the whole RFLAGS word of the eager
  -- reference, at every width, for a second operand and an RFLAGS word below 2^64.
  pub stash_sub-eager :
      (c : LazyFlags)
      → b < 2 ^ 64
      → c.rflags < 2 ^ 64
      → let r = bit_and (sub64 a b) m in
        (sync_flags (stash_sub s b r c)).rflags ≡ (set_flags_sub_eager s a b r c).rflags
  unfolding sync_flags computed stash_sub set_flags_sub_eager compute_sub
  stash_sub-eager c hb hp =
      let z = bit_and (bit_and (sub64 a b) m) m in
      let x = bit_and a m in
      let x' = bit_and (add64 z (bit_and b m)) m in
      let back : x' ≡ x =
        rw (← add64-zero z (bit_and b m), ← sub64-zero a b)
          (recover_sub a b 0 s (omega arith) hb h) in
      difference_agrees c.rflags s (bit_and (sub64 a b) m) h hp x x' (bit_and b m) z
        (ltb x (bit_and b m)) (ltb x' (bit_and b m)) back (rw back)
