-- ===== src/Cpu/Agreement/Units.antt =====
-- INC, DEC, NEG and the logical operations against the eager reference.
use pico_cpu.Prelude.{
  ℕ, zero, suc, ◌^◌, ◌<◌, ◌≡◌, sym, ap, ◌∙◌, bit_and, bit_or, Bool, not, nonzero, ◌&&◌, ◌||◌,
  to_bit, arith, add64, sub64, ◌==◌, if◌then◌else◌, bit,
}
use pico_cpu.Prelude.Bits.Masks.{bits_ext, nonzero_single, bit_or-lt, bit_and-lt, bit_two_pow}
use pico_cpu.Cpu.Rflags
use pico_cpu.Cpu.Widths.{mask_for, IsSize}
use pico_cpu.Cpu.Widths.Laws.{recover_inc, recover_dec}
use pico_cpu.Cpu.Flags.{apply_zsp, with_bit, compute_inc, compute_dec, compute_neg, compute_logic}
use pico_cpu.Cpu.Flags.Bits.{
  bit-with_bit, with_bit-lt, apply_zsp-lt, bit-apply_zsp, clear_bits, zero_flag, sign_flag,
  parity_flag,
}
use pico_cpu.Cpu.Flags.Merge.{
  flag_word, merge-flag_word, settled_bit, bit-merge, is_owned, is_arith, arith_bit,
}
use pico_cpu.Cpu.Lazy.{
  LazyFlags, merge, sync_flags, computed, stash_inc, stash_dec, stash_neg, stash_logic, CcOp,
  save_carry,
}
use pico_cpu.Cpu.Eager.{
  set_flags_inc_eager, set_flags_dec_eager, set_flags_neg_eager, set_flags_logical_eager,
}
use pico_cpu.Cpu.Agreement.Sync.{sync_flags-lt, merge-lt}
use pico_cpu.Cpu.Agreement.Sums.{apply_zsp_masked}

-- A flag given its own value is left as it is.
carry_kept :
    (p s r : ℕ) (o a : Bool)
    → p < 2 ^ 64
    → flag_word p s r (nonzero (to_bit (nonzero (bit_and p Rflags.cf)))) o a
      ≡ with_bit (with_bit (apply_zsp p s r) Rflags.of o) Rflags.af a
carry_kept p s r o a hp =
    ap (λ (t : ℕ). with_bit (with_bit t Rflags.of o) Rflags.af a)
      (bits_ext 64 _ _ (with_bit-lt _ 0 _ (apply_zsp-lt p s r hp) (omega arith))
        (apply_zsp-lt p s r hp)
        λ k hk.
          bit-with_bit _ 0 k _ (omega arith) hk
          ∙ own k (nonzero_single 0 p) (bit (apply_zsp p s r) k) (bit-apply_zsp p s r k hk))
  where
    own :
        (k : ℕ) {v : Bool}
        → v ≡ bit p 0
        → (w : Bool)
        → w ≡ (
            if k == 2
            then parity_flag s r
            else if k == 6
            then zero_flag s r
            else if k == 7
            then sign_flag s r
            else bit p k)
        → (if k == 0 then nonzero (to_bit v) else w) ≡ w
    own zero e w ew = ground arith
    own (suc k) e w ew = ground arith

-- The word of INC and DEC, from the carry saved and the one kept.
unit_agrees :
    (p s r : ℕ) (o o' a a' : Bool)
    → IsSize s
    → p < 2 ^ 64
    → o' ≡ o
    → a' ≡ a
    → merge p (
        flag_word Rflags.always_one s
          (bit_and r (mask_for s))
          (nonzero (to_bit (nonzero (bit_and p Rflags.cf))))
          o'
          a')
      ≡ bit_or (with_bit (with_bit (apply_zsp p s r) Rflags.of o) Rflags.af a) Rflags.always_one
unit_agrees p s r o o' a a' h hp eo ea =
    rw (eo, ea, apply_zsp_masked Rflags.always_one r s h)
      (merge-flag_word p s r _ o a hp
        ∙ ap (λ (t : ℕ). bit_or t Rflags.always_one) (carry_kept p s r o a hp))

module _ (s : ℕ) (h : IsSize s) where
  inc_agrees :
      (a : ℕ) (t : LazyFlags)
      → t.rflags < 2 ^ 64
      → let r = bit_and (add64 a 1) (mask_for s) in
        (sync_flags (save_carry CcOp.inc s r t)).rflags ≡ (set_flags_inc_eager s a r t).rflags
  unfolding sync_flags computed set_flags_inc_eager compute_inc
  inc_agrees a t hp =
      unit_agrees t.rflags s (bit_and (add64 a 1) (mask_for s)) _ _ _ _ h hp
        (rw (recover_inc a s h)) (rw (recover_inc a s h))

  dec_agrees :
      (a : ℕ) (t : LazyFlags)
      → t.rflags < 2 ^ 64
      → let r = bit_and (sub64 a 1) (mask_for s) in
        (sync_flags (save_carry CcOp.dec s r t)).rflags ≡ (set_flags_dec_eager s a r t).rflags
  unfolding sync_flags computed set_flags_dec_eager compute_dec
  dec_agrees a t hp =
      unit_agrees t.rflags s (bit_and (sub64 a 1) (mask_for s)) _ _ _ _ h hp
        (rw (recover_dec a s h)) (rw (recover_dec a s h))

  -- After INC the lazy flags are those of the eager reference on the synced state: CF keeps what
  -- was pending, at every width, for an RFLAGS word below 2^64.
  pub stash_inc-eager :
      (a : ℕ) (c : LazyFlags)
      → c.rflags < 2 ^ 64
      → let r = bit_and (add64 a 1) (mask_for s) in
        (sync_flags (stash_inc s r c)).rflags ≡ (set_flags_inc_eager s a r (sync_flags c)).rflags
  unfolding stash_inc
  stash_inc-eager a c hp = inc_agrees a (sync_flags c) (sync_flags-lt c hp)

  -- After DEC the lazy flags are those of the eager reference on the synced state: CF keeps what
  -- was pending, at every width, for an RFLAGS word below 2^64.
  pub stash_dec-eager :
      (a : ℕ) (c : LazyFlags)
      → c.rflags < 2 ^ 64
      → let r = bit_and (sub64 a 1) (mask_for s) in
        (sync_flags (stash_dec s r c)).rflags ≡ (set_flags_dec_eager s a r (sync_flags c)).rflags
  unfolding stash_dec
  stash_dec-eager a c hp = dec_agrees a (sync_flags c) (sync_flags-lt c hp)

  -- After NEG the lazy flags are the RFLAGS word of the eager reference, at every width, for an
  -- RFLAGS word below 2^64.
  pub stash_neg-eager :
      (a r : ℕ) (c : LazyFlags)
      → c.rflags < 2 ^ 64
      → (sync_flags (stash_neg s a r c)).rflags ≡ (set_flags_neg_eager s a r c).rflags
  unfolding sync_flags computed stash_neg set_flags_neg_eager compute_neg
  stash_neg-eager a r c hp =
      rw (apply_zsp_masked Rflags.always_one r s h) (merge-flag_word c.rflags s r _ _ _ hp)

-- After a logical operation the lazy flags are the RFLAGS word of the eager reference, at every
-- width, for an RFLAGS word below 2^64.
pub stash_logic-eager :
    (s r : ℕ) (c : LazyFlags)
    → c.rflags < 2 ^ 64
    → (sync_flags (stash_logic s r c)).rflags ≡ (set_flags_logical_eager s r c).rflags
unfolding sync_flags computed stash_logic set_flags_logical_eager compute_logic
stash_logic-eager s r c hp =
    bits_ext 64 _ _ (merge-lt c.rflags _ hp)
      (bit_or-lt 64 _ 2 (apply_zsp-lt _ s r (bit_and-lt 64 _ _ hp)) (omega arith))
      λ k hk.
        bit-merge c.rflags _ k hk
        ∙ ap (λ (t : Bool). if is_owned k then t else bit c.rflags k) (bit-apply_zsp 2 s r k hk)
        ∙ agree k (bit 2 k) (bit c.rflags k) (parity_flag s r) (zero_flag s r) (sign_flag s r)
            (bit_two_pow 1 k)
        ∙ sym (
            settled_bit _ k
            ∙ ap (λ (t : Bool). t || (k == 1))
                (bit-apply_zsp _ s r k hk
                  ∙ ap
                      (λ (t : Bool).
                        if k == 2
                        then parity_flag s r
                        else if k == 6
                        then zero_flag s r
                        else if k == 7
                        then sign_flag s r
                        else t)
                      (clear_bits c.rflags Rflags.arith_mask k (omega arith) hk
                        ∙ ap (λ (t : Bool). bit c.rflags k && not t) (arith_bit k))))
  where
    agree :
        (k : ℕ) (one old pf zf sf : Bool)
        → one ≡ (k == 1)
        → (if is_owned k
            then if k == 2 then pf else if k == 6 then zf else if k == 7 then sf else one
            else old)
          ≡ ((if k == 2
                then pf
                else if k == 6
                then zf
                else if k == 7
                then sf
                else (old && not (is_arith k)))
              || (k == 1))
    agree k one old pf zf sf e = ground arith
