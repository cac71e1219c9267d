-- ===== src/Cpu/Agreement/Shifts.antt =====
-- SHL, SHR and SAR against the eager reference: they differ in OF alone, and only for counts
-- other than one.
use pico_cpu.Prelude.{
  ℕ, ◌<◌, ◌≡◌, ◌≢◌, ◌⊎◌, sym, ap, ◌∙◌, bit_or, Bool, true, false, ◌&&◌, ◌||◌, arith, ◌==◌,
  if◌then◌else◌, bit, u8,
}
use pico_cpu.Prelude.Bits.Masks.{bit_two_pow}
use pico_cpu.Cpu.Rflags
use pico_cpu.Cpu.Flags.{apply_zsp, with_bit, compute_shl, compute_shr, compute_sar}
use pico_cpu.Cpu.Flags.Bits.{bit-with_bit, bit-apply_zsp, zero_flag, sign_flag, parity_flag}
use pico_cpu.Cpu.Flags.Merge.{settled_bit, bit-merge, is_owned}
use pico_cpu.Cpu.Lazy.{LazyFlags, merge, sync_flags, computed, stash_shl, stash_shr, stash_sar}
use pico_cpu.Cpu.Eager.{set_flags_shl_eager, set_flags_shr_eager, set_flags_sar_eager}

-- ZF, SF, PF and CF written over `y`, and OF where the count is one.
abbrev shift_word : ℕ → ℕ → ℕ → Bool → Bool → Bool → ℕ
shift_word y s r c one o =
    let bits = with_bit (apply_zsp y s r) Rflags.cf c in
    if one then with_bit bits Rflags.of o else bits

bit-shift_word :
    (y s r k : ℕ) (c one o : Bool)
    → k < 64
    → bit (shift_word y s r c one o) k ≡ (
        if one && (k == 11)
        then o
        else if k == 0
        then c
        else if k == 2
        then parity_flag s r
        else if k == 6
        then zero_flag s r
        else if k == 7
        then sign_flag s r
        else bit y k)
bit-shift_word y s r k c true o hk =
    bit-with_bit _ 11 k o (omega arith) hk
    ∙ ap (λ (t : Bool). if k == 11 then o else t)
        (bit-with_bit _ 0 k c (omega arith) hk
          ∙ ap (λ (t : Bool). if k == 0 then c else t) (bit-apply_zsp y s r k hk))
bit-shift_word y s r k c false o hk =
    bit-with_bit _ 0 k c (omega arith) hk
    ∙ ap (λ (t : Bool). if k == 0 then c else t) (bit-apply_zsp y s r k hk)

shift_agrees :
    (p s r k : ℕ) (c one o : Bool)
    → k < 64
    → (k ≢ 11) ⊎ (one ≡ true)
    → bit (merge p (shift_word Rflags.always_one s r c one o)) k
      ≡ bit (bit_or (with_bit (shift_word p s r c one o) Rflags.af false) Rflags.always_one) k
shift_agrees p s r k c one o hk side =
    bit-merge p _ k hk
    ∙ ap (λ (t : Bool). if is_owned k then t else bit p k) (bit-shift_word 2 s r k c one o hk)
    ∙ agree (bit 2 k) (bit p k) (parity_flag s r) (zero_flag s r) (sign_flag s r) (bit_two_pow 1 k)
    ∙ sym (
        settled_bit _ k
        ∙ ap (λ (t : Bool). t || (k == 1))
            (bit-with_bit _ 4 k false (omega arith) hk
              ∙ ap (λ (t : Bool). if k == 4 then false else t) (bit-shift_word p s r k c one o hk)))
  where
    agree :
        (w old pf zf sf : Bool)
        → w ≡ (k == 1)
        → (if is_owned k
            then if one && (k == 11)
              then o
              else if k == 0
              then c
              else if k == 2
              then pf
              else if k == 6
              then zf
              else if k == 7
              then sf
              else w
            else old)
          ≡ ((if k == 4
                then false
                else if one && (k == 11)
                then o
                else if k == 0
                then c
                else if k == 2
                then pf
                else if k == 6
                then zf
                else if k == 7
                then sf
                else old)
              || (k == 1))
    agree w old pf zf sf e = ground arith

positive : (count : ℕ) → 0 < count → (count == 0) ≡ false
positive count h = ground arith

module _ (s original count r : ℕ) (c : LazyFlags) (k : ℕ) (pos : 0 < count) (small : count < 256)
    (hk : k < 64) (side : (k ≢ 11) ⊎ ((count == 1) ≡ true)) where
  -- After SHL by 1 to 255 the lazy flags are those of the eager reference on every bit but OF,
  -- and on OF too where the count is 1.
  pub stash_shl-eager :
      bit (sync_flags (stash_shl s original count r c)).rflags k
      ≡ bit (set_flags_shl_eager s original count r c).rflags k
  unfolding sync_flags computed stash_shl set_flags_shl_eager compute_shl
  stash_shl-eager =
      let fits : u8 count ≡ count = omega arith in
      rw (positive count pos, fits, positive count pos, computed, compute_shl)
        (shift_agrees c.rflags s r k _ (count == 1) _ hk side)

  -- After SHR by 1 to 255 the lazy flags are those of the eager reference on every bit but OF,
  -- and on OF too where the count is 1.
  pub stash_shr-eager :
      bit (sync_flags (stash_shr s original count r c)).rflags k
      ≡ bit (set_flags_shr_eager s original count r c).rflags k
  unfolding sync_flags computed stash_shr set_flags_shr_eager compute_shr
  stash_shr-eager =
      let fits : u8 count ≡ count = omega arith in
      rw (positive count pos, fits, positive count pos, computed, compute_shr)
        (shift_agrees c.rflags s r k _ (count == 1) _ hk side)

  -- After SAR by 1 to 255 the lazy flags are those of the eager reference on every bit but OF,
  -- and on OF too where the count is 1.
  pub stash_sar-eager :
      bit (sync_flags (stash_sar s original count r c)).rflags k
      ≡ bit (set_flags_sar_eager s original count r c).rflags k
  unfolding sync_flags computed stash_sar set_flags_sar_eager compute_sar
  stash_sar-eager =
      let fits : u8 count ≡ count = omega arith in
      rw (positive count pos, fits, positive count pos, computed, compute_sar)
        (shift_agrees c.rflags s r k _ (count == 1) _ hk side)
