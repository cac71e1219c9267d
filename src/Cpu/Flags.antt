-- ===== src/Cpu/Flags.antt =====
-- src/emu/cpu/flags.cpp: the flags that each operation computes, from its stashed operands.
pub mod Bits
pub mod Merge
use pico_cpu.Prelude.{
  ℕ, ◌-◌, ◌*◌, bit_and, bit_or, bit_xor, Bool, false, ◌&&◌, ◌==◌, ltb, leb, nonzero, differ, to_bit,
  if◌then◌else◌, u8, sub64, add64, not64, shr,
}
use pico_cpu.Cpu.Rflags
use pico_cpu.Cpu.Parity.{parity8}
use pico_cpu.Cpu.Widths.{mask_for, sign_mask}

unfoldable pub apply_zsp : ℕ → ℕ → ℕ → ℕ
apply_zsp bits size result =
    let mr = bit_and result (mask_for size) in
    let cleared = bit_and bits (not64 (bit_or (bit_or Rflags.zf Rflags.sf) Rflags.pf)) in
    let with_zf = if mr == 0 then bit_or cleared Rflags.zf else cleared in
    let with_sf =
      if nonzero (bit_and mr (sign_mask size)) then bit_or with_zf Rflags.sf else with_zf in
    if parity8 (u8 mr) then bit_or with_sf Rflags.pf else with_sf

unfoldable pub with_bit : ℕ → ℕ → Bool → ℕ
with_bit bits mask on =
    let cleared = bit_and bits (not64 mask) in if on then bit_or cleared mask else cleared

unfoldable pub compute_logic : ℕ → ℕ → ℕ
compute_logic size cc_dst = apply_zsp Rflags.always_one size cc_dst

unfoldable pub compute_add : ℕ → ℕ → ℕ → ℕ
compute_add size cc_src cc_dst =
    let m = mask_for size in
    let sb = sign_mask size in
    let b = bit_and cc_src m in
    let r = bit_and cc_dst m in
    let a = bit_and (sub64 r b) m in
    let bits = apply_zsp Rflags.always_one size r in
    let bits = with_bit bits Rflags.cf (ltb r b) in
    let bits =
      with_bit bits Rflags.of (nonzero (bit_and (bit_and (bit_xor a r) (bit_xor b r)) sb)) in
    with_bit bits Rflags.af (nonzero (bit_and (bit_xor (bit_xor a b) r) 0x10))

unfoldable pub compute_adc : ℕ → ℕ → ℕ → Bool → ℕ
compute_adc size cc_src cc_dst cin =
    let m = mask_for size in
    let sb = sign_mask size in
    let b = bit_and cc_src m in
    let r = bit_and cc_dst m in
    let a = bit_and (sub64 (sub64 r b) (to_bit cin)) m in
    let bits = apply_zsp Rflags.always_one size r in
    let bits = with_bit bits Rflags.cf (if cin then leb r b else ltb r b) in
    let bits =
      with_bit bits Rflags.of (nonzero (bit_and (bit_and (bit_xor a r) (bit_xor b r)) sb)) in
    with_bit bits Rflags.af (nonzero (bit_and (bit_xor (bit_xor a b) r) 0x10))

unfoldable pub compute_sub : ℕ → ℕ → ℕ → ℕ
compute_sub size cc_src cc_dst =
    let m = mask_for size in
    let sb = sign_mask size in
    let b = bit_and cc_src m in
    let r = bit_and cc_dst m in
    let a = bit_and (add64 r b) m in
    let bits = apply_zsp Rflags.always_one size r in
    let bits = with_bit bits Rflags.cf (ltb a b) in
    let bits =
      with_bit bits Rflags.of (nonzero (bit_and (bit_and (bit_xor a b) (bit_xor a r)) sb)) in
    with_bit bits Rflags.af (nonzero (bit_and (bit_xor (bit_xor a b) r) 0x10))

unfoldable pub compute_sbb : ℕ → ℕ → ℕ → Bool → ℕ
compute_sbb size cc_src cc_dst bin =
    let m = mask_for size in
    let sb = sign_mask size in
    let b = bit_and cc_src m in
    let r = bit_and cc_dst m in
    let a = bit_and (add64 (add64 r b) (to_bit bin)) m in
    let bits = apply_zsp Rflags.always_one size r in
    let bits = with_bit bits Rflags.cf (if bin then leb a b else ltb a b) in
    let bits =
      with_bit bits Rflags.of (nonzero (bit_and (bit_and (bit_xor a b) (bit_xor a r)) sb)) in
    with_bit bits Rflags.af (nonzero (bit_and (bit_xor (bit_xor a b) r) 0x10))

unfoldable pub compute_inc : ℕ → Bool → ℕ → ℕ
compute_inc size saved_cf cc_dst =
    let m = mask_for size in
    let sb = sign_mask size in
    let r = bit_and cc_dst m in
    let prev = bit_and (sub64 r 1) m in
    let bits = apply_zsp Rflags.always_one size r in
    let bits = with_bit bits Rflags.cf saved_cf in
    let bits = with_bit bits Rflags.of ((prev == sub64 sb 1) && nonzero (bit_and r sb)) in
    with_bit bits Rflags.af (nonzero (bit_and (bit_xor prev r) 0x10))

unfoldable pub compute_dec : ℕ → Bool → ℕ → ℕ
compute_dec size saved_cf cc_dst =
    let m = mask_for size in
    let sb = sign_mask size in
    let r = bit_and cc_dst m in
    let prev = bit_and (add64 r 1) m in
    let bits = apply_zsp Rflags.always_one size r in
    let bits = with_bit bits Rflags.cf saved_cf in
    let bits = with_bit bits Rflags.of ((prev == sb) && (bit_and r sb == 0)) in
    with_bit bits Rflags.af (nonzero (bit_and (bit_xor prev r) 0x10))

unfoldable pub compute_neg : ℕ → ℕ → ℕ → ℕ
compute_neg size cc_src cc_dst =
    let m = mask_for size in
    let sb = sign_mask size in
    let a = bit_and cc_src m in
    let r = bit_and cc_dst m in
    let bits = apply_zsp Rflags.always_one size r in
    let bits = with_bit bits Rflags.cf (nonzero a) in
    let bits = with_bit bits Rflags.of (a == sb) in
    with_bit bits Rflags.af (nonzero (bit_and (bit_or a r) 0x10))

unfoldable pub compute_shl : ℕ → ℕ → ℕ → ℕ → ℕ
compute_shl size original cc_dst count =
    if count == 0
    then apply_zsp Rflags.always_one size cc_dst
    else let width = u8 (size * 8) in
      let sb = sign_mask size in
      let bits = apply_zsp Rflags.always_one size cc_dst in
      let cf =
        if leb count width then nonzero (bit_and (shr original (width - count)) 1) else false in
      let bits = with_bit bits Rflags.cf cf in
      if count == 1 then with_bit bits Rflags.of (differ (nonzero (bit_and cc_dst sb)) cf) else bits

unfoldable pub compute_shr : ℕ → ℕ → ℕ → ℕ → ℕ
compute_shr size original cc_dst count =
    if count == 0
    then apply_zsp Rflags.always_one size cc_dst
    else let width = u8 (size * 8) in
      let bits = apply_zsp Rflags.always_one size cc_dst in
      let cf = if leb count width then nonzero (bit_and (shr original (count - 1)) 1) else false in
      let bits = with_bit bits Rflags.cf cf in
      if count == 1
      then with_bit bits Rflags.of (nonzero (bit_and original (sign_mask size)))
      else bits

unfoldable pub compute_sar : ℕ → ℕ → ℕ → ℕ → ℕ
compute_sar size original cc_dst count =
    if count == 0
    then apply_zsp Rflags.always_one size cc_dst
    else let width = u8 (size * 8) in
      let bits = apply_zsp Rflags.always_one size cc_dst in
      let cf =
        if leb count width
        then nonzero (bit_and (shr original (count - 1)) 1)
        else nonzero (bit_and original (sign_mask size)) in
      let bits = with_bit bits Rflags.cf cf in
      if count == 1 then with_bit bits Rflags.of false else bits

unfoldable pub compute_rol : ℕ → ℕ → ℕ → ℕ → ℕ
compute_rol size cc_dst effective_count preserved =
    if effective_count == 0
    then bit_or preserved Rflags.always_one
    else let sb = sign_mask size in
      let cf = nonzero (bit_and cc_dst 1) in
      let bits = with_bit preserved Rflags.cf cf in
      let bits =
        if effective_count == 1
        then with_bit bits Rflags.of (differ (nonzero (bit_and cc_dst sb)) cf)
        else bits in
      bit_or bits Rflags.always_one

unfoldable pub compute_ror : ℕ → ℕ → ℕ → ℕ → ℕ
compute_ror size cc_dst effective_count preserved =
    if effective_count == 0
    then bit_or preserved Rflags.always_one
    else let sb = sign_mask size in
      let sb2 = shr sb 1 in
      let cf = nonzero (bit_and cc_dst sb) in
      let bits = with_bit preserved Rflags.cf cf in
      let bits =
        if effective_count == 1
        then with_bit bits Rflags.of
            (differ (nonzero (bit_and cc_dst sb)) (nonzero (bit_and cc_dst sb2)))
        else bits in
      bit_or bits Rflags.always_one

unfoldable pub compute_mul_ov : ℕ → Bool → ℕ
compute_mul_ov preserved overflow =
    let bits = with_bit preserved Rflags.cf overflow in
    let bits = with_bit bits Rflags.of overflow in bit_or bits Rflags.always_one
