-- ===== src/Cpu/Eager.antt =====
-- src/emu/cpu/flags.cpp: the eager reference that the lazy flags are checked against.
use pico_cpu.Prelude.{
  ℕ, ◌-◌, ◌*◌, bit_and, bit_or, bit_xor, Bool, false, ◌&&◌, ◌==◌, ltb, leb, nonzero, differ,
  if◌then◌else◌, u8, sub64, not64, shr,
}
use pico_cpu.Cpu.Rflags
use pico_cpu.Cpu.Widths.{mask_for, sign_mask}
use pico_cpu.Cpu.Flags.{apply_zsp, with_bit}
use pico_cpu.Cpu.Lazy.{CcOp, LazyFlags, rotate_mod}

-- What each of them does last: `cc_op_ = Eflags` and the new word.
abbrev pub settle : LazyFlags → ℕ → LazyFlags
settle c bits = record c { rflags = bit_or bits Rflags.always_one; cc_op = CcOp.eflags }

unfoldable pub set_flags_logical_eager : ℕ → ℕ → LazyFlags → LazyFlags
set_flags_logical_eager size r c =
    settle c (apply_zsp (bit_and c.rflags (not64 Rflags.arith_mask)) size r)

unfoldable pub set_flags_add_eager : ℕ → ℕ → ℕ → ℕ → LazyFlags → LazyFlags
set_flags_add_eager size a b r c =
    let sb = sign_mask size in
    let m = mask_for size in
    let ma = bit_and a m in
    let mb = bit_and b m in
    let mr = bit_and r m in
    let bits = apply_zsp c.rflags size r in
    let bits = with_bit bits Rflags.cf (ltb mr ma) in
    let bits =
      with_bit bits Rflags.of (nonzero (bit_and (bit_and (bit_xor ma mr) (bit_xor mb mr)) sb)) in
    settle c (with_bit bits Rflags.af (nonzero (bit_and (bit_xor (bit_xor ma mb) mr) 0x10)))

unfoldable pub set_flags_adc_eager : ℕ → ℕ → ℕ → Bool → ℕ → LazyFlags → LazyFlags
set_flags_adc_eager size a b cin r c =
    let sb = sign_mask size in
    let m = mask_for size in
    let ma = bit_and a m in
    let mb = bit_and b m in
    let mr = bit_and r m in
    let bits = apply_zsp c.rflags size r in
    let bits = with_bit bits Rflags.cf (if cin then leb mr ma else ltb mr ma) in
    let bits =
      with_bit bits Rflags.of (nonzero (bit_and (bit_and (bit_xor ma mr) (bit_xor mb mr)) sb)) in
    settle c (with_bit bits Rflags.af (nonzero (bit_and (bit_xor (bit_xor ma mb) mr) 0x10)))

unfoldable pub set_flags_sub_eager : ℕ → ℕ → ℕ → ℕ → LazyFlags → LazyFlags
set_flags_sub_eager size a b r c =
    let sb = sign_mask size in
    let m = mask_for size in
    let ma = bit_and a m in
    let mb = bit_and b m in
    let mr = bit_and r m in
    let bits = apply_zsp c.rflags size r in
    let bits = with_bit bits Rflags.cf (ltb ma mb) in
    let bits =
      with_bit bits Rflags.of (nonzero (bit_and (bit_and (bit_xor ma mb) (bit_xor ma mr)) sb)) in
    settle c (with_bit bits Rflags.af (nonzero (bit_and (bit_xor (bit_xor ma mb) mr) 0x10)))

unfoldable pub set_flags_sbb_eager : ℕ → ℕ → ℕ → Bool → ℕ → LazyFlags → LazyFlags
set_flags_sbb_eager size a b bin r c =
    let sb = sign_mask size in
    let m = mask_for size in
    let ma = bit_and a m in
    let mb = bit_and b m in
    let mr = bit_and r m in
    let bits = apply_zsp c.rflags size r in
    let bits = with_bit bits Rflags.cf (if bin then leb ma mb else ltb ma mb) in
    let bits =
      with_bit bits Rflags.of (nonzero (bit_and (bit_and (bit_xor ma mb) (bit_xor ma mr)) sb)) in
    settle c (with_bit bits Rflags.af (nonzero (bit_and (bit_xor (bit_xor ma mb) mr) 0x10)))

unfoldable pub set_flags_inc_eager : ℕ → ℕ → ℕ → LazyFlags → LazyFlags
set_flags_inc_eager size prev r c =
    let sb = sign_mask size in
    let m = mask_for size in
    let mp = bit_and prev m in
    let mr = bit_and r m in
    let bits = apply_zsp c.rflags size r in
    let bits = with_bit bits Rflags.of ((mp == sub64 sb 1) && nonzero (bit_and mr sb)) in
    settle c (with_bit bits Rflags.af (nonzero (bit_and (bit_xor mp mr) 0x10)))

unfoldable pub set_flags_dec_eager : ℕ → ℕ → ℕ → LazyFlags → LazyFlags
set_flags_dec_eager size prev r c =
    let sb = sign_mask size in
    let m = mask_for size in
    let mp = bit_and prev m in
    let mr = bit_and r m in
    let bits = apply_zsp c.rflags size r in
    let bits = with_bit bits Rflags.of ((mp == sb) && (bit_and mr sb == 0)) in
    settle c (with_bit bits Rflags.af (nonzero (bit_and (bit_xor mp mr) 0x10)))

unfoldable pub set_flags_neg_eager : ℕ → ℕ → ℕ → LazyFlags → LazyFlags
set_flags_neg_eager size src r c =
    let sb = sign_mask size in
    let m = mask_for size in
    let ms = bit_and src m in
    let mr = bit_and r m in
    let bits = apply_zsp c.rflags size r in
    let bits = with_bit bits Rflags.cf (nonzero ms) in
    let bits = with_bit bits Rflags.of (ms == sb) in
    settle c (with_bit bits Rflags.af (nonzero (bit_and (bit_or ms mr) 0x10)))

unfoldable pub set_flags_shl_eager : ℕ → ℕ → ℕ → ℕ → LazyFlags → LazyFlags
set_flags_shl_eager size src count r c =
    let width = u8 (size * 8) in
    let sb = sign_mask size in
    let cf = if leb count width then nonzero (bit_and (shr src (width - count)) 1) else false in
    let bits = with_bit (apply_zsp c.rflags size r) Rflags.cf cf in
    let bits =
      if count == 1 then with_bit bits Rflags.of (differ (nonzero (bit_and r sb)) cf) else bits in
    if count == 0 then c else settle c (with_bit bits Rflags.af false)

unfoldable pub set_flags_shr_eager : ℕ → ℕ → ℕ → ℕ → LazyFlags → LazyFlags
set_flags_shr_eager size src count r c =
    let width = u8 (size * 8) in
    let cf = if leb count width then nonzero (bit_and (shr src (count - 1)) 1) else false in
    let bits = with_bit (apply_zsp c.rflags size r) Rflags.cf cf in
    let bits =
      if count == 1
      then with_bit bits Rflags.of (nonzero (bit_and src (sign_mask size)))
      else bits in
    if count == 0 then c else settle c (with_bit bits Rflags.af false)

unfoldable pub set_flags_sar_eager : ℕ → ℕ → ℕ → ℕ → LazyFlags → LazyFlags
set_flags_sar_eager size src count r c =
    let width = u8 (size * 8) in
    let cf =
      if leb count width
      then nonzero (bit_and (shr src (count - 1)) 1)
      else nonzero (bit_and src (sign_mask size)) in
    let bits = with_bit (apply_zsp c.rflags size r) Rflags.cf cf in
    let bits = if count == 1 then with_bit bits Rflags.of false else bits in
    if count == 0 then c else settle c (with_bit bits Rflags.af false)

-- The rotates take the original operand too, and do not read it.
unfoldable pub set_flags_rol_eager : ℕ → ℕ → ℕ → ℕ → LazyFlags → LazyFlags
set_flags_rol_eager size src count r c =
    let sb = sign_mask size in
    let cf = nonzero (bit_and r 1) in
    let bits = with_bit c.rflags Rflags.cf cf in
    let bits =
      if count == 1 then with_bit bits Rflags.of (differ (nonzero (bit_and r sb)) cf) else bits in
    if rotate_mod size count == 0 then c else settle c bits

unfoldable pub set_flags_ror_eager : ℕ → ℕ → ℕ → ℕ → LazyFlags → LazyFlags
set_flags_ror_eager size src count r c =
    let sb = sign_mask size in
    let sb2 = shr sb 1 in
    let bits = with_bit c.rflags Rflags.cf (nonzero (bit_and r sb)) in
    let bits =
      if count == 1
      then with_bit bits Rflags.of (differ (nonzero (bit_and r sb)) (nonzero (bit_and r sb2)))
      else bits in
    if rotate_mod size count == 0 then c else settle c bits
