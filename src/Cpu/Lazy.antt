-- ===== src/Cpu/Lazy.antt =====
-- src/emu/include/emu/cpu.h and src/emu/cpu/flags.cpp: the lazy flags. An operation stashes its
-- operands; the first reader computes all six arithmetic flags and writes them to `rflags`.
use pico_cpu.Prelude.{
  ℕ, ◌-◌, ◌*◌, ◌+◌, ◌^◌, bit_and, bit_or, Bool, ◌&&◌, ◌==◌, nonzero, to_bit, if◌then◌else◌, u8, u32,
  not64,
}
use pico_cpu.Cpu.Rflags
use pico_cpu.Cpu.Flags.{
  compute_logic, compute_add, compute_adc, compute_sub, compute_sbb, compute_inc, compute_dec,
  compute_neg, compute_shl, compute_shr, compute_sar, compute_rol, compute_ror, compute_mul_ov,
}

pub data CcOp : Type 0 where
  eflags add adc sub sbb inc dec neg logic shl shr sar rol ror mul_ov : CcOp

-- The members of `Cpu` that hold the flags.
pub record LazyFlags : Type 0 where
  pub rflags : ℕ
  pub cc_op : CcOp
  pub cc_size : ℕ
  pub cc_dst : ℕ
  pub cc_src : ℕ
  pub cc_src2 : ℕ

-- The switch of `sync_flags_`.
unfoldable pub computed : CcOp → LazyFlags → ℕ
computed CcOp.eflags c = c.rflags
computed CcOp.logic c = compute_logic c.cc_size c.cc_dst
computed CcOp.add c = compute_add c.cc_size c.cc_src c.cc_dst
computed CcOp.adc c = compute_adc c.cc_size c.cc_src c.cc_dst (nonzero c.cc_src2)
computed CcOp.sub c = compute_sub c.cc_size c.cc_src c.cc_dst
computed CcOp.sbb c = compute_sbb c.cc_size c.cc_src c.cc_dst (nonzero c.cc_src2)
computed CcOp.inc c = compute_inc c.cc_size (nonzero c.cc_src) c.cc_dst
computed CcOp.dec c = compute_dec c.cc_size (nonzero c.cc_src) c.cc_dst
computed CcOp.neg c = compute_neg c.cc_size c.cc_src c.cc_dst
computed CcOp.shl c = compute_shl c.cc_size c.cc_src c.cc_dst (u8 c.cc_src2)
computed CcOp.shr c = compute_shr c.cc_size c.cc_src c.cc_dst (u8 c.cc_src2)
computed CcOp.sar c = compute_sar c.cc_size c.cc_src c.cc_dst (u8 c.cc_src2)
computed CcOp.rol c = compute_rol c.cc_size c.cc_dst (u8 c.cc_src2) c.rflags
computed CcOp.ror c = compute_ror c.cc_size c.cc_dst (u8 c.cc_src2) c.rflags
computed CcOp.mul_ov c = compute_mul_ov c.rflags (nonzero c.cc_src)

-- The last statement of `sync_flags_`: only the arithmetic bits and bit 1 are overwritten.
unfoldable pub merge : ℕ → ℕ → ℕ
merge preserved bits =
    let owned = bit_or Rflags.arith_mask Rflags.always_one in
    bit_or (bit_and preserved (not64 owned)) (bit_and bits owned)

abbrev pub synced : LazyFlags → ℕ → LazyFlags
synced c bits = record c { rflags = merge c.rflags bits; cc_op = CcOp.eflags }

abbrev pub sync_by : CcOp → LazyFlags → LazyFlags
sync_by CcOp.eflags c = c
sync_by op c = synced c (computed op c)

unfoldable pub sync_flags : LazyFlags → LazyFlags
sync_flags c = sync_by c.cc_op c

-- The readers: the synced state, and the flag.
abbrev pub flag : ℕ → LazyFlags → Bool
flag mask c = nonzero (bit_and (sync_flags c).rflags mask)

unfoldable pub cf : LazyFlags → Bool
cf c = flag Rflags.cf c

unfoldable pub pf : LazyFlags → Bool
pf c = flag Rflags.pf c

unfoldable pub af : LazyFlags → Bool
af c = flag Rflags.af c

unfoldable pub zf : LazyFlags → Bool
zf c = flag Rflags.zf c

unfoldable pub sf : LazyFlags → Bool
sf c = flag Rflags.sf c

unfoldable pub of : LazyFlags → Bool
of c = flag Rflags.of c

-- `set_bit_` after a sync, as `set_cf` to `set_of` do.
unfoldable pub set_flag : ℕ → Bool → LazyFlags → LazyFlags
set_flag mask v c =
    let s = sync_flags c in
    record s { rflags = if v then bit_or s.rflags mask else bit_and s.rflags (not64 mask) }

unfoldable pub set_rflags : ℕ → LazyFlags → LazyFlags
set_rflags v c = record c { rflags = v; cc_op = CcOp.eflags }

unfoldable pub stash_logic : ℕ → ℕ → LazyFlags → LazyFlags
stash_logic size r c = record c {
  cc_op = CcOp.logic;
  cc_size = size;
  cc_dst = r;
  cc_src = 0;
  cc_src2 = 0;
}

unfoldable pub stash_add : ℕ → ℕ → ℕ → LazyFlags → LazyFlags
stash_add size b r c = record c {
  cc_op = CcOp.add;
  cc_size = size;
  cc_dst = r;
  cc_src = b;
  cc_src2 = 0;
}

unfoldable pub stash_adc : ℕ → ℕ → Bool → ℕ → LazyFlags → LazyFlags
stash_adc size b cin r c = record c {
  cc_op = CcOp.adc;
  cc_size = size;
  cc_dst = r;
  cc_src = b;
  cc_src2 = to_bit cin;
}

unfoldable pub stash_sub : ℕ → ℕ → ℕ → LazyFlags → LazyFlags
stash_sub size b r c = record c {
  cc_op = CcOp.sub;
  cc_size = size;
  cc_dst = r;
  cc_src = b;
  cc_src2 = 0;
}

unfoldable pub stash_sbb : ℕ → ℕ → Bool → ℕ → LazyFlags → LazyFlags
stash_sbb size b bin r c = record c {
  cc_op = CcOp.sbb;
  cc_size = size;
  cc_dst = r;
  cc_src = b;
  cc_src2 = to_bit bin;
}

-- The body of `stash_inc` and `stash_dec` after the sync: the carry is saved in `cc_src`.
abbrev pub save_carry : CcOp → ℕ → ℕ → LazyFlags → LazyFlags
save_carry op size r s = record s {
  cc_op = op;
  cc_size = size;
  cc_dst = r;
  cc_src = to_bit (nonzero (bit_and s.rflags Rflags.cf));
  cc_src2 = 0;
}

unfoldable pub stash_inc : ℕ → ℕ → LazyFlags → LazyFlags
stash_inc size r c = save_carry CcOp.inc size r (sync_flags c)

unfoldable pub stash_dec : ℕ → ℕ → LazyFlags → LazyFlags
stash_dec size r c = save_carry CcOp.dec size r (sync_flags c)

unfoldable pub stash_neg : ℕ → ℕ → ℕ → LazyFlags → LazyFlags
stash_neg size a r c = record c {
  cc_op = CcOp.neg;
  cc_size = size;
  cc_dst = r;
  cc_src = a;
  cc_src2 = 0;
}

-- The fields that a shift or a rotate stashes.
abbrev pub stash_count : CcOp → ℕ → ℕ → ℕ → ℕ → LazyFlags → LazyFlags
stash_count op size original count r c = record c {
  cc_op = op;
  cc_size = size;
  cc_dst = r;
  cc_src = original;
  cc_src2 = count;
}

unfoldable pub stash_shl : ℕ → ℕ → ℕ → ℕ → LazyFlags → LazyFlags
stash_shl size original count r c =
    if count == 0 then c else stash_count CcOp.shl size original count r c

unfoldable pub stash_shr : ℕ → ℕ → ℕ → ℕ → LazyFlags → LazyFlags
stash_shr size original count r c =
    if count == 0 then c else stash_count CcOp.shr size original count r c

unfoldable pub stash_sar : ℕ → ℕ → ℕ → ℕ → LazyFlags → LazyFlags
stash_sar size original count r c =
    if count == 0 then c else stash_count CcOp.sar size original count r c

-- `count & (width - 1)`, as `stash_rol` and `stash_ror` take it.
abbrev pub rotate_mod : ℕ → ℕ → ℕ
rotate_mod size count = u8 (bit_and count (u32 (u8 (size * 8) + 2 ^ 32 - 1)))

unfoldable pub stash_rol : ℕ → ℕ → ℕ → ℕ → LazyFlags → LazyFlags
stash_rol size original count r c =
    if (rotate_mod size count == 0) && (count == 0)
    then c
    else stash_count CcOp.rol size original count r (sync_flags c)

unfoldable pub stash_ror : ℕ → ℕ → ℕ → ℕ → LazyFlags → LazyFlags
stash_ror size original count r c =
    if (rotate_mod size count == 0) && (count == 0)
    then c
    else stash_count CcOp.ror size original count r (sync_flags c)

unfoldable pub stash_mul_ov : Bool → LazyFlags → LazyFlags
stash_mul_ov overflow c =
    let s = sync_flags c in
    record s { cc_op = CcOp.mul_ov; cc_size = 8; cc_src = to_bit overflow; cc_dst = 0; cc_src2 = 0 }
