-- ===== src/Handlers/BitManip.antt =====
-- src/emu/handlers/bit_manip.cpp: BSF, BSR, the bit tests and the bit counts. The counts are those
-- of the portable branch.
pub mod Scan
use pico_cpu.Prelude.{
  ℕ, zero, suc, ◌+◌, ◌-◌, ◌*◌, ◌%◌, bit_and, bit_or, bit_xor, Bool, true, false, ◌==◌, nonzero,
  if◌then◌else◌, u8, not64, shl64, shr,
}
use pico_cpu.Cpu.Widths.{mask_for}
use pico_cpu.Cpu.Rflags
use pico_cpu.Cpu.Lazy.{LazyFlags, sync_flags, set_flag}
use pico_cpu.Cpu.State.{on_flags}
use pico_cpu.Ir.{Insn}
use pico_cpu.Handlers.Machine.{Attached, Action, ◌>>=◌, ◌>>◌, pure, reads, modify, ignoring}
use pico_cpu.Handlers.Operands.{read_operand, write_operand}

-- `(v >> i) & 1`.
abbrev pub bit_at : ℕ → ℕ → Bool
bit_at v i = nonzero (bit_and (shr v i) 1)

-- The loop of `popcount_u64`; 64 rounds empty every word.
unfoldable pub popcount_loop : ℕ → ℕ → ℕ → ℕ
popcount_loop zero n v = n
popcount_loop (suc fuel) n v =
    let rest = popcount_loop fuel (u8 (n + bit_and v 1)) (shr v 1) in if v == 0 then n else rest

unfoldable pub popcount_u64 : ℕ → ℕ
popcount_u64 v = popcount_loop 64 0 v

-- The loops of `tzcount_u64` and `lzcount_u64`: `n` is below the width while rounds are left.
unfoldable pub tz_loop : ℕ → ℕ → ℕ → ℕ
tz_loop v n zero = n
tz_loop v n (suc left) = let rest = tz_loop v (n + 1) left in if bit_at v n then n else rest

unfoldable pub tzcount_u64 : ℕ → ℕ → ℕ
tzcount_u64 v width = let n = tz_loop v 0 width in if v == 0 then width else n

unfoldable pub lz_loop : ℕ → ℕ → ℕ → ℕ → ℕ
lz_loop v width n zero = n
lz_loop v width n (suc left) =
    let rest = lz_loop v width (n + 1) left in if bit_at v (width - 1 - n) then n else rest

unfoldable pub lzcount_u64 : ℕ → ℕ → ℕ
lzcount_u64 v width = let n = lz_loop v width 0 width in if v == 0 then width else n

abbrev pub width_of : Insn → ℕ
width_of insn = u8 (insn.op_size * 8)

-- The flags after POPCNT, and after LZCNT and TZCNT.
unfoldable pub popcnt_flags : ℕ → LazyFlags → LazyFlags
popcnt_flags r f =
    let g = set_flag Rflags.cf false (set_flag Rflags.zf (r == 0) (sync_flags f)) in
    set_flag Rflags.pf false
      (set_flag Rflags.af false (set_flag Rflags.sf false (set_flag Rflags.of false g)))

unfoldable pub zcnt_flags : ℕ → ℕ → LazyFlags → LazyFlags
zcnt_flags c w f = set_flag Rflags.zf (c == 0) (set_flag Rflags.cf (c == w) (sync_flags f))

module _ {S : Type 0} (env : Attached S) where
  -- The end of BSF and BSR.
  abbrev pub found : Insn → ℕ → Action S (Unit {0})
  found insn idx = do
    ignoring (write_operand env insn insn.dst insn.op_size idx)
    modify (on_flags (set_flag Rflags.zf false))

  unfoldable pub op_bsf : Insn → Action S (Unit {0})
  op_bsf insn = do
    src ← read_operand env insn insn.src insn.op_size
    modify (on_flags sync_flags)
    if src == 0
        then modify (on_flags (set_flag Rflags.zf true))
        else found insn (tzcount_u64 src (width_of insn))

  abbrev pub highest : Insn → ℕ → ℕ
  highest insn src = width_of insn - 1 - lzcount_u64 src (width_of insn)

  unfoldable pub op_bsr : Insn → Action S (Unit {0})
  op_bsr insn = do
    src ← read_operand env insn insn.src insn.op_size
    modify (on_flags sync_flags)
    if src == 0 then modify (on_flags (set_flag Rflags.zf true)) else found insn (highest insn src)

  unfoldable pub bit_test_get : Insn → Action S (ℕ × ℕ)
  bit_test_get insn = do
    base_val ← read_operand env insn insn.dst insn.op_size
    raw ← read_operand env insn insn.src insn.op_size
    pure (base_val, raw % (insn.op_size * 8))

  -- What the four bit tests share: CF is the bit.
  abbrev pub tested : Insn → Action S (ℕ × ℕ)
  tested insn = do
    (v, i) ← bit_test_get insn
    modify (on_flags (λ f. set_flag Rflags.cf (bit_at v i) (sync_flags f)))
    pure (v, i)

  unfoldable pub op_bt : Insn → Action S (Unit {0})
  op_bt insn = ignoring (tested insn)

  unfoldable pub op_bts : Insn → Action S (Unit {0})
  op_bts insn = do
    (v, i) ← tested insn
    ignoring (write_operand env insn insn.dst insn.op_size (bit_or v (shl64 1 i)))

  unfoldable pub op_btr : Insn → Action S (Unit {0})
  op_btr insn = do
    (v, i) ← tested insn
    ignoring (write_operand env insn insn.dst insn.op_size (bit_and v (not64 (shl64 1 i))))

  unfoldable pub op_btc : Insn → Action S (Unit {0})
  op_btc insn = do
    (v, i) ← tested insn
    ignoring (write_operand env insn insn.dst insn.op_size (bit_xor v (shl64 1 i)))

  unfoldable pub op_popcnt : Insn → Action S (Unit {0})
  op_popcnt insn = do
    v ← read_operand env insn insn.src insn.op_size
    let r = popcount_u64 (bit_and v (mask_for insn.op_size))
    ignoring (write_operand env insn insn.dst insn.op_size r)
    modify (on_flags (popcnt_flags r))

  unfoldable pub op_lzcnt : Insn → Action S (Unit {0})
  op_lzcnt insn = do
    v ← read_operand env insn insn.src insn.op_size
    let c = lzcount_u64 (bit_and v (mask_for insn.op_size)) (width_of insn)
    ignoring (write_operand env insn insn.dst insn.op_size c)
    modify (on_flags (zcnt_flags c (width_of insn)))

  unfoldable pub op_tzcnt : Insn → Action S (Unit {0})
  op_tzcnt insn = do
    v ← read_operand env insn insn.src insn.op_size
    let c = tzcount_u64 (bit_and v (mask_for insn.op_size)) (width_of insn)
    ignoring (write_operand env insn insn.dst insn.op_size c)
    modify (on_flags (zcnt_flags c (width_of insn)))
