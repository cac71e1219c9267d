-- ===== src/Handlers/ShiftRotate.antt =====
-- src/emu/handlers/shift_rotate.cpp: shifts and rotates.
use pico_cpu.Prelude.{
  ℕ, zero, suc, ◌+◌, ◌-◌, ◌*◌, ◌%◌, ◌^◌, bit_and, bit_or, Bool, true, false, ◌||◌, differ, ◌==◌,
  leb, nonzero, to_bit, if◌then◌else◌, u8, u32, not64, shl64, shr,
}
use pico_cpu.Cpu.Widths.{mask_for, sign_mask}
use pico_cpu.Cpu.Lazy.{
  cf, set_flag, sync_flags, stash_logic, stash_shl, stash_shr, stash_sar, stash_rol, stash_ror,
}
use pico_cpu.Cpu.Rflags
use pico_cpu.Cpu.State.{Cpu, on_flags}
use pico_cpu.Cpu.State.Registers.{r8}
use pico_cpu.Ir.{OperandKind, Insn, rcx}
use pico_cpu.Handlers.Machine.{Attached, Action, ◌>>=◌, ◌>>◌, pure, reads, modify}
use pico_cpu.Handlers.Operands.{read_operand, write_operand, sign_extend, shift_count_mask}

-- `sa >> c` on the pattern of an `i64`.
abbrev pub sar64 : ℕ → ℕ → ℕ
sar64 x c = if leb (2 ^ 63) x then not64 (shr (not64 x) c) else shr x c

-- The width in bits.
abbrev pub width : ℕ → ℕ
width size = u8 (size * 8)

unfoldable pub shl_result : ℕ → ℕ → ℕ → ℕ
shl_result size a c = if leb (width size) c then 0 else bit_and (shl64 a c) (mask_for size)

unfoldable pub shr_result : ℕ → ℕ → ℕ → ℕ
shr_result size a c = if leb (width size) c then 0 else shr (bit_and a (mask_for size)) c

unfoldable pub sar_result : ℕ → ℕ → ℕ → ℕ
sar_result size a c =
    let sa = sign_extend a size in
    let sr = if leb (width size) c then if leb (2 ^ 63) sa then 2 ^ 64 - 1 else 0 else sar64 sa c in
    bit_and sr (mask_for size)

-- `c & (w - 1)`.
abbrev pub rotate_by : ℕ → ℕ → ℕ
rotate_by size c = u8 (bit_and c (u32 (width size + 2 ^ 32 - 1)))

unfoldable pub rol_result : ℕ → ℕ → ℕ → ℕ
rol_result size a c =
    let n = rotate_by size c in
    let av = bit_and a (mask_for size) in
    if n == 0 then av else bit_and (bit_or (shl64 av n) (shr av (width size - n))) (mask_for size)

unfoldable pub ror_result : ℕ → ℕ → ℕ → ℕ
ror_result size a c =
    let n = rotate_by size c in
    let av = bit_and a (mask_for size) in
    if n == 0 then av else bit_and (bit_or (shr av n) (shl64 av (width size - n))) (mask_for size)

-- The loop of `op_rcl`: `left` rounds on the value and the carry.
unfoldable pub rcl_loop : ℕ → ℕ → ℕ × Bool → ℕ × Bool
rcl_loop size zero (v, carry) = (v, carry)
rcl_loop size (suc left) (v, carry) = rcl_loop size left (
  bit_and (bit_or (shl64 v 1) (to_bit carry)) (mask_for size),
  nonzero (bit_and v (sign_mask size)),
)

-- The loop of `op_rcr`.
unfoldable pub rcr_loop : ℕ → ℕ → ℕ × Bool → ℕ × Bool
rcr_loop size zero (v, carry) = (v, carry)
rcr_loop size (suc left) (v, carry) =
    rcr_loop size left
      (bit_or (shr v 1) (if carry then sign_mask size else 0), nonzero (bit_and v 1))

module _ {S : Type 0} (env : Attached S) where
  unfoldable pub read_count : Insn → Action S ℕ
  read_count insn = do
    v ← read_operand env insn insn.src 1
    pure (u8 (bit_and v (shift_count_mask insn.op_size)))

  unfoldable pub op_shl : Insn → Action S (Unit {0})
  op_shl insn = do
    a ← read_operand env insn insn.dst insn.op_size
    c ← read_count insn
    let r = shl_result insn.op_size a c
    write_operand env insn insn.dst insn.op_size r
    modify (on_flags (stash_shl insn.op_size a c r))

  unfoldable pub op_shr : Insn → Action S (Unit {0})
  op_shr insn = do
    a ← read_operand env insn insn.dst insn.op_size
    c ← read_count insn
    let r = shr_result insn.op_size a c
    write_operand env insn insn.dst insn.op_size r
    modify (on_flags (stash_shr insn.op_size a c r))

  unfoldable pub op_sar : Insn → Action S (Unit {0})
  op_sar insn = do
    a ← read_operand env insn insn.dst insn.op_size
    c ← read_count insn
    let r = sar_result insn.op_size a c
    write_operand env insn insn.dst insn.op_size r
    modify (on_flags (stash_sar insn.op_size a c r))

  unfoldable pub op_rol : Insn → Action S (Unit {0})
  op_rol insn = do
    a ← read_operand env insn insn.dst insn.op_size
    c ← read_count insn
    let r = rol_result insn.op_size a c
    write_operand env insn insn.dst insn.op_size r
    modify (on_flags (stash_rol insn.op_size a c r))

  unfoldable pub op_ror : Insn → Action S (Unit {0})
  op_ror insn = do
    a ← read_operand env insn insn.dst insn.op_size
    c ← read_count insn
    let r = ror_result insn.op_size a c
    write_operand env insn insn.dst insn.op_size r
    modify (on_flags (stash_ror insn.op_size a c r))

  abbrev set_cf : Bool → Cpu → Cpu
  set_cf v = on_flags (set_flag Rflags.cf v)

  abbrev set_of : Bool → Cpu → Cpu
  set_of v = on_flags (set_flag Rflags.of v)

  abbrev when : Bool → Action S (Unit {0}) → Action S (Unit {0})
  when true m = m
  when false m = pure tt

  abbrev is_negative : Insn → ℕ → Bool
  is_negative insn v = nonzero (bit_and v (sign_mask insn.op_size))

  unfoldable pub rcl_rounds : Insn → ℕ → ℕ → ℕ → Action S (Unit {0})
  rcl_rounds insn a c rounds = do
    modify (on_flags sync_flags)
    carry ← reads (λ c. cf c.flags)
    let result = rcl_loop insn.op_size rounds (bit_and a (mask_for insn.op_size), carry)
    write_operand env insn insn.dst insn.op_size result.0
    modify (set_cf result.1)
    when (c == 1) (modify (set_of (differ (is_negative insn result.0) result.1)))

  unfoldable pub op_rcl : Insn → Action S (Unit {0})
  op_rcl insn = do
    a ← read_operand env insn insn.dst insn.op_size
    c ← read_count insn
    let rounds = c % (width insn.op_size + 1)
    if (c == 0) || (rounds == 0) then pure tt else rcl_rounds insn a c rounds

  unfoldable pub rcr_rounds : Insn → ℕ → ℕ → ℕ → Action S (Unit {0})
  rcr_rounds insn a c rounds = do
    modify (on_flags sync_flags)
    carry ← reads (λ c. cf c.flags)
    let val = bit_and a (mask_for insn.op_size)
    when (c == 1) (modify (set_of (differ (is_negative insn val) carry)))
    let result = rcr_loop insn.op_size rounds (val, carry)
    write_operand env insn insn.dst insn.op_size result.0
    modify (set_cf result.1)

  unfoldable pub op_rcr : Insn → Action S (Unit {0})
  op_rcr insn = do
    a ← read_operand env insn insn.dst insn.op_size
    c ← read_count insn
    let rounds = c % (width insn.op_size + 1)
    if (c == 0) || (rounds == 0) then pure tt else rcr_rounds insn a c rounds

  -- The count of SHLD and SHRD: CL, or the immediate.
  abbrev double_count : Insn → Cpu → ℕ
  double_count insn c = elim (insn.src.kind) [
    | OperandKind.reg ↦ u8 (bit_and (r8 rcx c) (shift_count_mask insn.op_size))
    | _ ↦ u8 (bit_and insn.imm_extra (shift_count_mask insn.op_size))
  ]

  -- `count >= w`: the result is set to zero.
  abbrev past_width : Insn → Action S (Unit {0})
  past_width insn = do
    write_operand env insn insn.dst insn.op_size 0
    modify (on_flags (stash_logic insn.op_size 0))

  unfoldable pub shld_write : Insn → ℕ → ℕ → ℕ → Action S (Unit {0})
  shld_write insn d s count = do
    let r =
        bit_and (bit_or (shl64 d count) (shr s (width insn.op_size - count)))
          (mask_for insn.op_size)
    write_operand env insn insn.dst insn.op_size r
    modify (on_flags (stash_shl insn.op_size d count r))

  unfoldable pub op_shld : Insn → Action S (Unit {0})
  op_shld insn = do
    d ← read_operand env insn insn.dst insn.op_size
    s ← reads (λ c. bit_and (c.gpr insn.dst.index) (mask_for insn.op_size))
    count ← reads (double_count insn)
    let written =
        if leb (width insn.op_size) count then past_width insn else shld_write insn d s count
    if count == 0 then pure tt else written

  unfoldable pub shrd_write : Insn → ℕ → ℕ → ℕ → Action S (Unit {0})
  shrd_write insn d s count = do
    let r =
        bit_and (bit_or (shr d count) (shl64 s (width insn.op_size - count)))
          (mask_for insn.op_size)
    write_operand env insn insn.dst insn.op_size r
    modify (on_flags (stash_shr insn.op_size d count r))

  unfoldable pub op_shrd : Insn → Action S (Unit {0})
  op_shrd insn = do
    d ← read_operand env insn insn.dst insn.op_size
    s ← reads (λ c. bit_and (c.gpr insn.dst.index) (mask_for insn.op_size))
    count ← reads (double_count insn)
    let written =
        if leb (width insn.op_size) count then past_width insn else shrd_write insn d s count
    if count == 0 then pure tt else written
