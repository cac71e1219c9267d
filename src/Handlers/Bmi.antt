-- ===== src/Handlers/Bmi.antt =====
-- src/emu/handlers/bmi.cpp: the instructions of BMI1 and BMI2 on general registers.
use pico_cpu.Prelude.{
  ℕ, zero, suc, ◌+◌, ◌-◌, ◌*◌, ◌/◌, ◌%◌, ◌^◌, bit_and, bit_or, bit_xor, Bool, false, ◌==◌, leb, ltb,
  nonzero, if◌then◌else◌, u8, not64, sub64, mul64, shl64, shr,
}
use pico_cpu.Cpu.Widths.{mask_for, sign_mask}
use pico_cpu.Cpu.Rflags
use pico_cpu.Cpu.Lazy.{LazyFlags, sync_flags, set_flag, stash_logic}
use pico_cpu.Cpu.State.{Cpu, on_flags}
use pico_cpu.Cpu.State.Registers.{set_r64}
use pico_cpu.Ir.{Insn, rdx}
use pico_cpu.Handlers.Machine.{Attached, Action, ◌>>=◌, ◌>>◌, reads, modify, ignoring}
use pico_cpu.Handlers.Operands.{read_operand, write_operand, sign_extend, shift_count_mask}
use pico_cpu.Handlers.ShiftRotate.{sar64, width}

unfoldable pub read_vvvv : Cpu → Insn → ℕ
read_vvvv c insn = bit_and (c.gpr insn.dst.index) (mask_for insn.op_size)

-- The flags of the group, written one after the other: OF, PF and AF are cleared.
unfoldable pub bmi_flags : Bool → Bool → Bool → LazyFlags → LazyFlags
bmi_flags c z s f =
    let g = set_flag Rflags.sf s (set_flag Rflags.zf z (set_flag Rflags.cf c (sync_flags f))) in
    set_flag Rflags.af false (set_flag Rflags.pf false (set_flag Rflags.of false g))

abbrev sign_of : ℕ → ℕ → Bool
sign_of size r = nonzero (bit_and r (sign_mask size))

unfoldable pub bextr_value : ℕ → ℕ → ℕ → ℕ
bextr_value size src ctl =
    let start = bit_and ctl 0xFF in
    let len = bit_and (shr ctl 8) 0xFF in
    let left = width size - start in
    let eff_len = if ltb left len then left else len in
    let mask = if leb 64 eff_len then 2 ^ 64 - 1 else sub64 (shl64 1 eff_len) 1 in
    if ltb start (width size) then bit_and (shr src start) mask else 0

unfoldable pub bzhi_value : ℕ → ℕ → ℕ → ℕ
bzhi_value size src n =
    if leb (width size) n then bit_and src (mask_for size) else bit_and src (sub64 (shl64 1 n) 1)

-- The low and the high half of the product of MULX.
unfoldable pub mulx_halves : ℕ → ℕ → ℕ → ℕ × ℕ
mulx_halves size a b =
    if size == 8
    then ((a * b) % 2 ^ 64, (a * b) / 2 ^ 64)
    else (bit_and (mul64 a b) 0xFFFF_FFFF, bit_and (shr (mul64 a b) 32) 0xFFFF_FFFF)

-- The lowest set bit, and the word without it.
abbrev pub lowest : ℕ → ℕ
lowest mask = bit_and mask (sub64 0 mask)

abbrev pub without_lowest : ℕ → ℕ
without_lowest mask = bit_and mask (sub64 mask 1)

-- The loops of PDEP and PEXT. Each round clears a bit of the mask, so 64 empty it.
unfoldable pub pdep_loop : ℕ → ℕ → ℕ → ℕ → ℕ → ℕ
pdep_loop zero src mask r i = r
pdep_loop (suc fuel) src mask r i =
    let deposit = if nonzero (bit_and (shr src i) 1) then bit_or r (lowest mask) else r in
    let rest = pdep_loop fuel src (without_lowest mask) deposit (i + 1) in
    if mask == 0 then r else rest

unfoldable pub pext_loop : ℕ → ℕ → ℕ → ℕ → ℕ → ℕ
pext_loop zero src mask r i = r
pext_loop (suc fuel) src mask r i =
    let extract = if nonzero (bit_and src (lowest mask)) then bit_or r (shl64 1 i) else r in
    let rest = pext_loop fuel src (without_lowest mask) extract (i + 1) in
    if mask == 0 then r else rest

-- At a width of 64 and a count of 0 the left shift is by 64, which leaves nothing here.
unfoldable pub rorx_value : ℕ → ℕ → ℕ → ℕ
rorx_value size src imm =
    let n = u8 (bit_and imm (width size - 1)) in
    bit_and (bit_or (shr src n) (shl64 src (width size - n))) (mask_for size)

module _ {S : Type 0} (env : Attached S) where
  unfoldable pub read_src_u64 : Insn → Action S ℕ
  read_src_u64 insn = read_operand env insn insn.src insn.op_size

  -- The source within its width.
  abbrev masked : Insn → Action S ℕ
  masked insn = do src ← read_src_u64 insn; reads (λ c. bit_and src (mask_for insn.op_size))

  -- The write of the result, and then the flags.
  abbrev finish : Insn → ℕ → (LazyFlags → LazyFlags) → Action S (Unit {0})
  finish insn r f = do
    ignoring (write_operand env insn insn.dst insn.op_size r)
    modify (on_flags f)

  unfoldable pub op_andn : Insn → Action S (Unit {0})
  op_andn insn = do
    b ← read_src_u64 insn
    a ← reads (λ c. read_vvvv c insn)
    let r = bit_and (bit_and (not64 a) b) (mask_for insn.op_size)
    finish insn r (stash_logic insn.op_size r)

  unfoldable pub op_bextr : Insn → Action S (Unit {0})
  op_bextr insn = do
    src ← read_src_u64 insn
    ctl ← reads (λ c. read_vvvv c insn)
    let r = bextr_value insn.op_size src ctl
    finish insn r (bmi_flags false (r == 0) false)

  unfoldable pub op_blsi : Insn → Action S (Unit {0})
  op_blsi insn = do
    src ← masked insn
    let r = lowest src
    finish insn r (bmi_flags (nonzero src) (r == 0) (sign_of insn.op_size r))

  unfoldable pub op_blsr : Insn → Action S (Unit {0})
  op_blsr insn = do
    src ← masked insn
    let r = without_lowest src
    finish insn r (bmi_flags (src == 0) (r == 0) (sign_of insn.op_size r))

  unfoldable pub op_blsmsk : Insn → Action S (Unit {0})
  op_blsmsk insn = do
    src ← masked insn
    let r = bit_xor src (sub64 src 1)
    finish insn (bit_and r (mask_for insn.op_size))
        (bmi_flags (src == 0) false (sign_of insn.op_size r))

  unfoldable pub op_bzhi : Insn → Action S (Unit {0})
  op_bzhi insn = do
    src ← read_src_u64 insn
    n ← reads (λ c. bit_and (read_vvvv c insn) 0xFF)
    let r = bzhi_value insn.op_size src n
    finish insn r (bmi_flags (leb (width insn.op_size) n) (r == 0) (sign_of insn.op_size r))

  unfoldable pub op_mulx : Insn → Action S (Unit {0})
  op_mulx insn = do
    b ← read_src_u64 insn
    a ← reads (λ c. bit_and (c.gpr rdx) (mask_for insn.op_size))
    let halves = mulx_halves insn.op_size a b
    modify (set_r64 insn.dst.index halves.0)
    modify (set_r64 insn.dst.reg halves.1)

  unfoldable pub op_pdep : Insn → Action S (Unit {0})
  op_pdep insn = do
    mask ← read_src_u64 insn
    src ← reads (λ c. read_vvvv c insn)
    ignoring (write_operand env insn insn.dst insn.op_size (pdep_loop 64 src mask 0 0))

  unfoldable pub op_pext : Insn → Action S (Unit {0})
  op_pext insn = do
    mask ← read_src_u64 insn
    src ← reads (λ c. read_vvvv c insn)
    ignoring (write_operand env insn insn.dst insn.op_size (pext_loop 64 src mask 0 0))

  unfoldable pub op_rorx : Insn → Action S (Unit {0})
  op_rorx insn = do
    src ← masked insn
    ignoring
        (write_operand env insn insn.dst insn.op_size (rorx_value insn.op_size src insn.imm_extra))

  -- The count of the three shifts.
  abbrev shift_by : Cpu → Insn → ℕ
  shift_by c insn = bit_and (read_vvvv c insn) (shift_count_mask insn.op_size)

  unfoldable pub op_sarx : Insn → Action S (Unit {0})
  op_sarx insn = do
    src ← read_src_u64 insn
    n ← reads (λ c. shift_by c insn)
    let r = bit_and (sar64 (sign_extend src insn.op_size) n) (mask_for insn.op_size)
    ignoring (write_operand env insn insn.dst insn.op_size r)

  unfoldable pub op_shlx : Insn → Action S (Unit {0})
  op_shlx insn = do
    src ← read_src_u64 insn
    n ← reads (λ c. shift_by c insn)
    ignoring (
        write_operand env insn insn.dst insn.op_size
          (bit_and (shl64 src n) (mask_for insn.op_size)))

  unfoldable pub op_shrx : Insn → Action S (Unit {0})
  op_shrx insn = do
    src ← read_src_u64 insn
    n ← reads (λ c. shift_by c insn)
    ignoring
        (write_operand env insn insn.dst insn.op_size (shr (bit_and src (mask_for insn.op_size)) n))
