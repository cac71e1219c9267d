-- ===== src/Handlers/DataMov.antt =====
-- src/emu/handlers/data_mov.cpp: every handler of the file.
use pico_cpu.Prelude.{
  ℕ, ◌-◌, ◌^◌, bit_and, bit_or, ◌==◌, nonzero, if◌then◌else◌, none, some, u16, u32, not64, add64,
  sub64, shl64, shr, sext,
}
use pico_cpu.Error.{Status}
use pico_cpu.Cpu.Fault.{FaultKind}
use pico_cpu.Cpu.Widths.{mask_for}
use pico_cpu.Cpu.Lazy.{sync_flags}
use pico_cpu.Cpu.Cond.{cond_holds}
use pico_cpu.Cpu.State.{Cpu, on_flags}
use pico_cpu.Cpu.State.Registers.{set_r16, set_r32, set_r64}
use pico_cpu.Ir.{OperandKind, Insn, rax, rdx, rsp}
use pico_cpu.Handlers.Machine.{Attached, Action, ◌>>=◌, ◌>>◌, pure, reads, modify, raise, ignoring}
use pico_cpu.Handlers.Operands.{ea, read_operand, write_operand, sign_extend, load, store}

-- `((v & (0xFF << from)) << up)` and `>> down`, as BSWAP moves one byte.
abbrev byte_up : ℕ → ℕ → ℕ → ℕ
byte_up v from up = shl64 (bit_and v (shl64 0xFF from)) up

abbrev byte_down : ℕ → ℕ → ℕ → ℕ
byte_down v from down = shr (bit_and v (shl64 0xFF from)) down

unfoldable pub bswap64 : ℕ → ℕ
bswap64 v =
    let low =
      bit_or (bit_or (byte_up v 0 56) (byte_up v 8 40))
        (bit_or (byte_up v 16 24) (byte_up v 24 8)) in
    let high =
      bit_or (bit_or (byte_down v 32 8) (byte_down v 40 24))
        (bit_or (byte_down v 48 40) (byte_down v 56 56)) in
    bit_or low high

unfoldable pub bswap32 : ℕ → ℕ
bswap32 v =
    let w = u32 v in
    bit_or (bit_or (u32 (byte_up w 0 24)) (byte_up w 8 8))
      (bit_or (byte_down w 16 8) (byte_down w 24 24))

-- The accumulator extended within itself.
unfoldable pub cwde : ℕ → Cpu → Cpu
cwde size c =
    let raw = c.gpr rax in
    if size == 2
    then set_r64 rax (bit_or (bit_and raw (not64 0xFFFF)) (u16 (sext 8 (bit_and raw 0xFF)))) c
    else if size == 4
    then set_r32 rax (u32 (sext 16 (bit_and raw 0xFFFF))) c
    else if size == 8
    then set_r64 rax (sext 32 (bit_and raw 0xFFFF_FFFF)) c
    else set_r64 rax raw c

-- The sign of the accumulator in RDX.
unfoldable pub cdq : ℕ → Cpu → Cpu
cdq size c =
    let a = c.gpr rax in
    if size == 2
    then set_r16 rdx (if nonzero (bit_and a 0x8000) then 0xFFFF else 0) c
    else if size == 4
    then set_r32 rdx (if nonzero (bit_and a 0x8000_0000) then 0xFFFF_FFFF else 0) c
    else if size == 8
    then set_r64 rdx (if nonzero (bit_and a (2 ^ 63)) then 2 ^ 64 - 1 else 0) c
    else c

module _ {S : Type 0} (env : Attached S) where
  unfoldable pub write_mem_bytes : ℕ → ℕ → ℕ → Action S (Unit {0})
  write_mem_bytes addr size value = elim (env.mem_write) [
    | none ↦ raise FaultKind.provider_failure addr Status.provider_failure
    | some mp ↦ store env mp addr size value
  ]

  unfoldable pub read_mem_bytes : ℕ → ℕ → Action S ℕ
  read_mem_bytes addr size = elim (env.mem_read) [
    | none ↦ raise FaultKind.provider_failure addr Status.provider_failure
    | some mp ↦ load env mp addr size
  ]

  unfoldable pub op_invalid : Insn → Action S (Unit {0})
  op_invalid insn = do
    rip ← reads (λ c. c.rip)
    raise FaultKind.invalid_opcode rip Status.invalid_instruction

  unfoldable pub op_nop : Insn → Action S (Unit {0})
  op_nop insn = pure tt

  unfoldable pub op_mov : Insn → Action S (Unit {0})
  op_mov insn = do
    v ← read_operand env insn insn.src insn.op_size
    ignoring (write_operand env insn insn.dst insn.op_size v)

  -- The decoder leaves the width of the source in `src.scale`.
  abbrev src_size : Insn → ℕ
  src_size insn = if insn.src.scale == 0 then 1 else insn.src.scale

  unfoldable pub op_movzx : Insn → Action S (Unit {0})
  op_movzx insn = do
    v ← read_operand env insn insn.src (src_size insn)
    ignoring (write_operand env insn insn.dst insn.op_size (bit_and v (mask_for (src_size insn))))

  unfoldable pub op_movsx : Insn → Action S (Unit {0})
  op_movsx insn = do
    v ← read_operand env insn insn.src (src_size insn)
    ignoring (write_operand env insn insn.dst insn.op_size (sign_extend v (src_size insn)))

  unfoldable pub op_movsxd : Insn → Action S (Unit {0})
  op_movsxd insn = do
    v ← read_operand env insn insn.src 4
    ignoring (write_operand env insn insn.dst insn.op_size (sign_extend v 4))

  abbrev lea_address : Insn → Action S (Unit {0})
  lea_address insn = do
    addr ← reads (λ c. ea c insn insn.src)
    ignoring (write_operand env insn insn.dst insn.op_size addr)

  abbrev lea_kind : OperandKind → Insn → Action S (Unit {0})
  lea_kind OperandKind.mem insn = lea_address insn
  lea_kind OperandKind.rip_rel_mem insn = lea_address insn
  lea_kind _ insn = do
    rip ← reads (λ c. c.rip)
    raise FaultKind.invalid_opcode rip Status.invalid_instruction

  unfoldable pub op_lea : Insn → Action S (Unit {0})
  op_lea insn = lea_kind insn.src.kind insn

  unfoldable pub op_push : Insn → Action S (Unit {0})
  op_push insn = do
    v ← read_operand env insn insn.dst insn.op_size
    new_rsp ← reads (λ c. sub64 (c.gpr rsp) insn.op_size)
    write_mem_bytes new_rsp insn.op_size v
    modify (set_r64 rsp new_rsp)

  unfoldable pub op_pop : Insn → Action S (Unit {0})
  op_pop insn = do
    old ← reads (λ c. c.gpr rsp)
    v ← read_mem_bytes old insn.op_size
    ignoring (write_operand env insn insn.dst insn.op_size v)
    modify (set_r64 rsp (add64 old insn.op_size))

  -- The body under the condition is that of `op_mov`.
  unfoldable pub op_cmov : Insn → Action S (Unit {0})
  op_cmov insn = do
    holds ← reads (λ c. cond_holds insn.cond c.flags)
    modify (on_flags sync_flags)
    if holds then op_mov insn else pure tt

  unfoldable pub op_xchg : Insn → Action S (Unit {0})
  op_xchg insn = do
    a ← read_operand env insn insn.dst insn.op_size
    b ← read_operand env insn insn.src insn.op_size
    write_operand env insn insn.dst insn.op_size b
    ignoring (write_operand env insn insn.src insn.op_size a)

  unfoldable pub op_bswap : Insn → Action S (Unit {0})
  op_bswap insn = do
    v ← read_operand env insn insn.dst insn.op_size
    let swapped = if insn.op_size == 8 then bswap64 v else bswap32 v
    ignoring (write_operand env insn insn.dst insn.op_size swapped)

  unfoldable pub op_cwde : Insn → Action S (Unit {0})
  op_cwde insn = modify (cwde insn.op_size)

  unfoldable pub op_cdq : Insn → Action S (Unit {0})
  op_cdq insn = modify (cdq insn.op_size)
