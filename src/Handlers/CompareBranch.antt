-- ===== src/Handlers/CompareBranch.antt =====
-- A CMP of two registers and the Jcc behind it: where execution goes.
use pico_cpu.Prelude.{
  ℕ, ◌^◌, ◌<◌, ◌≡◌, refl, ap, ◌∙◌, bit_and, Bool, true, false, ◌&&◌, arith, sub64, if◌then◌else◌,
  ltb, ◌==◌,
}
use pico_cpu.Prelude.Int.{signed, lt_ℤ}
use pico_cpu.Prelude.Bits.Masks.{bit_and-lt_right}
use pico_cpu.Cpu.Widths.{mask_for, IsSize}
use pico_cpu.Cpu.Widths.Laws.{mask_for-lt}
use pico_cpu.Cpu.Lazy.{LazyFlags, stash_sub}
use pico_cpu.Cpu.Cond.{Cc, cond_holds}
use pico_cpu.Cpu.Meaning.Reads.{top}
use pico_cpu.Cpu.Meaning.Compare.{cond_holds-stash_sub}
use pico_cpu.Cpu.State.{take_branch}
use pico_cpu.Cpu.State.Registers.{r8, is_high}
use pico_cpu.Ir.{OperandKind, Operand, Insn}
use pico_cpu.Handlers.Machine.{Machine, Attached, run, modify, pure}
use pico_cpu.Handlers.Operands.{read_operand, read_kind, read_register}
use pico_cpu.Handlers.Logical.{op_cmp}
use pico_cpu.Handlers.ControlFlow.{op_jcc, relative}

choose-lt : (b : Bool) (x y : ℕ) → x < 2 ^ 64 → y < 2 ^ 64 → (if b then x else y) < 2 ^ 64
choose-lt true x y hx hy = hx
choose-lt false x y hx hy = hy

module _ {S : Type 0} (env : Attached S) where
  -- Both operands of a CMP are registers.
  abbrev pub OfRegisters : Insn → Type 0
  OfRegisters i = (i.dst.kind ≡ OperandKind.reg) × (i.src.kind ≡ OperandKind.reg)

  -- The value of an operand register.
  abbrev pub value : Insn → Operand → Machine S → ℕ
  value i op m = read_register env op.reg i.op_size m.cpu

  -- The flags that the CMP leaves pending.
  abbrev subtracted : Insn → Machine S → LazyFlags
  subtracted i m =
      let b = value i i.src m in
      stash_sub i.op_size b (bit_and (sub64 (value i i.dst m) b) (mask_for i.op_size)) m.cpu.flags

  op_cmp-stash_sub :
      (i : Insn) (m : Machine S)
      → OfRegisters i
      → run (op_cmp env i) m ≡ record m { cpu = record m.cpu { flags = subtracted i m } }
  unfolding op_cmp read_operand read_kind
  op_cmp-stash_sub i m (hd, hs) = rw (hd, hs) refl

  value-lt : (i : Insn) (op : Operand) (m : Machine S) → IsSize i.op_size → value i op m < 2 ^ 64
  unfolding r8
  value-lt i op m h =
      choose-lt ((i.op_size == 1) && is_high op.reg) _ _
        (choose-lt (is_high op.reg) _ _ (omega arith) (omega arith))
        (bit_and-lt_right 64 (m.cpu.gpr op.reg) (mask_for i.op_size) (mask_for-lt i.op_size h))

  branch_rip :
      (b : Bool) (t : ℕ) (m : Machine S)
      → (run (if b then modify (take_branch t) else pure tt) m).cpu.rip
        ≡ (if b then t else m.cpu.rip)
  unfolding take_branch
  branch_rip true t m = refl
  branch_rip false t m = refl

  op_jcc-rip :
      (j : Insn) (m : Machine S)
      → (run (op_jcc env j) m).cpu.rip
        ≡ (if cond_holds j.cond m.cpu.flags then relative env j else m.cpu.rip)
  unfolding op_jcc take_branch
  op_jcc-rip j m = branch_rip (cond_holds j.cond m.cpu.flags) (relative env j) _

  -- What the Jcc after the CMP asks is the condition after a pending SUB.
  asked :
      (i j : Insn) (m : Machine S) (cc : Cc) (holds : Bool)
      → OfRegisters i
      → j.cond ≡ cc
      → cond_holds cc (subtracted i m) ≡ holds
      → (run (op_jcc env j) (run (op_cmp env i) m)).cpu.rip
        ≡ (if holds then relative env j else m.cpu.rip)
  asked i j m cc holds h hc e =
      op_jcc-rip j (run (op_cmp env i) m)
      ∙ ap (λ m'. if cond_holds j.cond m'.cpu.flags then relative env j else m'.cpu.rip)
          (op_cmp-stash_sub i m h)
      ∙ ap (λ b. if b then relative env j else m.cpu.rip)
          (ap (λ k. cond_holds k (subtracted i m)) hc ∙ e)

  -- A CMP of two registers and then a JB go to the target of the JB exactly if the first operand
  -- is below the second as an unsigned number of the width, and keep RIP otherwise, at a width
  -- of 1, 2, 4 or 8 bytes.
  pub op_jcc-op_cmp_below :
      (i j : Insn) (m : Machine S)
      → OfRegisters i
      → IsSize i.op_size
      → j.cond ≡ Cc.b
      → (run (op_jcc env j) (run (op_cmp env i) m)).cpu.rip ≡ (
          if ltb
            (bit_and (value i i.dst m) (mask_for i.op_size))
            (bit_and (value i i.src m) (mask_for i.op_size))
          then relative env j
          else m.cpu.rip)
  op_jcc-op_cmp_below i j m h hs hc =
      asked i j m Cc.b _ h hc
        (cond_holds-stash_sub i.op_size (value i i.dst m) (value i i.src m) hs
          (value-lt i i.src m hs) m.cpu.flags).0

  -- A CMP of two registers and then a JL go to the target of the JL exactly if the first operand
  -- is less than the second as a signed number of the width, and keep RIP otherwise, at a width
  -- of 1, 2, 4 or 8 bytes.
  pub op_jcc-op_cmp_less :
      (i j : Insn) (m : Machine S)
      → OfRegisters i
      → IsSize i.op_size
      → j.cond ≡ Cc.l
      → (run (op_jcc env j) (run (op_cmp env i) m)).cpu.rip ≡ (
          if lt_ℤ
            (signed (top i.op_size) (bit_and (value i i.dst m) (mask_for i.op_size)))
            (signed (top i.op_size) (bit_and (value i i.src m) (mask_for i.op_size)))
          then relative env j
          else m.cpu.rip)
  op_jcc-op_cmp_less i j m h hs hc =
      asked i j m Cc.l _ h hc
        (cond_holds-stash_sub i.op_size (value i i.dst m) (value i i.src m) hs
          (value-lt i i.src m hs) m.cpu.flags).6
