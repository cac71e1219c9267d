-- ===== src/Peephole/XorSelf.antt =====
-- The pair `xor reg, reg; jcc` before and after the pass rewrites it.
use pico_cpu.Prelude.{
  ℕ, ◌≡◌, refl, sym, ap, ◌∙◌, bit_and, bit_xor, Bool, true, false, ◌&&◌, differ, arith, bit, subst,
  u8, ◌-◌, bit_or, not64, shl64, if◌then◌else◌,
}
use pico_cpu.Prelude.Bits.Masks.{bits_ext, bit-zero, bit_and-lt_right}
use pico_cpu.Prelude.Bits.Digits.{bit-bit_and, bit-bit_xor}
use pico_cpu.Cpu.Widths.{mask_for, IsSize}
use pico_cpu.Cpu.Widths.Laws.{by_size, mask_for-lt}
use pico_cpu.Cpu.Lazy.{stash_logic}
use pico_cpu.Cpu.State.{Cpu, on_flags, update}
use pico_cpu.Cpu.State.Registers.{set_r8, set_r16, set_r32, set_r64, is_high}
use pico_cpu.Ir.{OperandKind, Insn}
use pico_cpu.Handlers.Machine.{Machine, Attached, run, modify, ◌>>◌}
use pico_cpu.Handlers.Operands.{
  read_operand, write_operand, read_kind, write_kind, write_register, read_register,
}
use pico_cpu.Handlers.Logical.{op_xor}
use pico_cpu.Peephole.{is_reg, same_reg}

differ_self : (b : Bool) → differ b b ≡ false
differ_self true = refl
differ_self false = refl

xor_self-zero : (v s : ℕ) → IsSize s → bit_and (bit_xor v v) (mask_for s) ≡ 0
xor_self-zero v s h =
    bits_ext 64 _ 0 (bit_and-lt_right 64 (bit_xor v v) (mask_for s) (mask_for-lt s h)) (omega arith)
      λ k _.
        bit-bit_and (bit_xor v v) (mask_for s) k
        ∙ ap (λ b. b && bit (mask_for s) k) (bit-bit_xor v v k ∙ differ_self (bit v k))
        ∙ sym (bit-zero k)

reg-eq : (k : OperandKind) → is_reg k ≡ true → k ≡ OperandKind.reg
reg-eq OperandKind.reg h = refl
reg-eq _ h = ground arith

pub same_reg-eq :
    (i : Insn)
    → same_reg i ≡ true
    → (i.dst.kind ≡ OperandKind.reg) × ((i.src.kind ≡ OperandKind.reg) × (i.src.reg ≡ i.dst.reg))
same_reg-eq i h = (reg-eq _ (ground arith), (reg-eq _ (ground arith), ground arith))

set_r8-flags :
    (idx v : ℕ) (c : Cpu)
    → ((set_r8 idx v c).flags ≡ c.flags) × ((set_r8 idx v c).halted ≡ c.halted)
unfolding set_r8
set_r8-flags idx v c =
    let base = u8 (idx - 16) in
    let high : Cpu = record c {
      gpr = update c.gpr base (bit_or (bit_and (c.gpr base) (not64 0xFF00)) (shl64 v 8));
    } in
    let low : Cpu = record c {
      gpr = update c.gpr idx (bit_or (bit_and (c.gpr idx) (not64 0xFF)) v);
    } in
    elim (is_high idx)
      as (λ b.
        ((if b then high else low).flags ≡ c.flags)
        × ((if b then high else low).halted ≡ c.halted)) [
          | true ↦ (refl, refl)
          | false ↦ (refl, refl)
        ]

module _ {S : Type 0} (env : Attached S) where
  op_xor-zero :
      (a : Insn) (m : Machine S)
      → same_reg a ≡ true
      → IsSize a.op_size
      → op_xor env a m
        ≡ (write_register env a.dst.reg a.op_size 0 >> modify (on_flags (stash_logic a.op_size 0)))
            m
  unfolding op_xor read_operand write_operand read_kind write_kind
  op_xor-zero a m h hs =
      let (hd, (hsrc, hr)) = same_reg-eq a h in
      rw (hd, hsrc, hr)
        (ap
          (λ r.
            (write_register env a.dst.reg a.op_size r
                >> modify (on_flags (stash_logic a.op_size r)))
              m)
          (xor_self-zero (read_register env a.dst.reg a.op_size m.cpu) a.op_size hs))

  -- A write of 0 and a stash leave the flags of a logic operation, and leave `halted`.
  abbrev LeavesZero : ℕ → Machine S → Machine S → Type 0
  LeavesZero size m m' =
      (m'.cpu.flags ≡ stash_logic size 0 m.cpu.flags) × (m'.cpu.halted ≡ m.cpu.halted)

  zero_write :
      (idx : ℕ) (m : Machine S) (size : ℕ)
      → IsSize size
      → LeavesZero size m
          (run (write_register env idx size 0 >> modify (on_flags (stash_logic size 0))) m)
  unfolding write_register set_r16 set_r32 set_r64
  zero_write idx m =
      by_size
        (λ size.
          LeavesZero size m
            (run (write_register env idx size 0 >> modify (on_flags (stash_logic size 0))) m))
        (let (e, e') = set_r8-flags idx 0 m.cpu in (ap (stash_logic 1 0) e, e')) (refl, refl)
        (refl, refl) (refl, refl)

  pub op_xor-LeavesZero :
      (a : Insn) (m : Machine S)
      → same_reg a ≡ true
      → IsSize a.op_size
      → LeavesZero a.op_size m (run (op_xor env a) m)
  op_xor-LeavesZero a m h hs =
      subst (λ r. LeavesZero a.op_size m (r.1)) (sym (op_xor-zero a m h hs))
        (zero_write a.dst.reg m a.op_size hs)
