-- ===== src/Peephole.antt =====
-- src/emu/ir/peephole.cpp: the junk-fold pass. The counter of folded instructions is passed along.
pub mod Jcc
pub mod XorSelf
pub mod Folded
pub mod SelfMov
use pico_cpu.Prelude.{ℕ, ◌+◌, Bool, true, false, ◌&&◌, ◌||◌, List, [], ◌∷◌, ◌==◌, if◌then◌else◌}
use pico_cpu.Cpu.Cond.{Cc}
use pico_cpu.Ir.{OperandKind, Insn, Handler, DecodedBlock, no_reg}
use pico_cpu.Ir.OpKind

abbrev pub is_reg : OperandKind → Bool
is_reg OperandKind.reg = true
is_reg _ = false

abbrev pub is_mem : OperandKind → Bool
is_mem OperandKind.mem = true
is_mem _ = false

-- Both operands name one register.
abbrev pub same_reg : Insn → Bool
same_reg i = (is_reg i.dst.kind && is_reg i.src.kind) && (i.dst.reg == i.src.reg)

unfoldable pub is_self_mov : Insn → Bool
is_self_mov i = (i.kind == OpKind.mov) && same_reg i

unfoldable pub is_self_xchg : Insn → Bool
is_self_xchg i = (i.kind == OpKind.xchg) && same_reg i

unfoldable pub is_self_lea : Insn → Bool
is_self_lea i =
    (i.kind == OpKind.lea)
    && ((is_reg i.dst.kind && is_mem i.src.kind)
        && ((i.src.reg == i.dst.reg) && ((i.src.index == no_reg) && (i.src.imm == 0))))

unfoldable pub make_nop : Insn → ℕ → Insn × ℕ
make_nop i folded = (record i { kind = OpKind.nop; handler = Handler.op_nop }, folded + 1)

unfoldable pub always_taken : Cc → Bool
always_taken Cc.z = true
always_taken Cc.be = true
always_taken Cc.le = true
always_taken Cc.nb = true
always_taken Cc.ns = true
always_taken Cc.no = true
always_taken Cc.nl = true
always_taken _ = false

abbrev pub is_xor_self : Insn → Bool
is_xor_self a = (a.kind == OpKind.xor) && same_reg a

-- The body of the loop of `fold_opaque_jcc`: what becomes of `b`, which follows `a`.
unfoldable pub fold_pair : Insn → Insn → ℕ → Insn × ℕ
fold_pair a b folded =
    if is_xor_self a && ((b.kind == OpKind.jcc) && always_taken b.cond)
    then (record b { kind = OpKind.jmp; handler = Handler.op_jmp; cond = Cc.none }, folded + 1)
    else (b, folded)

-- The loop, from the instruction `a` on.
unfoldable pub fold_from : Insn → List Insn → ℕ → List Insn × ℕ
fold_from a [] folded = (a ∷ [], folded)
fold_from a (b ∷ rest) folded =
    let (b', n) = fold_pair a b folded in let (done, n') = fold_from b' rest n in (a ∷ done, n')

unfoldable pub fold_opaque_jcc : List Insn → ℕ → List Insn × ℕ
unfolding fold_pair fold_from
fold_opaque_jcc [] folded = ([], folded)
fold_opaque_jcc (a ∷ rest) folded = fold_from a rest folded

-- The first loop of `peephole_block`.
unfoldable pub fold_one : Insn → ℕ → Insn × ℕ
unfolding is_self_mov is_self_xchg is_self_lea make_nop
fold_one i folded =
    if (is_self_mov i || is_self_xchg i) || is_self_lea i then make_nop i folded else (i, folded)

unfoldable pub fold_each : List Insn → ℕ → List Insn × ℕ
unfolding fold_one
fold_each [] folded = ([], folded)
fold_each (i ∷ rest) folded =
    let (i', n) = fold_one i folded in let (done, n') = fold_each rest n in (i' ∷ done, n')

unfoldable pub peephole_block : DecodedBlock → ℕ → DecodedBlock × ℕ
unfolding fold_each fold_opaque_jcc
peephole_block block folded =
    let (insns, n) = fold_each block.insns folded in
    let (insns', n') = fold_opaque_jcc insns n in (record block { insns = insns' }, n')
