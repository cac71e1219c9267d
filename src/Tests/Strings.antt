-- ===== src/Tests/Strings.antt =====
-- Examples for the string operations, the bit counts, and a CALL with its RET.
use pico_cpu.Prelude.{ℕ, refl, arith, true, List, [], ◌∷◌}
use pico_cpu.Error.{Status}
use pico_cpu.Cpu.Cond.{Cc}
use pico_cpu.Cpu.State.Registers.{set_r64}
use pico_cpu.Ir.{Seg, OperandKind, Operand, Insn, no_reg, rcx}
use pico_cpu.Ir.OpKind
use pico_cpu.Memory.Provider.{Provider, ReadResult}
use pico_cpu.Handlers.Machine.{Machine, Attached, run}
use pico_cpu.Handlers.CallReturn.{over}
use pico_cpu.Handlers.StringOps.{
  op_scas, op_cmps, op_movs, op_stos, op_lods, has_rep, scas_step, cmps_step,
}
use pico_cpu.Handlers.StringOps.Rounds.{Repeats, EndsAfterOne}
use pico_cpu.Handlers.StringOps.Scan.{repeated_compare-Repeats, repeated_move-EndsAfterOne}
use pico_cpu.Handlers.BitManip.{bit_at, tzcount_u64, lzcount_u64}
use pico_cpu.Handlers.BitManip.Scan.{IsFirst, from_top, zcounts-IsFirst}
use pico_cpu.Tests.{processor, target, instruction}

-- A memory of the bytes written last.
abbrev last_written : Provider (List ℕ)
last_written = record {
  read = λ addr size s. (ReadResult.bytes s, s);
  write = λ addr bytes s. (Status.ok, bytes);
}

abbrev attached : Attached (List ℕ)
attached = over last_written (λ _ _ m. m) (λ _ _ _ m. m)

-- RCX counts 3.
abbrev counting : Machine (List ℕ)
counting = record { cpu = set_r64 rcx 3 processor; memory = 7 ∷ [] }

abbrev nothing : Operand
nothing = record {
  kind = OperandKind.none;
  reg = no_reg;
  index = no_reg;
  scale = 1;
  seg = Seg.ds;
  imm = 0;
}

abbrev repeated : ℕ → Insn
repeated prefix = record (instruction OpKind.nop 1 Cc.none nothing nothing) { flags = prefix }

-- F2: the repetition stops where the bytes are equal.
repeated_compare-Repeats_example :
    Repeats (scas_step attached 1) true 3 counting (run (op_scas attached (repeated 8)) counting)
    × Repeats (cmps_step attached 1) true 3 counting (run (op_cmps attached (repeated 8)) counting)
unfolding has_rep set_r64
repeated_compare-Repeats_example =
    repeated_compare-Repeats attached (repeated 8) true counting refl (refl, refl) (omega arith)

repeated_move-EndsAfterOne_example :
    EndsAfterOne counting (run (op_movs attached (repeated 4)) counting)
    × (EndsAfterOne counting (run (op_stos attached (repeated 4)) counting)
        × EndsAfterOne counting (run (op_lods attached (repeated 4)) counting))
unfolding has_rep set_r64
repeated_move-EndsAfterOne_example =
    repeated_move-EndsAfterOne attached (repeated 4) counting refl refl (omega arith) refl

zcounts-IsFirst_example :
    IsFirst (bit_at 40) 8 (tzcount_u64 40 8) × IsFirst (from_top 40 8) 8 (lzcount_u64 40 8)
zcounts-IsFirst_example = zcounts-IsFirst 40 8 (omega arith)

abbrev calling : Insn
calling = instruction OpKind.nop 8 Cc.none (target 16) nothing

abbrev returning : Insn
returning = instruction OpKind.nop 8 Cc.none nothing nothing
