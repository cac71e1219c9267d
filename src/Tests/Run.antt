-- ===== src/Tests/Run.antt =====
-- Examples for the run loop.
use pico_cpu.Prelude.{◌≤◌, ◌≡◌, refl, Option, none, some, [], true}
use pico_cpu.Cpu.Cond.{Cc}
use pico_cpu.Ir.{Insn}
use pico_cpu.Ir.OpKind
use pico_cpu.Handlers.Machine.{Machine}
use pico_cpu.Blocks.Decode.{Decoded}
use pico_cpu.Dispatcher.{Host, Stubs, Emulator, RunResult, run}
use pico_cpu.Dispatcher.Progress.{run-Ends}
use pico_cpu.Tests.{machine, register, instruction}

-- An instruction of three bytes at every address.
abbrev move : Insn
move = instruction OpKind.mov 8 Cc.none (register 2) (register 2)

abbrev host :
    (Insn → Machine (Unit {0}) → Machine (Unit {0})) → Option (Stubs (Unit {0})) → Host (Unit {0})
host exec stubs = record {
  exec = exec;
  sweeps = λ _ _. [];
  decode_one = λ pc s. (Decoded.insn (record move { rip = pc }), s);
  readable = true;
  stubs = stubs;
  on_block = λ _ _ m. m;
  on_code = λ _ _ m. m;
  on_insn = λ _ m. m;
  trace = none;
  recover = none;
  on_fault = λ m. m;
  stop_addrs = [];
}

abbrev emulator : Emulator (Unit {0})
emulator = record {
  machine = machine;
  block_cache = record { blocks = []; hits = 0; misses = 0; semantic_hits = 0 };
  btc = record { entries = λ i. record { branch_pc = 0; target_pc = 0 }; hits = 0; misses = 0 };
}

abbrev idle : Host (Unit {0})
idle = host (λ _ m. m) none

run-Ends_example :
    (r : RunResult) × (((run idle 6 0x1000 5 emulator).0 ≡ some r) × (r.insns_executed ≤ 5))
run-Ends_example = run-Ends idle 0x1000 5 emulator refl (λ pc s. tt) tt
