-- ===== src/Tests/Processor.antt =====
-- Examples for the processor state.
use pico_cpu.Prelude.{◌≡◌}
use pico_cpu.Cpu.State.{CpuidLeaf}
use pico_cpu.Cpu.State.Snapshot.{reset}
use pico_cpu.Cpu.Cond.{Cc, cond_holds}
use pico_cpu.Cpu.State.Reset.{cond_holds-reset}
use pico_cpu.Tests.{processor}

abbrev leaf : CpuidLeaf
leaf = record { leaf = 7; subleaf = 0; eax = 1; ebx = 2; ecx = 3; edx = 4 }

cond_holds-reset_example :
    cond_holds Cc.nb (reset processor).flags ≡ cond_holds Cc.nb processor.flags
cond_holds-reset_example = cond_holds-reset Cc.nb processor tt
