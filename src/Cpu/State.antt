-- ===== src/Cpu/State.antt =====
-- src/emu/include/emu/cpu.h: the whole processor state. Register files are functions of the
-- index; a double is its 64-bit pattern. The pointers to the memory providers and the hooks are
-- no state of the processor here: `Handlers.Machine` has them.
pub mod Registers
pub mod Debug
pub mod Snapshot
pub mod Roundtrips
pub mod Reset
use pico_cpu.Prelude.{ℕ, Bool, true, List, ◌==◌, if◌then◌else◌}
use pico_cpu.Error.{Status}
use pico_cpu.Cpu.Fault.{Fault, FaultKind, kind_from_status}
use pico_cpu.Cpu.Lazy.{LazyFlags}

pub record CpuidLeaf : Type 0 where
  pub leaf : ℕ
  pub subleaf : ℕ
  pub eax : ℕ
  pub ebx : ℕ
  pub ecx : ℕ
  pub edx : ℕ

pub record Cpu : Type 0 where
  pub gpr : ℕ → ℕ
  pub dr : ℕ → ℕ
  pub zmm : ℕ → ℕ → ℕ
  pub k : ℕ → ℕ
  pub fpu_st : ℕ → ℕ
  pub fpu_cw : ℕ
  pub fpu_sw : ℕ
  pub fpu_top : ℕ
  pub rip : ℕ
  pub flags : LazyFlags
  pub fs_base : ℕ
  pub gs_base : ℕ
  pub fault : Fault
  pub halted : Bool
  pub branch_taken : Bool
  pub cpuid_overrides : List CpuidLeaf

-- `file[i] = v`.
abbrev pub update : (ℕ → ℕ) → ℕ → ℕ → ℕ → ℕ
update file i v j = if j == i then v else file j

abbrev pub on_flags : (LazyFlags → LazyFlags) → Cpu → Cpu
on_flags f c = record c { flags = f c.flags }

unfoldable pub set_fault : FaultKind → ℕ → Status → Cpu → Cpu
set_fault kind at reason c = record c {
  fault = record { kind = kind; rip = c.rip; addr = at; reason = reason };
  halted = true;
}

unfoldable pub take_branch : ℕ → Cpu → Cpu
take_branch target c = record c { rip = target; branch_taken = true }
