-- ===== src/Cpu/State/Snapshot.antt =====
-- src/emu/cpu/cpu.cpp: `snapshot`, `restore` and `reset`.
use pico_cpu.Prelude.{ℕ, Bool, false}
use pico_cpu.Cpu.Rflags
use pico_cpu.Cpu.Fault.{Fault}
use pico_cpu.Cpu.Lazy.{CcOp, sync_flags}
use pico_cpu.Cpu.State.{Cpu, on_flags}

pub record Snapshot : Type 0 where
  pub gpr : ℕ → ℕ
  pub dr : ℕ → ℕ
  pub zmm : ℕ → ℕ → ℕ
  pub k : ℕ → ℕ
  pub fpu_st : ℕ → ℕ
  pub fpu_cw : ℕ
  pub fpu_sw : ℕ
  pub fpu_top : ℕ
  pub rip : ℕ
  pub rflags : ℕ
  pub fs_base : ℕ
  pub gs_base : ℕ
  pub cc_op : CcOp
  pub cc_size : ℕ
  pub cc_dst : ℕ
  pub cc_src : ℕ
  pub cc_src2 : ℕ
  pub fault : Fault
  pub halted : Bool
  pub branch_taken : Bool

-- What `snapshot` copies, once it has synced.
abbrev copy : Cpu → Snapshot
copy c = record {
  gpr = c.gpr;
  dr = c.dr;
  zmm = c.zmm;
  k = c.k;
  fpu_st = c.fpu_st;
  fpu_cw = c.fpu_cw;
  fpu_sw = c.fpu_sw;
  fpu_top = c.fpu_top;
  rip = c.rip;
  rflags = c.flags.rflags;
  fs_base = c.fs_base;
  gs_base = c.gs_base;
  cc_op = c.flags.cc_op;
  cc_size = c.flags.cc_size;
  cc_dst = c.flags.cc_dst;
  cc_src = c.flags.cc_src;
  cc_src2 = c.flags.cc_src2;
  fault = c.fault;
  halted = c.halted;
  branch_taken = c.branch_taken;
}

-- The snapshot, and the processor, whose flags the call has synced.
unfoldable pub snapshot : Cpu → Snapshot × Cpu
snapshot c = let synced = on_flags sync_flags c in (copy synced, synced)

unfoldable pub restore : Snapshot → Cpu → Cpu
restore s c = record {
  gpr = s.gpr;
  dr = s.dr;
  zmm = s.zmm;
  k = s.k;
  fpu_st = s.fpu_st;
  fpu_cw = s.fpu_cw;
  fpu_sw = s.fpu_sw;
  fpu_top = s.fpu_top;
  rip = s.rip;
  flags = record {
    rflags = s.rflags;
    cc_op = s.cc_op;
    cc_size = s.cc_size;
    cc_dst = s.cc_dst;
    cc_src = s.cc_src;
    cc_src2 = s.cc_src2;
  };
  fs_base = s.fs_base;
  gs_base = s.gs_base;
  fault = s.fault;
  halted = s.halted;
  branch_taken = s.branch_taken;
  cpuid_overrides = c.cpuid_overrides;
}

unfoldable pub reset : Cpu → Cpu
reset c = record c {
  gpr = λ i. 0;
  rip = 0;
  flags = record (c.flags) { rflags = Rflags.always_one };
  fs_base = 0;
  gs_base = 0;
  halted = false;
  branch_taken = false;
}
