-- ===== src/Cpu/Fault.antt =====
-- src/emu/include/emu/fault.h and src/emu/cpu/fault.cpp: latched faults.
-- The diagnostic text of a fault (`note`) is left out: no code reads it.
use pico_cpu.Prelude.{ℕ, Bool, true, false}
use pico_cpu.Error.{Status}

pub data FaultKind : Type 0 where
  none page_fault general_protection invalid_opcode divide_error breakpoint overflow : FaultKind
  bound_range device_not_available double_fault invalid_tss segment_not_present : FaultKind
  stack_fault alignment_check provider_failure not_implemented internal_error : FaultKind

pub record Fault : Type 0 where
  pub kind : FaultKind
  pub rip : ℕ
  pub addr : ℕ
  pub reason : Status

abbrev pub no_fault : Fault
no_fault = record { kind = FaultKind.none; rip = 0; addr = 0; reason = Status.ok }

abbrev pub is_set : Fault → Bool
is_set f = elim (f.kind) [ FaultKind.none ↦ false | _ ↦ true ]

unfoldable pub kind_from_status : Status → FaultKind
kind_from_status Status.unmapped_read = FaultKind.page_fault
kind_from_status Status.unmapped_write = FaultKind.page_fault
kind_from_status Status.host_read_failed = FaultKind.page_fault
kind_from_status Status.protection_violation = FaultKind.general_protection
kind_from_status Status.invalid_instruction = FaultKind.invalid_opcode
kind_from_status Status.unsupported_opcode = FaultKind.invalid_opcode
kind_from_status Status.unsupported_prefix = FaultKind.invalid_opcode
kind_from_status Status.provider_failure = FaultKind.provider_failure
kind_from_status Status.not_implemented = FaultKind.not_implemented
kind_from_status Status.internal = FaultKind.internal_error
kind_from_status Status.truncated_instruction = FaultKind.invalid_opcode
kind_from_status _ = FaultKind.internal_error
