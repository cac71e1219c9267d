-- ===== src/Error.antt =====
-- src/emu/include/emu/error.h: the status codes that every fallible operation returns.
use pico_cpu.Prelude.{Bool, true, false}

pub data Status : Type 0 where
  ok invalid_argument out_of_memory not_implemented internal : Status
  unmapped_read unmapped_write protection_violation provider_failure : Status
  invalid_instruction truncated_instruction unsupported_prefix unsupported_opcode : Status
  host_open_failed host_query_failed host_read_failed : Status
  process_not_found function_not_found : Status

-- `fail(s)`.
abbrev pub fail : Status → Bool
fail Status.ok = false
fail _ = true
