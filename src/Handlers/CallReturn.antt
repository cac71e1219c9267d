-- ===== src/Handlers/CallReturn.antt =====
-- A CALL and the RET that ends the routine.
use pico_cpu.Prelude.{ℕ, Option, some, add64, sub64}
use pico_cpu.Cpu.State.{Cpu, take_branch}
use pico_cpu.Cpu.State.Registers.{set_r64}
use pico_cpu.Ir.{Insn, rsp}
use pico_cpu.Memory.Provider.{Provider}
use pico_cpu.Handlers.Machine.{Machine, Attached, run, ◌>>=◌, ◌>>◌, modify, Action}

abbrev return_address : Insn → ℕ
return_address i = add64 i.rip i.len

-- One provider for reads and writes, and any hooks.
abbrev pub over :
    {S : Type 0}
    → Provider S
    → (ℕ → ℕ → Machine S → Machine S)
    → (ℕ → ℕ → ℕ → Machine S → Machine S)
    → Attached S
over mp on_read on_write = record {
  mem_read = some mp;
  mem_write = some mp;
  on_read = on_read;
  on_write = on_write;
}

module _ {S : Type 0} (mp : Provider S) (on_read : ℕ → ℕ → Machine S → Machine S)
    (on_write : ℕ → ℕ → ℕ → Machine S → Machine S) where
  abbrev env : Attached S
  env = over mp on_read on_write

  -- What follows the push of a CALL, with the target known.
  abbrev pushed : ℕ → Action S ℕ → Option (Unit {0}) × Machine S → Machine S
  pushed new_rsp target r =
      run
        ((λ _. r) >>= λ _. do modify (set_r64 rsp new_rsp); tgt ← target; modify (take_branch tgt))
        r.1

  abbrev pub lowered : Machine S → ℕ
  lowered m = sub64 (m.cpu.gpr rsp) 8

  -- What follows the pop of a RET.
  abbrev returned : ℕ → Option ℕ × Machine S → Machine S
  returned new_rsp r =
      run ((λ _. r) >>= λ ret_addr. do modify (set_r64 rsp new_rsp); modify (take_branch ret_addr))
        r.1
