-- ===== src/Handlers/StringOps.antt =====
-- src/emu/handlers/string_ops.cpp: MOVS, STOS, LODS, SCAS and CMPS, with their repetition.
pub mod Rounds
pub mod Scan
use pico_cpu.Prelude.{
  ℕ, zero, suc, bit_and, Bool, true, false, ◌&&◌, ◌||◌, not, ◌==◌, nonzero, if◌then◌else◌, none,
  some, u8, u16, u32, add64, sub64,
}
use pico_cpu.Error.{Status}
use pico_cpu.Cpu.Fault.{FaultKind}
use pico_cpu.Cpu.Widths.{mask_for}
use pico_cpu.Cpu.Rflags
use pico_cpu.Cpu.Lazy.{zf, sync_flags, stash_sub}
use pico_cpu.Cpu.State.{Cpu, on_flags}
use pico_cpu.Cpu.State.Registers.{set_r8, set_r16, set_r32, set_r64}
use pico_cpu.Ir.{Insn, rax, rcx, rsi, rdi}
use pico_cpu.Handlers.Machine.{Attached, Action, ◌>>=◌, ◌>>◌, pure, reads, modify, raise, ignoring}
use pico_cpu.Handlers.Operands.{load, store}

-- The signed step as a 64-bit pattern. DF is not lazy.
unfoldable pub dir_step : Cpu → ℕ → ℕ
dir_step c size = if nonzero (bit_and c.flags.rflags Rflags.df) then sub64 0 size else size

-- `INSN_FLAG_REP` and `INSN_FLAG_REPNE`.
abbrev pub repe : Insn → Bool
repe insn = nonzero (bit_and insn.flags 4)

abbrev pub repne : Insn → Bool
repne insn = nonzero (bit_and insn.flags 8)

unfoldable pub has_rep : Insn → Bool
has_rep insn = nonzero (bit_and insn.flags 12)

-- The two `break` tests.
unfoldable pub breaks : Insn → Bool → Bool
breaks insn zf_after = (repe insn && not zf_after) || (repne insn && zf_after)

abbrev pub count_down : Cpu → Cpu
count_down c = set_r64 rcx (sub64 (c.gpr rcx) 1) c

-- `cpu.set_r64(r, v + step)`.
abbrev pub move_by : ℕ → ℕ → ℕ → Cpu → Cpu
move_by r v size c = set_r64 r (add64 v (dir_step c size)) c

abbrev pub both_by : ℕ → ℕ → ℕ → Cpu → Cpu
both_by from to size c = move_by rdi to size (move_by rsi from size c)

-- What `op_lods` does with the value read.
unfoldable pub set_accumulator : ℕ → ℕ → Cpu → Cpu
set_accumulator size v c =
    if size == 1
    then set_r8 rax (u8 v) c
    else if size == 2
    then set_r16 rax (u16 v) c
    else if size == 4
    then set_r32 rax (u32 v) c
    else if size == 8
    then set_r64 rax v c
    else c

module _ {S : Type 0} where
  -- What follows `step(zf_after)` in the loop, before the next round.
  abbrev pub counted : Insn → Action S (Unit {0}) → Bool → Action S (Unit {0})
  counted insn rest zf_after = do modify count_down; if breaks insn zf_after then pure tt else rest

  unfoldable pub round : Action S Bool → Insn → Action S (Unit {0}) → Action S (Unit {0})
  round step insn rest s =
      if (s.cpu.gpr rcx == 0) || s.cpu.halted then (some tt, s) else (step >>= counted insn rest) s

  unfoldable pub rounds : Action S Bool → Insn → ℕ → Action S (Unit {0})
  rounds step insn zero = pure tt
  rounds step insn (suc n) = round step insn (rounds step insn n)

  -- The step gives `zf_after`, which only SCAS and CMPS set. As many rounds as RCX counts are made.
  unfoldable pub run_string : Action S Bool → Insn → Action S (Unit {0})
  run_string step insn s =
      if has_rep insn then rounds step insn (s.cpu.gpr rcx) s else ignoring step s

module _ {S : Type 0} (env : Attached S) where
  unfoldable pub read_bytes : ℕ → ℕ → Action S ℕ
  read_bytes addr size = elim (env.mem_read) [
    | none ↦ raise FaultKind.provider_failure addr Status.provider_failure
    | some mp ↦ load env mp addr size
  ]

  unfoldable pub write_bytes : ℕ → ℕ → ℕ → Action S (Unit {0})
  write_bytes addr size value = elim (env.mem_write) [
    | none ↦ raise FaultKind.provider_failure addr Status.provider_failure
    | some mp ↦ store env mp addr size value
  ]

  -- The end of a step that leaves `zf_after` alone.
  abbrev pub silently : (Cpu → Cpu) → Action S Bool
  silently f = do modify f; pure false

  abbrev pub movs_write : ℕ → ℕ → ℕ → ℕ → Action S Bool
  movs_write size from to v = do write_bytes to size v; silently (both_by from to size)

  unfoldable pub movs_step : ℕ → Action S Bool
  movs_step size = do
    from ← reads (λ c. c.gpr rsi)
    to ← reads (λ c. c.gpr rdi)
    v ← read_bytes from size
    movs_write size from to v

  unfoldable pub stos_step : ℕ → Action S Bool
  stos_step size = do
    to ← reads (λ c. c.gpr rdi)
    v ← reads (λ c. bit_and (c.gpr rax) (mask_for size))
    write_bytes to size v
    silently (move_by rdi to size)

  abbrev pub lods_set : ℕ → ℕ → ℕ → Action S Bool
  lods_set size from v = silently (λ c. move_by rsi from size (set_accumulator size v c))

  unfoldable pub lods_step : ℕ → Action S Bool
  lods_step size = do from ← reads (λ c. c.gpr rsi); v ← read_bytes from size; lods_set size from v

  -- The flags of `a - b`, and ZF.
  unfoldable pub compare_values : ℕ → ℕ → ℕ → Action S Bool
  compare_values size a b = do
    modify (on_flags (stash_sub size b (bit_and (sub64 a b) (mask_for size))))
    z ← reads (λ c. zf c.flags)
    modify (on_flags sync_flags)
    pure z

  abbrev pub scas_compare : ℕ → ℕ → ℕ → Action S Bool
  scas_compare size at v = do
    a ← reads (λ c. bit_and (c.gpr rax) (mask_for size))
    z ← compare_values size a v
    modify (move_by rdi at size)
    pure z

  unfoldable pub scas_step : ℕ → Action S Bool
  scas_step size = do at ← reads (λ c. c.gpr rdi); v ← read_bytes at size; scas_compare size at v

  abbrev pub cmps_compare : ℕ → ℕ → ℕ → ℕ → ℕ → Action S Bool
  cmps_compare size from to vs vd = do
    z ← compare_values size vs vd
    modify (both_by from to size)
    pure z

  abbrev pub cmps_second : ℕ → ℕ → ℕ → ℕ → Action S Bool
  cmps_second size from to vs = do vd ← read_bytes to size; cmps_compare size from to vs vd

  unfoldable pub cmps_step : ℕ → Action S Bool
  cmps_step size = do
    from ← reads (λ c. c.gpr rsi)
    to ← reads (λ c. c.gpr rdi)
    vs ← read_bytes from size
    cmps_second size from to vs

  unfoldable pub op_movs : Insn → Action S (Unit {0})
  op_movs insn = run_string (movs_step insn.op_size) insn

  unfoldable pub op_stos : Insn → Action S (Unit {0})
  op_stos insn = run_string (stos_step insn.op_size) insn

  unfoldable pub op_lods : Insn → Action S (Unit {0})
  op_lods insn = run_string (lods_step insn.op_size) insn

  unfoldable pub op_scas : Insn → Action S (Unit {0})
  op_scas insn = run_string (scas_step insn.op_size) insn

  unfoldable pub op_cmps : Insn → Action S (Unit {0})
  op_cmps insn = run_string (cmps_step insn.op_size) insn
