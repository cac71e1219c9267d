-- ===== src/Dispatcher.antt =====
-- src/emu/dispatcher/dispatcher.cpp: the run loop over decoded blocks, with the parts of
-- src/emu/include/emu/emu.h that it uses. The handler of an instruction, the decoder of one
-- instruction and the callbacks of the host are parameters.
pub mod Hooks
pub mod Filled
pub mod Progress
use pico_cpu.Prelude.{
  ℕ, zero, suc, ◌+◌, Bool, true, false, not, ◌&&◌, ◌||◌, Option, none, some, List, [], ◌∷◌, ◌==◌,
  ltb, leb, if◌then◌else◌, add64,
}
use pico_cpu.Error.{Status, fail}
use pico_cpu.Cpu.Fault.{FaultKind, Fault, is_set, no_fault}
use pico_cpu.Cpu.State.{Cpu, set_fault}
use pico_cpu.Cpu.State.Debug.{exec_breakpoint_at}
use pico_cpu.Ir.{Insn, DecodedBlock, rax}
use pico_cpu.Handlers.Machine.{Machine}
use pico_cpu.Blocks.Cache.{BlockCache, lookup, insert, invalidate_range}
use pico_cpu.Blocks.Decode.{Decoded, decode_block}
use pico_cpu.Blocks.Targets.{BranchTargetCache, predict, record_target}

pub record RunResult : Type 0 where
  pub status : Status
  pub insns_executed : ℕ
  pub final_rip : ℕ
  pub final_rax : ℕ

-- The stubs of the host: the region, and `dispatch`, which says whether it succeeded.
pub record Stubs (S : Type 0) : Type 0 where
  pub in_region : ℕ → Bool
  pub dispatch : ℕ → Machine S → Bool × Machine S

-- What the host has attached to the emulator. `exec` is `insn.handler(cpu, insn)`, and `sweeps` has
-- the ranges of the block cache that the write listener drops while the handler runs. Each of
-- `on_block`, `on_code`, `on_insn` and `on_fault` is what all hooks of the kind do together.
pub record Host (S : Type 0) : Type 0 where
  pub exec : Insn → Machine S → Machine S
  pub sweeps : Insn → Machine S → List (ℕ × ℕ)
  pub decode_one : ℕ → S → Decoded × S
  pub readable : Bool
  pub stubs : Option (Stubs S)
  pub on_block : ℕ → ℕ → Machine S → Machine S
  pub on_code : ℕ → ℕ → Machine S → Machine S
  pub on_insn : Insn → Machine S → Machine S
  pub trace : Option (Insn → Machine S → Machine S)
  pub recover : Option (Machine S → Bool × Machine S)
  pub on_fault : Machine S → Machine S
  pub stop_addrs : List ℕ

pub record Emulator (S : Type 0) : Type 0 where
  pub machine : Machine S
  pub block_cache : BlockCache
  pub btc : BranchTargetCache

-- How the replay of a block ends: at its last instruction, early, or with the result of the run.
pub data Replay : Type 0 where
  fell : ℕ → Replay
  left : ℕ → Replay
  returned : RunResult → Replay

abbrev pub is_in : List ℕ → ℕ → Bool
is_in [] a = false
is_in (x ∷ xs) a = let rest = is_in xs a in if x == a then true else rest

abbrev pub unhalt : Cpu → Cpu
unhalt c = record c { halted = false }

abbrev pub clear_branch : Cpu → Cpu
clear_branch c = record c { branch_taken = false }

abbrev pub clear_fault : Cpu → Cpu
clear_fault c = record c { fault = no_fault }

abbrev pub set_rip : ℕ → Cpu → Cpu
set_rip v c = record c { rip = v }

-- The calls of `invalidate_range` by the write listener.
abbrev pub sweep_all : List (ℕ × ℕ) → BlockCache → BlockCache
sweep_all [] c = c
sweep_all ((addr, size) ∷ rest) c = sweep_all rest (invalidate_range addr size c)

-- The status of a run that ends in a halt.
abbrev pub halt_status : Fault → Status
halt_status f =
    if is_set f then (if fail f.reason then f.reason else Status.internal) else Status.ok

abbrev pub count_target : ℕ → ℕ → BranchTargetCache → BranchTargetCache
count_target from to c =
    if predict from c == to
    then record c { hits = c.hits + 1 }
    else record_target from to (record c { misses = c.misses + 1 })

-- A hardware breakpoint at the instruction.
abbrev pub breakpoint : Insn → Cpu → Cpu
breakpoint i c = set_fault FaultKind.breakpoint i.rip Status.ok c

-- A run that has ended, or the number of instructions so far.
pub data Turn : Type 0 where
  ended : RunResult → Turn
  again : ℕ → Turn

module _ {S : Type 0} where
  abbrev pub on_cpu : (Cpu → Cpu) → Machine S → Machine S
  on_cpu f m = record m { cpu = f m.cpu }

  abbrev pub on_machine : (Machine S → Machine S) → Emulator S → Emulator S
  on_machine f e = record e { machine = f e.machine }

  abbrev pub is_stop : Host S → ℕ → Bool
  is_stop h a = is_in h.stop_addrs a

  -- The result of the run as the processor stands.
  abbrev pub result : Status → ℕ → Emulator S → RunResult
  result st executed e = record {
    status = st;
    insns_executed = executed;
    final_rip = e.machine.cpu.rip;
    final_rax = e.machine.cpu.gpr rax;
  }

  -- The result with the address of the block in the place of RIP.
  abbrev pub result_at : Status → ℕ → ℕ → Emulator S → RunResult
  result_at st pc executed e = record (result st executed e) { final_rip = pc }

  -- The hooks and the trace before an instruction.
  unfoldable pub before : Host S → Insn → Machine S → Machine S
  before h i m =
      let m' = h.on_insn i (h.on_code i.rip i.len m) in
      elim (h.trace) [ none ↦ m' | some f ↦ f i (on_cpu (set_rip i.rip) m') ]

  -- The call of the handler.
  unfoldable pub call : Host S → Insn → Emulator S → Emulator S
  call h i e =
      let m = before h i e.machine in
      record e { machine = h.exec i m; block_cache = sweep_all (h.sweeps i m) e.block_cache }

  -- The end of the run in a halt that is not recovered from. The result is made before the hooks.
  abbrev pub halt_end : Host S → ℕ → Emulator S → Replay × Emulator S
  halt_end h executed e = (
    Replay.returned (result (halt_status e.machine.cpu.fault) executed e),
    if is_set e.machine.cpu.fault then on_machine h.on_fault e else e,
  )

  abbrev pub recovered : Host S → ℕ → Emulator S → Bool × Machine S → Replay × Emulator S
  recovered h executed e (ok, m) =
      if ok
      then (Replay.left executed, record e { machine = on_cpu (λ c. unhalt (clear_fault c)) m })
      else halt_end h executed (record e { machine = m })

  -- `cpu.halted()` after the handler.
  unfoldable pub on_halt : Host S → ℕ → Emulator S → Replay × Emulator S
  on_halt h executed e =
      if is_set e.machine.cpu.fault
      then elim (h.recover) [
        | none ↦ halt_end h executed e
        | some f ↦ recovered h executed e (f e.machine)
      ]
      else halt_end h executed e

  -- The end of an instruction that did not halt, where `more` is the rest of the block.
  unfoldable pub advance :
      Host S → ℕ → Insn → ℕ → Emulator S → (Emulator S → Replay × Emulator S) → Replay × Emulator S
  advance h max_insns i executed e more =
      let e' = on_machine (on_cpu (set_rip (add64 i.rip i.len))) e in
      let rest = more e' in
      if e.machine.cpu.branch_taken
      then (Replay.left executed, record e { btc = count_target i.rip e.machine.cpu.rip e.btc })
      else if is_stop h (add64 i.rip i.len)
      then (Replay.returned (result Status.ok executed e'), e')
      else if leb max_insns executed
      then (Replay.left executed, e')
      else rest

  -- An instruction behind the breakpoints.
  unfoldable pub execute :
      Host S → ℕ → Insn → ℕ → Emulator S → (Emulator S → Replay × Emulator S) → Replay × Emulator S
  execute h max_insns i executed e more =
      let e' = call h i e in
      if e'.machine.cpu.halted
      then on_halt h (executed + 1) e'
      else advance h max_insns i (executed + 1) e' more

  abbrev pub checked :
      Host S
      → ℕ
      → Insn
      → ℕ
      → Emulator S
      → (Emulator S → Replay × Emulator S)
      → Bool × Cpu
      → Replay × Emulator S
  checked h max_insns i executed e more (hit, c) =
      let go = execute h max_insns i executed (on_machine (on_cpu (λ _. c)) e) more in
      if hit then (Replay.left executed, on_machine (on_cpu (λ _. breakpoint i c)) e) else go

  -- The loop over the instructions of a block.
  unfoldable pub replay : Host S → ℕ → List Insn → ℕ → Emulator S → Replay × Emulator S
  replay h max_insns [] executed e = (Replay.fell executed, e)
  replay h max_insns (i ∷ rest) executed e =
      let go =
        checked h max_insns i executed e (replay h max_insns rest (executed + 1))
          (exec_breakpoint_at i.rip (clear_branch e.machine.cpu)) in
      if e.machine.cpu.halted then (Replay.left executed, e) else go

  -- A block that was decoded at an address.
  abbrev pub decoded :
      ℕ
      → BlockCache
      → Emulator S
      → Status × (DecodedBlock × S)
      → (Status × DecodedBlock) × Emulator S
  decoded pc c e (st, (block, m)) = (
    (st, block),
    record e {
      machine = record e.machine { memory = m };
      block_cache = if fail st then c else insert pc block c;
    },
  )

  abbrev pub found :
      Host S
      → ℕ
      → Option DecodedBlock × BlockCache
      → Emulator S
      → (Status × DecodedBlock) × Emulator S
  found h pc (some block, c) e = ((Status.ok, block), record e { block_cache = c })
  found h pc (none, c) e = decoded pc c e (decode_block h.decode_one pc 1024 0 e.machine.memory)

  -- The block at an address, from the cache or decoded into it, unless the status is a failure.
  unfoldable pub fetch_block : Host S → ℕ → Emulator S → (Status × DecodedBlock) × Emulator S
  fetch_block h pc e = found h pc (lookup pc e.block_cache) e

  abbrev pub after_replay : Host S → Replay × Emulator S → Turn × Emulator S
  after_replay h (Replay.fell executed, e) = (again executed, e)
  after_replay h (Replay.left executed, e) = (
    if is_stop h e.machine.cpu.rip then ended (result Status.ok executed e) else again executed,
    e,
  )
  after_replay h (Replay.returned r, e) = (ended r, e)

  abbrev pub run_block :
      Host S → ℕ → ℕ → ℕ → (Status × DecodedBlock) × Emulator S → Turn × Emulator S
  run_block h max_insns pc executed ((st, block), e) =
      let go =
        after_replay h (
          replay h max_insns block.insns executed (on_machine (h.on_block pc block.byte_size) e)) in
      if fail st then (ended (result_at st pc executed e), e) else go

  abbrev pub after_stub : Host S → ℕ → ℕ → Emulator S → Bool × Machine S → Turn × Emulator S
  after_stub h pc executed e (ok, m) =
      let e' = record e { machine = m } in
      if ok
      then (
        if is_stop h m.cpu.rip then ended (result Status.ok executed e') else again executed,
        e',
      )
      else (ended (result_at m.cpu.fault.reason pc executed e'), e')

  abbrev pub stub_at : Option (Stubs S) → ℕ → Option (Stubs S)
  stub_at none pc = none
  stub_at (some s) pc = if s.in_region pc then some s else none

  -- The body of the outer loop, where RIP is in the region of the stubs or not.
  abbrev pub turn_at : Option (Stubs S) → Host S → ℕ → ℕ → Emulator S → Turn × Emulator S
  turn_at (some s) h max_insns executed e =
      let pc = e.machine.cpu.rip in after_stub h pc executed e (s.dispatch pc e.machine)
  turn_at none h max_insns executed e =
      let pc = e.machine.cpu.rip in run_block h max_insns pc executed (fetch_block h pc e)

  unfoldable pub turn : Host S → ℕ → ℕ → Emulator S → Turn × Emulator S
  turn h max_insns executed e = turn_at (stub_at h.stubs e.machine.cpu.rip) h max_insns executed e

  abbrev pub continue_with :
      Turn × Emulator S
      → (ℕ → Emulator S → Option RunResult × Emulator S)
      → Option RunResult × Emulator S
  continue_with (ended r, e) more = (some r, e)
  continue_with (again executed, e) more = more executed e

  -- The outer loop, or `none` where the fuel runs out.
  unfoldable pub run_loop : Host S → ℕ → ℕ → ℕ → Emulator S → Option RunResult × Emulator S
  run_loop h max_insns zero executed e = (none, e)
  run_loop h max_insns (suc fuel) executed e =
      let go = continue_with (turn h max_insns executed e) (run_loop h max_insns fuel) in
      if not (ltb executed max_insns) || e.machine.cpu.halted
      then (some (result Status.ok executed e), e)
      else go

  -- `run_with_cpu`. The result of a run without a memory has no final registers.
  unfoldable pub run : Host S → ℕ → ℕ → ℕ → Emulator S → Option RunResult × Emulator S
  run h fuel entry max_insns e =
      let e' = on_machine (on_cpu (λ c. set_rip entry (clear_branch (unhalt c)))) e in
      if h.readable then run_loop h max_insns fuel 0 e' else (
        some (record {
          status = Status.provider_failure;
          insns_executed = 0;
          final_rip = 0;
          final_rax = 0;
        }),
        e',
      )
