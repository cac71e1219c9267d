-- ===== src/Dispatcher/Progress.antt =====
-- The run loop makes progress: each of its turns runs an instruction, halts or ends the run, so that
-- a run ends within one turn more than the instructions that it may run.
use pico_cpu.Prelude.{
  ℕ, zero, suc, ◌+◌, ◌≤◌, ◌<◌, ◌≡◌, ◌⊎◌, inl, inr, refl, sym, subst, ap, Bool, true, false, not,
  ◌||◌, Option, none, some, List, [], ◌∷◌, ltb, leb, Bool-cases, if_split, add64, arith,
}
use pico_cpu.Error.{Status, fail}
use pico_cpu.Cpu.Fault.{is_set}
use pico_cpu.Cpu.State.{Cpu, set_fault}
use pico_cpu.Ir.{Insn, DecodedBlock}
use pico_cpu.Handlers.Machine.{Machine}
use pico_cpu.Blocks.Cache.{BlockCache, lookup}
use pico_cpu.Blocks.Decode.{decode_block}
use pico_cpu.Dispatcher.{
  Host, Emulator, Replay, RunResult, Turn, on_machine, on_cpu, before, call, halt_end, recovered,
  on_halt, advance, execute, checked, replay, decoded, found, fetch_block, after_replay, run_block,
  stub_at, turn, turn_at, continue_with, run_loop, run, is_stop, set_rip,
}
use pico_cpu.Dispatcher.Filled.{
  IsFull, IsFilled, AreFilled, MaybeFilled, FailsClearly, Filled, decode_block-Filled,
  sweep_all-AreFilled, insert-AreFilled, lookup-AreFilled,
}

module _ {S : Type 0} (h : Host S) (max_insns : ℕ) where
  abbrev IsHalted : Emulator S → Type 0
  IsHalted e = e.machine.cpu.halted ≡ true

  -- A replay keeps the blocks filled, and leaves the count at `lo` at least or the processor halted,
  -- and never above the limit.
  Reaches : ℕ → Replay × Emulator S → Type 0
  Reaches lo (Replay.fell n, e) = (lo ≤ n) × (n ≤ max_insns) × AreFilled e.block_cache.blocks
  Reaches lo (Replay.left n, e) =
      ((lo ≤ n) ⊎ IsHalted e) × (n ≤ max_insns) × AreFilled e.block_cache.blocks
  Reaches lo (Replay.returned r, e) =
      (r.insns_executed ≤ max_insns) × AreFilled e.block_cache.blocks

  Reaches-weaken : (lo : ℕ) (r : Replay × Emulator S) → Reaches (lo + 1) r → Reaches lo r
  unfolding Reaches
  Reaches-weaken lo (Replay.fell n, e) (a, b, c) = (omega arith, b, c)
  Reaches-weaken lo (Replay.left n, e) (inl a, b, c) = (inl (omega arith), b, c)
  Reaches-weaken lo (Replay.left n, e) (inr a, b, c) = (inr a, b, c)
  Reaches-weaken lo (Replay.returned r, e) k = k

  halt_end-Reaches :
      (executed : ℕ) (e : Emulator S)
      → executed ≤ max_insns
      → AreFilled e.block_cache.blocks
      → Reaches executed (halt_end h executed e)
  unfolding Reaches
  halt_end-Reaches executed e small full = elim (Bool-cases (is_set e.machine.cpu.fault)) [
    | inl q ↦ rw q (small, full)
    | inr q ↦ rw q (small, full)
  ]

  recovered-Reaches :
      (executed : ℕ) (e : Emulator S) (r : Bool × Machine S)
      → executed ≤ max_insns
      → AreFilled e.block_cache.blocks
      → Reaches executed (recovered h executed e r)
  unfolding Reaches
  recovered-Reaches executed e (true, m) small full = (inl (omega arith), small, full)
  recovered-Reaches executed e (false, m) small full =
      halt_end-Reaches executed (record e { machine = m }) small full

  on_halt-Reaches :
      (executed : ℕ) (e : Emulator S)
      → executed ≤ max_insns
      → AreFilled e.block_cache.blocks
      → Reaches executed (on_halt h executed e)
  unfolding on_halt
  on_halt-Reaches executed e small full =
      if_split (Reaches executed) (is_set e.machine.cpu.fault) _ _ (λ _. recovery h.recover)
        (λ _. halt_end-Reaches executed e small full)
    where
      recovery :
          (o : Option (Machine S → Bool × Machine S))
          → Reaches executed (elim o as (λ _. Replay × Emulator S) [
            | none ↦ halt_end h executed e
            | some f ↦ recovered h executed e (f e.machine)
          ])
      recovery none = halt_end-Reaches executed e small full
      recovery (some f) = recovered-Reaches executed e (f e.machine) small full

  advance-Reaches :
      (i : Insn) (executed : ℕ) (e : Emulator S) (more : Emulator S → Replay × Emulator S)
      → executed ≤ max_insns
      → AreFilled e.block_cache.blocks
      → ((e' : Emulator S)
          → executed < max_insns
          → AreFilled e'.block_cache.blocks
          → Reaches executed (more e'))
      → Reaches executed (advance h max_insns i executed e more)
  unfolding advance Reaches
  advance-Reaches i executed e more small full rest =
      if_split (Reaches executed) e.machine.cpu.branch_taken _ _
        (λ _. (inl (omega arith), small, full))
        λ _.
          if_split (Reaches executed) (is_stop h (add64 i.rip i.len)) _ _ (λ _. (small, full))
            λ _.
              if_split (Reaches executed) (leb max_insns executed) _ _
                (λ _. (inl (omega arith), small, full))
                λ l. rest (on_machine (on_cpu (set_rip (add64 i.rip i.len))) e) (ground arith) full

  execute-Reaches :
      (i : Insn) (executed : ℕ) (e : Emulator S) (more : Emulator S → Replay × Emulator S)
      → executed < max_insns
      → AreFilled e.block_cache.blocks
      → ((e' : Emulator S)
          → executed + 1 < max_insns
          → AreFilled e'.block_cache.blocks
          → Reaches (executed + 1) (more e'))
      → Reaches (executed + 1) (execute h max_insns i executed e more)
  unfolding execute call
  execute-Reaches i executed e more small full rest =
      let full' : AreFilled (call h i e).block_cache.blocks =
        sweep_all-AreFilled (h.sweeps i (before h i e.machine)) e.block_cache full in
      if_split (Reaches (executed + 1)) (call h i e).machine.cpu.halted _ _
        (λ _. on_halt-Reaches (executed + 1) (call h i e) (omega arith) full')
        (λ _. advance-Reaches i (executed + 1) (call h i e) more (omega arith) full' rest)

  checked-Reaches :
      (i : Insn) (executed : ℕ) (e : Emulator S) (more : Emulator S → Replay × Emulator S)
      (r : Bool × Cpu)
      → executed < max_insns
      → AreFilled e.block_cache.blocks
      → ((e' : Emulator S)
          → executed + 1 < max_insns
          → AreFilled e'.block_cache.blocks
          → Reaches (executed + 1) (more e'))
      → Reaches (executed + 1) (checked h max_insns i executed e more r)
  unfolding Reaches set_fault
  checked-Reaches i executed e more (hit, c) small full rest =
      if_split (Reaches (executed + 1)) hit _ _ (λ _. (inr refl, omega arith, full))
        (λ _. execute-Reaches i executed (on_machine (on_cpu (λ _. c)) e) more small full rest)

  first-Reaches :
      (i : Insn) (rest : List Insn) (executed : ℕ) (e : Emulator S)
      → executed < max_insns
      → AreFilled e.block_cache.blocks
      → ((e' : Emulator S)
          → executed + 1 < max_insns
          → AreFilled e'.block_cache.blocks
          → Reaches (executed + 1) (replay h max_insns rest (executed + 1) e'))
      → Reaches (executed + 1) (replay h max_insns (i ∷ rest) executed e)
  unfolding replay Reaches
  first-Reaches i rest executed e small full more =
      if_split (Reaches (executed + 1)) e.machine.cpu.halted _ _
        (λ halted. (inr halted, omega arith, full))
        (λ _.
          checked-Reaches i executed e (replay h max_insns rest (executed + 1)) _ small full more)

  replay-Reaches :
      (insns : List Insn) (executed : ℕ) (e : Emulator S)
      → executed < max_insns
      → AreFilled e.block_cache.blocks
      → Reaches executed (replay h max_insns insns executed e)
  unfolding replay Reaches
  replay-Reaches [] executed e small full = (omega arith, omega arith, full)
  replay-Reaches (i ∷ rest) executed e small full = Reaches-weaken executed _ (
      first-Reaches i rest executed e small full
        λ e' s f. replay-Reaches rest (executed + 1) e' s f)

  block-Reaches :
      (insns : List Insn) (executed : ℕ) (e : Emulator S)
      → IsFull insns
      → executed < max_insns
      → AreFilled e.block_cache.blocks
      → Reaches (executed + 1) (replay h max_insns insns executed e)
  block-Reaches [] executed e nonempty small full = elim nonempty [ ]
  block-Reaches (i ∷ rest) executed e nonempty small full =
      first-Reaches i rest executed e small full λ e' s f. replay-Reaches rest (executed + 1) e' s f

  -- The same of a turn of the outer loop.
  Advances : ℕ → Turn × Emulator S → Type 0
  Advances lo (Turn.ended r, e) = r.insns_executed ≤ max_insns
  Advances lo (Turn.again n, e) =
      ((lo ≤ n) ⊎ IsHalted e) × (n ≤ max_insns) × AreFilled e.block_cache.blocks

  after_replay-Advances :
      (lo : ℕ) (r : Replay × Emulator S) → Reaches lo r → Advances lo (after_replay h r)
  unfolding Reaches Advances
  after_replay-Advances lo (Replay.fell n, e) (a, b, c) = (inl a, b, c)
  after_replay-Advances lo (Replay.left n, e) (a, b, c) =
      if_split (λ t. Advances lo (t, e)) (is_stop h e.machine.cpu.rip) _ _ (λ _. b) (λ _. (a, b, c))
  after_replay-Advances lo (Replay.returned r, e) (a, b) = a

  Fetched : (Status × DecodedBlock) × Emulator S → Type 0
  Fetched ((st, block), e) = (fail st ≡ false → IsFilled block) × AreFilled e.block_cache.blocks

  decoded-Fetched :
      (pc : ℕ) (c : BlockCache) (e : Emulator S) (r : Status × (DecodedBlock × S))
      → Filled r
      → AreFilled c.blocks
      → Fetched (decoded pc c e r)
  unfolding Fetched
  decoded-Fetched pc c e (st, (block, m)) full all = (
    full,
    if_split (λ d. AreFilled d.blocks) (fail st) c _ (λ _. all)
        (λ f. insert-AreFilled pc block c (full f) all),
  )

  found-Fetched :
      (pc : ℕ) (o : Option DecodedBlock × BlockCache) (e : Emulator S)
      → FailsClearly h.decode_one
      → MaybeFilled o.0
      → AreFilled o.1.blocks
      → Fetched (found h pc o e)
  unfolding Fetched
  found-Fetched pc (some block, c) e clear full all = (λ _. full, all)
  found-Fetched pc (none, c) e clear full all =
      decoded-Fetched pc c e (decode_block h.decode_one pc 1024 0 e.machine.memory)
        (decode_block-Filled h.decode_one clear pc 1023 0 e.machine.memory) all

  run_block-Advances :
      (pc executed : ℕ) (r : (Status × DecodedBlock) × Emulator S)
      → executed < max_insns
      → Fetched r
      → Advances (executed + 1) (run_block h max_insns pc executed r)
  unfolding Fetched Advances
  run_block-Advances pc executed ((st, block), e) small (full, all) =
      if_split (Advances (executed + 1)) (fail st) _ _ (λ _. omega arith)
        λ f. after_replay-Advances (executed + 1) _ (
          block-Reaches block.insns executed (on_machine (h.on_block pc block.byte_size) e) (full f)
            small all)

  turn-Advances :
      (executed : ℕ) (e : Emulator S)
      → h.stubs ≡ none
      → FailsClearly h.decode_one
      → executed < max_insns
      → AreFilled e.block_cache.blocks
      → Advances (executed + 1) (turn h max_insns executed e)
  unfolding turn fetch_block
  turn-Advances executed e no_stubs clear small all =
      let pc = e.machine.cpu.rip in
      let (full, all') = lookup-AreFilled pc e.block_cache all in
      subst (λ o. Advances (executed + 1) (turn_at o h max_insns executed e))
        (sym (ap (λ o. stub_at o pc) no_stubs))
        (run_block-Advances pc executed (fetch_block h pc e) small
          (found-Fetched pc (lookup pc e.block_cache) e clear full all'))

  -- A result within the limit.
  Ends : Option RunResult × Emulator S → Type 0
  Ends (o, e) = (r : RunResult) × ((o ≡ some r) × (r.insns_executed ≤ max_insns))

  Ends-again :
      (fuel executed : ℕ) (r : Turn × Emulator S)
      → Advances (executed + 1) r
      → ((n : ℕ) (e : Emulator S)
          → (executed + 1 ≤ n) ⊎ IsHalted e
          → n ≤ max_insns
          → AreFilled e.block_cache.blocks
          → Ends (run_loop h max_insns fuel n e))
      → Ends (continue_with r (run_loop h max_insns fuel))
  unfolding Ends Advances
  Ends-again fuel executed (Turn.ended r, e) small more = (r, (refl, small))
  Ends-again fuel executed (Turn.again n, e) (a, b, c) more = more n e a b c

  run_loop-Ends :
      (fuel executed : ℕ) (e : Emulator S)
      → h.stubs ≡ none
      → FailsClearly h.decode_one
      → (max_insns < fuel + executed) ⊎ (IsHalted e × (0 < fuel))
      → executed ≤ max_insns
      → AreFilled e.block_cache.blocks
      → Ends (run_loop h max_insns fuel executed e)
  unfolding run_loop Ends
  run_loop-Ends zero executed e no_stubs clear enough small all = absurd (ground arith)
  run_loop-Ends (suc fuel) executed e no_stubs clear enough small all =
      if_split Ends (not (ltb executed max_insns) || e.machine.cpu.halted) _ _
        (λ _. (_, (refl, small)))
        λ q.
          Ends-again fuel executed (turn h max_insns executed e)
            (turn-Advances executed e no_stubs clear (ground arith) all)
            λ n e' a b c.
              run_loop-Ends fuel n e' no_stubs clear (left_over n e' (executed_below q) enough a) b
                c
    where
      executed_below :
          (not (ltb executed max_insns) || e.machine.cpu.halted) ≡ false
          → (executed < max_insns) × (e.machine.cpu.halted ≡ false)
      executed_below q = ground arith

      left_over :
          (n : ℕ) (e' : Emulator S)
          → (executed < max_insns) × (e.machine.cpu.halted ≡ false)
          → (max_insns < suc fuel + executed) ⊎ (IsHalted e × (0 < suc fuel))
          → (executed + 1 ≤ n) ⊎ IsHalted e'
          → (max_insns < fuel + n) ⊎ (IsHalted e' × (0 < fuel))
      left_over n e' (below, q) (inl x) (inl y) = inl (omega arith)
      left_over n e' (below, q) (inl x) (inr y) = inr (y, omega arith)
      left_over n e' (below, q) (inr (x, _)) _ = absurd (cc)

-- A run without stubs, from a block cache without an empty block and with a decoder whose
-- failures have a failing status, returns within one turn more than `max_insns`, and has run
-- `max_insns` instructions at most.
pub run-Ends :
    {S : Type 0} (h : Host S) (entry max_insns : ℕ) (e : Emulator S)
    → h.stubs ≡ none
    → FailsClearly h.decode_one
    → AreFilled e.block_cache.blocks
    → (r : RunResult) × (((run h (max_insns + 1) entry max_insns e).0 ≡ some r)
        × (r.insns_executed ≤ max_insns))
unfolding run Ends
run-Ends h entry max_insns e no_stubs clear all =
    if_split (Ends h max_insns) h.readable _ _
      (λ _.
        run_loop-Ends h max_insns (max_insns + 1) 0 _ no_stubs clear (inl (omega arith))
          (omega arith) all)
      (λ _. (_, (refl, omega arith)))
