-- ===== src/Handlers/StringOps/Scan.antt =====
-- The string operations, over any memory: how their repetition ends.
use pico_cpu.Prelude.{
  ℕ, ◌^◌, ◌<◌, ◌≡◌, refl, ◌∙◌, ap, bit_and, Bool, true, false, Option, none, some, arith, sub64,
  nonzero,
}
use pico_cpu.Error.{Status}
use pico_cpu.Cpu.Fault.{FaultKind}
use pico_cpu.Cpu.Widths.{mask_for}
use pico_cpu.Cpu.Rflags
use pico_cpu.Cpu.Lazy.{LazyFlags, zf, stash_sub}
use pico_cpu.Cpu.Agreement.Sync.{sync_flags-twice}
use pico_cpu.Cpu.State.{Cpu, set_fault}
use pico_cpu.Cpu.State.Registers.{set_r8, set_r16, set_r32, set_r64}
use pico_cpu.Ir.{Insn, rax, rcx, rsi, rdi}
use pico_cpu.Memory.Provider.{Provider, ReadResult}
use pico_cpu.Memory.Provider.Bytes.{to_bytes}
use pico_cpu.Handlers.Machine.{Machine, Attached, Action, ◌>>=◌, run, raise}
use pico_cpu.Handlers.Operands.{load, load_result, store, store_result}
use pico_cpu.Handlers.StringOps.{
  read_bytes, write_bytes, compare_values, scas_step, cmps_step, movs_step, stos_step, lods_step,
  op_movs, op_stos, op_lods, op_scas, op_cmps, run_string, has_rep, repe, breaks, move_by,
  set_accumulator, silently, both_by, movs_write, lods_set, scas_compare, cmps_compare, cmps_second,
}
use pico_cpu.Handlers.StringOps.Rounds.{
  Repeats, StopsOn, Reports, IsSilent, EndsAfterOne, run_string-Repeats, run_string-EndsAfterOne,
}

rcx-set_accumulator : (size v : ℕ) (c : Cpu) → (set_accumulator size v c).gpr rcx ≡ c.gpr rcx
unfolding set_accumulator set_r8 set_r16 set_r32 set_r64
rcx-set_accumulator size v c = ground arith

silent_breaks : (insn : Insn) → repe insn ≡ true → breaks insn false ≡ true
unfolding breaks
silent_breaks insn e = rw e refl

module _ {S : Type 0} where
  -- An access that fails has halted the processor; one that succeeds leaves it alone.
  abbrev Accessed : {A : Type 0} → Machine S → Option A × Machine S → Type 0
  Accessed s (none, t) = t.cpu.halted ≡ true
  Accessed s (some v, t) = t.cpu ≡ s.cpu

  -- From a later machine with the same processor.
  moved :
      {A : Type 0} (s t : Machine S)
      → t.cpu ≡ s.cpu
      → (r : Option A × Machine S) → Accessed t r
      → Accessed s r
  moved s t e (none, u) h = h
  moved s t e (some v, u) h = h ∙ e

  -- A step goes on after an access.
  bind-Reports :
      {A : Type 0} (s : Machine S) (r : Option A × Machine S) (f : A → Action S Bool)
      → Accessed s r
      → ((v : A) (t : Machine S) → t.cpu ≡ s.cpu → Reports s (f v t))
      → Reports s (((λ _. r) >>= f) s)
  bind-Reports s (none, t) f h next = h
  bind-Reports s (some v, t) f h next = next v t h

  bind-IsSilent :
      {A : Type 0} (s : Machine S) (r : Option A × Machine S) (f : A → Action S Bool)
      → Accessed s r
      → ((v : A) (t : Machine S) → t.cpu ≡ s.cpu → IsSilent s (f v t))
      → IsSilent s (((λ _. r) >>= f) s)
  bind-IsSilent s (none, t) f h next = h
  bind-IsSilent s (some v, t) f h next = next v t h

  module _ (env : Attached S) where
    load_result-Accessed :
        (s : Machine S) (addr : ℕ) (r : ReadResult × S) → Accessed s (load_result env addr r s.cpu)
    unfolding set_fault
    load_result-Accessed s addr (ReadResult.bytes bs, m) = refl
    load_result-Accessed s addr (ReadResult.failed st out, m) = refl

    read_bytes-Accessed : (s : Machine S) (addr size : ℕ) → Accessed s (read_bytes env addr size s)
    unfolding read_bytes load set_fault
    read_bytes-Accessed s addr size =
        elim (env.mem_read)
          as (λ (o : Option (Provider S)). Accessed s (
            let m : Action S ℕ = elim o [
              | none ↦ raise FaultKind.provider_failure addr Status.provider_failure
              | some mp ↦ load env mp addr size
            ] in
            m s)) [
              | none ↦ refl
              | some mp ↦ load_result-Accessed s addr (mp.read addr size s.memory)
            ]

    store_result-Accessed :
        (s : Machine S) (addr : ℕ) (r : Status × S)
        → Accessed s (store_result env addr r.0 (record s { memory = r.1 }))
    unfolding set_fault
    store_result-Accessed s addr (Status.ok, m) = refl
    store_result-Accessed s addr (_, m) = refl

    write_bytes-Accessed :
        (s : Machine S) (addr size v : ℕ) → Accessed s (write_bytes env addr size v s)
    unfolding write_bytes store set_fault
    write_bytes-Accessed s addr size v =
        elim (env.mem_write)
          as (λ (o : Option (Provider S)). Accessed s (
            let m : Action S (Unit {0}) = elim o [
              | none ↦ raise FaultKind.provider_failure addr Status.provider_failure
              | some mp ↦ store env mp addr size v
            ] in
            m s)) [
              | none ↦ refl
              | some mp ↦ store_result-Accessed s addr (mp.write addr (to_bytes size 0 v) s.memory)
            ]

    -- The comparison reports ZF of the flags that it leaves.
    compare_values-zf :
        (size a b : ℕ) (t : Machine S)
        → zf (run (compare_values env size a b) t).cpu.flags
          ≡ zf (stash_sub size b (bit_and (sub64 a b) (mask_for size)) t.cpu.flags)
    unfolding compare_values zf
    compare_values-zf size a b t =
        ap (λ (f : LazyFlags). nonzero (bit_and f.rflags Rflags.zf)) (sync_flags-twice _)

    scas_step-Reports : (size : ℕ) (s : Machine S) → Reports s (scas_step env size s)
    unfolding scas_step compare_values set_r64
    scas_step-Reports size s =
        bind-Reports s (read_bytes env (s.cpu.gpr rdi) size s)
          (scas_compare env size (s.cpu.gpr rdi)) (read_bytes-Accessed s (s.cpu.gpr rdi) size)
          (λ v t e. (ap (λ (c : Cpu). c.gpr rcx) e, compare_values-zf size _ v t))

    cmps_step-Reports : (size : ℕ) (s : Machine S) → Reports s (cmps_step env size s)
    unfolding cmps_step compare_values set_r64
    cmps_step-Reports size s =
        bind-Reports s (read_bytes env (s.cpu.gpr rsi) size s)
          (cmps_second env size (s.cpu.gpr rsi) (s.cpu.gpr rdi))
          (read_bytes-Accessed s (s.cpu.gpr rsi) size)
          (λ vs t e.
            bind-Reports s (read_bytes env (s.cpu.gpr rdi) size t)
              (cmps_compare env size (s.cpu.gpr rsi) (s.cpu.gpr rdi) vs)
              (moved s t e (read_bytes env (s.cpu.gpr rdi) size t)
                (read_bytes-Accessed t (s.cpu.gpr rdi) size))
              (λ vd u d. (ap (λ (c : Cpu). c.gpr rcx) d, compare_values-zf size vs vd u)))

    movs_step-IsSilent : (size : ℕ) (s : Machine S) → IsSilent s (movs_step env size s)
    unfolding movs_step set_r64
    movs_step-IsSilent size s =
        bind-IsSilent s (read_bytes env (s.cpu.gpr rsi) size s)
          (movs_write env size (s.cpu.gpr rsi) (s.cpu.gpr rdi))
          (read_bytes-Accessed s (s.cpu.gpr rsi) size)
          (λ v t e.
            bind-IsSilent s (write_bytes env (s.cpu.gpr rdi) size v t)
              (λ _. silently env (both_by (s.cpu.gpr rsi) (s.cpu.gpr rdi) size))
              (moved s t e (write_bytes env (s.cpu.gpr rdi) size v t)
                (write_bytes-Accessed t (s.cpu.gpr rdi) size v))
              (λ _ u d. (ap (λ (c : Cpu). c.gpr rcx) d, refl)))

    stos_step-IsSilent : (size : ℕ) (s : Machine S) → IsSilent s (stos_step env size s)
    unfolding stos_step set_r64
    stos_step-IsSilent size s =
        let v = bit_and (s.cpu.gpr rax) (mask_for size) in
        bind-IsSilent s (write_bytes env (s.cpu.gpr rdi) size v s)
          (λ _. silently env (move_by rdi (s.cpu.gpr rdi) size))
          (write_bytes-Accessed s (s.cpu.gpr rdi) size v)
          (λ _ t e. (ap (λ (c : Cpu). c.gpr rcx) e, refl))

    lods_step-IsSilent : (size : ℕ) (s : Machine S) → IsSilent s (lods_step env size s)
    unfolding lods_step set_r64
    lods_step-IsSilent size s =
        bind-IsSilent s (read_bytes env (s.cpu.gpr rsi) size s) (lods_set env size (s.cpu.gpr rsi))
          (read_bytes-Accessed s (s.cpu.gpr rsi) size)
          (λ v t e. (rcx-set_accumulator size v t.cpu ∙ ap (λ (c : Cpu). c.gpr rcx) e, refl))

    -- A SCAS or CMPS under F3 alone or F2 alone, with an RCX below 2^64, makes its comparison
    -- again and again, and each time counts RCX down by one, until RCX is 0, the processor is
    -- halted, an access faults, or the comparison leaves ZF clear (F3) or set (F2), and it ends
    -- there.
    pub repeated_compare-Repeats :
        (insn : Insn) (stop : Bool) (s : Machine S)
        → has_rep insn ≡ true
        → StopsOn insn stop
        → s.cpu.gpr rcx < 2 ^ 64
        → Repeats (scas_step env insn.op_size) stop (s.cpu.gpr rcx) s (run (op_scas env insn) s)
          × Repeats (cmps_step env insn.op_size) stop (s.cpu.gpr rcx) s (run (op_cmps env insn) s)
    unfolding op_scas op_cmps
    repeated_compare-Repeats insn stop s rep stops bound = (
      run_string-Repeats insn stop stops (scas_step env insn.op_size)
          (scas_step-Reports insn.op_size) s rep bound,
      run_string-Repeats insn stop stops (cmps_step env insn.op_size)
          (cmps_step-Reports insn.op_size) s rep bound,
    )

    -- A MOVS, STOS or LODS under F3 with a positive RCX ends halted or with RCX one less,
    -- however large it was, where the processor was running.
    pub repeated_move-EndsAfterOne :
        (insn : Insn) (s : Machine S)
        → has_rep insn ≡ true
        → repe insn ≡ true
        → 0 < s.cpu.gpr rcx
        → s.cpu.halted ≡ false
        → EndsAfterOne s (run (op_movs env insn) s)
          × (EndsAfterOne s (run (op_stos env insn) s) × EndsAfterOne s (run (op_lods env insn) s))
    unfolding op_movs op_stos op_lods
    repeated_move-EndsAfterOne insn s rep f3 counts runs = (
      once (movs_step env insn.op_size) (movs_step-IsSilent insn.op_size s),
      (
        once (stos_step env insn.op_size) (stos_step-IsSilent insn.op_size s),
        once (lods_step env insn.op_size) (lods_step-IsSilent insn.op_size s),
      ),
    )
      where
        once :
            (step : Action S Bool)
            → IsSilent s (step s)
            → EndsAfterOne s (run (run_string step insn) s)
        once step silent =
            run_string-EndsAfterOne insn step s rep (silent_breaks insn f3) silent counts runs
