-- ===== src/Handlers/StringOps/Rounds.antt =====
-- The repetition of a string operation: why it ends.
use pico_cpu.Prelude.{
  ℕ, zero, suc, ◌^◌, ◌<◌, ◌≡◌, refl, ◌⊎◌, inl, inr, Bool, true, false, not, differ, ◌||◌, Option,
  none, some, ◌==◌, if_split, sub64, arith, ◌∙◌, ap, if_then, if_else, subst, sym, ◌-◌,
}
use pico_cpu.Cpu.Lazy.{zf}
use pico_cpu.Cpu.State.Registers.{set_r64}
use pico_cpu.Ir.{Insn, rcx}
use pico_cpu.Handlers.Machine.{Machine, Action, ◌>>=◌, run}
use pico_cpu.Handlers.StringOps.{
  breaks, count_down, counted, round, rounds, run_string, has_rep, repe, repne,
}

-- F3 repeats while ZF is set, and F2 while it is clear.
abbrev pub StopsOn : Insn → Bool → Type 0
StopsOn insn stop = (repe insn ≡ not stop) × (repne insn ≡ stop)

breaks_on : (insn : Insn) (stop z : Bool) → StopsOn insn stop → breaks insn z ≡ not (differ z stop)
unfolding breaks
breaks_on insn true true (e, f) = ground (arith, e, f)
breaks_on insn true false (e, f) = ground (arith, e, f)
breaks_on insn false true (e, f) = ground (arith, e, f)
breaks_on insn false false (e, f) = ground (arith, e, f)

module _ {S : Type 0} where
  -- A step that fails has halted the processor; one that succeeds keeps the count and gives ZF.
  abbrev pub Reports : Machine S → Option Bool × Machine S → Type 0
  Reports s (none, t) = t.cpu.halted ≡ true
  Reports s (some z, t) = (t.cpu.gpr rcx ≡ s.cpu.gpr rcx) × (zf t.cpu.flags ≡ z)

  -- Behind a comparison: a fault ends the repetition, and so does a ZF of `stop`. With any other ZF
  -- it goes on as `More` says. `n` is what is left of the count.
  abbrev pub Compared :
      Bool → ℕ → (Machine S → Machine S → Type 0) → Option Bool × Machine S → Machine S → Type 0
  Compared stop n More (none, u) t = (u.cpu.halted ≡ true) × (t ≡ u)
  Compared stop n More (some z, u) t =
      let left : Machine S = record u { cpu = set_r64 rcx n u.cpu } in
      ((zf u.cpu.flags ≡ stop) × (t ≡ left)) ⊎ ((zf u.cpu.flags ≡ not stop) × More left t)

  -- A repeated comparison from `s` to `t` with the count `n`, which ends behind the first comparison
  -- whose ZF is `stop`.
  abbrev pub Repeats : Action S Bool → Bool → ℕ → Machine S → Machine S → Type 0
  Repeats step stop zero s t = t ≡ s
  Repeats step stop (suc n) s t =
      ((s.cpu.halted ≡ true) × (t ≡ s))
      ⊎ ((s.cpu.halted ≡ false) × Compared stop n (Repeats step stop n) (step s) t)

  module _ (insn : Insn) (stop : Bool) (stops : StopsOn insn stop) (step : Action S Bool)
      (reports : (s : Machine S) → Reports s (step s)) where
    counted-Compared :
        (n : ℕ) (bound : suc n < 2 ^ 64) (s : Machine S) (r : Option Bool × Machine S)
        → Reports s r
        → s.cpu.gpr rcx ≡ suc n
        → ((t : Machine S) → t.cpu.gpr rcx ≡ n → Repeats step stop n t (run (rounds step insn n) t))
        → Compared stop n
            (Repeats step stop n)
            r
            (run ((λ _. r) >>= counted insn (rounds step insn n)) s)
    unfolding set_r64
    counted-Compared n bound s (none, t) h e ih = (h, refl)
    counted-Compared n bound s (some z, u) (hc, hz) e ih =
        let count : sub64 (u.cpu.gpr rcx) 1 ≡ n = omega (arith, hc, e, bound) in
        let left : Machine S = record u { cpu = set_r64 rcx n u.cpu } in
        let same : ◌≡◌ {A = Machine S} (record u { cpu = count_down u.cpu }) left =
          ap (λ k. record u { cpu = set_r64 rcx k u.cpu }) count in
        let on = breaks_on insn stop z stops in
        if_split
          (λ (m : Action S (Unit {0})).
            Compared stop n (Repeats step stop n) (some z, u)
              (run m (record u { cpu = count_down u.cpu })))
          (breaks insn z) _ (rounds step insn n) (λ b. inl (hz ∙ ground (arith, on, b), same))
          (λ b. inr (
            hz ∙ ground (arith, on, b),
            subst (λ m. Repeats step stop n left (run (rounds step insn n) m)) (sym same)
                (ih left refl),
          ))

    rounds-Repeats :
        (n : ℕ) (s : Machine S)
        → n < 2 ^ 64
        → s.cpu.gpr rcx ≡ n
        → Repeats step stop n s (run (rounds step insn n) s)
    unfolding rounds round
    rounds-Repeats zero s bound e = refl
    rounds-Repeats (suc n) s bound e =
        if_split (λ (p : Option (Unit {0}) × Machine S). Repeats step stop (suc n) s p.1)
          ((s.cpu.gpr rcx == 0) || s.cpu.halted) _ _ (λ b. inl (ground (arith, e, b), refl))
          (λ b. inr (
            ground (arith, b),
            counted-Compared n bound s (step s) (reports s) e
                (λ t. rounds-Repeats n t (omega (arith, bound))),
          ))

    pub run_string-Repeats :
        (s : Machine S)
        → has_rep insn ≡ true
        → s.cpu.gpr rcx < 2 ^ 64
        → Repeats step stop (s.cpu.gpr rcx) s (run (run_string step insn) s)
    unfolding run_string
    run_string-Repeats s rep bound =
        if_then (λ (p : Option (Unit {0}) × Machine S). Repeats step stop (s.cpu.gpr rcx) s p.1)
          (has_rep insn) _ _ rep (rounds-Repeats _ s bound refl)

  -- As `Reports`, for a step that leaves `zf_after` alone.
  abbrev pub IsSilent : Machine S → Option Bool × Machine S → Type 0
  IsSilent s (none, t) = t.cpu.halted ≡ true
  IsSilent s (some z, t) = (t.cpu.gpr rcx ≡ s.cpu.gpr rcx) × (z ≡ false)

  -- One step, after which the count is one less.
  abbrev pub EndsAfterOne : Machine S → Machine S → Type 0
  EndsAfterOne s t = (t.cpu.halted ≡ true) ⊎ (t.cpu.gpr rcx ≡ sub64 (s.cpu.gpr rcx) 1)

  counted-EndsAfterOne :
      (insn : Insn) (rest : Action S (Unit {0})) (s : Machine S) (r : Option Bool × Machine S)
      → breaks insn false ≡ true
      → IsSilent s r
      → EndsAfterOne s (run ((λ _. r) >>= counted insn rest) s)
  unfolding set_r64
  counted-EndsAfterOne insn rest s (none, t) b h = inl h
  counted-EndsAfterOne insn rest s (some z, t) b (hc, hz) =
      if_then
        (λ (m : Action S (Unit {0})). EndsAfterOne s (run m (record t { cpu = count_down t.cpu })))
        (breaks insn z) _ rest (ap (breaks insn) hz ∙ b) (inr (ap (λ k. sub64 k 1) hc))

  rounds-EndsAfterOne :
      (insn : Insn) (step : Action S Bool) (n : ℕ) (s : Machine S)
      → breaks insn false ≡ true
      → IsSilent s (step s)
      → (s.cpu.gpr rcx == 0) ≡ false
      → s.cpu.halted ≡ false
      → EndsAfterOne s (run (rounds step insn (suc n)) s)
  unfolding rounds round
  rounds-EndsAfterOne insn step n s b silent counts runs =
      if_else (λ (p : Option (Unit {0}) × Machine S). EndsAfterOne s p.1)
        ((s.cpu.gpr rcx == 0) || s.cpu.halted) _ _ (ground (arith, counts, runs))
        (counted-EndsAfterOne insn (rounds step insn n) s (step s) b silent)

  pub run_string-EndsAfterOne :
      (insn : Insn) (step : Action S Bool) (s : Machine S)
      → has_rep insn ≡ true
      → breaks insn false ≡ true
      → IsSilent s (step s)
      → 0 < s.cpu.gpr rcx
      → s.cpu.halted ≡ false
      → EndsAfterOne s (run (run_string step insn) s)
  unfolding run_string
  run_string-EndsAfterOne insn step s rep b silent counts runs =
      let e : s.cpu.gpr rcx ≡ suc (s.cpu.gpr rcx - 1) = omega (arith, counts) in
      if_then (λ (p : Option (Unit {0}) × Machine S). EndsAfterOne s p.1) (has_rep insn) _ _ rep
        (subst (λ n. EndsAfterOne s (run (rounds step insn n) s)) (sym e)
          (rounds-EndsAfterOne insn step (s.cpu.gpr rcx - 1) s b silent (ground (arith, counts))
            runs))
