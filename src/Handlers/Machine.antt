-- ===== src/Handlers/Machine.antt =====
-- What a handler runs on: the processor, the memory behind its providers, and what the host has
-- attached. A handler is a chain of actions, and any of them may end it early.
use pico_cpu.Prelude.{ℕ, Option, none, some}
use pico_cpu.Error.{Status}
use pico_cpu.Cpu.Fault.{FaultKind}
use pico_cpu.Cpu.State.{Cpu, set_fault}
use pico_cpu.Memory.Provider.{Provider}

pub record Machine (S : Type 0) : Type 0 where
  pub cpu : Cpu
  pub memory : S

-- `mem_read_`, `mem_write_` and `hooks_`. The callbacks of the hooks are the host's: what all those
-- of a kind that cover an address do is one function of the address, the size and the value.
pub record Attached (S : Type 0) : Type 0 where
  pub mem_read : Option (Provider S)
  pub mem_write : Option (Provider S)
  pub on_read : ℕ → ℕ → Machine S → Machine S
  pub on_write : ℕ → ℕ → ℕ → Machine S → Machine S

-- `none` is an early `return` of the handler.
abbrev pub Action : Type 0 → Type 0 → Type 0
Action S A = Machine S → Option A × Machine S

infixl 5 ◌>>=◌ ◌>>◌
abbrev pub ◌>>=◌ : {S A B : Type 0} → Action S A → (A → Action S B) → Action S B
◌>>=◌ m f s = let (r, s') = m s in elim r [ none ↦ (none, s') | some a ↦ f a s' ]

abbrev pub ◌>>◌ : {S B : Type 0} → Action S (Unit {0}) → Action S B → Action S B
m >> k = m >>= λ _. k

abbrev pub pure : {S A : Type 0} → A → Action S A
pure a s = (some a, s)

-- A read of the processor, and a change of it.
abbrev pub reads : {S A : Type 0} → (Cpu → A) → Action S A
reads f s = (some (f s.cpu), s)

abbrev pub modify : {S : Type 0} → (Cpu → Cpu) → Action S (Unit {0})
modify f s = (some tt, record s { cpu = f s.cpu })

-- `cpu.set_fault(...); return`.
abbrev pub raise : {S A : Type 0} → FaultKind → ℕ → Status → Action S A
raise kind at reason s = (none, record s { cpu = set_fault kind at reason s.cpu })

-- `(void)f(...)`: what follows runs whatever `f` returned.
abbrev pub ignoring : {S A : Type 0} → Action S A → Action S (Unit {0})
ignoring m s = (some tt, (m s).1)

-- The final state.
abbrev pub run : {S A : Type 0} → Action S A → Machine S → Machine S
run m s = (m s).1
