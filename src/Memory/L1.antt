-- ===== src/Memory/L1.antt =====
-- src/emu/memory/l1_cache.cpp: 64 lines of 64 bytes, as a provider over the next one.
pub mod Laws
use pico_cpu.Prelude.{
  ℕ, suc, ◌+◌, ◌-◌, ◌*◌, ◌/◌, ◌%◌, Bool, false, Option, none, some, List, [], ◌==◌, if◌then◌else◌,
  length, sub64, add64,
}
use pico_cpu.Error.{Status}
use pico_cpu.Memory.Provider.{Provider, ReadResult}
use pico_cpu.Memory.Direct.{Geometry, Line, Cached, read_loop, write_through, drop_lines, no_lines}

-- `addr & LINE_MASK` clears the six low bits.
abbrev pub line_base : ℕ → ℕ
line_base addr = addr / 64 * 64

abbrev pub geometry : Geometry
geometry = record { line_size = 64; base_of = line_base; index_of = λ base. base / 64 % 64 }

-- A cache with nothing in it.
abbrev pub empty : {S : Type 0} → S → Cached S
empty s = record {
  lines = λ _. record { tag = 0; valid = false; bytes = λ _. 0 };
  hits = 0;
  misses = 0;
  below = s;
}

module _ {S : Type 0} (next : Option (Provider S)) where
  unfoldable pub read : ℕ → ℕ → Cached S → ReadResult × Cached S
  read addr size c = if size == 0 then (ReadResult.bytes [], c) else elim next [
    | none ↦ (ReadResult.failed Status.provider_failure [], c)
    | some p ↦ read_loop geometry p size addr size c
  ]

  unfoldable pub write : ℕ → List ℕ → Cached S → Status × Cached S
  write addr src c = if length src == 0 then (Status.ok, c) else elim next [
    | none ↦ (Status.provider_failure, c)
    | some p ↦ write_through geometry p addr src c
  ]

  unfoldable pub provider : Provider (Cached S)
  provider = record { read = read; write = write }

-- The number of lines from the one of `addr` to the one of the last byte, which may wrap.
abbrev pub lines_between : ℕ → ℕ → ℕ
lines_between addr size = sub64 (line_base (sub64 (add64 addr size) 1)) (line_base addr) / 64 + 1

unfoldable pub invalidate : {S : Type 0} → ℕ → ℕ → Cached S → Cached S
invalidate addr size c =
    if size == 0
    then c
    else record c { lines = drop_lines geometry (lines_between addr size) (line_base addr) c.lines }

unfoldable pub flush : {S : Type 0} → Cached S → Cached S
flush c = record c { lines = no_lines c.lines }
