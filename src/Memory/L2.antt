-- ===== src/Memory/L2.antt =====
-- src/emu/memory/l2_cache.cpp: 256 pages of 4096 bytes, as a provider over the next one. The table
-- is allocated by the first read.
pub mod Laws
use pico_cpu.Prelude.{
  ℕ, suc, ◌+◌, ◌-◌, ◌*◌, ◌/◌, ◌%◌, Bool, true, false, not, ◌||◌, Option, none, some, List, [], ◌==◌,
  if◌then◌else◌, length, sub64, add64,
}
use pico_cpu.Error.{Status, fail}
use pico_cpu.Memory.Provider.{Provider, ReadResult}
use pico_cpu.Memory.Direct.{Geometry, Line, Cached, read_loop, write_through, drop_lines, no_lines}

-- `addr & PAGE_MASK_` clears the twelve low bits.
abbrev pub page_base : ℕ → ℕ
page_base addr = addr / 4096 * 4096

abbrev pub geometry : Geometry
geometry = record { line_size = 4096; base_of = page_base; index_of = λ base. base / 4096 % 256 }

-- `pages_` is empty until it is allocated.
pub record Paged (S : Type 0) : Type 0 where
  pub allocated : Bool
  pub cache : Cached S

abbrev pub with_cache : {S A : Type 0} → Bool → A × Cached S → A × Paged S
with_cache allocated (a, c) = (a, record { allocated = allocated; cache = c })

abbrev pub empty : {S : Type 0} → S → Paged S
empty s = record {
  allocated = false;
  cache = record {
    lines = λ _. record { tag = 0; valid = false; bytes = λ _. 0 };
    hits = 0;
    misses = 0;
    below = s;
  };
}

module _ {S : Type 0} (next : Option (Provider S)) where
  unfoldable pub read : ℕ → ℕ → Paged S → ReadResult × Paged S
  read addr size c = if size == 0 then (ReadResult.bytes [], c) else elim next [
    | none ↦ (ReadResult.failed Status.provider_failure [], c)
    | some p ↦ with_cache true (read_loop geometry p size addr size c.cache)
  ]

  -- A write without a table goes to the layer below only.
  abbrev pub pass_through : Status × S → Cached S → Status × Cached S
  pass_through (st, m) c = (st, record c { below = m })

  unfoldable pub write : ℕ → List ℕ → Paged S → Status × Paged S
  write addr src c = if length src == 0 then (Status.ok, c) else elim next [
    | none ↦ (Status.provider_failure, c)
    | some p ↦ with_cache c.allocated (
        if c.allocated
        then write_through geometry p addr src c.cache
        else pass_through (p.write addr src c.cache.below) c.cache)
  ]

  unfoldable pub provider : Provider (Paged S)
  provider = record { read = read; write = write }

-- The number of pages from the one of `addr` to the one of the last byte, which may wrap.
abbrev pub pages_between : ℕ → ℕ → ℕ
pages_between addr size = sub64 (page_base (sub64 (add64 addr size) 1)) (page_base addr) / 4096 + 1

unfoldable pub invalidate : {S : Type 0} → ℕ → ℕ → Paged S → Paged S
invalidate addr size c = if not c.allocated || (size == 0) then c else record c {
  cache = record c.cache {
    lines = drop_lines geometry (pages_between addr size) (page_base addr) c.cache.lines;
  };
}

unfoldable pub flush : {S : Type 0} → Paged S → Paged S
flush c = record c { cache = record c.cache { lines = no_lines c.cache.lines } }
