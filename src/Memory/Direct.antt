-- ===== src/Memory/Direct.antt =====
-- What src/emu/memory/l1_cache.cpp and src/emu/memory/l2_cache.cpp share: a direct-mapped table of
-- lines over the next provider. The two files differ in the size of a line and in the number of
-- entries, which are the fields of a `Geometry`.
pub mod Coherent
pub mod Reads
pub mod Writes
pub mod Ends
use pico_cpu.Prelude.{
  ℕ, zero, suc, ◌+◌, ◌-◌, Bool, true, false, ◌&&◌, Option, none, some, List, [], ◌++◌, ◌==◌, ltb,
  if◌then◌else◌, length, add64,
}
use pico_cpu.Error.{Status, fail}
use pico_cpu.Memory.Provider.{Provider, ReadResult}
use pico_cpu.Memory.Provider.Contract.{at, take, drop, window, patch}

-- `base_of` is `addr & LINE_MASK`, and `index_of` gives the entry of a line by its base.
pub record Geometry : Type 0 where
  pub line_size : ℕ
  pub base_of : ℕ → ℕ
  pub index_of : ℕ → ℕ

-- The bytes of a line by their offset.
pub record Line : Type 0 where
  pub tag : ℕ
  pub valid : Bool
  pub bytes : ℕ → ℕ

-- The cache and the layer below it.
pub record Cached (S : Type 0) : Type 0 where
  pub lines : ℕ → Line
  pub hits : ℕ
  pub misses : ℕ
  pub below : S

abbrev pub set_line : ℕ → Line → (ℕ → Line) → ℕ → Line
set_line i l lines j = if i == j then l else lines j

-- `slot.valid && slot.tag == line_base`.
abbrev pub hit : Line → ℕ → Bool
hit l base = l.valid && (l.tag == base)

-- The number of bytes of a request that lie in the line of `cur`.
abbrev pub chunk : Geometry → ℕ → ℕ → ℕ
chunk g cur remaining =
    let room = g.line_size - (cur - g.base_of cur) in if ltb room remaining then room else remaining

-- What a loop hands on: the bytes so far, also where a later round fails.
abbrev pub prepend : {S : Type 0} → List ℕ → ReadResult × S → ReadResult × S
prepend bs (ReadResult.bytes more, s) = (ReadResult.bytes (bs ++ more), s)
prepend bs (ReadResult.failed st more, s) = (ReadResult.failed st (bs ++ more), s)

module _ (g : Geometry) {S : Type 0} (next : Provider S) where
  -- A line refilled from the layer below, or marked as invalid.
  abbrev pub filled : ℕ → Cached S → ReadResult × S → Option Status × Cached S
  filled base c (ReadResult.bytes bs, m) = (
    none,
    record c {
      lines =
          set_line (g.index_of base) (record { tag = base; valid = true; bytes = at bs }) c.lines;
      misses = c.misses + 1;
      below = m;
    },
  )
  filled base c (ReadResult.failed st out, m) =
      let slot = c.lines (g.index_of base) in
      (
        some st,
        record c {
          lines =
              set_line (g.index_of base)
                (record slot { valid = false; bytes = patch slot.bytes 0 out }) c.lines;
          misses = c.misses + 1;
          below = m;
        },
      )

  -- The line of a base is in its entry afterwards, unless there is a status.
  unfoldable pub fetch : ℕ → Cached S → Option Status × Cached S
  fetch base c =
      if hit (c.lines (g.index_of base)) base
      then (none, record c { hits = c.hits + 1 })
      else filled base c (next.read base g.line_size c.below)

  abbrev pub after_fetch :
      Option Status × Cached S → (Cached S → ReadResult × Cached S) → ReadResult × Cached S
  after_fetch (none, c) more = more c
  after_fetch (some st, c) more = (ReadResult.failed st [], c)

  -- The loop of `read`. A round serves a byte at least, so that `fuel` rounds serve `fuel` bytes.
  unfoldable pub read_loop : ℕ → ℕ → ℕ → Cached S → ReadResult × Cached S
  read_loop zero cur remaining c =
      if remaining == 0 then (ReadResult.bytes [], c) else (ReadResult.failed Status.internal [], c)
  read_loop (suc fuel) cur remaining c =
      let base = g.base_of cur in
      let n = chunk g cur remaining in
      let served = after_fetch (fetch base c) λ c'.
        prepend (window (c'.lines (g.index_of base)).bytes (cur - base) n)
          (read_loop fuel (add64 cur n) (remaining - n) c') in
      if remaining == 0 then (ReadResult.bytes [], c) else served

  -- The covered part of a line, where the cache has the line.
  abbrev pub refresh : ℕ → ℕ → List ℕ → (ℕ → Line) → ℕ → Line
  refresh base off bs lines =
      let slot = lines (g.index_of base) in
      if hit slot base
      then set_line (g.index_of base) (record slot { bytes = patch slot.bytes off bs }) lines
      else lines

  -- The loop of `write`, over what is left of the source buffer.
  unfoldable pub refresh_loop : ℕ → ℕ → List ℕ → (ℕ → Line) → ℕ → Line
  refresh_loop zero cur src lines = lines
  refresh_loop (suc fuel) cur src lines =
      let base = g.base_of cur in
      let n = chunk g cur (length src) in
      let rest =
        refresh_loop fuel (add64 cur n) (drop n src)
          (refresh base (cur - base) (take n src) lines) in
      if length src == 0 then lines else rest

  abbrev pub written : ℕ → List ℕ → Cached S → Status × S → Status × Cached S
  written addr src c (st, m) = (
    st,
    record c {
      lines = if fail st then c.lines else refresh_loop (length src) addr src c.lines;
      below = m;
    },
  )

  unfoldable pub write_through : ℕ → List ℕ → Cached S → Status × Cached S
  write_through addr src c = written addr src c (next.write addr src c.below)

-- The loop of `invalidate`, for a number of lines.
unfoldable pub drop_lines : Geometry → ℕ → ℕ → (ℕ → Line) → ℕ → Line
drop_lines g zero base lines = lines
drop_lines g (suc n) base lines =
    let slot = lines (g.index_of base) in
    drop_lines g n (add64 base g.line_size) (
      if hit slot base
      then set_line (g.index_of base) (record slot { valid = false }) lines
      else lines)

-- `flush`.
unfoldable pub no_lines : (ℕ → Line) → ℕ → Line
no_lines lines i = let slot = lines i in record slot { valid = false; tag = 0 }
