-- ===== src/Memory/L2/Laws.antt =====
-- The level 2 cache serves what the layer below serves, and so does the level 1 cache over it.
use pico_cpu.Prelude.{
  ℕ, ◌≡◌, sym, inl, inr, true, false, some, List, ◌==◌, Bool-cases, length, Bool, arith, ==_iff,
  not, ◌||◌,
}
use pico_cpu.Error.{Status}
use pico_cpu.Memory.Provider.{Provider, ReadResult}
use pico_cpu.Memory.Provider.Contract.{Serves, GoodRead, GoodWrite, empty_read, empty_write}
use pico_cpu.Memory.Direct.{Cached, read_loop, write_through}
use pico_cpu.Memory.Direct.Ends.{FailsWith, ReadsFailWith, read_loop-FailsWith}
use pico_cpu.Memory.Direct.Coherent.{
  IsGeometry, IsOkCached, view_cached, drop_lines-IsCoherent, no_lines-IsCoherent,
}
use pico_cpu.Memory.Direct.Reads.{read_loop-Good}
use pico_cpu.Memory.Direct.Writes.{write_through_good}
use pico_cpu.Memory.L2.{
  geometry, Paged, with_cache, pass_through, read, write, provider, invalidate, flush,
}
use pico_cpu.Memory.L1
use pico_cpu.Memory.L1.Laws

pub geometry-IsGeometry : IsGeometry geometry
geometry-IsGeometry = record {
  base_le = λ c. omega arith;
  base_room = λ c. omega arith;
  base_same = λ c i lt. omega arith;
  base_end = λ c lt. omega arith;
}

module _ {S : Type 0} (IsOk : S → Type 0) (view : S → ℕ → ℕ) where
  -- Without a table no page is valid.
  abbrev pub IsOkPaged : Paged S → Type 0
  IsOkPaged c =
      IsOkCached geometry IsOk view c.cache
      × (c.allocated ≡ false → (j : ℕ) → (c.cache.lines j).valid ≡ false)

  abbrev pub view_paged : Paged S → ℕ → ℕ
  view_paged c = view c.cache.below

  with_cache_read :
      (a n : ℕ) (c : Paged S) (r : ReadResult × Cached S)
      → GoodRead (IsOkCached geometry IsOk view) (view_cached geometry IsOk view) a n c.cache r
      → GoodRead IsOkPaged view_paged a n c (with_cache true r)
  with_cache_read a n c (ReadResult.bytes bs, c') (e, okay, same) = (e, (okay, λ f. cc), same)
  with_cache_read a n c (ReadResult.failed st out, c') (e, small, okay, same) =
      (e, small, (okay, λ f. cc), same)

  with_cache_write :
      (a : ℕ) (bs : List ℕ) (c : Paged S) (r : Status × Cached S)
      → GoodWrite (IsOkCached geometry IsOk view) (view_cached geometry IsOk view) a bs c.cache r
      → GoodWrite IsOkPaged view_paged a bs c (with_cache true r)
  with_cache_write a bs c (st, c') (okay, same) = ((okay, λ f. cc), same)

  pass_through_good :
      (next : Provider S) (a : ℕ) (bs : List ℕ) (c : Paged S) (r : Status × S)
      → c.allocated ≡ false
      → IsOkPaged c
      → GoodWrite IsOk view a bs c.cache.below r
      → GoodWrite IsOkPaged view_paged a bs c
          (with_cache false (pass_through (some next) r c.cache))
  pass_through_good next a bs c (st, m) no_table (_, empty) (okay, same) =
      (((okay, λ j valid. let no_line = empty no_table j in cc), λ _. empty no_table), same)

  pub l2-Serves :
      (next : Provider S)
      → Serves IsOk view next
      → Serves IsOkPaged view_paged (provider (some next))
  unfolding provider read write
  l2-Serves next serves = record {
    read_good = λ a n c okay fits. elim (Bool-cases (n == 0)) [
      | inl e ↦ rw e (empty_read IsOkPaged view_paged a n c ((==_iff n 0).0 e) okay)
      | inr e ↦ rw e (
          with_cache_read a n c _ (
            read_loop-Good geometry geometry-IsGeometry next IsOk view serves n a n c.cache okay.0
              (omega arith) fits))
    ];
    write_good = λ a bs c okay fits. elim (Bool-cases (length bs == 0)) [
      | inl e ↦ rw e (empty_write IsOkPaged view_paged a bs c ((==_iff (length bs) 0).0 e) okay)
      | inr e ↦ rw e (elim (Bool-cases c.allocated) [
        | inl t ↦ rw t (
            with_cache_write a bs c (write_through geometry next a bs c.cache) (
              write_through_good geometry geometry-IsGeometry next IsOk view serves a bs c.cache
                okay.0 fits))
        | inr t ↦ rw t (
            pass_through_good next a bs c _ t okay
              (serves.write_good a bs c.cache.below okay.0.0 fits))
      ])
    ];
  }

module _ {S : Type 0} (IsOk : S → Type 0) (view : S → ℕ → ℕ) where
  pub invalidate-IsOkCached :
      (addr size : ℕ) (c : Paged S)
      → IsOkCached geometry IsOk view c.cache
      → IsOkCached geometry IsOk view (invalidate addr size c).cache
        × IsOkCached geometry IsOk view (flush c).cache
  unfolding invalidate flush
  invalidate-IsOkCached addr size c (below, lines) = (
    elim (Bool-cases (not c.allocated || (size == 0))) [
      | inl e ↦ rw e (below, lines)
      | inr e ↦ rw e (
        below,
        drop_lines-IsCoherent geometry geometry-IsGeometry (view c.cache.below) _ _ c.cache.lines
            lines,
      )
    ],
    (below, no_lines-IsCoherent geometry geometry-IsGeometry (view c.cache.below) c.cache.lines),
  )

with_cache-FailsWith :
    {S : Type 0} (P : Status → Type 0) (b : Bool) (n : ℕ) (r : ReadResult × Cached S)
    → FailsWith P n r
    → FailsWith P n (with_cache b r)
with_cache-FailsWith P b n (ReadResult.bytes bs, c) h = h
with_cache-FailsWith P b n (ReadResult.failed st out, c) h = h

read-FailsWith :
    {S : Type 0} (next : Provider S) (P : Status → Type 0)
    → ReadsFailWith P next
    → ReadsFailWith P (provider (some next))
unfolding provider read
read-FailsWith next P below a n c = elim (Bool-cases (n == 0)) [
  | inl e ↦ rw e (sym ((==_iff n 0).0 e))
  | inr e ↦ rw e (
      with_cache-FailsWith P true n (read_loop geometry next n a n c.cache)
        (read_loop-FailsWith geometry geometry-IsGeometry next P below n a n c.cache (omega arith)))
]

-- Over a provider of which every read gives as many bytes as it is asked for, or fails with a
-- status of which `P` holds, every read of level 1 over level 2 gives as many bytes as it is
-- asked for, or fails with a status of which `P` holds: the fuel of the loops is enough.
pub levels-FailsWith :
    {S : Type 0} (next : Provider S) (P : Status → Type 0)
    → ReadsFailWith P next
    → ReadsFailWith P (L1.provider (some (provider (some next))))
levels-FailsWith next P below =
    L1.Laws.read-FailsWith (provider (some next)) P (read-FailsWith next P below)

-- Level 1 over level 2 over any provider that keeps the contract of a memory keeps it too, with
-- the same bytes. Of an access that does not wrap at 2^64: a read that succeeds gives the bytes
-- that the provider below shows, one that fails leaves a prefix of them in the buffer, and a
-- write that succeeds changes just its bytes, one that fails none.
pub levels-Serve :
    {S : Type 0} (next : Provider S) (IsOk : S → Type 0) (view : S → ℕ → ℕ)
    → Serves IsOk view next
    → Serves
        (IsOkCached L1.geometry (IsOkPaged IsOk view) (view_paged IsOk view))
        (view_cached L1.geometry (IsOkPaged IsOk view) (view_paged IsOk view))
        (L1.provider (some (provider (some next))))
levels-Serve next IsOk view serves =
    L1.Laws.l1-Serves (provider (some next)) (IsOkPaged IsOk view) (view_paged IsOk view)
      (l2-Serves IsOk view next serves)
