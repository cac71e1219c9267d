-- ===== src/Memory/L1/Laws.antt =====
-- The level 1 cache serves what the layer below serves.
use pico_cpu.Prelude.{ℕ, sym, inl, inr, some, ◌==◌, Bool-cases, length, arith, ==_iff}
use pico_cpu.Error.{Status}
use pico_cpu.Memory.Provider.{Provider}
use pico_cpu.Memory.Provider.Contract.{Serves, empty_read, empty_write}
use pico_cpu.Memory.Direct.{Cached}
use pico_cpu.Memory.Direct.Coherent.{
  IsGeometry, IsOkCached, view_cached, drop_lines-IsCoherent, no_lines-IsCoherent,
}
use pico_cpu.Memory.Direct.Reads.{read_loop-Good}
use pico_cpu.Memory.Direct.Writes.{write_through_good}
use pico_cpu.Memory.Direct.Ends.{ReadsFailWith, read_loop-FailsWith}
use pico_cpu.Memory.L1.{geometry, read, write, provider, invalidate, flush}

pub geometry-IsGeometry : IsGeometry geometry
geometry-IsGeometry = record {
  base_le = λ c. omega arith;
  base_room = λ c. omega arith;
  base_same = λ c i lt. omega arith;
  base_end = λ c lt. omega arith;
}

module _ {S : Type 0} (next : Provider S) (IsOk : S → Type 0) (view : S → ℕ → ℕ) where
  pub l1-Serves :
      Serves IsOk view next
      → Serves
          (IsOkCached geometry IsOk view)
          (view_cached geometry IsOk view)
          (provider (some next))
  unfolding provider read write
  l1-Serves serves = record {
    read_good = λ a n c okay fits. elim (Bool-cases (n == 0)) [
      | inl e ↦ rw e (
          empty_read (IsOkCached geometry IsOk view) (view_cached geometry IsOk view) a n c
            ((==_iff n 0).0 e) okay)
      | inr e ↦ rw e (
          read_loop-Good geometry geometry-IsGeometry next IsOk view serves n a n c okay
            (omega arith) fits)
    ];
    write_good = λ a bs c okay fits. elim (Bool-cases (length bs == 0)) [
      | inl e ↦ rw e (
          empty_write (IsOkCached geometry IsOk view) (view_cached geometry IsOk view) a bs c
            ((==_iff (length bs) 0).0 e) okay)
      | inr e ↦
          rw e
            (write_through_good geometry geometry-IsGeometry next IsOk view serves a bs c okay fits)
    ];
  }

  -- An invalidation and a flush keep the cache right.
  pub invalidate-IsOkCached :
      (addr size : ℕ) (c : Cached S)
      → IsOkCached geometry IsOk view c
      → IsOkCached geometry IsOk view (invalidate addr size c)
        × IsOkCached geometry IsOk view (flush c)
  unfolding invalidate flush
  invalidate-IsOkCached addr size c (below, lines) = (
    elim (Bool-cases (size == 0)) [
      | inl e ↦ rw e (below, lines)
      | inr e ↦ rw e (
        below,
        drop_lines-IsCoherent geometry geometry-IsGeometry (view c.below) _ _ c.lines lines,
      )
    ],
    (below, no_lines-IsCoherent geometry geometry-IsGeometry (view c.below) c.lines),
  )

-- Whatever holds of the statuses with which the layer below fails holds of those with which a read
-- through the cache fails.
pub read-FailsWith :
    {S : Type 0} (next : Provider S) (P : Status → Type 0)
    → ReadsFailWith P next
    → ReadsFailWith P (provider (some next))
unfolding provider read
read-FailsWith next P below a n c = elim (Bool-cases (n == 0)) [
  | inl e ↦ rw e (sym ((==_iff n 0).0 e))
  | inr e ↦
      rw e (read_loop-FailsWith geometry geometry-IsGeometry next P below n a n c (omega arith))
]
