-- ===== src/Blocks/Cache.antt =====
-- src/emu/include/emu/block_cache.h and src/emu/cache/block_cache.cpp: decoded blocks by their
-- first address. The hash map is an association list in which no address occurs twice.
pub mod Lookup
use pico_cpu.Prelude.{
  ℕ, ◌+◌, Bool, true, false, ◌&&◌, List, [], ◌∷◌, Option, none, some, ◌==◌, ltb, if◌then◌else◌,
  add64,
}
use pico_cpu.Ir.{DecodedBlock}

abbrev pub Entry : Type 0
Entry = ℕ × DecodedBlock

pub record BlockCache : Type 0 where
  pub blocks : List Entry
  pub hits : ℕ
  pub misses : ℕ
  pub semantic_hits : ℕ

abbrev pub find : ℕ → List Entry → Option DecodedBlock
find pc [] = none
find pc ((k, b) ∷ rest) = if k == pc then some b else find pc rest

-- The block, and the cache with the access counted.
unfoldable pub lookup : ℕ → BlockCache → Option DecodedBlock × BlockCache
lookup pc c =
    let found = find pc c.blocks in
    (
      found,
      elim found [
        | none ↦ record c { misses = c.misses + 1 }
        | some b ↦ record c { hits = c.hits + 1 }
      ],
    )

abbrev pub assign : ℕ → DecodedBlock → List Entry → List Entry
assign pc block [] = (pc, block) ∷ []
assign pc block ((k, b) ∷ rest) =
    if k == pc then (pc, block) ∷ rest else (k, b) ∷ assign pc block rest

unfoldable pub insert : ℕ → DecodedBlock → BlockCache → BlockCache
insert pc block c = record c { blocks = assign pc block c.blocks }

-- The block at `pc` has a byte in the range.
abbrev pub overlaps : ℕ → ℕ → ℕ → DecodedBlock → Bool
overlaps addr size pc block = ltb pc (add64 addr size) && ltb addr (add64 pc block.byte_size)

abbrev pub sweep : ℕ → ℕ → List Entry → List Entry
sweep addr size [] = []
sweep addr size ((k, b) ∷ rest) =
    let kept = sweep addr size rest in if overlaps addr size k b then kept else (k, b) ∷ kept

unfoldable pub invalidate_range : ℕ → ℕ → BlockCache → BlockCache
invalidate_range addr size c =
    if size == 0 then c else record c { blocks = sweep addr size c.blocks }

unfoldable pub clear : BlockCache → BlockCache
clear c = record { blocks = []; hits = 0; misses = 0; semantic_hits = 0 }
