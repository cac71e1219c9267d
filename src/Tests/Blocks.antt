-- ===== src/Tests/Blocks.antt =====
-- Examples for the caches of blocks and branches and for the decoding of a block.
use pico_cpu.Prelude.{ℕ, ◌+◌, ◌≡◌, refl, arith, [], ◌∷◌, some, u32}
use pico_cpu.Cpu.Cond.{Cc}
use pico_cpu.Ir.{DecodedBlock}
use pico_cpu.Ir.OpKind
use pico_cpu.Blocks.Cache.{BlockCache, lookup, invalidate_range}
use pico_cpu.Blocks.Cache.Lookup.{Invalidated, lookup-invalidate_range}
use pico_cpu.Blocks.Targets.{BranchTargetCache}
use pico_cpu.Blocks.Decode.{Decoded, decode_block}
use pico_cpu.Blocks.Decode.Size.{total, decode_block-IsSized}
use pico_cpu.Tests.{register, instruction}

abbrev block_of : ℕ → DecodedBlock
block_of pc = record { pc = pc; byte_size = 16; insns = [] }

-- Blocks at 0x1000 and at 0x1010.
abbrev two_blocks : BlockCache
two_blocks = record {
  blocks = (0x1000, block_of 0x1000) ∷ (0x1010, block_of 0x1010) ∷ [];
  hits = 0;
  misses = 0;
  semantic_hits = 0;
}

-- A write of two bytes at 0x100F reaches both blocks.
lookup-invalidate_range_example :
    Invalidated 0x100F 2 0x1010
      (some (block_of 0x1010))
      ((lookup 0x1010 (invalidate_range 0x100F 2 two_blocks)).0)
unfolding lookup
lookup-invalidate_range_example =
    lookup-invalidate_range 0x100F 2 0x1010 two_blocks (refl, (refl, tt)) (omega arith)
      (omega arith) (omega arith)

abbrev no_targets : BranchTargetCache
no_targets = record { entries = λ i. record { branch_pc = 0; target_pc = 0 }; hits = 0; misses = 0 }

-- A decoder that finds a MOV wherever it looks, and counts its calls.
abbrev moves : ℕ → ℕ → Decoded × ℕ
moves pc calls =
    (Decoded.insn (instruction OpKind.mov 8 Cc.none (register 2) (register 2)), calls + 1)

decode_block-IsSized_example :
    (decode_block moves 0x1000 4 0 0).1.0.byte_size
    ≡ u32 (total (decode_block moves 0x1000 4 0 0).1.0.insns)
decode_block-IsSized_example = decode_block-IsSized moves 0x1000 4 0 0
