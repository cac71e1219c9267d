-- ===== src/Blocks/Decode.antt =====
-- src/emu/cache/block_cache.cpp: `decode_block`. The decoder of one instruction is a parameter.
pub mod Size
use pico_cpu.Prelude.{
  ℕ, zero, suc, ◌+◌, bit_and, Bool, true, false, List, [], ◌∷◌, ◌++◌, nonzero, if◌then◌else◌, u32,
  add64,
}
use pico_cpu.Error.{Status}
use pico_cpu.Ir.{Insn, DecodedBlock}
use pico_cpu.Peephole.{peephole_block}

-- The outcome of `decode_one`.
pub data Decoded : Type 0 where
  insn : Insn → Decoded
  failed : Status → Decoded

-- INSN_FLAG_CONTROL_FLOW.
abbrev pub ends_block : Insn → Bool
ends_block i = nonzero (bit_and i.flags 1)

abbrev pub append : DecodedBlock → Insn → DecodedBlock
append out i = record out { byte_size = u32 (out.byte_size + i.len); insns = out.insns ++ (i ∷ []) }

-- A failure ends a block that has instructions, and is the result of one that has none.
abbrev pub stop : Status → DecodedBlock → Status
stop st out = elim (out.insns) [ [] ↦ st | _ ∷ _ ↦ Status.ok ]

module _ {S : Type 0} (decode_one : ℕ → S → Decoded × S) where
  -- The body of the loop after the decoding of an instruction.
  abbrev pub after_decode :
      Decoded
      → DecodedBlock
      → S
      → (Insn → Status × (DecodedBlock × S))
      → Status × (DecodedBlock × S)
  after_decode (Decoded.failed st) out s more = (stop st out, (out, s))
  after_decode (Decoded.insn i) out s more =
      let rest = more i in if ends_block i then (Status.ok, (append out i, s)) else rest

  -- The loop, with `left` instructions to go.
  unfoldable pub decode_loop : ℕ → ℕ → DecodedBlock → S → Status × (DecodedBlock × S)
  decode_loop zero cur out s = (Status.ok, (out, s))
  decode_loop (suc left) cur out s =
      let (r, s') = decode_one cur s in
      after_decode r out s' λ i. decode_loop left (add64 cur i.len) (append out i) s'

  abbrev pub finish : Status × (DecodedBlock × S) → ℕ → Status × (DecodedBlock × S)
  finish (Status.ok, (out, s)) folded = (Status.ok, ((peephole_block out folded).0, s))
  finish (st, (out, s)) folded = (st, (out, s))

  unfoldable pub decode_block : ℕ → ℕ → ℕ → S → Status × (DecodedBlock × S)
  decode_block pc max_insns folded s =
      finish (decode_loop max_insns pc (record { pc = pc; byte_size = 0; insns = [] }) s) folded
