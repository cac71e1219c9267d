-- ===== src/Decoder/Entry.antt =====
-- src/emu/decoder/decoder.cpp: the entry points. The table of the opcodes, `decode_after_prefixes`,
-- is an argument.
use pico_cpu.Prelude.{ℕ, bit_or, Bool, Option, none, some, List, ◌==◌, ltb, if◌then◌else◌}
use pico_cpu.Error.{Status}
use pico_cpu.Cpu.Cond.{Cc}
use pico_cpu.Ir.{Insn, Handler}
use pico_cpu.Memory.Provider.{Provider}
use pico_cpu.Blocks.Decode.{Decoded}
use pico_cpu.Decoder.Source.{Got, Source, Step, ◌>>=◌, fail_with, Fetch, buf_fetch, mem_fetch}
use pico_cpu.Decoder.Prefixes.{Prefixes, scan_prefixes}
use pico_cpu.Decoder.ModRm.{no_operand}

abbrev pub flag : Bool → ℕ → ℕ → ℕ
flag b mask flags = if b then bit_or flags mask else flags

-- The INSN_FLAG_* of the prefixes.
unfoldable pub flags_of : Prefixes → ℕ
flags_of px = flag px.addrsize_pfx 64 (
    flag px.opsize_pfx 32 (flag px.has_seg 16 (flag px.repne 8 (flag px.rep 4 (flag px.lock 2 0)))))

-- `out` before the opcode is read: an empty instruction with the address and the flags.
abbrev pub blank : Prefixes → ℕ → Insn
blank px rip = record {
  handler = Handler.other 0;
  kind = 0;
  op_size = 0;
  len = 0;
  cond = Cc.none;
  flags = flags_of px;
  pad = 0;
  rip = rip;
  dst = no_operand;
  src = no_operand;
  imm_extra = 0;
}

module _ {S : Type 0} (fetch : Fetch S) (table : Fetch S → Prefixes → ℕ → Insn → Step S Insn) where
  -- The length is what was consumed.
  abbrev pub with_len : Insn → Step S Insn
  with_len i s = (Got.got (record i { len = s.consumed }), s)

  -- A scan that runs out of fuel stands for one that does not end.
  abbrev pub after_scan : ℕ → Option Prefixes → Step S Insn
  after_scan rip none = fail_with Status.internal
  after_scan rip (some px) = table fetch px rip (blank px rip) >>= with_len

  unfoldable pub decode_with_source : ℕ → ℕ → Step S Insn
  decode_with_source fuel rip = scan_prefixes fetch fuel >>= after_scan rip

abbrev pub outcome : {S : Type 0} → Got Insn × Source S → Decoded × S
outcome (Got.got i, s) = (Decoded.insn i, s.state)
outcome (Got.failed st, s) = (Decoded.failed st, s.state)

unfoldable pub decode_one :
    {S : Type 0}
    → (Fetch S → Prefixes → ℕ → Insn → Step S Insn)
    → Provider S
    → ℕ
    → ℕ
    → S
    → Decoded × S
decode_one table mem fuel rip s =
    outcome
      (decode_with_source (mem_fetch mem rip) table fuel rip (record { consumed = 0; state = s }))

-- A buffer of at most 15 bytes needs at most 16 rounds of the scan.
unfoldable pub decode_bytes :
    (Fetch (Unit {0}) → Prefixes → ℕ → Insn → Step (Unit {0}) Insn) → List ℕ → ℕ → ℕ → Decoded
decode_bytes table bytes len rip =
    let capped = if ltb 15 len then 15 else len in
    let r = outcome (
      decode_with_source (buf_fetch bytes capped) table 16 rip
        (record { consumed = 0; state = tt })) in
    if len == 0 then Decoded.failed Status.truncated_instruction else r.0
