-- ===== src/Tests/Decode.antt =====
-- Examples for the decoder.
use pico_cpu.Prelude.{ℕ, ◌+◌, ◌<◌, ◌≡◌, ◌⊎◌, refl, arith, none, List, [], ◌∷◌, u8}
use pico_cpu.Decoder.Source.{Got, Source, Fetch, buf_fetch, read_byte}
use pico_cpu.Decoder.Prefixes.{no_prefixes, evex, apply_vex_pp, legacy, scan_loop, scan_prefixes}
use pico_cpu.Decoder.Prefixes.Evex.{named_register, vex_vvvv-evex_wrong}
use pico_cpu.Decoder.Prefixes.Ends.{HasEnded, scan_prefixes-HasEnded, scan_loop-endless}
use pico_cpu.Decoder.ModRm.{split_modrm, decode_rm_operand}
use pico_cpu.Decoder.ModRm.Registers.{IsOperand, Gives, decode_rm_operand-IsOperand}

-- lock, an override of the segment, and REX.W before an opcode.
abbrev prefixed : List ℕ
prefixed = 0xF0 ∷ 0x64 ∷ 0x48 ∷ 0x01 ∷ []

scan_prefixes-HasEnded_example :
    HasEnded (scan_prefixes (buf_fetch prefixed 4) 5 (record { consumed = 0; state = tt }))
scan_prefixes-HasEnded_example = scan_prefixes-HasEnded prefixed 4 (omega arith)

-- A memory of operand size prefixes.
abbrev all_0x66 : Fetch (Unit {0})
all_0x66 off s = (Got.got 0x66, s)

scan_loop-endless_example :
    (scan_loop all_0x66 1000 no_prefixes (record { consumed = 0; state = tt })).0 ≡ Got.got none
unfolding legacy
scan_loop-endless_example =
    scan_loop-endless all_0x66 0x66 (λ off s. refl) (λ px. cc) 1000 no_prefixes
      (record { consumed = 0; state = tt })

-- 62 F1 6D 48 is the prefix of an instruction with the second source ZMM2.
evex_of_zmm2 : ((evex 0xF1 0x6D 0x48 no_prefixes).vex_vvvv ≡ 18) × (named_register 0x6D 0x48 ≡ 2)
unfolding evex apply_vex_pp
evex_of_zmm2 = (refl, refl)

vex_vvvv-evex_wrong_example :
    ((evex 0xF1 0x6D 0x48 no_prefixes).vex_vvvv ≡ named_register 0x6D 0x48 + 16)
    ⊎ ((evex 0xF1 0x6D 0x48 no_prefixes).vex_vvvv + 16 ≡ named_register 0x6D 0x48)
vex_vvvv-evex_wrong_example = vex_vvvv-evex_wrong 0xF1 0x6D 0x48 no_prefixes

-- A source whose byte at an offset is the lowest byte of the offset and 0x24.
abbrev counting : Fetch (Unit {0})
counting off s = (Got.got (u8 (off + 0x24)), s)

counting_bytes : (s : Source (Unit {0})) → Gives (λ b. b < 256) (read_byte counting s)
unfolding read_byte
counting_bytes s = omega arith

decode_rm_operand-IsOperand_example :
    Gives (IsOperand no_prefixes (split_modrm 0x44) 8 (Got.got 0x24)) (
      decode_rm_operand counting no_prefixes
        (split_modrm 0x44)
        8
        (record { consumed = 0; state = tt }))
unfolding read_byte
decode_rm_operand-IsOperand_example =
    decode_rm_operand-IsOperand counting counting_bytes no_prefixes (split_modrm 0x44) 8
      (record { consumed = 0; state = tt })
