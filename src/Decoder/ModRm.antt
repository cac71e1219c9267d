-- ===== src/Decoder/ModRm.antt =====
-- src/emu/decoder/modrm.cpp and src/emu/decoder/decoder_internal.h: the operands that a ModRM byte,
-- a SIB byte and a displacement stand for.
pub mod Registers
use pico_cpu.Prelude.{
  ℕ, ◌+◌, ◌-◌, ◌^◌, ◌%◌, bit_and, bit_or, Bool, true, false, not, ◌&&◌, ◌||◌, ◌==◌, leb,
  if◌then◌else◌, shr, sext, u8,
}
use pico_cpu.Ir.{Seg, OperandKind, Operand, no_reg}
use pico_cpu.Decoder.Source.{
  Source, Step, ◌>>=◌, ◌>>◌, pure, Fetch, read_byte, read_u32, extended, with_value,
}
use pico_cpu.Decoder.Prefixes.{Prefixes, rex_r, rex_x, rex_b}

pub record ModRm : Type 0 where
  pub mod_field : ℕ
  pub reg : ℕ
  pub rm : ℕ

unfoldable pub split_modrm : ℕ → ModRm
split_modrm b = record { mod_field = shr b 6; reg = bit_and (shr b 3) 7; rm = bit_and b 7 }

abbrev pub combine_reg : Bool → ℕ → ℕ
combine_reg ext r3 = bit_or (if ext then 8 else 0) (bit_and r3 7)

pub record Sib : Type 0 where
  pub base : ℕ
  pub index : ℕ
  pub scale : ℕ
  pub needs_disp32_base : Bool

unfoldable pub split_sib : ℕ → ℕ → Bool → Bool → Sib
split_sib b mod_field x_bit b_bit =
    let index_field = bit_and (shr b 3) 7 in
    let base_field = bit_and b 7 in
    let no_base = (base_field == 5) && (mod_field == 0) in
    record {
      base = if no_base then no_reg else combine_reg b_bit base_field;
      index = if (index_field == 4) && not x_bit then no_reg else combine_reg x_bit index_field;
      scale = u8 (2 ^ shr b 6);
      needs_disp32_base = no_base;
    }

-- `Operand{}`.
abbrev pub no_operand : Operand
no_operand = record {
  kind = OperandKind.none;
  reg = 0;
  index = 0;
  scale = 0;
  seg = Seg.ds;
  imm = 0;
}

-- A byte register without REX of index 4 to 7 is AH, CH, DH or BH.
abbrev pub is_high_byte : Prefixes → ℕ → ℕ → Bool
is_high_byte px op_size r = ((op_size == 1) && not px.has_rex) && (leb 4 r && leb r 7)

abbrev pub register_of : Prefixes → Bool → ℕ → ℕ → Operand
register_of px ext op_size r = record no_operand {
  kind = OperandKind.reg;
  reg = if is_high_byte px op_size r then u8 (16 + (r - 4)) else combine_reg ext r;
}

unfoldable pub reg_operand : Prefixes → ModRm → ℕ → Operand
reg_operand px m op_size = register_of px (rex_r px) op_size m.reg

abbrev pub memory_operand : Prefixes → Operand
memory_operand px = record no_operand { seg = if px.has_seg then px.seg else Seg.ds }

abbrev pub rip_form : Prefixes → ℕ → Operand
rip_form px disp = record (memory_operand px) {
  kind = OperandKind.rip_rel_mem;
  reg = no_reg;
  index = no_reg;
  scale = 0;
  imm = disp;
}

abbrev pub sib_form : Prefixes → Sib → ℕ → Operand
sib_form px sib disp = record (memory_operand px) {
  kind = OperandKind.mem;
  reg = sib.base;
  index = sib.index;
  scale = sib.scale;
  imm = disp;
}

abbrev pub base_form : Prefixes → ModRm → ℕ → Operand
base_form px m disp = record (memory_operand px) {
  kind = OperandKind.mem;
  reg = combine_reg (rex_b px) m.rm;
  index = no_reg;
  scale = 0;
  imm = disp;
}

module _ {S : Type 0} (fetch : Fetch S) where
  abbrev pub disp32 : Step S ℕ
  disp32 = extended fetch 32 (read_u32 fetch)

  -- The displacement of a memory operand as the pattern of an `i64`.
  abbrev pub displacement : ℕ → Step S ℕ
  displacement mod_field =
      if mod_field == 1
      then extended fetch 8 (read_byte fetch)
      else if mod_field == 2
      then disp32
      else pure 0

  abbrev pub sib_displacement : ℕ → Sib → Step S ℕ
  sib_displacement mod_field sib = if sib.needs_disp32_base then disp32 else displacement mod_field

  abbrev pub after_sib : Prefixes → ModRm → ℕ → Step S Operand
  after_sib px m b =
      let sib = split_sib b m.mod_field (rex_x px) (rex_b px) in
      with_value (sib_displacement m.mod_field sib) (sib_form px sib)

  unfoldable pub decode_rm_operand : Prefixes → ModRm → ℕ → Step S Operand
  decode_rm_operand px m op_size =
      if m.mod_field == 3
      then pure (register_of px (rex_b px) op_size m.rm)
      else if (m.mod_field == 0) && (m.rm == 5)
      then with_value disp32 (rip_form px)
      else if m.rm == 4
      then read_byte fetch >>= after_sib px m
      else with_value (displacement m.mod_field) (base_form px m)
