-- ===== src/Cpu/State/Registers.antt =====
-- src/emu/include/emu/cpu.h: sized access to the general registers, the x87 stack, the vector
-- lanes and the CPUID table.
use pico_cpu.Prelude.{
  ℕ, ◌+◌, ◌-◌, ◌^◌, bit_and, bit_or, Bool, ◌&&◌, List, [], ◌∷◌, Option, none, some, ◌==◌, leb, ltb,
  if◌then◌else◌, u8, u16, u32, not64, shl64, shr,
}
use pico_cpu.Cpu.State.{Cpu, CpuidLeaf, update}

-- AH, CH, DH and BH are the indices 16 to 19.
abbrev pub is_high : ℕ → Bool
is_high idx = leb 16 idx && ltb idx 20

unfoldable pub r8 : ℕ → Cpu → ℕ
r8 idx c =
    if is_high idx
    then u8 (bit_and (shr (c.gpr (idx - 16)) 8) 0xFF)
    else u8 (bit_and (c.gpr idx) 0xFF)

unfoldable pub r16 : ℕ → Cpu → ℕ
r16 idx c = u16 (bit_and (c.gpr idx) 0xFFFF)

unfoldable pub r32 : ℕ → Cpu → ℕ
r32 idx c = u32 (bit_and (c.gpr idx) 0xFFFF_FFFF)

unfoldable pub set_r64 : ℕ → ℕ → Cpu → Cpu
set_r64 idx v c = record c { gpr = update c.gpr idx v }

unfoldable pub set_r8 : ℕ → ℕ → Cpu → Cpu
set_r8 idx v c =
    let base = u8 (idx - 16) in
    if is_high idx
    then record c {
      gpr = update c.gpr base (bit_or (bit_and (c.gpr base) (not64 0xFF00)) (shl64 v 8));
    }
    else record c { gpr = update c.gpr idx (bit_or (bit_and (c.gpr idx) (not64 0xFF)) v) }

unfoldable pub set_r16 : ℕ → ℕ → Cpu → Cpu
set_r16 idx v c = record c {
  gpr = update c.gpr idx (bit_or (bit_and (c.gpr idx) (not64 0xFFFF)) v);
}

-- The write of a 32-bit register clears the upper half.
unfoldable pub set_r32 : ℕ → ℕ → Cpu → Cpu
set_r32 idx v c = record c { gpr = update c.gpr idx v }

unfoldable pub read_fpu_sw : Cpu → ℕ
read_fpu_sw c =
    u16 (bit_or (bit_and c.fpu_sw (not64 0x3800)) (shl64 (u16 (bit_and c.fpu_top 7)) 11))

unfoldable pub set_fpu_sw : ℕ → Cpu → Cpu
set_fpu_sw v c = record c {
  fpu_sw = u16 (bit_and v (not64 0x3800));
  fpu_top = u8 (bit_and (shr v 11) 7);
}

-- ST(i).
unfoldable pub st : ℕ → Cpu → ℕ
st i c = c.fpu_st (bit_and (c.fpu_top + i) 7)

unfoldable pub set_st : ℕ → ℕ → Cpu → Cpu
set_st i v c = record c { fpu_st = update c.fpu_st (bit_and (c.fpu_top + i) 7) v }

unfoldable pub fpu_push : ℕ → Cpu → Cpu
fpu_push v c =
    let t = u8 (bit_and (u32 (c.fpu_top + 2 ^ 32 - 1)) 7) in
    record c { fpu_top = t; fpu_st = update c.fpu_st t v }

unfoldable pub fpu_pop : Cpu → ℕ × Cpu
fpu_pop c = (c.fpu_st c.fpu_top, record c { fpu_top = u8 (bit_and (c.fpu_top + 1) 7) })

-- `zmm_[idx][i] = 0` from byte `from` on.
unfoldable pub zero_zmm_upper : ℕ → ℕ → Cpu → Cpu
zero_zmm_upper idx width c = record c {
  zmm = λ j i. if (j == idx) && (leb width i && ltb i 64) then 0 else c.zmm j i;
}

-- The loop of `set_cpuid`.
abbrev pub override : CpuidLeaf → List CpuidLeaf → List CpuidLeaf
override new [] = new ∷ []
override new (e ∷ es) =
    if (e.leaf == new.leaf) && (e.subleaf == new.subleaf) then new ∷ es else e ∷ override new es

unfoldable pub set_cpuid : CpuidLeaf → Cpu → Cpu
set_cpuid new c = record c { cpuid_overrides = override new c.cpuid_overrides }

abbrev pub find_leaf : ℕ → ℕ → List CpuidLeaf → Option CpuidLeaf
find_leaf l s [] = none
find_leaf l s (e ∷ es) = if (e.leaf == l) && (e.subleaf == s) then some e else find_leaf l s es

unfoldable pub cpuid_lookup : ℕ → ℕ → Cpu → Option CpuidLeaf
cpuid_lookup l s c = find_leaf l s c.cpuid_overrides
