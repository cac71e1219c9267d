-- ===== src/Cpu/Widths.antt =====
-- src/emu/include/emu/cpu.h: masks for the operand widths, 1, 2, 4 and 8 bytes.
pub mod Laws
use pico_cpu.Prelude.{ℕ, ◌+◌, ◌-◌, ◌*◌, ◌^◌, ◌≡◌, ◌⊎◌, ◌==◌, if◌then◌else◌, u8, shl64}

unfoldable pub mask_for : ℕ → ℕ
mask_for size =
    if size == 1
    then 0xFF
    else if size == 2
    then 0xFFFF
    else if size == 4
    then 0xFFFF_FFFF
    else if size == 8
    then 0xFFFF_FFFF_FFFF_FFFF
    else 0

unfoldable pub sign_bit_pos : ℕ → ℕ
sign_bit_pos size = u8 (size * 8 + 2 ^ 32 - 1)

unfoldable pub sign_mask : ℕ → ℕ
unfolding sign_bit_pos
sign_mask size = shl64 1 (sign_bit_pos size)

-- The widths that instructions have.
abbrev pub IsSize : ℕ → Type 0
IsSize s = (s ≡ 1) ⊎ (s ≡ 2) ⊎ (s ≡ 4) ⊎ (s ≡ 8)
