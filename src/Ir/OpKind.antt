-- ===== src/Ir/OpKind.antt =====
-- src/emu/include/emu/ir.h: the numbers of the semantic operations that the passes below name. The
-- enumeration has about 330 members; a kind is its `u16`.
use pico_cpu.Prelude.{ℕ}

abbrev pub nop : ℕ
nop = 1

abbrev pub mov : ℕ
mov = 2

abbrev pub lea : ℕ
lea = 6

abbrev pub xchg : ℕ
xchg = 9

abbrev pub xor : ℕ
xor = 26

abbrev pub jmp : ℕ
jmp = 39

abbrev pub jcc : ℕ
jcc = 40

abbrev pub imul : ℕ
imul = 20

abbrev pub imul3 : ℕ
imul3 = 21
