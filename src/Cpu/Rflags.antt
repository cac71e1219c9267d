-- ===== src/Cpu/Rflags.antt =====
-- src/emu/include/emu/cpu.h: the bits of RFLAGS.
use pico_cpu.Prelude.{ℕ, ◌^◌, bit_or}

abbrev pub cf : ℕ
cf = 2 ^ 0

abbrev pub always_one : ℕ
always_one = 2 ^ 1

abbrev pub pf : ℕ
pf = 2 ^ 2

abbrev pub af : ℕ
af = 2 ^ 4

abbrev pub zf : ℕ
zf = 2 ^ 6

abbrev pub sf : ℕ
sf = 2 ^ 7

abbrev pub df : ℕ
df = 2 ^ 10

abbrev pub of : ℕ
of = 2 ^ 11

abbrev pub arith_mask : ℕ
arith_mask = bit_or (bit_or (bit_or (bit_or (bit_or cf pf) af) zf) sf) of
