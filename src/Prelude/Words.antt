-- ===== src/Prelude/Words.antt =====
-- Machine words: a `u64` is a number below `2 ^ 64`, and each operation wraps as the C++ one does.
use Prim.Native.Nat.{ℕ, ◌+◌, ◌-◌, ◌*◌, ◌/◌, ◌%◌, ◌^◌}
use mathlib.Core.Bool.{Bool}
use pico_cpu.Prelude.Tests.{◌==◌, leb, if◌then◌else◌}

abbrev pub u8 : ℕ → ℕ
u8 x = x % 2 ^ 8

abbrev pub u16 : ℕ → ℕ
u16 x = x % 2 ^ 16

abbrev pub u32 : ℕ → ℕ
u32 x = x % 2 ^ 32

abbrev pub u64 : ℕ → ℕ
u64 x = x % 2 ^ 64

-- `a + b`, `a - b`, `~a`, `a << k`, `a >> k` on `u64`; `-` on ℕ stops at 0, so the modulus is
-- added first.
abbrev pub add64 : ℕ → ℕ → ℕ
add64 a b = (a + b) % 2 ^ 64

abbrev pub sub64 : ℕ → ℕ → ℕ
sub64 a b = (a + 2 ^ 64 - b) % 2 ^ 64

abbrev pub mul64 : ℕ → ℕ → ℕ
mul64 a b = (a * b) % 2 ^ 64

abbrev pub not64 : ℕ → ℕ
not64 a = 2 ^ 64 - 1 - a

abbrev pub shl64 : ℕ → ℕ → ℕ
shl64 a k = (a * 2 ^ k) % 2 ^ 64

abbrev pub shr : ℕ → ℕ → ℕ
shr a k = a / 2 ^ k

-- Bit `k` of a word.
abbrev pub bit : ℕ → ℕ → Bool
bit x k = x / 2 ^ k % 2 == 1

-- The sign extension of a `k`-bit pattern to 64 bits.
abbrev pub sext : ℕ → ℕ → ℕ
sext k x = if leb (2 ^ (k - 1)) (x % 2 ^ k) then x % 2 ^ k + 2 ^ 64 - 2 ^ k else x % 2 ^ k
