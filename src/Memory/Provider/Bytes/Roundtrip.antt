-- ===== src/Memory/Provider/Bytes/Roundtrip.antt =====
-- Eight bytes written and read back are the number.
use pico_cpu.Prelude.{
  ℕ, zero, suc, ◌+◌, ◌*◌, ◌/◌, ◌%◌, ◌^◌, ◌<◌, ◌≡◌, arith, bit_or, bit_and, ◌∙◌, ap, sym, u8, shr,
  shl64,
}
use Prim.Native.Nat.{bit_or-bitwise, max}
use native.Mathlib.Nat.{pow-suc, mul_assoc}
use pico_cpu.Prelude.Bits.Step.{bit_or_step}
use pico_cpu.Prelude.Bits.Masks.{bit_and_low}
use pico_cpu.Memory.Provider.Bytes.{from_bytes, to_bytes}

-- `x | (y << k)` where `x` has no bit from `k` on.
pub disjoint_or : (k x y : ℕ) → x < 2 ^ k → bit_or x (y * 2 ^ k) ≡ x + y * 2 ^ k
disjoint_or zero zero y h =
    let none_left : bit_or 0 (y * 2 ^ 0) ≡ y * 2 ^ 0 = bit_or-bitwise 0 (y * 2 ^ 0) in omega arith
disjoint_or zero (suc x) y h = absurd (omega arith)
disjoint_or (suc k) x y h =
    let ih = disjoint_or k (x / 2) y (omega (arith, pow-suc 2 k)) in
    bit_or_step x (y * 2 ^ suc k)
    ∙ doubled (y * 2 ^ suc k) (y * 2 ^ k)
        (ap (λ p. y * p) (pow-suc 2 k) ∙ sym (mul_assoc y (2 ^ k) 2)) ih
  where
    doubled :
        (m t : ℕ)
        → m ≡ t * 2
        → bit_or (x / 2) t ≡ x / 2 + t
        → bit_or (x / 2) (m / 2) * 2 + max (x % 2) (m % 2) ≡ x + m
    doubled m t e ih =
        let half : m / 2 ≡ t = omega arith in
        let even : m % 2 ≡ 0 = omega arith in omega (arith, ap (λ n. bit_or (x / 2) n) half)

-- One round of the loop that reads: the byte at bit `k` joins the `k` bits below it.
join_byte :
    (k v : ℕ)
    → shl64 (v / 2 ^ k % 2 ^ 8) k ≡ v / 2 ^ k % 2 ^ 8 * 2 ^ k
    → v % 2 ^ k < 2 ^ k
    → v % 2 ^ k + v / 2 ^ k % 2 ^ 8 * 2 ^ k ≡ v % 2 ^ (k + 8)
    → bit_or (v % 2 ^ k) (shl64 (u8 (bit_and (shr v k) 0xFF)) k) ≡ v % 2 ^ (k + 8)
join_byte k v fits small sum =
    ap (λ b. bit_or (v % 2 ^ k) (shl64 b k)) byte
    ∙ ap (λ n. bit_or (v % 2 ^ k) n) fits
    ∙ disjoint_or k (v % 2 ^ k) (v / 2 ^ k % 2 ^ 8) small
    ∙ sum
  where
    byte : u8 (bit_and (shr v k) 0xFF) ≡ v / 2 ^ k % 2 ^ 8
    byte = omega (arith, bit_and_low 8 (v / 2 ^ k))

-- The eight bytes that a 64-bit value is written as are read back as the value, for a value
-- below 2^64.
pub from_bytes-to_bytes : (v : ℕ) → v < 2 ^ 64 → from_bytes 0 0 (to_bytes 8 0 v) ≡ v
unfolding from_bytes to_bytes
from_bytes-to_bytes v h =
    ap (λ a. from_bytes 0 a (to_bytes 8 0 v)) nothing
    ∙ ap (λ a. from_bytes 1 a (to_bytes 7 1 v))
        (join_byte 0 v (omega arith) (omega arith) (omega arith))
    ∙ ap (λ a. from_bytes 2 a (to_bytes 6 2 v))
        (join_byte 8 v (omega arith) (omega arith) (omega arith))
    ∙ ap (λ a. from_bytes 3 a (to_bytes 5 3 v))
        (join_byte 16 v (omega arith) (omega arith) (omega arith))
    ∙ ap (λ a. from_bytes 4 a (to_bytes 4 4 v))
        (join_byte 24 v (omega arith) (omega arith) (omega arith))
    ∙ ap (λ a. from_bytes 5 a (to_bytes 3 5 v))
        (join_byte 32 v (omega arith) (omega arith) (omega arith))
    ∙ ap (λ a. from_bytes 6 a (to_bytes 2 6 v))
        (join_byte 40 v (omega arith) (omega arith) (omega arith))
    ∙ ap (λ a. from_bytes 7 a (to_bytes 1 7 v))
        (join_byte 48 v (omega arith) (omega arith) (omega arith))
    ∙ ap (λ a. from_bytes 8 a (to_bytes 0 8 v))
        (join_byte 56 v (omega arith) (omega arith) (omega arith))
    ∙ whole
  where
    nothing : 0 ≡ v % 2 ^ 0
    nothing = omega arith

    whole : v % 2 ^ 64 ≡ v
    whole = omega arith
