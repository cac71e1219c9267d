-- ===== src/Cpu/Flags/Bits.antt =====
-- What `apply_zsp` and `with_bit` do to each bit of the flags word.
use pico_cpu.Prelude.{
  ℕ, ◌^◌, ◌<◌, ◌≡◌, refl, ap, ◌∙◌, bit_and, bit_or, Bool, true, false, not, ◌&&◌, ◌||◌, ◌==◌,
  nonzero, if◌then◌else◌, arith, u8, not64, bit,
}
use pico_cpu.Prelude.Bits.Digits.{bit-bit_and, bit-bit_or}
use pico_cpu.Prelude.Bits.Masks.{bit_two_pow, bit-not64, bit_or-lt, bit_and-lt}
use pico_cpu.Cpu.Parity.{parity8}
use pico_cpu.Cpu.Widths.{mask_for, sign_mask}
use pico_cpu.Cpu.Flags.{apply_zsp, with_bit}

-- `if (t) y |= 1 << j;`.
pub set_bit :
    (y j k : ℕ) (t : Bool)
    → bit (if t then bit_or y (2 ^ j) else y) k ≡ (bit y k || (t && (k == j)))
set_bit y j k true = bit-bit_or y (2 ^ j) k ∙ ap (λ (b : Bool). bit y k || b) (bit_two_pow j k)
set_bit y j k false = or_false (bit y k)
  where
    or_false : (b : Bool) → b ≡ (b || false)
    or_false true = refl
    or_false false = refl

pub set_bit-lt :
    (y j : ℕ) (t : Bool)
    → y < 2 ^ 64
    → 2 ^ j < 2 ^ 64
    → (if t then bit_or y (2 ^ j) else y) < 2 ^ 64
set_bit-lt y j true h p = bit_or-lt 64 y (2 ^ j) h p
set_bit-lt y j false h p = h

-- `y &= ~m;`.
pub clear_bits :
    (y m k : ℕ) → m < 2 ^ 64 → k < 64 → bit (bit_and y (not64 m)) k ≡ (bit y k && not (bit m k))
clear_bits y m k hm hk =
    bit-bit_and y (not64 m) k ∙ ap (λ (b : Bool). bit y k && b) (bit-not64 m k hm hk)

pub bit-with_bit :
    (y j k : ℕ) (on : Bool)
    → 2 ^ j < 2 ^ 64
    → k < 64
    → bit (with_bit y (2 ^ j) on) k ≡ (if k == j then on else bit y k)
unfolding with_bit
bit-with_bit y j k on hj hk =
    set_bit (bit_and y (not64 (2 ^ j))) j k on
    ∙ ap (λ (b : Bool). b || (on && (k == j)))
        (clear_bits y (2 ^ j) k hj hk ∙ ap (λ (b : Bool). bit y k && not b) (bit_two_pow j k))
    ∙ choose (bit y k) (k == j) on
  where
    choose : (x e t : Bool) → ((x && not e) || (t && e)) ≡ (if e then t else x)
    choose x e t = ground arith

pub with_bit-lt :
    (y j : ℕ) (on : Bool) → y < 2 ^ 64 → 2 ^ j < 2 ^ 64 → with_bit y (2 ^ j) on < 2 ^ 64
unfolding with_bit
with_bit-lt y j on hy hj =
    set_bit-lt (bit_and y (not64 (2 ^ j))) j on (bit_and-lt 64 y (not64 (2 ^ j)) hy) hj

-- The three flags of a result.
abbrev pub zero_flag : ℕ → ℕ → Bool
zero_flag size r = bit_and r (mask_for size) == 0

abbrev pub sign_flag : ℕ → ℕ → Bool
sign_flag size r = nonzero (bit_and (bit_and r (mask_for size)) (sign_mask size))

abbrev pub parity_flag : ℕ → ℕ → Bool
parity_flag size r = parity8 (u8 (bit_and r (mask_for size)))

zsp_mask : (k : ℕ) → bit 0xC4 k ≡ ((k == 6) || (k == 7) || (k == 2))
zsp_mask k =
    bit-bit_or (bit_or (2 ^ 6) (2 ^ 7)) (2 ^ 2) k
    ∙ ap (λ (b : Bool). b || bit (2 ^ 2) k) (bit-bit_or (2 ^ 6) (2 ^ 7) k)
    ∙ simp bit_two_pow (assoc (k == 6) (k == 7) (k == 2))
  where
    assoc : (a b c : Bool) → ((a || b) || c) ≡ (a || b || c)
    assoc a b c = ground arith

pub bit-apply_zsp :
    (y size r k : ℕ)
    → k < 64
    → bit (apply_zsp y size r) k ≡ (
        if k == 2
        then parity_flag size r
        else if k == 6
        then zero_flag size r
        else if k == 7
        then sign_flag size r
        else bit y k)
unfolding apply_zsp
bit-apply_zsp y size r k hk =
    let c = bit_and y (not64 0xC4) in
    let z = if zero_flag size r then bit_or c (2 ^ 6) else c in
    let s = if sign_flag size r then bit_or z (2 ^ 7) else z in
    set_bit s 2 k (parity_flag size r)
    ∙ ap (λ (b : Bool). b || (parity_flag size r && (k == 2)))
        (set_bit z 7 k (sign_flag size r)
          ∙ ap (λ (b : Bool). b || (sign_flag size r && (k == 7)))
              (set_bit c 6 k (zero_flag size r)
                ∙ ap (λ (b : Bool). b || (zero_flag size r && (k == 6)))
                    (clear_bits y 0xC4 k (omega arith) hk
                      ∙ ap (λ (b : Bool). bit y k && not b) (zsp_mask k))))
    ∙ choose (bit y k) (zero_flag size r) (sign_flag size r) (parity_flag size r)
  where
    choose :
        (x z s p : Bool)
        → ((((x && not ((k == 6) || (k == 7) || (k == 2))) || (z && (k == 6))) || (s && (k == 7)))
            || (p && (k == 2)))
          ≡ (if k == 2 then p else if k == 6 then z else if k == 7 then s else x)
    choose x z s p = ground arith

pub apply_zsp-lt : (y size r : ℕ) → y < 2 ^ 64 → apply_zsp y size r < 2 ^ 64
unfolding apply_zsp
apply_zsp-lt y size r h =
    let c = bit_and y (not64 0xC4) in
    let z = if zero_flag size r then bit_or c (2 ^ 6) else c in
    let s = if sign_flag size r then bit_or z (2 ^ 7) else z in
    set_bit-lt s 2 (parity_flag size r)
      (set_bit-lt z 7 (sign_flag size r)
        (set_bit-lt c 6 (zero_flag size r) (bit_and-lt 64 y (not64 0xC4) h) (omega arith))
        (omega arith))
      (omega arith)
