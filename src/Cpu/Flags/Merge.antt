-- ===== src/Cpu/Flags/Merge.antt =====
-- The word that a lazy recomputation leaves is the word that the eager reference writes.
use pico_cpu.Prelude.{
  ℕ, ◌^◌, ◌<◌, ◌≡◌, sym, ap, ap₂, ◌∙◌, bit_and, bit_or, Bool, true, not, ◌&&◌, ◌||◌, ◌==◌,
  if◌then◌else◌, arith, not64, bit,
}
use pico_cpu.Prelude.Bits.Digits.{bit-bit_and, bit-bit_or}
use pico_cpu.Prelude.Bits.Masks.{bit_two_pow, bits_ext, bit_or-lt, bit_and-lt}
use pico_cpu.Cpu.Rflags
use pico_cpu.Cpu.Flags.{apply_zsp, with_bit}
use pico_cpu.Cpu.Lazy.{merge}
use pico_cpu.Cpu.Flags.Bits.{
  set_bit, clear_bits, bit-with_bit, with_bit-lt, bit-apply_zsp, apply_zsp-lt, zero_flag, sign_flag,
  parity_flag,
}

-- The bits that `sync_flags_` owns: the six flags and bit 1.
abbrev pub owned : ℕ
owned = bit_or Rflags.arith_mask Rflags.always_one

abbrev pub is_arith : ℕ → Bool
is_arith k = (((((k == 0) || (k == 2)) || (k == 4)) || (k == 6)) || (k == 7)) || (k == 11)

abbrev pub is_owned : ℕ → Bool
is_owned k = is_arith k || (k == 1)

pub arith_bit : (k : ℕ) → bit Rflags.arith_mask k ≡ is_arith k
arith_bit k =
    bit-bit_or _ (2 ^ 11) k
    ∙ ap₂ ◌||◌
        (bit-bit_or _ (2 ^ 7) k
          ∙ ap₂ ◌||◌
              (bit-bit_or _ (2 ^ 6) k
                ∙ ap₂ ◌||◌
                    (bit-bit_or _ (2 ^ 4) k
                      ∙ ap₂ ◌||◌
                          (bit-bit_or (2 ^ 0) (2 ^ 2) k
                            ∙ ap₂ ◌||◌ (bit_two_pow 0 k) (bit_two_pow 2 k))
                          (bit_two_pow 4 k))
                    (bit_two_pow 6 k))
              (bit_two_pow 7 k))
        (bit_two_pow 11 k)

owned-bit : (k : ℕ) → bit owned k ≡ is_owned k
owned-bit k = bit-bit_or Rflags.arith_mask (2 ^ 1) k ∙ ap₂ ◌||◌ (arith_bit k) (bit_two_pow 1 k)

pub bit-merge : (p b k : ℕ) → k < 64 → bit (merge p b) k ≡ (if is_owned k then bit b k else bit p k)
unfolding merge
bit-merge p b k hk =
    bit-bit_or (bit_and p (not64 owned)) (bit_and b owned) k
    ∙ ap₂ ◌||◌
        (clear_bits p owned k (omega arith) hk ∙ ap (λ (t : Bool). bit p k && not t) (owned-bit k))
        (bit-bit_and b owned k ∙ ap (λ (t : Bool). bit b k && t) (owned-bit k))
    ∙ choose (bit p k) (bit b k) (is_owned k)
  where
    choose : (x y t : Bool) → ((x && not t) || (y && t)) ≡ (if t then y else x)
    choose x y t = ground arith

merge-lt : (p b : ℕ) → p < 2 ^ 64 → b < 2 ^ 64 → merge p b < 2 ^ 64
unfolding merge
merge-lt p b hp hb =
    bit_or-lt 64 (bit_and p (not64 owned)) (bit_and b owned) (bit_and-lt 64 p (not64 owned) hp)
      (bit_and-lt 64 b owned hb)

-- `y |= ALWAYS_ONE;`.
pub settled_bit : (y k : ℕ) → bit (bit_or y 2) k ≡ (bit y k || (k == 1))
settled_bit y k = set_bit y 1 k true

-- The word with the six flags given, the others taken from `y`.
abbrev pub flag_word : ℕ → ℕ → ℕ → Bool → Bool → Bool → ℕ
flag_word y size r c o a =
    with_bit (with_bit (with_bit (apply_zsp y size r) Rflags.cf c) Rflags.of o) Rflags.af a

pub flag_word-lt : (y size r : ℕ) (c o a : Bool) → y < 2 ^ 64 → flag_word y size r c o a < 2 ^ 64
flag_word-lt y size r c o a h =
    with_bit-lt _ 4 a
      (with_bit-lt _ 11 o (with_bit-lt _ 0 c (apply_zsp-lt y size r h) (omega arith)) (omega arith))
      (omega arith)

pub bit-flag_word :
    (y size r k : ℕ) (c o a : Bool)
    → k < 64
    → bit (flag_word y size r c o a) k ≡ (
        if k == 4
        then a
        else if k == 11
        then o
        else if k == 0
        then c
        else if k == 2
        then parity_flag size r
        else if k == 6
        then zero_flag size r
        else if k == 7
        then sign_flag size r
        else bit y k)
bit-flag_word y size r k c o a hk =
    bit-with_bit _ 4 k a (omega arith) hk
    ∙ ap (λ (t : Bool). if k == 4 then a else t)
        (bit-with_bit _ 11 k o (omega arith) hk
          ∙ ap (λ (t : Bool). if k == 11 then o else t)
              (bit-with_bit _ 0 k c (omega arith) hk
                ∙ ap (λ (t : Bool). if k == 0 then c else t) (bit-apply_zsp y size r k hk)))

one_bit : (k : ℕ) → bit 2 k ≡ (k == 1)
one_bit k = bit_two_pow 1 k

-- Recomputing from a clean word and merging is the same as updating the old word.
pub merge-flag_word :
    (p size r : ℕ) (c o a : Bool)
    → p < 2 ^ 64
    → merge p (flag_word Rflags.always_one size r c o a)
      ≡ bit_or (flag_word p size r c o a) Rflags.always_one
merge-flag_word p size r c o a hp =
    bits_ext 64 _ _ (merge-lt p _ hp (flag_word-lt 2 size r c o a (omega arith)))
      (bit_or-lt 64 _ 2 (flag_word-lt p size r c o a hp) (omega arith))
      λ k hk.
        bit-merge p _ k hk
        ∙ ap (λ (t : Bool). if is_owned k then t else bit p k) (bit-flag_word 2 size r k c o a hk)
        ∙ agree k (bit 2 k) (bit p k) (one_bit k) (parity_flag size r) (zero_flag size r)
            (sign_flag size r)
        ∙ sym (
            settled_bit (flag_word p size r c o a) k
            ∙ ap (λ (t : Bool). t || (k == 1)) (bit-flag_word p size r k c o a hk))
  where
    agree :
        (k : ℕ) (one old : Bool)
        → one ≡ (k == 1)
        → (pf zf sf : Bool)
        → (if is_owned k
            then if k == 4
              then a
              else if k == 11
              then o
              else if k == 0
              then c
              else if k == 2
              then pf
              else if k == 6
              then zf
              else if k == 7
              then sf
              else one
            else old)
          ≡ ((if k == 4
                then a
                else if k == 11
                then o
                else if k == 0
                then c
                else if k == 2
                then pf
                else if k == 6
                then zf
                else if k == 7
                then sf
                else old)
              || (k == 1))
    agree k one old e pf zf sf = ground arith
