-- ===== src/Handlers/BitManip/Scan.antt =====
-- What the scans for the first and the last set bit find, and what the count of the bits counts.
use pico_cpu.Prelude.{
  ℕ, zero, suc, ◌+◌, ◌-◌, ◌<◌, ◌≡◌, refl, sym, ap, subst, ◌⊎◌, inl, inr, bit_and, Bool, true, false,
  ◌==◌, arith, if_split, shr, u8,
}
use native.Mathlib.Decide.{ℕ_discrete}
use pico_cpu.Prelude.Bits.Masks.{bit_and_low}
use pico_cpu.Cpu.Parity.Popcount.{popcount}
use pico_cpu.Handlers.BitManip.{
  bit_at, tz_loop, tzcount_u64, lz_loop, lzcount_u64, popcount_loop, popcount_u64,
}

-- Of the bits `at 0`, `at 1`, ... all before `n` are clear, and `n` is the width or that of a set
-- bit.
abbrev pub IsFirst : (ℕ → Bool) → ℕ → ℕ → Type 0
IsFirst at width n = ((n ≡ width) ⊎ (at n ≡ true)) × ((i : ℕ) → i < n → at i ≡ false)

-- The bits from the top.
abbrev pub from_top : ℕ → ℕ → ℕ → Bool
from_top v width i = bit_at v (width - 1 - i)

extend : (P : ℕ → Type 0) (n : ℕ) → ((i : ℕ) → i < n → P i) → P n → (i : ℕ) → i < n + 1 → P i
extend P n below here i h = elim (ℕ_discrete i n) [
  | yes e ↦ subst P (sym e) here
  | no d ↦ below i (omega (arith, h, d))
]

tz_loop-IsFirst :
    (v width n left : ℕ)
    → n + left ≡ width
    → ((i : ℕ) → i < n → bit_at v i ≡ false)
    → IsFirst (bit_at v) width (tz_loop v n left)
unfolding tz_loop
tz_loop-IsFirst v width n zero e below = (inl (omega (arith, e)), below)
tz_loop-IsFirst v width n (suc left) e below =
    if_split (IsFirst (bit_at v) width) (bit_at v n) _ _ (λ b. (inr b, below))
      (λ b.
        tz_loop-IsFirst v width (n + 1) left (omega (arith, e))
          (extend (λ i. bit_at v i ≡ false) n below b))

lz_loop-IsFirst :
    (v width n left : ℕ)
    → n + left ≡ width
    → ((i : ℕ) → i < n → from_top v width i ≡ false)
    → IsFirst (from_top v width) width (lz_loop v width n left)
unfolding lz_loop
lz_loop-IsFirst v width n zero e below = (inl (omega (arith, e)), below)
lz_loop-IsFirst v width n (suc left) e below =
    if_split (IsFirst (from_top v width) width) (from_top v width n) _ _ (λ b. (inr b, below))
      (λ b.
        lz_loop-IsFirst v width (n + 1) left (omega (arith, e))
          (extend (λ i. from_top v width i ≡ false) n below b))

-- For a word other than 0 the bits below the count of `tzcount_u64` are clear and the count is
-- the width or that of a set bit, and so it is for `lzcount_u64` from the top of the width.
pub zcounts-IsFirst :
    (v width : ℕ)
    → 0 < v
    → IsFirst (bit_at v) width (tzcount_u64 v width)
      × IsFirst (from_top v width) width (lzcount_u64 v width)
unfolding tzcount_u64 lzcount_u64
zcounts-IsFirst v width h = (
  if_split (IsFirst (bit_at v) width) (v == 0) _ _ (λ z. absurd (ground (arith, z, h)))
      (λ z. tz_loop-IsFirst v width 0 width (omega arith) (λ i b. absurd (omega (arith, b)))),
  if_split (IsFirst (from_top v width) width) (v == 0) _ _ (λ z. absurd (ground (arith, z, h)))
      (λ z. lz_loop-IsFirst v width 0 width (omega arith) (λ i b. absurd (omega (arith, b)))),
)

popcount-zero : (w : ℕ) → popcount w 0 ≡ 0
popcount-zero zero = refl
popcount-zero (suc w) = omega (arith, popcount-zero w)

popcount_loop-popcount :
    (fuel n v : ℕ) → n + fuel < 256 → popcount_loop fuel n v ≡ n + popcount fuel v
unfolding popcount_loop
popcount_loop-popcount zero n v h = omega arith
popcount_loop-popcount (suc fuel) n v h =
    if_split (λ k. k ≡ n + popcount (suc fuel) v) (v == 0) _ _
      (λ z.
        let e : v ≡ 0 = ground (arith, z) in
        omega (arith, ap (popcount (suc fuel)) e, popcount-zero (suc fuel)))
      (λ z. omega (
        arith,
        h,
        bit_and_low 1 v,
        popcount_loop-popcount fuel (u8 (n + bit_and v 1)) (shr v 1)
            (omega (arith, h, bit_and_low 1 v)),
      ))

-- The count of the bits of a word.
pub popcount_u64-popcount : (v : ℕ) → popcount_u64 v ≡ popcount 64 v
unfolding popcount_u64
popcount_u64-popcount v = omega (arith, popcount_loop-popcount 64 0 v (omega arith))
