-- ===== src/Cpu/Parity/Popcount.antt =====
-- The table of `parity8` against the count of the set bits.
use pico_cpu.Prelude.{
  ℕ, zero, suc, ◌+◌, ◌%◌, ◌/◌, ◌<◌, ◌≡◌, refl, Bool, true, not, differ, ◌&&◌, ◌==◌, arith,
  Bool-cases, ==_iff, ap, ◌∙◌, inl, inr,
}
use pico_cpu.Cpu.Parity.{parity8}

-- The set bits among the low `w`.
abbrev pub popcount : ℕ → ℕ → ℕ
popcount zero v = 0
popcount (suc w) v = v % 2 + popcount w (v / 2)

abbrev agrees : ℕ → Bool
agrees v = not (differ (parity8 v) (popcount 8 v % 2 == 0))

-- A test of every number below `n`.
abbrev all_below : (ℕ → Bool) → ℕ → Bool
all_below p zero = true
all_below p (suc n) = p n && all_below p n

below : (p : ℕ → Bool) (n v : ℕ) → all_below p n ≡ true → v < n → p v ≡ true
below p zero v h k = absurd (omega arith)
below p (suc n) v h k = elim (Bool-cases (v == n)) [
  | inl e ↦ ap p ((==_iff v n).0 e) ∙ ground arith
  | inr e ↦ below p n v (ground arith) (ground arith)
]

-- The parity table marks exactly the bytes with an even number of set bits, for a byte below
-- 256.
pub parity8-popcount : (v : ℕ) → v < 256 → parity8 v ≡ (popcount 8 v % 2 == 0)
unfolding parity8
parity8-popcount v h = same (below agrees 256 v refl h)
  where
    same : {x y : Bool} → not (differ x y) ≡ true → x ≡ y
    same {x} {y} e = ground arith
