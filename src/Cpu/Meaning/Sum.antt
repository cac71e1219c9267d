-- ===== src/Cpu/Meaning/Sum.antt =====
-- ADD: the carry and the overflow flag tell whether the sum fits, unsigned and signed.
use pico_cpu.Prelude.{
  ℕ, ◌+◌, ◌*◌, ◌%◌, ◌^◌, ◌≤◌, ◌<◌, ◌≡◌, ◌⊎◌, ◌↔◌, ap, ap₂, ◌∙◌, bit_and, false, ◌&&◌, differ, arith,
  ltb, leb, sub64, add64, signed, ◌+ℤ◌,
}
use pico_cpu.Cpu.Widths.{mask_for, IsSize}
use pico_cpu.Cpu.Widths.Laws.{bit_and-mask_for, mask_idem, recover_add, by_size}
use pico_cpu.Cpu.Flags.{compute_add}
use pico_cpu.Cpu.Lazy.{LazyFlags, sync_flags, computed, stash_add, cf, of}
use pico_cpu.Cpu.Agreement.Sums.{sub64-zero, add64-zero}
use pico_cpu.Cpu.Meaning.Reads.{
  modulus, top, modulus-eq-top, overflow_test, masked-lt, word-cf, word-of,
}

-- The masked sum of two values below `m`.
abbrev Sum : ℕ → ℕ → ℕ → ℕ → Type 0
Sum m x y z = ((x + y < m) × (z ≡ x + y)) ⊎ ((m ≤ x + y) × (z + m ≡ x + y))

signed_fits :
    (h m x y z : ℕ)
    → m ≡ h + h
    → x < m
    → y < m
    → Sum m x y z
    → ((differ (leb h x) (leb h z) && differ (leb h y) (leb h z)) ≡ false)
      ↔ (signed h z ≡ (signed h x +ℤ signed h y))
signed_fits h m x y z e hx hy d = (ground arith, ground arith)

carry-Sum : (m x y z : ℕ) → x < m → y < m → Sum m x y z → ltb z y ≡ leb m (x + y)
carry-Sum m x y z hx hy d = ground arith

module _ (s a b : ℕ) (h : IsSize s) where
  abbrev x : ℕ
  x = bit_and a (mask_for s)

  abbrev y : ℕ
  y = bit_and b (mask_for s)

  abbrev r : ℕ
  r = bit_and (add64 a b) (mask_for s)

  sum : Sum (modulus s) x y r
  sum = simp (bit_and-mask_for _ s h) (
      by_size
        (λ s.
          Sum (2 ^ (s * 8)) (a % 2 ^ (s * 8)) (b % 2 ^ (s * 8)) ((a + b) % 2 ^ 64 % 2 ^ (s * 8)))
        (ground arith) (ground arith) (ground arith) (ground arith) s h)

  result : bit_and r (mask_for s) ≡ r
  result = mask_idem (add64 a b) s h

  recovered : bit_and (sub64 (bit_and r (mask_for s)) y) (mask_for s) ≡ x
  recovered =
      rw (← sub64-zero (bit_and r (mask_for s)) y, ← add64-zero a b)
        (recover_add a b 0 s (omega arith) h)

  module _ (c : LazyFlags) where
    abbrev after : LazyFlags
    after = stash_add s b r c

    -- After ADD, CF is set exactly if the sum of the masked operands does not fit the width, at
    -- a width of 1, 2, 4 or 8 bytes.
    pub cf-stash_add : cf after ≡ leb (modulus s) (x + y)
    unfolding cf sync_flags computed stash_add compute_add
    cf-stash_add =
        word-cf c.rflags s (bit_and r (mask_for s)) _ _ _
        ∙ ap (λ (t : ℕ). ltb t y) result
        ∙ carry-Sum (modulus s) x y r (masked-lt s h a) (masked-lt s h b) sum

    of_test :
        of after
        ≡ (differ (leb (top s) x) (leb (top s) r) && differ (leb (top s) y) (leb (top s) r))
    unfolding of sync_flags computed stash_add compute_add
    of_test =
        word-of c.rflags s (bit_and r (mask_for s)) _ _ _
        ∙ overflow_test s h _ _ y _ (masked-lt s h _) (masked-lt s h _) (masked-lt s h b)
            (masked-lt s h _)
        ∙ ap₂
            (λ (t u : ℕ).
              differ (leb (top s) t) (leb (top s) u) && differ (leb (top s) y) (leb (top s) u))
            recovered result

    -- After ADD, OF is clear exactly if the signed value of the result is the sum of the signed
    -- values of the operands, at a width of 1, 2, 4 or 8 bytes.
    pub of-stash_add :
        (of after ≡ false) ↔ (signed (top s) r ≡ (signed (top s) x +ℤ signed (top s) y))
    of-stash_add = rw of_test (
        signed_fits (top s) (modulus s) x y r (modulus-eq-top s h) (masked-lt s h a)
          (masked-lt s h b) sum)
