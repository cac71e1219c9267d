-- ===== src/Cpu/Meaning/Compare.antt =====
-- SUB and CMP: the conditions decide the order of the operands, unsigned and signed.
use pico_cpu.Prelude.{
  ℕ, ◌+◌, ◌-◌, ◌*◌, ◌%◌, ◌^◌, ◌≤◌, ◌<◌, ◌≡◌, ◌⊎◌, ap, ap₂, ◌∙◌, bit_and, not, ◌&&◌, ◌||◌, differ,
  arith, ltb, leb, ◌==◌, sub64, add64, lt_ℤ, signed,
}
use pico_cpu.Cpu.Widths.{mask_for, IsSize}
use pico_cpu.Cpu.Widths.Laws.{bit_and-mask_for, mask_idem, recover_sub, by_size}
use pico_cpu.Cpu.Flags.{compute_sub}
use pico_cpu.Cpu.Lazy.{LazyFlags, sync_flags, computed, stash_sub, cf, zf, sf, of}
use pico_cpu.Cpu.Cond.{Cc, cond_holds}
use pico_cpu.Cpu.Agreement.Sums.{sub64-zero, add64-zero}
use pico_cpu.Cpu.Meaning.Reads.{
  modulus, top, modulus-eq-top, sign_test, overflow_test, masked-lt, word-cf, word-of, word-zf,
  word-sf,
}

-- The masked difference of two values below `m`.
abbrev Difference : ℕ → ℕ → ℕ → ℕ → Type 0
Difference m x y z = ((y ≤ x) × (z + y ≡ x)) ⊎ ((x < y) × (z + y ≡ x + m))

signed_less :
    (h m x y z : ℕ)
    → m ≡ h + h
    → x < m
    → y < m
    → Difference m x y z
    → differ (leb h z) (differ (leb h x) (leb h y) && differ (leb h x) (leb h z))
      ≡ lt_ℤ (signed h x) (signed h y)
signed_less h m x y z e hx hy d = ground arith

same_zero : (m x y z : ℕ) → x < m → y < m → Difference m x y z → (z == 0) ≡ (x == y)
same_zero m x y z hx hy d = ground arith

not_less : (x y : ℕ) → not (ltb x y) ≡ leb y x
not_less x y = ground arith

less_or_same : (x y : ℕ) → (ltb x y || (x == y)) ≡ leb x y
less_or_same x y = ground arith

neither : (x y : ℕ) → (not (ltb x y) && not (x == y)) ≡ ltb y x
neither x y = ground arith

signed_le :
    (h x y : ℕ)
    → x < h + h
    → y < h + h
    → ((x == y) || lt_ℤ (signed h x) (signed h y)) ≡ not (lt_ℤ (signed h y) (signed h x))
signed_le h x y hx hy = ground arith

signed_gt :
    (h x y : ℕ)
    → x < h + h
    → y < h + h
    → (not (x == y) && not (lt_ℤ (signed h x) (signed h y))) ≡ lt_ℤ (signed h y) (signed h x)
signed_gt h x y hx hy = ground arith

module _ (s a b : ℕ) (h : IsSize s) (hb : b < 2 ^ 64) where
  abbrev x : ℕ
  x = bit_and a (mask_for s)

  abbrev y : ℕ
  y = bit_and b (mask_for s)

  abbrev r : ℕ
  r = bit_and (sub64 a b) (mask_for s)

  difference : Difference (modulus s) x y r
  difference = simp (bit_and-mask_for _ s h) (
      by_size
        (λ s.
          Difference (2 ^ (s * 8)) (a % 2 ^ (s * 8)) (b % 2 ^ (s * 8))
            ((a + 2 ^ 64 - b) % 2 ^ 64 % 2 ^ (s * 8)))
        (ground arith) (ground arith) (ground arith) (ground arith) s h)

  recovered : bit_and (add64 (bit_and r (mask_for s)) y) (mask_for s) ≡ x
  recovered =
      rw (← add64-zero (bit_and r (mask_for s)) y, ← sub64-zero a b)
        (recover_sub a b 0 s (omega arith) hb h)

  result : bit_and r (mask_for s) ≡ r
  result = mask_idem (sub64 a b) s h

  below : (v : ℕ) → bit_and v (mask_for s) < top s + top s
  below v = rw (← modulus-eq-top s h) (masked-lt s h v)

  module _ (c : LazyFlags) where
    abbrev after : LazyFlags
    after = stash_sub s b r c

    pub cf-stash_sub : cf after ≡ ltb x y
    unfolding cf sync_flags computed stash_sub compute_sub
    cf-stash_sub =
        word-cf c.rflags s (bit_and r (mask_for s)) _ _ _ ∙ ap (λ (t : ℕ). ltb t y) recovered

    pub zf-stash_sub : zf after ≡ (x == y)
    unfolding zf sync_flags computed stash_sub compute_sub
    zf-stash_sub =
        word-zf c.rflags s (bit_and r (mask_for s)) _ _ _
        ∙ ap (λ (t : ℕ). t == 0) (mask_idem r s h ∙ result)
        ∙ same_zero (modulus s) x y r (masked-lt s h a) (masked-lt s h b) difference

    sf-stash_sub : sf after ≡ leb (top s) r
    unfolding sf sync_flags computed stash_sub compute_sub
    sf-stash_sub =
        word-sf c.rflags s (bit_and r (mask_for s)) _ _ _
        ∙ sign_test s h _ (masked-lt s h _)
        ∙ ap (leb (top s)) (mask_idem r s h ∙ result)

    of-stash_sub :
        of after
        ≡ (differ (leb (top s) x) (leb (top s) y) && differ (leb (top s) x) (leb (top s) r))
    unfolding of sync_flags computed stash_sub compute_sub
    of-stash_sub =
        word-of c.rflags s (bit_and r (mask_for s)) _ _ _
        ∙ overflow_test s h _ y _ _ (masked-lt s h _) (masked-lt s h b) (masked-lt s h _)
            (masked-lt s h r)
        ∙ ap₂
            (λ (t u : ℕ).
              differ (leb (top s) t) (leb (top s) y) && differ (leb (top s) t) (leb (top s) u))
            recovered result

    signed_test : differ (sf after) (of after) ≡ lt_ℤ (signed (top s) x) (signed (top s) y)
    signed_test =
        ap₂ differ sf-stash_sub of-stash_sub
        ∙ signed_less (top s) (modulus s) x y r (modulus-eq-top s h) (masked-lt s h a)
            (masked-lt s h b) difference

    -- After CMP or SUB at a width of 1, 2, 4 or 8 bytes the conditions B, NB, BE, NBE, Z, NZ, L,
    -- NL, LE and NLE decide the unsigned and the signed order of the masked operands, in every
    -- earlier state of the flags, for a second operand below 2^64.
    pub cond_holds-stash_sub :
        (cond_holds Cc.b after ≡ ltb x y)
        × (cond_holds Cc.nb after ≡ leb y x)
        × (cond_holds Cc.be after ≡ leb x y)
        × (cond_holds Cc.nbe after ≡ ltb y x)
        × (cond_holds Cc.z after ≡ (x == y))
        × (cond_holds Cc.nz after ≡ not (x == y))
        × (cond_holds Cc.l after ≡ lt_ℤ (signed (top s) x) (signed (top s) y))
        × (cond_holds Cc.nl after ≡ not (lt_ℤ (signed (top s) x) (signed (top s) y)))
        × (cond_holds Cc.le after ≡ not (lt_ℤ (signed (top s) y) (signed (top s) x)))
        × (cond_holds Cc.nle after ≡ lt_ℤ (signed (top s) y) (signed (top s) x))
    unfolding cond_holds
    cond_holds-stash_sub = (
      cf-stash_sub,
      ap not cf-stash_sub ∙ not_less x y,
      ap₂ ◌||◌ cf-stash_sub zf-stash_sub ∙ less_or_same x y,
      ap₂ (λ t u. not t && not u) cf-stash_sub zf-stash_sub ∙ neither x y,
      zf-stash_sub,
      ap not zf-stash_sub,
      signed_test,
      ap not signed_test,
      ap₂ ◌||◌ zf-stash_sub signed_test ∙ signed_le (top s) x y (below a) (below b),
      ap₂ (λ t u. not t && not u) zf-stash_sub signed_test
          ∙ signed_gt (top s) x y (below a) (below b),
    )
