-- ===== src/Cpu/Widths/Laws.antt =====
-- The masks of the four widths as arithmetic, and the operands that the lazy flags recover.
use pico_cpu.Prelude.{
  ℕ, ◌+◌, ◌-◌, ◌*◌, ◌%◌, ◌^◌, ◌≤◌, ◌<◌, ◌≡◌, refl, ap, ◌∙◌, sym, ◌⊎◌, inl, inr, bit_and, Bool,
  nonzero, bit, to_bit, arith, add64, sub64, if◌then◌else◌, ltb, leb,
}
use native.Mathlib.Decide.{dec_lt}
use native.Mathlib.Nat.{mod-mod, mod-eq_of_lt, mod-eq-sub-mod}
use pico_cpu.Prelude.Bits.Masks.{bit_and_low, nonzero_single}
use pico_cpu.Cpu.Widths.{mask_for, sign_mask, IsSize}

-- One statement at each of the four widths.
pub by_size {ℓ} : (P : ℕ → Type ℓ) → P 1 → P 2 → P 4 → P 8 → (s : ℕ) → IsSize s → P s
by_size P p1 p2 p4 p8 s (inl e) = rw e p1
by_size P p1 p2 p4 p8 s (inr (inl e)) = rw e p2
by_size P p1 p2 p4 p8 s (inr (inr (inl e))) = rw e p4
by_size P p1 p2 p4 p8 s (inr (inr (inr e))) = rw e p8

pub mask_for-lt : (s : ℕ) → IsSize s → mask_for s < 2 ^ 64
unfolding mask_for
mask_for-lt =
    by_size (λ s. mask_for s < 2 ^ 64) (omega arith) (omega arith) (omega arith) (omega arith)

pub bit_and-mask_for : (x s : ℕ) → IsSize s → bit_and x (mask_for s) ≡ x % 2 ^ (s * 8)
unfolding mask_for
bit_and-mask_for x =
    by_size (λ s. bit_and x (mask_for s) ≡ x % 2 ^ (s * 8)) (bit_and_low 8 x) (bit_and_low 16 x)
      (bit_and_low 32 x) (bit_and_low 64 x)

pub sign_mask_lem : (s : ℕ) → IsSize s → sign_mask s ≡ 2 ^ (s * 8 - 1)
unfolding sign_mask
sign_mask_lem = by_size (λ s. sign_mask s ≡ 2 ^ (s * 8 - 1)) refl refl refl refl

-- `(x & sign_mask) != 0` reads the top bit.
pub nonzero-sign_mask : (x s : ℕ) → IsSize s → nonzero (bit_and x (sign_mask s)) ≡ bit x (s * 8 - 1)
nonzero-sign_mask x s h = rw (sign_mask_lem s h) (nonzero_single (s * 8 - 1) x)

-- Masking twice is masking once.
pub mask_idem :
    (x s : ℕ) → IsSize s → bit_and (bit_and x (mask_for s)) (mask_for s) ≡ bit_and x (mask_for s)
mask_idem x s h =
    bit_and-mask_for (bit_and x (mask_for s)) s h
    ∙ ap (λ (t : ℕ). t % 2 ^ (s * 8)) (bit_and-mask_for x s h)
    ∙ mod-mod x (2 ^ (s * 8))
    ∙ sym (bit_and-mask_for x s h)

-- The first operand of `r = (a + b + cin) & m` is `(r - b - cin) & m`.
pub recover_add :
    (a b cin s : ℕ)
    → cin < 2
    → IsSize s
    → bit_and
        (sub64
          (sub64
            (bit_and (bit_and (add64 (add64 a b) cin) (mask_for s)) (mask_for s))
            (bit_and b (mask_for s)))
          cin)
        (mask_for s)
      ≡ bit_and a (mask_for s)
recover_add a b cin s small h = simp (bit_and-mask_for _ s h) (
    by_size
      (λ s.
        ((((a + b) % 2 ^ 64 + cin) % 2 ^ 64 % 2 ^ (s * 8) % 2 ^ (s * 8) + 2 ^ 64 - b % 2 ^ (s * 8))
              % 2 ^ 64
            + 2 ^ 64
            - cin)
          % 2 ^ 64
          % 2 ^ (s * 8)
        ≡ a % 2 ^ (s * 8))
      (omega arith) (omega arith) (omega arith) (omega arith) s h)

-- The first operand of `r = (a - b - bin) & m` is `(r + b + bin) & m`.
pub recover_sub :
    (a b bin s : ℕ)
    → bin < 2
    → b < 2 ^ 64
    → IsSize s
    → bit_and
        (add64
          (add64
            (bit_and (bit_and (sub64 (sub64 a b) bin) (mask_for s)) (mask_for s))
            (bit_and b (mask_for s)))
          bin)
        (mask_for s)
      ≡ bit_and a (mask_for s)
recover_sub a b bin s small hb h = simp (bit_and-mask_for _ s h) (
    by_size
      (λ s.
        ((((a + 2 ^ 64 - b) % 2 ^ 64 + 2 ^ 64 - bin) % 2 ^ 64 % 2 ^ (s * 8) % 2 ^ (s * 8)
                + b % 2 ^ (s * 8))
              % 2 ^ 64
            + bin)
          % 2 ^ 64
          % 2 ^ (s * 8)
        ≡ a % 2 ^ (s * 8))
      (omega arith) (omega arith) (omega arith) (omega arith) s h)

wrap_once : (M z : ℕ) → z < M + M → ((z < M) × (z % M ≡ z)) ⊎ ((M ≤ z) × (z % M + M ≡ z))
wrap_once M z h = elim (dec_lt z M) [
  | yes p ↦ inl (p, mod-eq_of_lt p)
  | no p ↦
      let back : (z - M) % M ≡ z - M = mod-eq_of_lt (omega arith) in
      let less : z % M ≡ (z - M) % M = mod-eq-sub-mod (omega arith) in
      inr (omega arith, omega arith)
]

pub to_bit-lt : (b : Bool) → to_bit b < 2
to_bit-lt b = ground arith

-- `r < y`, or `r <= y` with a carry in, tells that `x + y + cin` does not fit.
pub carry_means :
    (M x y : ℕ) (cin : Bool)
    → x < M
    → y < M
    → (if cin then leb ((x + y + to_bit cin) % M) y else ltb ((x + y + to_bit cin) % M) y)
      ≡ leb M (x + y + to_bit cin)
carry_means M x y cin hx hy =
    ground (arith, wrap_once M (x + y + to_bit cin) (omega (arith, to_bit-lt cin)))

pub masked_sum :
    (a b cin s : ℕ)
    → IsSize s
    → bit_and (bit_and (add64 (add64 a b) cin) (mask_for s)) (mask_for s)
      ≡ (bit_and a (mask_for s) + bit_and b (mask_for s) + cin) % 2 ^ (s * 8)
masked_sum a b cin s h = simp (bit_and-mask_for _ s h) (
    by_size
      (λ s.
        ((a + b) % 2 ^ 64 + cin) % 2 ^ 64 % 2 ^ (s * 8) % 2 ^ (s * 8)
        ≡ (a % 2 ^ (s * 8) + b % 2 ^ (s * 8) + cin) % 2 ^ (s * 8))
      (omega arith) (omega arith) (omega arith) (omega arith) s h)

-- The operand of `r = (a + 1) & m` is `(r - 1) & m`, and of `r = (a - 1) & m` it is `(r + 1) & m`.
pub recover_inc :
    (a s : ℕ)
    → IsSize s
    → bit_and (sub64 (bit_and (bit_and (add64 a 1) (mask_for s)) (mask_for s)) 1) (mask_for s)
      ≡ bit_and a (mask_for s)
recover_inc a s h = simp (bit_and-mask_for _ s h) (
    by_size
      (λ s.
        ((a + 1) % 2 ^ 64 % 2 ^ (s * 8) % 2 ^ (s * 8) + 2 ^ 64 - 1) % 2 ^ 64 % 2 ^ (s * 8)
        ≡ a % 2 ^ (s * 8))
      (omega arith) (omega arith) (omega arith) (omega arith) s h)

pub recover_dec :
    (a s : ℕ)
    → IsSize s
    → bit_and (add64 (bit_and (bit_and (sub64 a 1) (mask_for s)) (mask_for s)) 1) (mask_for s)
      ≡ bit_and a (mask_for s)
recover_dec a s h = simp (bit_and-mask_for _ s h) (
    by_size
      (λ s.
        ((a + 2 ^ 64 - 1) % 2 ^ 64 % 2 ^ (s * 8) % 2 ^ (s * 8) + 1) % 2 ^ 64 % 2 ^ (s * 8)
        ≡ a % 2 ^ (s * 8))
      (omega arith) (omega arith) (omega arith) (omega arith) s h)
