-- ===== src/Prelude/Bits/Masks.antt =====
-- Single bits, low masks, complements, and equality of words bit by bit.
use Prim.Native.Nat.{
  ℕ, zero, suc, ◌+◌, ◌-◌, ◌*◌, ◌/◌, ◌%◌, ◌^◌, ◌≤◌, ◌<◌, min, bit_and, bit_or, bit_and-bitwise,
}
use mathlib.Core.Path.{◌≡◌, refl, sym, ◌∙◌, ap, ap₂}
use mathlib.Core.Bool.{false, not}
use native.Mathlib.Nat.{
  pow-suc, mul_comm, div-div-eq-div-mul, one-le-pow, mod-add-div', div-lt_iff_lt-mul, div-eq_of_lt,
}
use native.Mathlib.Omega.{arith}
use pico_cpu.Prelude.Tests.{◌==◌, nonzero}
use pico_cpu.Prelude.Words.{bit, not64}
use pico_cpu.Prelude.Bits.Step.{bit_and_step}
use pico_cpu.Prelude.Bits.Digits.{bit_or_shift, bit_and_shift}

pub div_suc : (x k : ℕ) → x / 2 ^ suc k ≡ x / 2 / 2 ^ k
div_suc x k =
    ap (λ (t : ℕ). x / t) (pow-suc 2 k ∙ mul_comm (2 ^ k) 2) ∙ sym (div-div-eq-div-mul x 2 (2 ^ k))

pub bit-suc : (x k : ℕ) → bit x (suc k) ≡ bit (x / 2) k
bit-suc x k = ap (λ (t : ℕ). t % 2 == 1) (div_suc x k)

zero_div : (k : ℕ) → 0 / 2 ^ k ≡ 0
zero_div zero = refl
zero_div (suc k) = div_suc 0 k ∙ zero_div k

pub bit-zero : (k : ℕ) → bit 0 k ≡ false
bit-zero k = ap (λ (t : ℕ). t % 2 == 1) (zero_div k)

pub bit_low : (x : ℕ) → bit x 0 ≡ (x % 2 == 1)
bit_low x = ap (λ (t : ℕ). t % 2 == 1) (over_one x)
  where
    over_one : (x : ℕ) → x / 2 ^ 0 ≡ x
    over_one x = omega arith

-- `1 << j` has bit `j` and no other.
pub bit_two_pow : (j k : ℕ) → bit (2 ^ j) k ≡ (k == j)
bit_two_pow zero zero = refl
bit_two_pow zero (suc k) = bit-suc 1 k ∙ bit-zero k ∙ differs k
  where
    differs : (k : ℕ) → false ≡ (suc k == 0)
    differs k = ground arith
bit_two_pow (suc j) zero = bit_low (2 ^ suc j) ∙ even
  where
    even : (2 ^ suc j % 2 == 1) ≡ (0 == suc j)
    even = ground (arith, pow-suc 2 j)
bit_two_pow (suc j) (suc k) =
    bit-suc (2 ^ suc j) k ∙ ap (λ (t : ℕ). bit t k) halves ∙ bit_two_pow j k ∙ shifted
  where
    halves : 2 ^ suc j / 2 ≡ 2 ^ j
    halves = omega (arith, pow-suc 2 j)

    shifted : (k == j) ≡ (suc k == suc j)
    shifted = ground arith

nothing_left : (x n : ℕ) → x ≤ n → bit_and x 0 ≡ 0
nothing_left zero n h = refl
nothing_left (suc x) zero h = absurd (omega arith)
nothing_left (suc x) (suc n) h =
    let ih = nothing_left (suc x / 2) n (omega arith) in omega (arith, bit_and_step (suc x) 0)

pub bit_and-zero : (x : ℕ) → bit_and x 0 ≡ 0
bit_and-zero x = nothing_left x x (omega arith)

-- `x & (1 << k)` keeps bit `k` in its place.
pub bit_and_single : (k x : ℕ) → bit_and x (2 ^ k) ≡ x / 2 ^ k % 2 * 2 ^ k
bit_and_single zero x = omega (arith, bit_and_step x 1, bit_and-zero (x / 2))
bit_and_single (suc k) x =
    bit_and_step x (2 ^ suc k)
    ∙ shifted (2 ^ suc k) (pow-suc 2 k)
    ∙ ap (λ (t : ℕ). t * 2) (bit_and_single k (x / 2))
    ∙ regroup (x / 2 / 2 ^ k % 2) (x / 2 ^ suc k % 2) (2 ^ suc k)
        (ap (λ (t : ℕ). t % 2) (sym (div_suc x k))) (pow-suc 2 k)
  where
    shifted :
        (m : ℕ)
        → m ≡ 2 ^ k * 2
        → bit_and (x / 2) (m / 2) * 2 + min (x % 2) (m % 2) ≡ bit_and (x / 2) (2 ^ k) * 2
    shifted m e =
        let h : m / 2 ≡ 2 ^ k = omega arith in
        let p : m % 2 ≡ 0 = omega arith in omega (arith, ap (λ (t : ℕ). bit_and (x / 2) t) h)

    regroup : (d e m : ℕ) → d ≡ e → m ≡ 2 ^ k * 2 → d * 2 ^ k * 2 ≡ e * m
    regroup d e m p q = rw (← p, q) (omega arith)

-- `(x & (1 << k)) != 0` asks for bit `k`.
pub nonzero_single : (k x : ℕ) → nonzero (bit_and x (2 ^ k)) ≡ bit x k
nonzero_single k x = rw bit_and_single (digit (x / 2 ^ k % 2) (omega arith))
  where
    digit : (d : ℕ) → d < 2 → nonzero (d * 2 ^ k) ≡ (d == 1)
    digit zero h = ground arith
    digit (suc zero) h = ground (arith, one-le-pow k 2)
    digit (suc (suc d)) h = absurd (omega arith)

-- `x & ((1 << k) - 1)` is the remainder by `2 ^ k`.
pub bit_and_low : (k x : ℕ) → bit_and x (2 ^ k - 1) ≡ x % 2 ^ k
bit_and_low zero x = bit_and-zero x ∙ over_one
  where
    over_one : 0 ≡ x % 2 ^ 0
    over_one = omega arith
bit_and_low (suc k) x =
    bit_and_step x (2 ^ suc k - 1)
    ∙ split (2 ^ suc k) (2 ^ k) (x / 2 % 2 ^ k) (pow-suc 2 k) (one-le-pow k 2)
        (bit_and_low k (x / 2))
    ∙ glue (2 ^ suc k) (2 ^ k) (pow-suc 2 k) (one-le-pow k 2)
  where
    split :
        (m n r : ℕ)
        → m ≡ n * 2
        → (0 < 2 → 1 ≤ n)
        → bit_and (x / 2) (n - 1) ≡ r
        → bit_and (x / 2) ((m - 1) / 2) * 2 + min (x % 2) ((m - 1) % 2) ≡ r * 2 + x % 2
    split m n r e pos ih =
        let h : (m - 1) / 2 ≡ n - 1 = omega (arith, pos (omega arith)) in
        omega (arith, pos (omega arith), ih, ap (λ (t : ℕ). bit_and (x / 2) t) h)

    glue : (m n : ℕ) → m ≡ n * 2 → (0 < 2 → 1 ≤ n) → x / 2 % n * 2 + x % 2 ≡ x % m
    glue m n e pos =
        let same : x / (n * 2) ≡ x / 2 / n =
          ap (λ (t : ℕ). x / t) (mul_comm n 2) ∙ sym (div-div-eq-div-mul x 2 n) in
        rw e (
          omega (arith, ap (λ (t : ℕ). t * n) same, mod-add-div' x (n * 2), mod-add-div' (x / 2) n))

-- `~m` flips each of the 64 bits.
flips : (w k m n : ℕ) → m + n + 1 ≡ 2 ^ w → k < w → bit n k ≡ not (bit m k)
flips zero k m n e h = absurd (omega arith)
flips (suc w) zero m n e h = rw (bit_low m, bit_low n) (ground (arith, pow-suc 2 w))
flips (suc w) (suc k) m n e h =
    bit-suc n k
    ∙ flips w k (m / 2) (n / 2) (omega (arith, pow-suc 2 w)) (omega arith)
    ∙ ap not (sym (bit-suc m k))

pub bit-not64 : (m k : ℕ) → m < 2 ^ 64 → k < 64 → bit (not64 m) k ≡ not (bit m k)
bit-not64 m k hm hk = flips 64 k m (not64 m) (omega arith) hk

-- Words that agree on every bit are equal.
pub bits_ext : (w x y : ℕ) → x < 2 ^ w → y < 2 ^ w → ((k : ℕ) → k < w → bit x k ≡ bit y k) → x ≡ y
bits_ext zero x y hx hy h = omega arith
bits_ext (suc w) x y hx hy h =
    let low : (x % 2 == 1) ≡ (y % 2 == 1) = sym (bit_low x) ∙ h 0 (omega arith) ∙ bit_low y in
    let high : x / 2 ≡ y / 2 =
      bits_ext w (x / 2) (y / 2) (omega (arith, pow-suc 2 w)) (omega (arith, pow-suc 2 w))
        (λ k hk. sym (bit-suc x k) ∙ h (suc k) (omega arith) ∙ bit-suc y k) in
    ground arith

of_zero_div : (k z : ℕ) → z / 2 ^ k ≡ 0 → z < 2 ^ k
of_zero_div k z h =
    let below : z < 1 * 2 ^ k =
      (div-lt_iff_lt-mul (one-le-pow k 2 (omega arith))).0 (omega (arith, h)) in
    omega arith

pub bit_or-lt : (k x y : ℕ) → x < 2 ^ k → y < 2 ^ k → bit_or x y < 2 ^ k
bit_or-lt k x y hx hy =
    of_zero_div k (bit_or x y) (bit_or_shift k x y ∙ ap₂ bit_or (div-eq_of_lt hx) (div-eq_of_lt hy))

pub bit_and-lt : (k x y : ℕ) → x < 2 ^ k → bit_and x y < 2 ^ k
bit_and-lt k x y hx = of_zero_div k (bit_and x y) (
    bit_and_shift k x y
    ∙ ap (λ (t : ℕ). bit_and t (y / 2 ^ k)) (div-eq_of_lt hx)
    ∙ bit_and-bitwise 0 (y / 2 ^ k))

pub bit_and-lt_right : (k x y : ℕ) → y < 2 ^ k → bit_and x y < 2 ^ k
bit_and-lt_right k x y hy = of_zero_div k (bit_and x y) (
    bit_and_shift k x y
    ∙ ap (λ (t : ℕ). bit_and (x / 2 ^ k) t) (div-eq_of_lt hy)
    ∙ bit_and-zero (x / 2 ^ k))
