-- ===== src/Prelude/Tests.antt =====
-- Boolean tests on the native numbers, and the conditional.
use Prim.Native.Nat.{ℕ, ◌<◌, compare, Ordering}
use mathlib.Core.Path.{◌≡◌, refl}
use mathlib.Core.Logic.{◌⊎◌, ◌↔◌, inl, inr}
use mathlib.Core.Bool.{Bool, true, false}
use mathlib.Core.Option.{Option, none, some}
use native.Mathlib.Omega.{arith}

abbrev pub ltb : ℕ → ℕ → Bool
ltb a b = elim (compare a b) [ Ordering.lt ↦ true | _ ↦ false ]

abbrev pub leb : ℕ → ℕ → Bool
leb a b = elim (compare a b) [ Ordering.gt ↦ false | _ ↦ true ]

infix 50 ◌==◌
abbrev pub ◌==◌ : ℕ → ℕ → Bool
a == b = elim (compare a b) [ Ordering.eq ↦ true | _ ↦ false ]

infix 1 if◌then◌else◌
abbrev pub if◌then◌else◌ {ℓ} : {A : Type ℓ} → Bool → A → A → A
if true then x else y = x
if false then x else y = y

-- `!=` on Booleans.
abbrev pub differ : Bool → Bool → Bool
differ true true = false
differ true false = true
differ false true = true
differ false false = false

-- A number in the place of a condition.
abbrev pub nonzero : ℕ → Bool
nonzero n = if n == 0 then false else true

-- `b ? 1 : 0`.
abbrev pub to_bit : Bool → ℕ
to_bit true = 1
to_bit false = 0

pub lt→ltb : (a b : ℕ) → a < b → ltb a b ≡ true
lt→ltb a b h = ground arith

pub ltb→lt : (a b : ℕ) → ltb a b ≡ true → a < b
ltb→lt a b h = ground arith

pub ==_iff : (a b : ℕ) → ((a == b) ≡ true) ↔ (a ≡ b)
==_iff a b = ground arith

-- To split on a computed value and keep the equation.
pub Bool-cases : (b : Bool) → (b ≡ true) ⊎ (b ≡ false)
Bool-cases true = inl refl
Bool-cases false = inr refl

pub Option-cases {ℓ} : {A : Type ℓ} (o : Option A) → (o ≡ none) ⊎ ((a : A) × (o ≡ some a))
Option-cases none = inl refl
Option-cases (some a) = inr (a, refl)

-- A property of a conditional, from its branches.
pub if_split {ℓ κ} :
    {A : Type ℓ} (P : A → Type κ) (t : Bool) (a b : A)
    → (t ≡ true → P a)
    → (t ≡ false → P b)
    → P (if t then a else b)
if_split P true a b on_true on_false = on_true refl
if_split P false a b on_true on_false = on_false refl

pub if_then {ℓ κ} :
    {A : Type ℓ} (P : A → Type κ) (t : Bool) (a b : A) → t ≡ true → P a → P (if t then a else b)
if_then P true a b e p = p
if_then P false a b e p = absurd (cc)

pub if_else {ℓ κ} :
    {A : Type ℓ} (P : A → Type κ) (t : Bool) (a b : A) → t ≡ false → P b → P (if t then a else b)
if_else P true a b e p = absurd (cc)
if_else P false a b e p = p
