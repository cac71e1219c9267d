-- ===== src/Memory/Provider/Contract.antt =====
-- src/emu/include/emu/memory.h: what the layers of memory rely on, over the bytes that a provider
-- shows. The comment there promises that a failed read leaves the buffer alone. The layers store the
-- bytes before the failure, and so the contract allows a prefix of the right bytes.
use pico_cpu.Prelude.{
  ℕ, zero, suc, ◌+◌, ◌-◌, ◌^◌, ◌≤◌, ◌<◌, ◌≡◌, refl, ap, ap₂, fun_ext, ◌∙◌, ◌⊎◌, inl, inr, sym,
  add64, ◌&&◌, true, List, [], ◌∷◌, ◌++◌, leb, ltb, if◌then◌else◌, length, arith,
}
use native.Mathlib.Decide.{dec_lt}
use pico_cpu.Error.{Status, fail}
use pico_cpu.Memory.Provider.{Provider, ReadResult}

-- `n` bytes from `a`.
unfoldable pub window : (ℕ → ℕ) → ℕ → ℕ → List ℕ
window f a zero = []
window f a (suc n) = f a ∷ window f (a + 1) n

-- The byte at an index of a buffer.
unfoldable pub at : List ℕ → ℕ → ℕ
at [] i = 0
at (b ∷ bs) zero = b
at (b ∷ bs) (suc i) = at bs i

unfoldable pub take : ℕ → List ℕ → List ℕ
take zero bs = []
take (suc n) [] = []
take (suc n) (b ∷ bs) = b ∷ take n bs

unfoldable pub drop : ℕ → List ℕ → List ℕ
drop zero bs = bs
drop (suc n) [] = []
drop (suc n) (b ∷ bs) = drop n bs

-- `memcpy` of a buffer to `a`.
unfoldable pub patch : (ℕ → ℕ) → ℕ → List ℕ → ℕ → ℕ
patch f a bs x = if leb a x && ltb x (a + length bs) then at bs (x - a) else f x

pub window-append :
    (f : ℕ → ℕ) (a m n : ℕ) → window f a m ++ window f (a + m) n ≡ window f a (m + n)
unfolding window
window-append f a zero n = ap₂ (window f) (omega arith) (omega arith)
window-append f a (suc m) n =
    let e : a + 1 + m ≡ a + suc m = omega arith in
    let e' : suc m + n ≡ suc (m + n) = omega arith in
    rw e' (ap (λ t. f a ∷ t) (rw (← e) (window-append f (a + 1) m n)))

pub window_ext :
    (f g : ℕ → ℕ) (a b n : ℕ)
    → ((i : ℕ) → i < n → f (a + i) ≡ g (b + i))
    → window f a n ≡ window g b n
unfolding window
window_ext f g a b zero h = refl
window_ext f g a b (suc n) h = ap₂ ◌∷◌ (at_start (h 0 (omega arith))) (
    window_ext f g (a + 1) (b + 1) n λ i lt.
      let e : a + 1 + i ≡ a + suc i = omega arith in
      let e' : b + 1 + i ≡ b + suc i = omega arith in rw (e, e') (h (suc i) (omega arith)))
  where
    at_start : f (a + 0) ≡ g (b + 0) → f a ≡ g b
    at_start k = ap f (omega arith) ∙ k ∙ ap g (omega arith)

pub at-window : (f : ℕ → ℕ) (a n i : ℕ) → i < n → at (window f a n) i ≡ f (a + i)
unfolding window at
at-window f a zero i h = absurd (omega arith)
at-window f a (suc n) zero h = ap f (omega arith)
at-window f a (suc n) (suc i) h =
    let e : a + 1 + i ≡ a + suc i = omega arith in rw (← e) (at-window f (a + 1) n i (omega arith))

pub length-window : (f : ℕ → ℕ) (a n : ℕ) → length (window f a n) ≡ n
unfolding window
length-window f a zero = refl
length-window f a (suc n) = omega (arith, length-window f (a + 1) n)

pub length-take : (n : ℕ) (bs : List ℕ) → n ≤ length bs → length (take n bs) ≡ n
unfolding take
length-take zero bs h = refl
length-take (suc n) [] h = absurd (omega arith)
length-take (suc n) (b ∷ bs) h = omega (arith, length-take n bs (omega arith))

pub length-drop : (n : ℕ) (bs : List ℕ) → length (drop n bs) ≡ length bs - n
unfolding drop
length-drop zero bs = omega arith
length-drop (suc n) [] = omega arith
length-drop (suc n) (b ∷ bs) = omega (arith, length-drop n bs)

pub at-take : (n i : ℕ) (bs : List ℕ) → i < n → at (take n bs) i ≡ at bs i
unfolding take at
at-take zero i bs h = absurd (omega arith)
at-take (suc n) i [] h = refl
at-take (suc n) zero (b ∷ bs) h = refl
at-take (suc n) (suc i) (b ∷ bs) h = at-take n i bs (omega arith)

pub at-drop : (n i : ℕ) (bs : List ℕ) → at (drop n bs) i ≡ at bs (n + i)
unfolding drop at
at-drop zero i bs = ap (at bs) (omega arith)
at-drop (suc n) i [] = refl
at-drop (suc n) i (b ∷ bs) = let e : suc n + i ≡ suc (n + i) = omega arith in rw e (at-drop n i bs)

pub patch_inside :
    (f : ℕ → ℕ) (a : ℕ) (bs : List ℕ) (i : ℕ) → i < length bs → patch f a bs (a + i) ≡ at bs i
unfolding patch
patch_inside f a bs i h =
    let e : leb a (a + i) ≡ true = ground arith in
    let e' : ltb (a + i) (a + length bs) ≡ true = ground arith in
    let e'' : a + i - a ≡ i = omega arith in rw (e, e', e'') refl

pub patch_outside :
    (f : ℕ → ℕ) (a : ℕ) (bs : List ℕ) (x : ℕ) → (x < a) ⊎ (a + length bs ≤ x) → patch f a bs x ≡ f x
unfolding patch
patch_outside f a bs x h = ground arith

-- The interface: in a state that satisfies `IsOk`, a read that succeeds gives the bytes of the view,
-- one that fails leaves a prefix of them in the buffer, a write that succeeds patches them, and
-- nothing else changes them. No access wraps around the end of the address space.
module _ {S : Type 0} (IsOk : S → Type 0) (view : S → ℕ → ℕ) where
  abbrev pub GoodRead : ℕ → ℕ → S → ReadResult × S → Type 0
  GoodRead a n s (ReadResult.bytes bs, s') =
      (bs ≡ window (view s) a n) × IsOk s' × (view s' ≡ view s)
  GoodRead a n s (ReadResult.failed st out, s') =
      (out ≡ window (view s) a (length out)) × (length out ≤ n) × IsOk s' × (view s' ≡ view s)

  abbrev pub GoodWrite : ℕ → List ℕ → S → Status × S → Type 0
  GoodWrite a bs s (st, s') =
      IsOk s' × (view s' ≡ (if fail st then view s else patch (view s) a bs))

  pub record Serves (p : Provider S) : Type 0 where
    pub read_good : (a n : ℕ) (s : S) → IsOk s → a + n ≤ 2 ^ 64 → GoodRead a n s (p.read a n s)
    pub write_good :
        (a : ℕ) (bs : List ℕ) (s : S)
        → IsOk s
        → a + length bs ≤ 2 ^ 64
        → GoodWrite a bs s (p.write a bs s)

  -- An access of no byte.
  pub empty_read : (a n : ℕ) (s : S) → n ≡ 0 → IsOk s → GoodRead a n s (ReadResult.bytes [], s)
  unfolding window
  empty_read a zero s e okay = (refl, okay, refl)
  empty_read a (suc n) s e okay = absurd (omega arith)

  pub empty_write :
      (a : ℕ) (bs : List ℕ) (s : S) → length bs ≡ 0 → IsOk s → GoodWrite a bs s (Status.ok, s)
  unfolding patch
  empty_write a [] s e okay = (okay, fun_ext λ x. ground arith)
  empty_write a (b ∷ bs) s e okay = absurd (omega arith)

-- Two writes in a row.
pub patch-patch :
    (f : ℕ → ℕ) (a n : ℕ) (bs : List ℕ)
    → n ≤ length bs
    → patch (patch f a (take n bs)) (a + n) (drop n bs) ≡ patch f a bs
patch-patch f a n bs small = fun_ext λ x. elim (dec_lt x a) [
  | yes p ↦
      patch_outside (patch f a (take n bs)) (a + n) (drop n bs) x (inl (omega arith))
      ∙ patch_outside f a (take n bs) x (inl p)
      ∙ sym (patch_outside f a bs x (inl p))
  | no p ↦ elim (dec_lt x (a + length bs)) [
    | no q ↦
        patch_outside (patch f a (take n bs)) (a + n) (drop n bs) x
          (inr (omega (arith, length-drop n bs)))
        ∙ patch_outside f a (take n bs) x (inr (omega (arith, length-take n bs small)))
        ∙ sym (patch_outside f a bs x (inr (omega arith)))
    | yes q ↦ elim (dec_lt x (a + n)) [
      | yes r ↦
          patch_outside (patch f a (take n bs)) (a + n) (drop n bs) x (inl r)
          ∙ within (take n bs) x (omega arith) (omega (arith, length-take n bs small))
          ∙ at-take n (x - a) bs (omega arith)
          ∙ sym (within bs x (omega arith) q)
      | no r ↦
          ap (patch (patch f a (take n bs)) (a + n) (drop n bs)) (omega arith)
          ∙ patch_inside (patch f a (take n bs)) (a + n) (drop n bs) (x - (a + n))
              (omega (arith, length-drop n bs))
          ∙ at-drop n (x - (a + n)) bs
          ∙ ap (at bs) (omega arith)
          ∙ sym (within bs x (omega arith) q)
    ]
  ]
]
  where
    within : (cs : List ℕ) (x : ℕ) → a ≤ x → x < a + length cs → patch f a cs x ≡ at cs (x - a)
    within cs x lo hi = ap (patch f a cs) (omega arith) ∙ patch_inside f a cs (x - a) (omega arith)

-- The address wraps only where nothing is left.
pub patch_wrap :
    (f : ℕ → ℕ) (cur n : ℕ) (bs : List ℕ)
    → cur + n + length bs ≤ 2 ^ 64
    → patch f (add64 cur n) bs ≡ patch f (cur + n) bs
patch_wrap f cur n [] fits = fun_ext λ x.
    patch_outside f (add64 cur n) [] x (nowhere (add64 cur n) x)
    ∙ sym (patch_outside f (cur + n) [] x (nowhere (cur + n) x))
  where
    nowhere : (a x : ℕ) → (x < a) ⊎ (a + 0 ≤ x)
    nowhere a x = elim (dec_lt x a) [ yes p ↦ inl p | no p ↦ inr (omega arith) ]
patch_wrap f cur n (b ∷ bs) fits = ap (λ a. patch f a (b ∷ bs)) (omega arith)
