-- ===== src/Memory/StubHeap/Alloc.antt =====
-- An allocation from the stub heap.
use pico_cpu.Prelude.{
  ℕ, ◌+◌, ◌-◌, ◌^◌, ◌<◌, ◌≤◌, ◌≡◌, sym, subst, true, false, ◌||◌, List, [], ◌∷◌, Option, none, some,
  ◌==◌, arith, if_split, sub64, ◌*◌, ◌/◌, ◌%◌,
}
use pico_cpu.Memory.StubHeap.{Block, StubHeap, place, split, skips, passed}
use pico_cpu.Memory.StubHeap.Tiling.{Tiles, within, owned, IsValid, Tiles-le, owned-below}

-- No block is free and large enough.
abbrev pub NoneFits : ℕ → List Block → Type 0
NoneFits n [] = Unit {0}
NoneFits n (b ∷ bs) = (skips n b ≡ true) × NoneFits n bs

-- The new blocks tile the region, the block given out lies in it and had no byte given out, and
-- its bytes are given out besides those from before.
abbrev pub IsPlaced : ℕ → ℕ → List Block → ℕ → Option (ℕ × List Block) → Type 0
IsPlaced n a bs e none = NoneFits n bs
IsPlaced n a bs e (some (p, bs')) =
    Tiles a bs' e
    × (a ≤ p)
    × (p + n ≤ e)
    × ((x : ℕ) → owned bs' x ≡ (owned bs x || within p n x))
    × ((x : ℕ) → within p n x ≡ true → owned bs x ≡ false)

split-IsPlaced :
    (n a : ℕ) (b : Block) (bs : List Block) (e : ℕ)
    → Tiles a (b ∷ bs) e
    → 0 < n
    → e < 2 ^ 64
    → skips n b ≡ false
    → IsPlaced n a (b ∷ bs) e (some (b.addr, split n b bs))
unfolding split
split-IsPlaced n a b bs e (at, positive, t) pos bound fits =
    let top : a + b.size ≤ e = Tiles-le (a + b.size) bs e t in
    let is_free : b.is_free ≡ true = ground (arith, fits) in
    let large : n ≤ b.size = ground (arith, fits) in
    let clear = λ (x : ℕ) (w : within b.addr n x ≡ true).
      let low : x < a + b.size = ground (arith, w, at, large) in
      let rest : owned bs x ≡ false = owned-below (a + b.size) bs e x t low in
      let all : owned (b ∷ bs) x ≡ false = ground (arith, rest, is_free) in all in
    if_split (λ (l : List Block). IsPlaced n a (b ∷ bs) e (some (b.addr, l))) (b.size == n) _ _
      (λ q.
        let exact : b.size ≡ n = ground (arith, q) in
        (
          (at, positive, t),
          omega (arith, at),
          omega (arith, at, top, large),
          (λ x. ground (arith, exact, is_free)),
          clear,
        ))
      (λ q.
        let more : n < b.size = ground (arith, q, large) in
        let size : sub64 b.size n ≡ b.size - n = omega (arith, more, top, bound) in
        let whole : a + n + sub64 b.size n ≡ a + b.size = omega (arith, size, more) in
        (
          (
            at,
            pos,
            (
              omega (arith, at, top, more, bound),
              omega (arith, size, more),
              subst (λ k. Tiles k bs e) (sym whole) t,
            ),
          ),
          omega (arith, at),
          omega (arith, at, top, large),
          (λ x. ground (arith, is_free)),
          clear,
        ))

passed-IsPlaced :
    (n a : ℕ) (b : Block) (bs : List Block) (e : ℕ) (r : Option (ℕ × List Block))
    → Tiles a (b ∷ bs) e
    → skips n b ≡ true
    → IsPlaced n (a + b.size) bs e r
    → IsPlaced n a (b ∷ bs) e (passed b r)
passed-IsPlaced n a b bs e none t h ih = (h, ih)
passed-IsPlaced n a b bs e (some (p, bs')) (at, positive, t) h (tiles, low, high, adds, clear) = (
  (at, positive, tiles),
  omega (arith, low),
  high,
  (λ x. ground (arith, adds x)),
  (λ x w. let rest : owned bs x ≡ false = clear x w in ground (arith, rest, w, low, at)),
)

-- The blocks after an allocation of `n` bytes, or why there is none.
pub place-IsPlaced :
    (n a : ℕ) (bs : List Block) (e : ℕ)
    → Tiles a bs e
    → 0 < n
    → e < 2 ^ 64
    → IsPlaced n a bs e (place n bs)
unfolding place
place-IsPlaced n a [] e t pos bound = tt
place-IsPlaced n a (b ∷ bs) e (at, positive, t) pos bound =
    if_split (IsPlaced n a (b ∷ bs) e) (skips n b) _ _
      (λ h.
        passed-IsPlaced n a b bs e (place n bs) (at, positive, t) h
          (place-IsPlaced n (a + b.size) bs e t pos bound))
      (λ h. split-IsPlaced n a b bs e (at, positive, t) pos bound h)

-- The block lies in the region, had no byte given out, and its bytes are given out besides those
-- from before.
abbrev pub IsAllocated : ℕ → StubHeap → ℕ × StubHeap → Type 0
IsAllocated n h (p, h') =
    IsValid h'
    × (h.base ≤ p)
    × (p + n ≤ h.base + h.size)
    × ((x : ℕ) → owned h'.blocks x ≡ (owned h.blocks x || within p n x))
    × ((x : ℕ) → within p n x ≡ true → owned h.blocks x ≡ false)

-- The size in whole units of 16 bytes, in 64 bits.
abbrev pub rounded : ℕ → ℕ
rounded sz = (sz + 15) % 2 ^ 64 / 16 * 16
