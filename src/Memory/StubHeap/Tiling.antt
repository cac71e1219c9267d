-- ===== src/Memory/StubHeap/Tiling.antt =====
-- The blocks of the stub heap follow each other without a gap; the bytes that are given out.
use pico_cpu.Prelude.{
  ℕ, ◌+◌, ◌^◌, ◌<◌, ◌≤◌, ◌≡◌, refl, Bool, false, not, ◌&&◌, ◌||◌, List, [], ◌∷◌, ltb, leb, ◌==◌,
  if◌then◌else◌, arith,
}
use pico_cpu.Memory.StubHeap.{Block, StubHeap}

abbrev pub Tiles : ℕ → List Block → ℕ → Type 0
Tiles a [] e = a ≡ e
Tiles a (b ∷ bs) e = (b.addr ≡ a) × (0 < b.size) × Tiles (a + b.size) bs e

-- The bytes of a block.
abbrev pub within : ℕ → ℕ → ℕ → Bool
within p n x = leb p x && ltb x (p + n)

abbrev pub owns : Block → ℕ → Bool
owns b x = not b.is_free && within b.addr b.size x

-- A byte is given out.
abbrev pub owned : List Block → ℕ → Bool
owned [] x = false
owned (b ∷ bs) x = owns b x || owned bs x

pub Tiles-le : (a : ℕ) (bs : List Block) (e : ℕ) → Tiles a bs e → a ≤ e
Tiles-le a [] e t = omega (arith, t)
Tiles-le a (b ∷ bs) e (h, p, t) = omega (arith, Tiles-le (a + b.size) bs e t)

pub owned-below : (a : ℕ) (bs : List Block) (e x : ℕ) → Tiles a bs e → x < a → owned bs x ≡ false
owned-below a [] e x t h = refl
owned-below a (b ∷ bs) e x (k, p, t) h =
    let rest : owned bs x ≡ false = owned-below (a + b.size) bs e x t (omega (arith, h)) in
    ground (arith, rest, h, k)

-- No block at `p` is given out.
abbrev pub NotAt : ℕ → List Block → Type 0
NotAt p [] = Unit {0}
NotAt p (b ∷ bs) = (((b.addr == p) && not b.is_free) ≡ false) × NotAt p bs

pub NotAt-below : (p a : ℕ) (bs : List Block) (e : ℕ) → Tiles a bs e → p < a → NotAt p bs
NotAt-below p a [] e t h = tt
NotAt-below p a (b ∷ bs) e (at, positive, t) h =
    (ground (arith, at, h), NotAt-below p (a + b.size) bs e t (omega (arith, h)))

-- The size of the block that begins at `p`, where there is one.
abbrev pub size_at : ℕ → List Block → ℕ
size_at p [] = 0
size_at p (b ∷ bs) = if b.addr == p then b.size else size_at p bs

-- The blocks tile the region, which lies below 2^64.
abbrev pub IsValid : StubHeap → Type 0
IsValid h = Tiles h.base h.blocks (h.base + h.size) × (h.base + h.size < 2 ^ 64)
