-- ===== src/Memory/StubHeap.antt =====
-- src/emu/include/emu/stub_heap.h: the first-fit heap of the stubs. Its blocks are kept on the side
-- of the host, in the order of their addresses.
pub mod Tiling
pub mod Alloc
pub mod Free
use pico_cpu.Prelude.{
  ℕ, bit_and, Bool, true, false, not, ◌||◌, List, [], ◌∷◌, Option, none, some, ◌==◌, ltb,
  if◌then◌else◌, not64, add64, sub64,
}

pub record Block : Type 0 where
  pub addr : ℕ
  pub size : ℕ
  pub is_free : Bool

pub record StubHeap : Type 0 where
  pub base : ℕ
  pub size : ℕ
  pub blocks : List Block

unfoldable pub install : ℕ → ℕ → StubHeap
install base size = record {
  base = base;
  size = size;
  blocks = record { addr = base; size = size; is_free = true } ∷ [];
}

abbrev pub aligned : ℕ → ℕ
aligned sz = bit_and (add64 sz 15) (not64 15)

-- The block that is given out, and the free rest of it if there is one.
unfoldable pub split : ℕ → Block → List Block → List Block
split n b bs =
    if b.size == n
    then record b { is_free = false } ∷ bs
    else record b { size = n; is_free = false }
      ∷ record { addr = add64 b.addr n; size = sub64 b.size n; is_free = true }
      ∷ bs

abbrev pub passed : Block → Option (ℕ × List Block) → Option (ℕ × List Block)
passed b none = none
passed b (some (p, bs)) = some (p, b ∷ bs)

abbrev pub skips : ℕ → Block → Bool
skips n b = not b.is_free || ltb b.size n

-- The loop of `alloc`.
unfoldable pub place : ℕ → List Block → Option (ℕ × List Block)
place n [] = none
place n (b ∷ bs) =
    let rest = place n bs in if skips n b then passed b rest else some (b.addr, split n b bs)

abbrev pub placed : StubHeap → Option (ℕ × List Block) → ℕ × StubHeap
placed h none = (0, h)
placed h (some (p, bs)) = (p, record h { blocks = bs })

unfoldable pub alloc : ℕ → StubHeap → ℕ × StubHeap
alloc sz h = if aligned sz == 0 then (0, h) else placed h (place (aligned sz) h.blocks)

abbrev pub joined : Block → Block → Block
joined b c = record b { size = add64 b.size c.size }

-- The coalescing with the next block.
unfoldable pub join_next : Block → List Block → List Block
join_next b [] = b ∷ []
join_next b (c ∷ cs) = if c.is_free then joined b c ∷ cs else b ∷ c ∷ cs

abbrev pub released : Block → Block
released b = record b { is_free = true }

-- The coalescing with the previous block, and then with the next one.
unfoldable pub join_both : Block → Block → List Block → List Block
join_both prev b bs = if prev.is_free then join_next (joined prev b) bs else prev ∷ join_next b bs

abbrev pub behind : Block → Option (List Block) → Option (List Block)
behind b none = none
behind b (some bs) = some (b ∷ bs)

-- The loop of `free` behind the block `prev`.
unfoldable pub free_from : ℕ → Block → List Block → Option (List Block)
free_from p prev [] = none
free_from p prev (b ∷ bs) =
    let rest = free_from p b bs in
    let hit = if b.is_free then none else some (join_both prev (released b) bs) in
    if b.addr == p then hit else behind prev rest

unfoldable pub free_in : ℕ → List Block → Option (List Block)
free_in p [] = none
free_in p (b ∷ bs) =
    let hit = if b.is_free then none else some (join_next (released b) bs) in
    if b.addr == p then hit else free_from p b bs

abbrev pub freed : StubHeap → Option (List Block) → Bool × StubHeap
freed h none = (false, h)
freed h (some bs) = (true, record h { blocks = bs })

unfoldable pub free : ℕ → StubHeap → Bool × StubHeap
free p h = if p == 0 then (true, h) else freed h (free_in p h.blocks)
