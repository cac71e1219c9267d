-- ===== src/Memory/Heap/Blocks.antt =====
-- Blocks of the heap: fresh ones lie in the region behind all earlier ones, and a freed one is the
-- next that its class gives out.
use pico_cpu.Prelude.{
  ℕ, ◌+◌, ◌^◌, ◌<◌, ◌≤◌, ◌≡◌, ◌⊎◌, inl, inr, refl, ap, ◌∙◌, arith, false, Bool-cases, ◌==◌, ==_iff,
  add64, ltb, if◌then◌else◌, List,
}
use pico_cpu.Memory.Provider.{Provider, ReadResult}
use pico_cpu.Memory.Provider.Bytes.{to_bytes}
use pico_cpu.Memory.Provider.Bytes.Roundtrip.{from_bytes-to_bytes}
use pico_cpu.Memory.Heap.Classes.{block_size-class_for}
use pico_cpu.Memory.Heap.{
  Heap, alloc, alloc_class, pop_block, bump_block, with_head, class_for, block_size, free, foreign,
}

-- The region lies below 2 ^ 64, it is no larger than half of the address space, and the blocks given
-- out lie in it.
abbrev pub IsValid : Heap → Type 0
IsValid h = (h.base + h.size < 2 ^ 64) × (h.size < 2 ^ 63) × (h.bump ≤ h.size)

-- The block that is given out starts where the earlier ones end, and ends where the next one starts.
abbrev pub IsFresh : ℕ → Heap → ℕ × Heap → Type 0
IsFresh block h (out, h') =
    (out ≡ h.base + h.bump) × (h'.bump ≡ h.bump + block) × (h'.base ≡ h.base) × (h'.size ≡ h.size)

bump_block-IsFresh :
    (cls : ℕ) (h : Heap)
    → IsValid h
    → block_size cls ≤ 2 ^ 19
    → (bump_block cls h ≡ (0, h))
      ⊎ (IsFresh (block_size cls) h (bump_block cls h) × IsValid ((bump_block cls h).1))
unfolding bump_block
bump_block-IsFresh cls h (ok, narrow, fits) small =
    elim (Bool-cases (ltb h.size (add64 h.bump (block_size cls)))) [
      | inl e ↦ inl (rw e refl)
      | inr e ↦
          let bound : add64 h.bump (block_size cls) ≤ h.size = ground arith in
          let sum : add64 h.bump (block_size cls) ≡ h.bump + block_size cls = omega arith in
          inr (rw e ((omega arith, sum, refl, refl), (ok, narrow, bound)))
    ]

not_zero : (n : ℕ) → 0 < n → (n == 0) ≡ false
not_zero n h = ground arith

nonzero_request :
    (addr bytes : ℕ) (h : Heap)
    → foreign addr bytes h ≡ false
    → ((bytes == 0) ≡ false) × ((addr == 0) ≡ false)
nonzero_request addr bytes h e = (ground arith, ground arith)

at_index : (i x y : ℕ) → (if i == i then x else y) ≡ x
at_index i x y = ap (λ b. if b then x else y) ((==_iff i i).1 refl)

module _ {S : Type 0} (shadow : Provider S) where
  -- What a request with an empty free list comes to.
  abbrev Outcome : ℕ → Heap → S → ℕ × (Heap × S) → Type 0
  Outcome block h s (out, (h', s')) =
      (s' ≡ s) × (((out ≡ 0) × (h' ≡ h)) ⊎ (IsFresh block h (out, h') × IsValid h'))

  alloc_class-IsFresh :
      (cls : ℕ) (h : Heap) (s : S)
      → IsValid h
      → block_size cls ≤ 2 ^ 19
      → h.freelist cls ≡ 0
      → Outcome (block_size cls) h s (alloc_class shadow cls h s)
  unfolding alloc_class
  alloc_class-IsFresh cls h s ok small empty = rw empty (
    refl,
    elim (bump_block-IsFresh cls h ok small) [
      | inl e ↦ inl (ap (λ r. r.0) e, ap (λ r. r.1) e)
      | inr fresh ↦ inr fresh
    ],
  )

  -- In a valid heap whose free list for the request is empty, `alloc` leaves the memory alone,
  -- and gives 0 and changes nothing, or gives a block that begins where all earlier fresh blocks
  -- end and ends within the region; the heap stays valid.
  pub alloc-IsFresh :
      (bytes : ℕ) (h : Heap) (s : S)
      → IsValid h
      → 0 < bytes
      → h.freelist (class_for bytes) ≡ 0
      → let (out, (h', s')) = alloc shadow bytes h s in
        (s' ≡ s)
        × (((out ≡ 0) × (h' ≡ h))
            ⊎ (IsFresh (block_size (class_for bytes)) h (out, h') × IsValid h'))
  unfolding alloc
  alloc-IsFresh bytes h s ok some empty =
      rw (not_zero bytes some)
        (alloc_class-IsFresh (class_for bytes) h s ok (block_size-class_for bytes) empty)

  -- The provider gives back the eight bytes that were written at the address.
  abbrev pub Keeps : ℕ → List ℕ → S → Type 0
  Keeps addr bs s = (shadow.read addr 8 ((shadow.write addr bs s).1)).0 ≡ ReadResult.bytes bs

  -- The block is given out, and the free list is what it was.
  abbrev IsBack : ℕ → ℕ → Heap → ℕ × (Heap × S) → Type 0
  IsBack cls addr h (out, (h', s')) =
      (out ≡ addr) × (h'.freelist cls ≡ h.freelist cls) × (h'.bump ≡ h.bump)

  pop_again :
      (bytes cls addr : ℕ) (h : Heap) (s : S)
      → ((bytes == 0) ≡ false) × ((addr == 0) ≡ false)
      → h.freelist cls < 2 ^ 64
      → Keeps addr (to_bytes 8 0 (h.freelist cls)) s
      → IsBack cls addr h (
          if bytes == 0
          then (0, (with_head h cls addr, (shadow.write addr (to_bytes 8 0 (h.freelist cls)) s).1))
          else alloc_class shadow cls
              (with_head h cls addr)
              ((shadow.write addr (to_bytes 8 0 (h.freelist cls)) s).1))
  unfolding alloc_class with_head pop_block
  pop_again bytes cls addr h s (some, own) small law =
      rw (some, (==_iff cls cls).1 refl, own, law)
        (at_index cls addr _, at_index cls _ _ ∙ from_bytes-to_bytes (h.freelist cls) small, refl)

  -- A block of the region that is freed is what the next `alloc` of the same size gives, which
  -- also restores the free list, provided that the memory gives back the eight bytes written at
  -- the block, and that the head of the free list was below 2^64.
  pub alloc-free :
      (addr bytes : ℕ) (h : Heap) (s : S)
      → foreign addr bytes h ≡ false
      → h.freelist (class_for bytes) < 2 ^ 64
      → Keeps addr (to_bytes 8 0 (h.freelist (class_for bytes))) s
      → let (h', s') = free shadow addr bytes h s in
        let (out, after) = alloc shadow bytes h' s' in
        (out ≡ addr)
        × (after.0.freelist (class_for bytes) ≡ h.freelist (class_for bytes))
        × (after.0.bump ≡ h.bump)
  unfolding free alloc
  alloc-free addr bytes h s own small law =
      rw own
        (pop_again bytes (class_for bytes) addr h s (nonzero_request addr bytes h own) small law)
