-- ===== src/Tests/Memory.antt =====
-- Examples for the heap and for values as bytes.
use pico_cpu.Prelude.{
  ℕ, zero, suc, ◌+◌, ◌≤◌, ◌<◌, ◌≡◌, ◌⊎◌, refl, arith, List, [], ◌∷◌, ◌==◌, if◌then◌else◌,
}
use pico_cpu.Error.{Status}
use pico_cpu.Memory.Provider.{Provider, ReadResult}
use pico_cpu.Memory.Provider.Bytes.{to_bytes}
use pico_cpu.Memory.Heap.{Heap, alloc, free, class_for, block_size}
use pico_cpu.Memory.Heap.Classes.{class_for-capped, class_for-fits}
use pico_cpu.Memory.Heap.Blocks.{IsValid, IsFresh, alloc-IsFresh, alloc-free}

class_for-capped_example : block_size (class_for 0x10_0000) ≡ 0x8_0000
class_for-capped_example = class_for-capped 0x10_0000 (omega arith) (omega arith)

class_for-fits_example :
    (1000 ≤ block_size (class_for 1000))
    × ((block_size (class_for 1000) ≡ 16) ⊎ (block_size (class_for 1000) < 1000 + 1000))
class_for-fits_example = class_for-fits 1000 (omega arith)

-- A memory of bytes.
abbrev bytes_at : ℕ → ℕ → (ℕ → ℕ) → List ℕ
bytes_at zero addr m = []
bytes_at (suc n) addr m = m addr ∷ bytes_at n (addr + 1) m

abbrev stored : ℕ → List ℕ → (ℕ → ℕ) → ℕ → ℕ
stored addr [] m i = m i
stored addr (b ∷ bs) m i = if i == addr then b else stored (addr + 1) bs m i

abbrev flat_memory : Provider (ℕ → ℕ)
flat_memory = record {
  read = λ addr size m. (ReadResult.bytes (bytes_at size addr m), m);
  write = λ addr bs m. (Status.ok, stored addr bs m);
}

-- A heap of 64 KiB with one block given out and nothing freed.
abbrev heap : Heap
heap = record { base = 0x10000; size = 0x10000; bump = 64; freelist = λ i. 0 }

alloc-IsFresh_example :
    ((alloc flat_memory 100 heap (λ i. 0)).1.1 ≡ (λ i. 0))
    × ((((alloc flat_memory 100 heap (λ i. 0)).0 ≡ 0)
          × ((alloc flat_memory 100 heap (λ i. 0)).1.0 ≡ heap))
        ⊎ (IsFresh
              (block_size (class_for 100))
              heap
              ((alloc flat_memory 100 heap (λ i. 0)).0, (alloc flat_memory 100 heap (λ i. 0)).1.0)
            × IsValid ((alloc flat_memory 100 heap (λ i. 0)).1.0)))
alloc-IsFresh_example =
    alloc-IsFresh flat_memory 100 heap (λ i. 0) (omega arith, omega arith, omega arith)
      (omega arith) refl

abbrev freed : Heap × (ℕ → ℕ)
freed = free flat_memory 0x10000 64 heap (λ i. 0)

alloc-free_example :
    ((alloc flat_memory 64 (freed.0) (freed.1)).0 ≡ 0x10000)
    × ((alloc flat_memory 64 (freed.0) (freed.1)).1.0.freelist (class_for 64) ≡ 0)
    × ((alloc flat_memory 64 (freed.0) (freed.1)).1.0.bump ≡ 64)
unfolding to_bytes
alloc-free_example = alloc-free flat_memory 0x10000 64 heap (λ i. 0) refl (omega arith) refl
