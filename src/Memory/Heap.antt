-- ===== src/Memory/Heap.antt =====
-- src/emu/include/emu/heap.h and src/emu/memory/heap.cpp: the guest heap, over a provider that
-- stands for the shadow pages.
pub mod Classes
pub mod Blocks
use pico_cpu.Prelude.{
  ℕ, zero, suc, ◌-◌, ◌^◌, bit_and, ◌||◌, List, Bool, ◌==◌, leb, ltb, if◌then◌else◌, add64, sub64,
  not64, shl64,
}
use pico_cpu.Error.{Status}
use pico_cpu.Memory.Provider.{Provider, ReadResult}
use pico_cpu.Memory.Provider.Bytes.{from_bytes, to_bytes}

abbrev pub align : ℕ
align = 16

abbrev pub size_classes : ℕ
size_classes = 16

unfoldable pub round_up : ℕ → ℕ → ℕ
round_up v to = bit_and (add64 v (sub64 to 1)) (not64 (sub64 to 1))

-- The loop of `class_for`, with `left` classes above `cls`.
unfoldable pub class_loop : ℕ → ℕ → ℕ → ℕ → ℕ
class_loop zero cls cap sz = cls
class_loop (suc left) cls cap sz =
    let rest = class_loop left (suc cls) (shl64 cap 1) sz in if ltb cap sz then rest else cls

unfoldable pub class_for : ℕ → ℕ
class_for bytes =
    class_loop (size_classes - 1) 0 align
      (round_up (if ltb bytes align then align else bytes) align)

-- `ALIGN << cls`.
abbrev pub block_size : ℕ → ℕ
block_size cls = shl64 align cls

-- The members of `Heap`; a free list is its head, and the links are in guest memory.
pub record Heap : Type 0 where
  pub base : ℕ
  pub size : ℕ
  pub bump : ℕ
  pub freelist : ℕ → ℕ

unfoldable pub with_head : Heap → ℕ → ℕ → Heap
with_head h cls head = record h { freelist = λ i. if i == cls then head else h.freelist i }

-- The second half of `alloc`.
unfoldable pub bump_block : ℕ → Heap → ℕ × Heap
bump_block cls h =
    if ltb h.size (add64 h.bump (block_size cls))
    then (0, h)
    else (add64 h.base h.bump, record h { bump = add64 h.bump (block_size cls) })

-- The early returns of `free`.
abbrev pub foreign : ℕ → ℕ → Heap → Bool
foreign addr bytes h =
    ((addr == 0) || (bytes == 0)) || (ltb addr h.base || leb (add64 h.base h.size) addr)

module _ {S : Type 0} (shadow : Provider S) where
  -- The first half: what becomes of the read of the link in the head.
  unfoldable pub pop_block : ℕ → Heap → ReadResult × S → ℕ × (Heap × S)
  pop_block cls h (ReadResult.failed st out, s) =
      let (out, h') = bump_block cls (with_head h cls 0) in (out, (h', s))
  pop_block cls h (ReadResult.bytes bs, s) =
      (h.freelist cls, (with_head h cls (from_bytes 0 0 bs), s))

  unfoldable pub alloc_class : ℕ → Heap → S → ℕ × (Heap × S)
  alloc_class cls h s =
      if h.freelist cls == 0
      then (let (out, h') = bump_block cls h in (out, (h', s)))
      else pop_block cls h (shadow.read (h.freelist cls) 8 s)

  unfoldable pub alloc : ℕ → Heap → S → ℕ × (Heap × S)
  alloc bytes h s = if bytes == 0 then (0, (h, s)) else alloc_class (class_for bytes) h s

  -- The status of the write is ignored.
  unfoldable pub free : ℕ → ℕ → Heap → S → Heap × S
  free addr bytes h s =
      let cls = class_for bytes in
      if foreign addr bytes h
      then (h, s)
      else (with_head h cls addr, (shadow.write addr (to_bytes 8 0 (h.freelist cls)) s).1)
