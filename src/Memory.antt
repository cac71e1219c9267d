-- ===== src/Memory.antt =====
-- The memory behind the handlers: the provider interface, the caches, the guest heap.
pub mod Provider
pub mod Direct
pub mod Shadow
pub mod L1
pub mod L2
pub mod Heap
pub mod StubHeap
