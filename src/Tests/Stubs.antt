-- ===== src/Tests/Stubs.antt =====
-- Examples for the heap of the stubs.
use pico_cpu.Prelude.{true, false, [], ◌∷◌}
use pico_cpu.Memory.StubHeap.{StubHeap}

-- A block of 32 bytes is given out between two free ones.
abbrev heap : StubHeap
heap = record {
  base = 0x1000;
  size = 0x100;
  blocks =
      record { addr = 0x1000; size = 0x20; is_free = true }
      ∷ record { addr = 0x1020; size = 0x20; is_free = false }
      ∷ record { addr = 0x1040; size = 0xC0; is_free = true }
      ∷ [];
}
