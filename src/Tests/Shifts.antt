-- ===== src/Tests/Shifts.antt =====
-- Examples for the flags of shifts.
use pico_cpu.Prelude.{◌≡◌, refl, inl, inr, arith, bit}
use pico_cpu.Cpu.Lazy.{sync_flags, stash_shl, stash_shr, stash_sar}
use pico_cpu.Cpu.Eager.{set_flags_shl_eager, set_flags_shr_eager, set_flags_sar_eager}
use pico_cpu.Cpu.Agreement.Shifts.{stash_shl-eager, stash_shr-eager, stash_sar-eager}
use pico_cpu.Tests.{pending}

-- OF after a shift by one.
stash_shl-eager_example :
    bit (sync_flags (stash_shl 1 0xC0 1 0x80 pending)).rflags 11
    ≡ bit (set_flags_shl_eager 1 0xC0 1 0x80 pending).rflags 11
stash_shl-eager_example =
    stash_shl-eager 1 0xC0 1 0x80 pending 11 (omega arith) (omega arith) (omega arith) (inr refl)

-- CF after a shift by three.
stash_shr-eager_example :
    bit (sync_flags (stash_shr 1 0xC4 3 0x18 pending)).rflags 0
    ≡ bit (set_flags_shr_eager 1 0xC4 3 0x18 pending).rflags 0
stash_shr-eager_example =
    stash_shr-eager 1 0xC4 3 0x18 pending 0 (omega arith) (omega arith) (omega arith)
      (inl (omega arith))

stash_sar-eager_example :
    bit (sync_flags (stash_sar 1 0xC4 3 0xF8 pending)).rflags 7
    ≡ bit (set_flags_sar_eager 1 0xC4 3 0xF8 pending).rflags 7
stash_sar-eager_example =
    stash_sar-eager 1 0xC4 3 0xF8 pending 7 (omega arith) (omega arith) (omega arith)
      (inl (omega arith))
