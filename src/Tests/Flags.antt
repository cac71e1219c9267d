-- ===== src/Tests/Flags.antt =====
-- Examples for the flags of sums, differences and logic operations.
use pico_cpu.Prelude.{◌≡◌, ◌↔◌, refl, true, false, inl, inr, arith, pos, negsuc, ◌+ℤ◌}
use pico_cpu.Cpu.Widths.{mask_for}
use pico_cpu.Cpu.Lazy.{LazyFlags, sync_flags, cf, of, stash_add, stash_adc, stash_sub, stash_sbb}
use pico_cpu.Cpu.Eager.{
  set_flags_add_eager, set_flags_adc_eager, set_flags_sub_eager, set_flags_sbb_eager,
}
use pico_cpu.Cpu.Cond.{Cc, cond_holds}
use pico_cpu.Cpu.Agreement.Sums.{stash_add-eager, stash_adc-eager, stash_sub-eager, stash_sbb-eager}
use pico_cpu.Cpu.Agreement.Sync.{cond_holds-sync_flags}
use pico_cpu.Cpu.Meaning.Compare.{cond_holds-stash_sub}
use pico_cpu.Cpu.Meaning.Sum.{cf-stash_add, of-stash_add}
use pico_cpu.Tests.{pending}

-- CMP of the bytes -3 and 5: below is unsigned, less is signed.
abbrev compared : LazyFlags
compared = stash_sub 1 5 0xF8 pending

cond_holds-stash_sub_example :
    (cond_holds Cc.b compared ≡ false)
    × (cond_holds Cc.nb compared ≡ true)
    × (cond_holds Cc.be compared ≡ false)
    × (cond_holds Cc.nbe compared ≡ true)
    × (cond_holds Cc.z compared ≡ false)
    × (cond_holds Cc.nz compared ≡ true)
    × (cond_holds Cc.l compared ≡ true)
    × (cond_holds Cc.nl compared ≡ false)
    × (cond_holds Cc.le compared ≡ true)
    × (cond_holds Cc.nle compared ≡ false)
unfolding mask_for
cond_holds-stash_sub_example = cond_holds-stash_sub 1 0xFD 5 (inl refl) (omega arith) pending

stash_sub-eager_example :
    (sync_flags compared).rflags ≡ (set_flags_sub_eager 1 0xFD 5 0xF8 pending).rflags
unfolding mask_for
stash_sub-eager_example = stash_sub-eager 1 0xFD 5 (inl refl) pending (omega arith) (omega arith)

-- 0x7FFF + 1 at 16 bits.
stash_add-eager_example :
    (sync_flags (stash_add 2 1 0x8000 pending)).rflags
    ≡ (set_flags_add_eager 2 0x7FFF 1 0x8000 pending).rflags
unfolding mask_for
stash_add-eager_example = stash_add-eager 2 0x7FFF 1 (inr (inl refl)) pending (omega arith)

stash_adc-eager_example :
    (sync_flags (stash_adc 1 0xFF true 5 pending)).rflags
    ≡ (set_flags_adc_eager 1 5 0xFF true 5 pending).rflags
unfolding mask_for
stash_adc-eager_example = stash_adc-eager 1 5 0xFF (inl refl) true pending (omega arith)

stash_sbb-eager_example :
    (sync_flags (stash_sbb 1 0xFF true 5 pending)).rflags
    ≡ (set_flags_sbb_eager 1 5 0xFF true 5 pending).rflags
unfolding mask_for
stash_sbb-eager_example =
    stash_sbb-eager 1 5 0xFF (inl refl) true pending (omega arith) (omega arith)

cf-stash_add_example : cf (stash_add 1 0xFF 4 pending) ≡ true
unfolding mask_for
cf-stash_add_example = cf-stash_add 1 5 0xFF (inl refl) pending

-- 0x7F + 1 overflows.
of-stash_add_example : (of (stash_add 1 1 0x80 pending) ≡ false) ↔ (negsuc 127 ≡ (pos 127 +ℤ pos 1))
unfolding mask_for
of-stash_add_example = of-stash_add 1 0x7F 1 (inl refl) pending

cond_holds-sync_flags_example : cond_holds Cc.be (sync_flags pending) ≡ cond_holds Cc.be pending
cond_holds-sync_flags_example = cond_holds-sync_flags Cc.be pending
