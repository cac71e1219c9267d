-- ===== src/Cpu/State/Roundtrips.antt =====
-- Snapshots, the x87 stack and the CPUID table: what was put in comes out.
use pico_cpu.Prelude.{
  ℕ, ◌+◌, ◌-◌, ◌^◌, ◌<◌, ◌≡◌, refl, Bool, ◌&&◌, ◌==◌, ==_iff, List, [], ◌∷◌, some, arith, bit_and,
  if◌then◌else◌, u8, u32,
}
use pico_cpu.Prelude.Bits.Masks.{bit_and_low}
use pico_cpu.Cpu.Lazy.{sync_flags}
use pico_cpu.Cpu.Cond.{Cc, cond_holds}
use pico_cpu.Cpu.Agreement.Sync.{cond_holds-sync_flags}
use pico_cpu.Cpu.State.{Cpu, CpuidLeaf, on_flags}
use pico_cpu.Cpu.State.Registers.{fpu_push, fpu_pop, set_cpuid, cpuid_lookup, override, find_leaf}
use pico_cpu.Cpu.State.Snapshot.{snapshot, restore}

pub restore-snapshot :
    (c d : Cpu)
    → restore ((snapshot c).0) d
      ≡ record (on_flags sync_flags c) { cpuid_overrides = d.cpuid_overrides }
unfolding restore snapshot
restore-snapshot c d = refl

-- A pop after a push gives the pushed value and the old TOP, for a TOP below 8.
pub fpu_pop-fpu_push :
    (v : ℕ) (c : Cpu)
    → c.fpu_top < 8
    → let (top, after) = fpu_pop (fpu_push v c) in (top ≡ v) × (after.fpu_top ≡ c.fpu_top)
unfolding fpu_pop fpu_push
fpu_pop-fpu_push v c h =
    let top = u8 (bit_and (u32 (c.fpu_top + 2 ^ 32 - 1)) 7) in
    (
      rw ((==_iff top top).1 refl) refl,
      omega (arith, bit_and_low 3 (u32 (c.fpu_top + 2 ^ 32 - 1)), bit_and_low 3 (top + 1)),
    )

abbrev key_of : ℕ → ℕ → CpuidLeaf → Bool
key_of l s e = (e.leaf == l) && (e.subleaf == s)

-- After `set_cpuid` the lookup of that leaf and subleaf gives the new entry, and every other
-- lookup what it gave before.
pub cpuid_lookup-set_cpuid :
    (new : CpuidLeaf) (c : Cpu) (l s : ℕ)
    → cpuid_lookup l s (set_cpuid new c) ≡ (if key_of l s new then some new else cpuid_lookup l s c)
unfolding cpuid_lookup set_cpuid
cpuid_lookup-set_cpuid new c l s = search_table c.cpuid_overrides
  where
    search_table :
        (es : List CpuidLeaf)
        → find_leaf l s (override new es) ≡ (if key_of l s new then some new else find_leaf l s es)
    search_table [] = refl
    search_table (e ∷ es) = let ih = search_table es in grind arith

-- A processor restored from a snapshot answers every condition as the processor that the
-- snapshot was taken of.
pub cond_holds-restore :
    (cc : Cc) (c d : Cpu) → cond_holds cc (restore ((snapshot c).0) d).flags ≡ cond_holds cc c.flags
unfolding restore snapshot
cond_holds-restore cc c d = cond_holds-sync_flags cc c.flags
