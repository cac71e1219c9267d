-- ===== src/Cpu/Agreement/Sync.antt =====
-- What `sync_flags` keeps.
use pico_cpu.Prelude.{
  ℕ, ◌^◌, ◌<◌, ◌≡◌, refl, ap, ap₂, arith, not, ◌&&◌, ◌||◌, differ, nonzero, bit_and,
}
use pico_cpu.Prelude.Bits.Masks.{bit_or-lt, bit_and-lt, bit_and-lt_right}
use pico_cpu.Cpu.Lazy.{CcOp, LazyFlags, sync_flags, merge, sync_by, flag, cf, pf, zf, sf, of}
use pico_cpu.Cpu.Rflags
use pico_cpu.Cpu.Cond.{Cc, cond_holds}

pub merge-lt : (p b : ℕ) → p < 2 ^ 64 → merge p b < 2 ^ 64
unfolding merge
merge-lt p b h = bit_or-lt 64 _ _ (bit_and-lt 64 p _ h) (bit_and-lt_right 64 b 0x8D7 (omega arith))

-- A synced state has its flags in `rflags`.
sync_by-eflags : (op : CcOp) (c : LazyFlags) → c.cc_op ≡ op → (sync_by op c).cc_op ≡ CcOp.eflags
sync_by-eflags CcOp.eflags c e = e
sync_by-eflags CcOp.add c e = refl
sync_by-eflags _ c e = refl

pub cc_op-sync_flags : (c : LazyFlags) → (sync_flags c).cc_op ≡ CcOp.eflags
unfolding sync_flags
cc_op-sync_flags c = sync_by-eflags c.cc_op c refl

sync_by-lt : (op : CcOp) (c : LazyFlags) → c.rflags < 2 ^ 64 → (sync_by op c).rflags < 2 ^ 64
sync_by-lt CcOp.eflags c h = h
sync_by-lt CcOp.add c h = merge-lt _ _ h
sync_by-lt _ c h = merge-lt _ _ h

pub sync_flags-lt : (c : LazyFlags) → c.rflags < 2 ^ 64 → (sync_flags c).rflags < 2 ^ 64
unfolding sync_flags
sync_flags-lt c h = sync_by-lt c.cc_op c h

-- To sync twice is to sync once.
pub sync_flags-twice : (c : LazyFlags) → sync_flags (sync_flags c) ≡ sync_flags c
unfolding sync_flags
sync_flags-twice c = ap (λ op. sync_by op (sync_by c.cc_op c)) (cc_op-sync_flags c)

-- The conditions depend on the readers only.
pub cond_holds_ext :
    (cc : Cc) (c d : LazyFlags)
    → cf c ≡ cf d
    → pf c ≡ pf d
    → zf c ≡ zf d
    → sf c ≡ sf d
    → of c ≡ of d
    → cond_holds cc c ≡ cond_holds cc d
unfolding cond_holds
cond_holds_ext cc c d hc hp hz hs ho = holds_by cc
  where
    less : differ (sf c) (of c) ≡ differ (sf d) (of d)
    less = ap₂ differ hs ho

    holds_by : (cc : Cc) → cond_holds cc c ≡ cond_holds cc d
    holds_by Cc.o = ho
    holds_by Cc.no = ap not ho
    holds_by Cc.b = hc
    holds_by Cc.nb = ap not hc
    holds_by Cc.z = hz
    holds_by Cc.nz = ap not hz
    holds_by Cc.be = ap₂ (λ c z. c || z) hc hz
    holds_by Cc.nbe = ap₂ (λ c z. not c && not z) hc hz
    holds_by Cc.s = hs
    holds_by Cc.ns = ap not hs
    holds_by Cc.p = hp
    holds_by Cc.np = ap not hp
    holds_by Cc.l = less
    holds_by Cc.nl = ap not less
    holds_by Cc.le = ap₂ (λ z l. z || l) hz less
    holds_by Cc.nle = ap₂ (λ z l. not z && not l) hz less
    holds_by Cc.none = refl

-- A sync of the flags changes the answer of no condition.
pub cond_holds-sync_flags :
    (cc : Cc) (c : LazyFlags) → cond_holds cc (sync_flags c) ≡ cond_holds cc c
unfolding cf pf zf sf of
cond_holds-sync_flags cc c =
    cond_holds_ext cc (sync_flags c) c (same Rflags.cf) (same Rflags.pf) (same Rflags.zf)
      (same Rflags.sf) (same Rflags.of)
  where
    same : (mask : ℕ) → flag mask (sync_flags c) ≡ flag mask c
    same mask = ap (λ s. nonzero (bit_and s.rflags mask)) (sync_flags-twice c)
