-- ===== src/Cpu/State/Reset.antt =====
-- What `reset` leaves of a pending operation.
use pico_cpu.Prelude.{
  ℕ, ◌^◌, ◌≡◌, refl, sym, ◌∙◌, bit_and, Bool, true, nonzero, bit, arith, ◌<◌, ap, if◌then◌else◌,
}
use pico_cpu.Prelude.Bits.Masks.{nonzero_single}
use pico_cpu.Cpu.Flags.Merge.{bit-merge, is_owned}
use pico_cpu.Cpu.Lazy.{CcOp, LazyFlags, sync_flags, sync_by, computed, merge, cf, pf, zf, sf, of}
use pico_cpu.Cpu.Rflags
use pico_cpu.Cpu.Cond.{Cc, cond_holds}
use pico_cpu.Cpu.Agreement.Sync.{cond_holds_ext}
use pico_cpu.Cpu.State.{Cpu}
use pico_cpu.Cpu.State.Snapshot.{reset}

-- An operation that is pending and computes all its flags from its operands. The rotates and the
-- products keep some of the flags from before.
abbrev pub IsPending : CcOp → Type 0
IsPending op = elim op [
  | CcOp.eflags ↦ ⊥
  | CcOp.rol ↦ ⊥
  | CcOp.ror ↦ ⊥
  | CcOp.mul_ov ↦ ⊥
  | _ ↦ Unit {0}
]

-- A bit that `sync_flags_` owns is the computed one.
owned_bit :
    (p b k : ℕ) → k < 64 → is_owned k ≡ true → nonzero (bit_and (merge p b) (2 ^ k)) ≡ bit b k
owned_bit p b k hk owned =
    nonzero_single k (merge p b)
    ∙ bit-merge p b k hk
    ∙ ap (λ (t : Bool). if t then bit b k else bit p k) owned

-- So it does not depend on what was in `rflags`.
merged :
    (p q b k : ℕ)
    → k < 64
    → is_owned k ≡ true
    → nonzero (bit_and (merge p b) (2 ^ k)) ≡ nonzero (bit_and (merge q b) (2 ^ k))
merged p q b k hk owned = owned_bit p b k hk owned ∙ sym (owned_bit q b k hk owned)

sync_by-rflags :
    (op : CcOp) (c : LazyFlags) (r k : ℕ)
    → IsPending op
    → k < 64
    → is_owned k ≡ true
    → nonzero (bit_and (sync_by op (record c { rflags = r })).rflags (2 ^ k))
      ≡ nonzero (bit_and (sync_by op c).rflags (2 ^ k))
unfolding computed
sync_by-rflags CcOp.eflags c r k pending hk owned = absurd pending
sync_by-rflags CcOp.rol c r k pending hk owned = absurd pending
sync_by-rflags CcOp.ror c r k pending hk owned = absurd pending
sync_by-rflags CcOp.mul_ov c r k pending hk owned = absurd pending
sync_by-rflags CcOp.logic c r k pending hk owned =
    merged r c.rflags (computed CcOp.logic c) k hk owned
sync_by-rflags CcOp.add c r k pending hk owned = merged r c.rflags (computed CcOp.add c) k hk owned
sync_by-rflags CcOp.adc c r k pending hk owned = merged r c.rflags (computed CcOp.adc c) k hk owned
sync_by-rflags CcOp.sub c r k pending hk owned = merged r c.rflags (computed CcOp.sub c) k hk owned
sync_by-rflags CcOp.sbb c r k pending hk owned = merged r c.rflags (computed CcOp.sbb c) k hk owned
sync_by-rflags CcOp.inc c r k pending hk owned = merged r c.rflags (computed CcOp.inc c) k hk owned
sync_by-rflags CcOp.dec c r k pending hk owned = merged r c.rflags (computed CcOp.dec c) k hk owned
sync_by-rflags CcOp.neg c r k pending hk owned = merged r c.rflags (computed CcOp.neg c) k hk owned
sync_by-rflags CcOp.shl c r k pending hk owned = merged r c.rflags (computed CcOp.shl c) k hk owned
sync_by-rflags CcOp.shr c r k pending hk owned = merged r c.rflags (computed CcOp.shr c) k hk owned
sync_by-rflags CcOp.sar c r k pending hk owned = merged r c.rflags (computed CcOp.sar c) k hk owned

-- Behind `reset` every condition is answered as before it, from the flags of the operation that
-- was pending, where one is pending that computes all its flags from its operands (none of the
-- rotates and products).
pub cond_holds-reset :
    (cc : Cc) (c : Cpu)
    → IsPending c.flags.cc_op
    → cond_holds cc (reset c).flags ≡ cond_holds cc c.flags
unfolding reset cf pf zf sf of sync_flags
cond_holds-reset cc c pending =
    cond_holds_ext cc (reset c).flags c.flags (same 0 refl (omega arith))
      (same 2 refl (omega arith)) (same 6 refl (omega arith)) (same 7 refl (omega arith))
      (same 11 refl (omega arith))
  where
    same :
        (k : ℕ)
        → is_owned k ≡ true
        → k < 64
        → nonzero (
            bit_and
              (sync_by c.flags.cc_op (record (c.flags) { rflags = Rflags.always_one })).rflags
              (2 ^ k))
          ≡ nonzero (bit_and (sync_by c.flags.cc_op c.flags).rflags (2 ^ k))
    same k owned hk = sync_by-rflags c.flags.cc_op c.flags Rflags.always_one k pending hk owned
