-- ===== src/Blocks/Targets.antt =====
-- src/emu/include/emu/branch_target_cache.h: the last target of each branch, in a table of 256
-- entries that branches share.
use pico_cpu.Prelude.{
  ℕ, ◌-◌, ◌≡◌, refl, ap, sym, bit_and, true, false, ◌==◌, ==_iff, Bool-cases, inl, inr, ◌⊎◌,
  if◌then◌else◌, shr, arith,
}

pub record Target : Type 0 where
  pub branch_pc : ℕ
  pub target_pc : ℕ

pub record BranchTargetCache : Type 0 where
  pub entries : ℕ → Target
  pub hits : ℕ
  pub misses : ℕ

abbrev pub index : ℕ → ℕ
index branch_pc = bit_and (shr branch_pc 2) (256 - 1)

unfoldable pub predict : ℕ → BranchTargetCache → ℕ
predict branch_pc c =
    let e = c.entries (index branch_pc) in if e.branch_pc == branch_pc then e.target_pc else 0

unfoldable pub record_target : ℕ → ℕ → BranchTargetCache → BranchTargetCache
record_target branch_pc target_pc c = record c {
  entries = λ i.
      if i == index branch_pc
      then record { branch_pc = branch_pc; target_pc = target_pc }
      else c.entries i;
}

unfoldable pub clear_targets : BranchTargetCache → BranchTargetCache
clear_targets c = record {
  entries = λ i. record { branch_pc = 0; target_pc = 0 };
  hits = 0;
  misses = 0;
}

-- After a branch is recorded its target is predicted, another branch of the same entry has the
-- prediction 0, and every other branch keeps its own.
pub predict-record_target :
    (b p t : ℕ) (c : BranchTargetCache)
    → predict b (record_target p t c)
      ≡ (if p == b then t else if index b == index p then 0 else predict b c)
unfolding predict record_target
predict-record_target b p t c = elim (Bool-cases (index b == index p)) [
  | inl e ↦ rw e refl
  | inr e ↦ let other : (p == b) ≡ false = distinct (Bool-cases (p == b)) e in rw (e, other) refl
]
  where
    distinct :
        ((p == b) ≡ true) ⊎ ((p == b) ≡ false) → (index b == index p) ≡ false → (p == b) ≡ false
    distinct (inl q) e =
        let same : (index b == index p) ≡ true =
          (==_iff (index b) (index p)).1 (ap index (sym ((==_iff p b).0 q))) in
        ground arith
    distinct (inr q) e = q
