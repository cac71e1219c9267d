-- ===== src/Blocks/Cache/Lookup.antt =====
-- What a lookup finds after an insertion and after an invalidation.
use pico_cpu.Prelude.{
  ℕ, ◌+◌, ◌^◌, ◌<◌, ◌≤◌, ◌≡◌, ◌⊎◌, refl, ap, ◌∙◌, sym, true, false, List, [], ◌∷◌, Option, none,
  some, ◌==◌, ==_iff, Bool-cases, inl, inr, arith, subst, if◌then◌else◌, if_split, add64,
}
use native.Mathlib.Decide.{dec_lt}
use pico_cpu.Ir.{DecodedBlock}
use pico_cpu.Blocks.Cache.{
  Entry, BlockCache, find, assign, sweep, overlaps, lookup, insert, invalidate_range,
}

-- No address occurs twice.
abbrev pub IsUnique : List Entry → Type 0
IsUnique [] = Unit {0}
IsUnique ((k, b) ∷ rest) = (find k rest ≡ none) × IsUnique rest

find-assign :
    (pc l : ℕ) (block : DecodedBlock) (es : List Entry)
    → find l (assign pc block es) ≡ (if pc == l then some block else find l es)
find-assign pc l block [] = refl
find-assign pc l block ((k, b) ∷ rest) = let ih = find-assign pc l block rest in grind arith

assign-IsUnique :
    (pc : ℕ) (block : DecodedBlock) (es : List Entry) → IsUnique es → IsUnique (assign pc block es)
assign-IsUnique pc block [] h = (refl, tt)
assign-IsUnique pc block ((k, b) ∷ rest) (absent, h) = elim (Bool-cases (k == pc)) [
  | inl e ↦ rw e (subst (λ t. find t rest ≡ none) ((==_iff k pc).0 e) absent, h)
  | inr e ↦
      let other : (pc == k) ≡ false = ground arith in
      rw e (
        find-assign pc k block rest
            ∙ ap (λ t. if t then some block else find k rest) other
            ∙ absent,
        assign-IsUnique pc block rest h,
      )
]

-- What is left of an entry.
abbrev pub kept : ℕ → ℕ → ℕ → Option DecodedBlock → Option DecodedBlock
kept addr size pc none = none
kept addr size pc (some b) = if overlaps addr size pc b then none else some b

find-sweep :
    (addr size pc : ℕ) (es : List Entry)
    → IsUnique es
    → find pc (sweep addr size es) ≡ kept addr size pc (find pc es)
find-sweep addr size pc [] h = refl
find-sweep addr size pc ((k, b) ∷ rest) (absent, h) = elim (Bool-cases (overlaps addr size k b)) [
  | inl o ↦ swept o (find-sweep addr size pc rest h)
  | inr o ↦ left o (find-sweep addr size pc rest h)
]
  where
    Rest : Type 0
    Rest = find pc (sweep addr size rest) ≡ kept addr size pc (find pc rest)

    swept :
        overlaps addr size k b ≡ true
        → Rest
        → find pc (sweep addr size ((k, b) ∷ rest)) ≡ kept addr size pc (find pc ((k, b) ∷ rest))
    swept o ih = elim (Bool-cases (k == pc)) [
      | inl e ↦
          let p = (==_iff k pc).0 e in
          rw (o, e)
            (ih
              ∙ ap (kept addr size pc) (subst (λ t. find t rest ≡ none) p absent)
              ∙ sym (
                  ap (λ t. if t then none else some b)
                    (subst (λ t. overlaps addr size t b ≡ true) p o)))
      | inr e ↦ rw (o, e) ih
    ]

    left :
        overlaps addr size k b ≡ false
        → Rest
        → find pc (sweep addr size ((k, b) ∷ rest)) ≡ kept addr size pc (find pc ((k, b) ∷ rest))
    left o ih = elim (Bool-cases (k == pc)) [
      | inl e ↦
          let p = (==_iff k pc).0 e in
          rw (o, e)
            (sym (
              ap (λ t. if t then none else some b)
                (subst (λ t. overlaps addr size t b ≡ false) p o)))
      | inr e ↦ rw (o, e) ih
    ]

-- After an insertion a lookup of its address finds the block, and a lookup of any other address
-- what it found before.
pub lookup-insert :
    (pc l : ℕ) (block : DecodedBlock) (c : BlockCache)
    → (lookup l (insert pc block c)).0 ≡ (if pc == l then some block else (lookup l c).0)
unfolding lookup insert
lookup-insert pc l block c = find-assign pc l block c.blocks

lookup-invalidated :
    (addr size pc : ℕ) (c : BlockCache)
    → IsUnique c.blocks
    → 0 < size
    → (lookup pc (invalidate_range addr size c)).0 ≡ kept addr size pc ((lookup pc c).0)
unfolding lookup invalidate_range
lookup-invalidated addr size pc c h some_bytes =
    let not_zero : (size == 0) ≡ false = ground arith in
    rw not_zero (find-sweep addr size pc c.blocks h)

-- The block at `pc` has a byte of the range.
abbrev pub Shares : ℕ → ℕ → ℕ → DecodedBlock → Type 0
Shares addr size pc b =
    (x : ℕ) × ((addr ≤ x) × (x < addr + size) × (pc ≤ x) × (x < pc + b.byte_size))

-- A block with bytes that does not wrap.
abbrev pub HasBytes : ℕ → Option DecodedBlock → Type 0
HasBytes pc none = Unit {0}
HasBytes pc (some b) = (0 < b.byte_size) × (pc + b.byte_size < 2 ^ 64)

-- What a lookup found before, and what it finds after.
abbrev pub Invalidated : ℕ → ℕ → ℕ → Option DecodedBlock → Option DecodedBlock → Type 0
Invalidated addr size pc none after = after ≡ none
Invalidated addr size pc (some b) after =
    (Shares addr size pc b × (after ≡ none)) ⊎ ((Shares addr size pc b → ⊥) × (after ≡ some b))

kept-Invalidated :
    (addr size pc : ℕ) (o : Option DecodedBlock)
    → 0 < size
    → addr + size < 2 ^ 64
    → HasBytes pc o
    → Invalidated addr size pc o (kept addr size pc o)
kept-Invalidated addr size pc none some_bytes fits h = refl
kept-Invalidated addr size pc (some b) some_bytes fits (has, narrow) =
    let hi : add64 addr size ≡ addr + size = omega (arith, fits) in
    let end : add64 pc b.byte_size ≡ pc + b.byte_size = omega (arith, narrow) in
    if_split (Invalidated addr size pc (some b)) (overlaps addr size pc b) _ _
      (λ o. inl (
        let before : pc < addr + size = ground (arith, o, hi) in
        let after : addr < pc + b.byte_size = ground (arith, o, end) in
        elim (dec_lt addr pc) [
          | yes p ↦ ((pc, (omega arith, omega arith, omega arith, omega arith)), refl)
          | no p ↦ ((addr, (omega arith, omega arith, omega arith, omega arith)), refl)
        ]))
      (λ o. inr ((λ (x, (lo, up, from, to)). ground (arith, o, hi, end, lo, up, from, to)), refl))

-- In a block cache without a repeated address, after the invalidation of a range that is not
-- empty a lookup finds the block found before, if that has no byte in the range, and nothing
-- otherwise; the range does not reach 2^64, and neither does the block, which has a byte.
pub lookup-invalidate_range :
    (addr size pc : ℕ) (c : BlockCache)
    → IsUnique c.blocks
    → 0 < size
    → addr + size < 2 ^ 64
    → HasBytes pc ((lookup pc c).0)
    → Invalidated addr size pc ((lookup pc c).0) ((lookup pc (invalidate_range addr size c)).0)
lookup-invalidate_range addr size pc c h some_bytes fits has =
    subst (Invalidated addr size pc ((lookup pc c).0))
      (sym (lookup-invalidated addr size pc c h some_bytes))
      (kept-Invalidated addr size pc ((lookup pc c).0) some_bytes fits has)

sweep-IsUnique : (addr size : ℕ) (es : List Entry) → IsUnique es → IsUnique (sweep addr size es)
sweep-IsUnique addr size [] h = tt
sweep-IsUnique addr size ((k, b) ∷ rest) (absent, h) =
    let ih = sweep-IsUnique addr size rest h in
    elim (Bool-cases (overlaps addr size k b)) [
      | inl o ↦ rw o ih
      | inr o ↦ rw o (find-sweep addr size k rest h ∙ ap (kept addr size k) absent, ih)
    ]

-- Insertion and invalidation keep the addresses of a block cache unique.
pub blocks-IsUnique :
    (pc addr size : ℕ) (block : DecodedBlock) (c : BlockCache)
    → IsUnique c.blocks
    → IsUnique (insert pc block c).blocks × IsUnique (invalidate_range addr size c).blocks
unfolding insert invalidate_range
blocks-IsUnique pc addr size block c h = (
  assign-IsUnique pc block c.blocks h,
  elim (Bool-cases (size == 0)) [
    | inl e ↦ rw e h
    | inr e ↦ rw e (sweep-IsUnique addr size c.blocks h)
  ],
)
