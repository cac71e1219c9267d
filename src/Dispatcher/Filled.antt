-- ===== src/Dispatcher/Filled.antt =====
-- No block of the cache is empty: a block that is decoded has an instruction, or the decoding failed.
use pico_cpu.Prelude.{
  ℕ, zero, suc, ◌+◌, ◌≡◌, refl, inl, inr, true, false, Option, none, some, List, [], ◌∷◌, ◌++◌,
  ◌==◌, Bool-cases, add64,
}
use pico_cpu.Error.{Status, fail}
use pico_cpu.Ir.{Insn, DecodedBlock}
use pico_cpu.Peephole.{fold_each, fold_from, fold_opaque_jcc, peephole_block}
use pico_cpu.Blocks.Cache.{
  Entry, BlockCache, find, assign, sweep, overlaps, lookup, insert, invalidate_range,
}
use pico_cpu.Blocks.Decode.{
  Decoded, decode_loop, decode_block, append, ends_block, finish, after_decode, stop,
}
use pico_cpu.Dispatcher.{sweep_all}

abbrev pub IsFull : List Insn → Type 0
IsFull [] = ⊥
IsFull (_ ∷ _) = Unit

abbrev pub IsFilled : DecodedBlock → Type 0
IsFilled b = IsFull b.insns

abbrev pub AreFilled : List Entry → Type 0
AreFilled [] = Unit
AreFilled ((k, b) ∷ rest) = IsFilled b × AreFilled rest

append-IsFull : (xs : List Insn) (i : Insn) → IsFull (xs ++ (i ∷ []))
append-IsFull [] i = tt
append-IsFull (x ∷ xs) i = tt

fold_from-IsFull : (a : Insn) (xs : List Insn) (n : ℕ) → IsFull ((fold_from a xs n).0)
unfolding fold_from
fold_from-IsFull a [] n = tt
fold_from-IsFull a (b ∷ xs) n = tt

fold_opaque_jcc-IsFull : (xs : List Insn) (n : ℕ) → IsFull xs → IsFull ((fold_opaque_jcc xs n).0)
unfolding fold_opaque_jcc
fold_opaque_jcc-IsFull [] n h = elim h [ ]
fold_opaque_jcc-IsFull (a ∷ xs) n h = fold_from-IsFull a xs n

fold_each-IsFull : (xs : List Insn) (n : ℕ) → IsFull xs → IsFull ((fold_each xs n).0)
unfolding fold_each
fold_each-IsFull [] n h = elim h [ ]
fold_each-IsFull (i ∷ xs) n h = tt

-- A decoder that fails gives a status that says so.
abbrev pub Clear : {S : Type 0} → Decoded × S → Type 0
Clear (Decoded.failed st, s) = fail st ≡ true
Clear (Decoded.insn i, s) = Unit

abbrev pub FailsClearly : {S : Type 0} → (ℕ → S → Decoded × S) → Type 0
FailsClearly {S} decode_one = (pc : ℕ) (s : S) → Clear (decode_one pc s)

abbrev pub Filled : {S : Type 0} → Status × (DecodedBlock × S) → Type 0
Filled (st, (out, s)) = fail st ≡ false → IsFilled out

module _ {S : Type 0} (decode_one : ℕ → S → Decoded × S) (clear : FailsClearly decode_one) where
  stop-Filled :
      (st : Status) (out : DecodedBlock) (s : S) → fail st ≡ true → Filled (stop st out, (out, s))
  stop-Filled st out s h = on_insns out.insns
    where
      on_insns :
          (xs : List Insn) → fail (elim xs [ [] ↦ st | _ ∷ _ ↦ Status.ok ]) ≡ false → IsFull xs
      on_insns [] e = cc
      on_insns (x ∷ xs) e = tt

  after_decode-Filled :
      (r : Decoded × S) (out : DecodedBlock) (more : Insn → Status × (DecodedBlock × S))
      → Clear r
      → ((i : Insn) → Filled (more i))
      → Filled (after_decode decode_one r.0 out r.1 more)
  after_decode-Filled (Decoded.failed st, s) out more h k = stop-Filled st out s h
  after_decode-Filled (Decoded.insn i, s) out more h k = elim (Bool-cases (ends_block i)) [
    | inl e ↦ rw e (λ _. append-IsFull out.insns i)
    | inr e ↦ rw e (k i)
  ]

  decode_loop-Filled :
      (left cur : ℕ) (out : DecodedBlock) (s : S)
      → IsFilled out
      → Filled (decode_loop decode_one left cur out s)
  unfolding decode_loop
  decode_loop-Filled zero cur out s h = λ _. h
  decode_loop-Filled (suc left) cur out s h =
      after_decode-Filled (decode_one cur s) out _ (clear cur s)
        λ i. decode_loop-Filled left (add64 cur i.len) (append out i) _ (append-IsFull out.insns i)

  first-Filled :
      (left cur : ℕ) (out : DecodedBlock) (s : S)
      → Filled (decode_loop decode_one (suc left) cur out s)
  unfolding decode_loop
  first-Filled left cur out s =
      after_decode-Filled (decode_one cur s) out _ (clear cur s)
        λ i. decode_loop-Filled left (add64 cur i.len) (append out i) _ (append-IsFull out.insns i)

  finish-Filled :
      (r : Status × (DecodedBlock × S)) (n : ℕ) → Filled r → Filled (finish decode_one r n)
  unfolding peephole_block
  finish-Filled (Status.ok, (out, s)) n h = λ _.
      fold_opaque_jcc-IsFull ((fold_each out.insns n).0) ((fold_each out.insns n).1)
        (fold_each-IsFull out.insns n (h refl))
  finish-Filled (_, (out, s)) n h = h

  pub decode_block-Filled :
      (pc left folded : ℕ) (s : S) → Filled (decode_block decode_one pc (suc left) folded s)
  unfolding decode_block
  decode_block-Filled pc left folded s = finish-Filled _ folded (first-Filled left pc _ s)

sweep-AreFilled : (addr size : ℕ) (es : List Entry) → AreFilled es → AreFilled (sweep addr size es)
sweep-AreFilled addr size [] h = tt
sweep-AreFilled addr size ((k, b) ∷ rest) (first, h) =
    let ih = sweep-AreFilled addr size rest h in
    elim (Bool-cases (overlaps addr size k b)) [ inl e ↦ rw e ih | inr e ↦ rw e (first, ih) ]

pub sweep_all-AreFilled :
    (ranges : List (ℕ × ℕ)) (c : BlockCache)
    → AreFilled c.blocks
    → AreFilled (sweep_all ranges c).blocks
unfolding invalidate_range
sweep_all-AreFilled [] c h = h
sweep_all-AreFilled ((addr, size) ∷ rest) c h =
    sweep_all-AreFilled rest (invalidate_range addr size c) (elim (Bool-cases (size == 0)) [
      | inl e ↦ rw e h
      | inr e ↦ rw e (sweep-AreFilled addr size c.blocks h)
    ])

assign-AreFilled :
    (pc : ℕ) (block : DecodedBlock) (es : List Entry)
    → IsFilled block
    → AreFilled es
    → AreFilled (assign pc block es)
assign-AreFilled pc block [] full h = (full, tt)
assign-AreFilled pc block ((k, b) ∷ rest) full (first, h) =
    let ih = assign-AreFilled pc block rest full h in
    elim (Bool-cases (k == pc)) [ inl e ↦ rw e (full, h) | inr e ↦ rw e (first, ih) ]

pub insert-AreFilled :
    (pc : ℕ) (block : DecodedBlock) (c : BlockCache)
    → IsFilled block
    → AreFilled c.blocks
    → AreFilled (insert pc block c).blocks
unfolding insert
insert-AreFilled pc block c = assign-AreFilled pc block c.blocks

abbrev pub MaybeFilled : Option DecodedBlock → Type 0
MaybeFilled none = Unit
MaybeFilled (some b) = IsFilled b

find-MaybeFilled : (pc : ℕ) (es : List Entry) → AreFilled es → MaybeFilled (find pc es)
find-MaybeFilled pc [] h = tt
find-MaybeFilled pc ((k, b) ∷ rest) (first, h) =
    let ih = find-MaybeFilled pc rest h in
    elim (Bool-cases (k == pc)) [ inl e ↦ rw e first | inr e ↦ rw e ih ]

pub lookup-AreFilled :
    (pc : ℕ) (c : BlockCache)
    → AreFilled c.blocks
    → MaybeFilled (lookup pc c).0 × AreFilled (lookup pc c).1.blocks
unfolding lookup
lookup-AreFilled pc c h = (find-MaybeFilled pc c.blocks h, counted (find pc c.blocks))
  where
    counted :
        (o : Option DecodedBlock)
        → AreFilled
            (elim o as (λ _. BlockCache) [
              | none ↦ record c { misses = c.misses + 1 }
              | some b ↦ record c { hits = c.hits + 1 }
            ]).blocks
    counted none = h
    counted (some b) = h
