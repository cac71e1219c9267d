-- ===== src/Blocks/Decode/Size.antt =====
-- The size of a decoded block against the lengths of its instructions.
use pico_cpu.Prelude.{
  ℕ, zero, suc, ◌+◌, ◌≡◌, refl, ap, sym, ◌∙◌, Bool, true, false, List, [], ◌∷◌, ◌++◌, if◌then◌else◌,
  u32, add64, arith,
}
use pico_cpu.Error.{Status}
use pico_cpu.Ir.{Insn, DecodedBlock}
use pico_cpu.Peephole.{
  fold_one, make_nop, fold_each, fold_pair, fold_from, fold_opaque_jcc, peephole_block,
}
use pico_cpu.Blocks.Decode.{
  Decoded, decode_loop, decode_block, append, ends_block, finish, after_decode,
}

-- The bytes of the instructions.
abbrev pub total : List Insn → ℕ
total [] = 0
total (i ∷ rest) = i.len + total rest

total-append : (xs : List Insn) (i : Insn) → total (xs ++ (i ∷ [])) ≡ total xs + i.len
total-append [] i = omega arith
total-append (x ∷ xs) i = let ih = total-append xs i in omega arith

pick :
    (t : Bool) (p q : Insn × ℕ) (l : ℕ) → p.0.len ≡ l → q.0.len ≡ l → (if t then p else q).0.len ≡ l
pick true p q l hp hq = hp
pick false p q l hp hq = hq

-- The junk-fold pass keeps the length of every instruction.
len-fold_one : (i : Insn) (n : ℕ) → (fold_one i n).0.len ≡ i.len
unfolding fold_one make_nop
len-fold_one i n = pick _ _ _ i.len refl refl

len-fold_pair : (a b : Insn) (n : ℕ) → (fold_pair a b n).0.len ≡ b.len
unfolding fold_pair
len-fold_pair a b n = pick _ _ _ b.len refl refl

total-fold_each : (xs : List Insn) (n : ℕ) → total ((fold_each xs n).0) ≡ total xs
unfolding fold_each
total-fold_each [] n = refl
total-fold_each (x ∷ xs) n =
    let one = len-fold_one x n in let ih = total-fold_each xs ((fold_one x n).1) in omega arith

total-fold_from :
    (a : Insn) (xs : List Insn) (n : ℕ) → total ((fold_from a xs n).0) ≡ a.len + total xs
unfolding fold_from
total-fold_from a [] n = refl
total-fold_from a (b ∷ rest) n =
    let one = len-fold_pair a b n in
    let ih = total-fold_from ((fold_pair a b n).0) rest ((fold_pair a b n).1) in omega arith

total-fold_opaque_jcc : (xs : List Insn) (n : ℕ) → total ((fold_opaque_jcc xs n).0) ≡ total xs
unfolding fold_opaque_jcc
total-fold_opaque_jcc [] n = refl
total-fold_opaque_jcc (a ∷ rest) n = total-fold_from a rest n

total-peephole_block :
    (b : DecodedBlock) (n : ℕ) → total (peephole_block b n).0.insns ≡ total b.insns
unfolding peephole_block
total-peephole_block b n =
    total-fold_opaque_jcc ((fold_each b.insns n).0) ((fold_each b.insns n).1)
    ∙ total-fold_each b.insns n

abbrev pub IsSized : DecodedBlock → Type 0
IsSized out = out.byte_size ≡ u32 (total out.insns)

append-IsSized : (out : DecodedBlock) (i : Insn) → IsSized out → IsSized (append out i)
append-IsSized out i h = let t = total-append out.insns i in omega arith

module _ {S : Type 0} (decode_one : ℕ → S → Decoded × S) where
  abbrev Result : Type 0
  Result = Status × (DecodedBlock × S)

  after_decode-IsSized :
      (r : Decoded) (out : DecodedBlock) (s : S) (more : Insn → Result)
      → IsSized out
      → ((i : Insn) → IsSized (more i).1.0)
      → IsSized (after_decode decode_one r out s more).1.0
  after_decode-IsSized (Decoded.failed st) out s more h k = h
  after_decode-IsSized (Decoded.insn i) out s more h k = branch (ends_block i)
    where
      branch : (t : Bool) → IsSized (if t then (Status.ok, (append out i, s)) else more i).1.0
      branch true = append-IsSized out i h
      branch false = k i

  decode_loop-IsSized :
      (left cur : ℕ) (out : DecodedBlock) (s : S)
      → IsSized out
      → IsSized (decode_loop decode_one left cur out s).1.0
  unfolding decode_loop
  decode_loop-IsSized zero cur out s h = h
  decode_loop-IsSized (suc left) cur out s h =
      after_decode-IsSized ((decode_one cur s).0) out ((decode_one cur s).1) _ h
        λ i. decode_loop-IsSized left (add64 cur i.len) (append out i) _ (append-IsSized out i h)

  finish-IsSized : (r : Result) (n : ℕ) → IsSized r.1.0 → IsSized (finish decode_one r n).1.0
  unfolding peephole_block
  finish-IsSized (Status.ok, (out, s)) n h = h ∙ ap u32 (sym (total-peephole_block out n))
  finish-IsSized (_, (out, s)) n h = h

  -- For every decoder of single instructions and every number of them the byte size of a decoded
  -- block is the sum of the lengths of its instructions modulo 2^32, after the junk-fold pass as
  -- well.
  pub decode_block-IsSized :
      (pc max_insns folded : ℕ) (s : S)
      → IsSized (decode_block decode_one pc max_insns folded s).1.0
  unfolding decode_block
  decode_block-IsSized pc max_insns folded s =
      finish-IsSized
        (decode_loop decode_one max_insns pc (record { pc = pc; byte_size = 0; insns = [] }) s)
        folded (decode_loop-IsSized max_insns pc _ s refl)
