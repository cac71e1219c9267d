-- ===== src/Peephole/SelfMov.antt =====
-- `mov reg, reg` of one register, which the pass makes a NOP.
use pico_cpu.Prelude.{
  ℕ, ◌^◌, ◌%◌, ◌-◌, ◌<◌, ◌≤◌, ◌≡◌, refl, sym, ap, ◌∙◌, bit_and, bit_or, Bool, true, false, not,
  ◌&&◌, ◌||◌, ◌⊎◌, ◌==◌, arith, bit, not64, fun_ext, Bool-cases, ==_iff, inl, inr, some,
}
use native.Mathlib.Nat.{mod-mod}
use pico_cpu.Prelude.Bits.Masks.{bits_ext, bit_and-lt, bit_and_low, bit_or-lt, bit-not64}
use pico_cpu.Prelude.Bits.Digits.{bit-bit_and, bit-bit_or}
use pico_cpu.Cpu.Widths.{mask_for, IsSize}
use pico_cpu.Cpu.Widths.Laws.{by_size}
use pico_cpu.Cpu.State.{update}
use pico_cpu.Cpu.State.Registers.{set_r8, set_r16, set_r32, set_r64, is_high}
use pico_cpu.Ir.{Insn, Handler}
use pico_cpu.Handlers.Machine.{Machine, Attached, run}
use pico_cpu.Handlers.Operands.{
  read_operand, write_operand, read_kind, write_kind, write_register, read_register,
}
use pico_cpu.Handlers.DataMov.{op_mov, op_nop}
use pico_cpu.Peephole.{is_self_mov, same_reg, fold_one, make_nop}
use pico_cpu.Peephole.XorSelf.{same_reg-eq}

-- The bits outside a mask and the bits under it make up the word.
split_mask : (g m : ℕ) → g < 2 ^ 64 → m < 2 ^ 64 → bit_or (bit_and g (not64 m)) (bit_and g m) ≡ g
split_mask g m hg hm =
    bits_ext 64 _ g (bit_or-lt 64 _ _ (bit_and-lt 64 g (not64 m) hg) (bit_and-lt 64 g m hg)) hg
      λ k hk.
        bit-bit_or (bit_and g (not64 m)) (bit_and g m) k
        ∙ ap (λ b. b || bit (bit_and g m) k)
            (bit-bit_and g (not64 m) k ∙ ap (λ b. bit g k && b) (bit-not64 m k hm hk))
        ∙ ap (λ b. (bit g k && not (bit m k)) || b) (bit-bit_and g m k)
        ∙ choose (bit g k) (bit m k)
  where
    choose : (x y : Bool) → ((x && not y) || (x && y)) ≡ x
    choose x y = ground arith

-- Writing back what a register holds.
update-same : (file : ℕ → ℕ) (i v : ℕ) → v ≡ file i → update file i v ≡ file
update-same file i v h = fun_ext λ j. elim (Bool-cases (j == i)) [
  | inl e ↦ rw e (h ∙ ap file (sym ((==_iff j i).0 e)))
  | inr e ↦ rw e refl
]

-- `(g & ~m) | (g & m)` where `m` is the mask of the low `k` bits, and the cast leaves `g & m` alone.
low_part :
    (k g : ℕ)
    → 2 ^ k - 1 < 2 ^ 64
    → g < 2 ^ 64
    → bit_or (bit_and g (not64 (2 ^ k - 1))) (bit_and g (2 ^ k - 1) % 2 ^ k) ≡ g
low_part k g hk hg =
    ap (λ v. bit_or (bit_and g (not64 (2 ^ k - 1))) v)
      (ap (λ v. v % 2 ^ k) (bit_and_low k g) ∙ mod-mod g (2 ^ k) ∙ sym (bit_and_low k g))
    ∙ split_mask g (2 ^ k - 1) hg hk

self_mov-reg : (i : Insn) → is_self_mov i ≡ true → same_reg i ≡ true
unfolding is_self_mov
self_mov-reg i h = ground arith

module _ {S : Type 0} (env : Attached S) where
  op_mov_self :
      (i : Insn) (m : Machine S)
      → same_reg i ≡ true
      → op_mov env i m ≡ (
        some tt,
        run
            (write_register env i.dst.reg i.op_size (read_register env i.dst.reg i.op_size m.cpu))
            m,
      )
  unfolding op_mov read_operand write_operand read_kind write_kind
  op_mov_self i m h = let (hd, (hs, hr)) = same_reg-eq i h in rw (hd, hs, hr) refl

  -- The value of a register, written back to it at a width other than 4.
  abbrev IsWhole : Machine S → ℕ → ℕ → Type 0
  IsWhole m idx size = run (write_register env idx size (read_register env idx size m.cpu)) m ≡ m

  abbrev with_gpr : Machine S → (ℕ → ℕ) → Machine S
  with_gpr m f = record m { cpu = record m.cpu { gpr = f } }

  same_gpr :
      (m : Machine S) (idx v : ℕ) → v ≡ m.cpu.gpr idx → with_gpr m (update m.cpu.gpr idx v) ≡ m
  same_gpr m idx v h = ap (with_gpr m) (update-same m.cpu.gpr idx v h)

  write_back-byte :
      (idx : ℕ) (m : Machine S) → m.cpu.gpr idx < 2 ^ 64 → is_high idx ≡ false → IsWhole m idx 1
  unfolding write_register set_r8 mask_for
  write_back-byte idx m hg hh =
      rw hh (same_gpr m idx _ (low_part 8 (m.cpu.gpr idx) (omega arith) hg))

  write_back :
      (idx : ℕ) (m : Machine S)
      → m.cpu.gpr idx < 2 ^ 64
      → is_high idx ≡ false
      → (size : ℕ) → IsSize size
      → (size ≡ 4) ⊎ IsWhole m idx size
  unfolding write_register set_r16 set_r32 set_r64 mask_for
  write_back idx m hg hh =
      by_size (λ size. (size ≡ 4) ⊎ IsWhole m idx size) (inr (write_back-byte idx m hg hh))
        (inr (same_gpr m idx _ (low_part 16 (m.cpu.gpr idx) (omega arith) hg))) (inl refl)
        (inr (same_gpr m idx _ (omega (arith, bit_and_low 64 (m.cpu.gpr idx)))))

  written_32 :
      (i : Insn) (m : Machine S)
      → i.op_size ≡ 4
      → (run
            (write_register env i.dst.reg i.op_size (read_register env i.dst.reg i.op_size m.cpu))
            m).cpu.gpr
          i.dst.reg
        ≡ bit_and (m.cpu.gpr i.dst.reg) 0xFFFF_FFFF % 2 ^ 32
  unfolding write_register set_r32 mask_for
  written_32 i m h4 = rw h4 (rw ((==_iff i.dst.reg i.dst.reg).1 refl) refl)

  lost_half :
      (i : Insn) (m : Machine S)
      → i.op_size ≡ 4
      → 2 ^ 32 ≤ m.cpu.gpr i.dst.reg
      → ¬ (
          run
            (write_register env i.dst.reg i.op_size (read_register env i.dst.reg i.op_size m.cpu))
            m
          ≡ m)
  lost_half i m h4 hg e =
      let kept = sym (written_32 i m h4) ∙ ap (λ m'. m'.cpu.gpr i.dst.reg) e in omega arith

  -- Where the pass folds a MOV of a register to itself at 1, 2 or 8 bytes, of a register that is
  -- no high-byte alias, the NOP does what the MOV did, for a register below 2^64.
  pub fold_one-self_mov :
      (i : Insn) (m : Machine S) (n : ℕ)
      → is_self_mov i ≡ true
      → IsSize i.op_size
      → ¬ (i.op_size ≡ 4)
      → is_high i.dst.reg ≡ false
      → m.cpu.gpr i.dst.reg < 2 ^ 64
      → ((fold_one i n).0.handler ≡ Handler.op_nop)
        × (op_mov env i m ≡ op_nop env ((fold_one i n).0) m)
  unfolding op_nop fold_one make_nop
  fold_one-self_mov i m n h hs h4 hh hg = (
    rw h refl,
    op_mov_self i m (self_mov-reg i h)
        ∙ ap (λ m'. (some tt, m'))
            (elim (write_back i.dst.reg m hg hh i.op_size hs) [
              | inl e ↦ absurd (h4 e)
              | inr w ↦ w
            ]),
  )

  -- Where the pass folds a MOV of a register to itself at 4 bytes, and the register holds 2^32
  -- or more, the NOP does not do what the MOV did.
  pub fold_one-self_mov_32 :
      (i : Insn) (m : Machine S) (n : ℕ)
      → is_self_mov i ≡ true
      → i.op_size ≡ 4
      → 2 ^ 32 ≤ m.cpu.gpr i.dst.reg
      → ((fold_one i n).0.handler ≡ Handler.op_nop)
        × ¬ (op_mov env i m ≡ op_nop env ((fold_one i n).0) m)
  unfolding op_nop fold_one make_nop
  fold_one-self_mov_32 i m n h h4 hg = (
    rw h refl,
    λ e. lost_half i m h4 hg (ap (λ r. r.1) (sym (op_mov_self i m (self_mov-reg i h)) ∙ e)),
  )
