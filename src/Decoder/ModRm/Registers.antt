-- ===== src/Decoder/ModRm/Registers.antt =====
-- The registers of a decoded operand.
use pico_cpu.Prelude.{
  ℕ, zero, suc, ◌+◌, ◌/◌, ◌≤◌, ◌%◌, ◌^◌, ◌<◌, ◌≡◌, ◌≢◌, ◌⊎◌, inl, inr, refl, ap, ◌∙◌, Bool, true,
  false, not, ◌&&◌, ◌==◌, bit_and, bit_or, if_split, if◌then◌else◌, shr, u8, arith,
}
use Prim.Native.Nat.{bit_or-bitwise}
use pico_cpu.Prelude.Bits.Masks.{bit_and_low}
use pico_cpu.Ir.{OperandKind, Operand, no_reg, rsp}
use pico_cpu.Decoder.Source.{Got, Source, Step, Fetch, bind, read_byte, with_value, pure}
use pico_cpu.Decoder.Prefixes.{Prefixes, rex_x, rex_b}
use pico_cpu.Decoder.ModRm.{
  ModRm, combine_reg, split_sib, is_high_byte, register_of, displacement, disp32, rip_form,
  sib_form, base_form, sib_displacement, after_sib, decode_rm_operand,
}

-- The register of a field, with its extension bit.
abbrev pub number : Bool → ℕ → ℕ
number ext field = field % 8 + (if ext then 8 else 0)

-- The field names AH, CH, DH or BH.
abbrev pub IsHigh : Prefixes → ℕ → ℕ → Type 0
IsHigh px op_size field = (op_size ≡ 1) × (px.has_rex ≡ false) × (4 ≤ field) × (field ≤ 7)

-- The high byte registers have the indices from 16 on.
abbrev pub IsRegister : Prefixes → Bool → ℕ → ℕ → ℕ → Type 0
IsRegister px ext op_size field r =
    (IsHigh px op_size field × (r ≡ field + 12))
    ⊎ ((IsHigh px op_size field → ⊥) × (r ≡ number ext field))

-- A SIB byte has its base in the bits 0 to 2, where 5 under the mode 0 stands for none.
abbrev pub IsBase : Prefixes → ℕ → ℕ → ℕ → Type 0
IsBase px mod_field b r =
    ((b % 8 ≡ 5) × (mod_field ≡ 0) × (r ≡ no_reg))
    ⊎ ((((b % 8 ≡ 5) × (mod_field ≡ 0)) → ⊥) × (r ≡ number (rex_b px) b))

-- The number of RSP stands for no index.
abbrev pub IsIndexOf : Bool → ℕ → ℕ → Type 0
IsIndexOf ext field r =
    ((number ext field ≡ rsp) × (r ≡ no_reg)) ⊎ ((number ext field ≢ rsp) × (r ≡ number ext field))

-- It has its index in the bits 3 to 5.
abbrev pub IsIndex : Prefixes → ℕ → ℕ → Type 0
IsIndex px b r = IsIndexOf (rex_x px) (b / 8) r

-- The SIB byte is the next one, and its two upper bits give the scale.
abbrev pub IsSibForm : Prefixes → ModRm → Got ℕ → Operand → Type 0
IsSibForm px m next op =
    (m.rm ≡ 4)
    × ((b : ℕ) × ((next ≡ Got.got b)
          × IsBase px m.mod_field b op.reg
          × IsIndex px b op.index
          × (op.scale ≡ 2 ^ (b / 64))))

abbrev pub IsBaseForm : Prefixes → ModRm → Operand → Type 0
IsBaseForm px m op =
    (m.rm ≢ 4)
    × (((m.mod_field ≡ 0) × (m.rm ≡ 5)) → ⊥)
    × (op.reg ≡ number (rex_b px) m.rm)
    × (op.index ≡ no_reg)

-- The registers that a ModRM byte stands for, where `next` is the byte behind it.
abbrev pub IsOperand : Prefixes → ModRm → ℕ → Got ℕ → Operand → Type 0
IsOperand px m op_size next op = elim (op.kind) [
  | OperandKind.reg ↦ (m.mod_field ≡ 3) × IsRegister px (rex_b px) op_size m.rm op.reg
  | OperandKind.mem ↦ (m.mod_field ≢ 3) × (IsSibForm px m next op ⊎ IsBaseForm px m op)
  | OperandKind.rip_rel_mem ↦
      (m.mod_field ≡ 0) × (m.rm ≡ 5) × (op.reg ≡ no_reg) × (op.index ≡ no_reg)
  | _ ↦ ⊥
]

-- Whatever a step gives satisfies `P`.
abbrev pub Gives : {S A : Type 0} → (A → Type 0) → Got A × Source S → Type 0
Gives P (Got.got a, s) = P a
Gives P (Got.failed st, s) = Unit

with_value-Gives :
    {S A B : Type 0} (P : B → Type 0) (m : Step S A) (f : A → B) (s : Source S)
    → ((a : A) → P (f a))
    → Gives P (with_value m f s)
with_value-Gives {S = S} {A = A} P m f s h = given (m s)
  where
    given : (r : Got A × Source S) → Gives P (bind r (λ a. pure (f a)))
    given (Got.got a, s) = h a
    given (Got.failed st, s) = tt

eight : (d : ℕ) → d < 8 → bit_or 8 d ≡ d + 8
eight zero h = refl
eight (suc zero) h = refl
eight (suc (suc zero)) h = refl
eight (suc (suc (suc zero))) h = refl
eight (suc (suc (suc (suc zero)))) h = refl
eight (suc (suc (suc (suc (suc zero))))) h = refl
eight (suc (suc (suc (suc (suc (suc zero)))))) h = refl
eight (suc (suc (suc (suc (suc (suc (suc zero))))))) h = refl
eight (suc (suc (suc (suc (suc (suc (suc (suc d)))))))) h = absurd (omega arith)

-- The extension bit is bit 3 of the register.
pub combine_reg_value : (ext : Bool) (r : ℕ) → combine_reg ext r ≡ r % 8 + (if ext then 8 else 0)
combine_reg_value true r =
    let low = bit_and_low 3 r in ap (bit_or 8) low ∙ eight (r % 2 ^ 3) (omega arith)
combine_reg_value false r =
    let low = bit_and_low 3 r in
    let none_set : bit_or 0 (r % 8) ≡ r % 8 = bit_or-bitwise 0 (r % 8) in
    ap (bit_or 0) low ∙ none_set ∙ omega arith

scale_value : (k : ℕ) → k < 4 → u8 (2 ^ k) ≡ 2 ^ k
scale_value zero h = refl
scale_value (suc zero) h = refl
scale_value (suc (suc zero)) h = refl
scale_value (suc (suc (suc zero))) h = refl
scale_value (suc (suc (suc (suc k)))) h = absurd (omega arith)

-- What a SIB byte stands for.
split_sib_valid :
    (b mod_field : ℕ) (px : Prefixes)
    → b < 256
    → IsBase px mod_field b (split_sib b mod_field (rex_x px) (rex_b px)).base
      × IsIndex px b (split_sib b mod_field (rex_x px) (rex_b px)).index
      × ((split_sib b mod_field (rex_x px) (rex_b px)).scale ≡ 2 ^ (b / 64))
unfolding split_sib
split_sib_valid b mod_field px small =
    let low : bit_and b 7 ≡ b % 8 = bit_and_low 3 b in
    (
      if_split (IsBase px mod_field b) ((bit_and b 7 == 5) && (mod_field == 0)) _ _
          (λ q. inl (ground (arith, q, low), ground (arith, q), refl))
          (λ q. inr (
            (λ (five, zero_mode). ground (arith, q, low, five, zero_mode)),
            combine_reg_value (rex_b px) (bit_and b 7)
                ∙ ap (λ f. number (rex_b px) f) low
                ∙ omega arith,
          )),
      index (bit_and (shr b 3) 7) (bit_and_low 3 (shr b 3)) (rex_x px),
      scale_value (shr b 6) (omega arith),
    )
  where
    index :
        (f : ℕ)
        → f ≡ shr b 3 % 2 ^ 3
        → (x : Bool) → IsIndexOf x (b / 8) (if (f == 4) && not x then no_reg else combine_reg x f)
    index f e true =
        if_split (IsIndexOf true (b / 8)) ((f == 4) && false) _ _ (λ q. absurd (ground (arith, q)))
          (λ q. inr ((λ r. omega (arith, r)), omega (arith, e, combine_reg_value true f)))
    index f e false =
        if_split (IsIndexOf false (b / 8)) ((f == 4) && true) _ _
          (λ q. let four : f ≡ 4 = ground (arith, q) in inl (omega (arith, four, e), refl))
          (λ q.
            let other : f ≢ 4 = λ r. ground (arith, q, r) in
            inr ((λ r. other (omega (arith, r, e))), omega (arith, e, combine_reg_value false f)))

module _ {S : Type 0} (fetch : Fetch S)
    (bytes : (s : Source S) → Gives (λ b. b < 256) (read_byte fetch s)) where
  bind-Gives_byte :
      {B : Type 0} (P : B → Type 0) (r : Got ℕ × Source S) (f : ℕ → Step S B)
      → Gives (λ b. b < 256) r
      → ((a : ℕ) (s : Source S) → a < 256 → r.0 ≡ Got.got a → Gives P (f a s))
      → Gives P (bind r f)
  bind-Gives_byte P (Got.got a, s) f small h = h a s small refl
  bind-Gives_byte P (Got.failed st, s) f small h = tt

  register_of_valid :
      (px : Prefixes) (ext : Bool) (op_size r : ℕ)
      → IsRegister px ext op_size r (register_of px ext op_size r).reg
  register_of_valid px ext op_size r =
      if_split (IsRegister px ext op_size r) (is_high_byte px op_size r) _ _
        (λ q. inl (
          (ground (arith, q), ground (arith, q), ground (arith, q), ground (arith, q)),
          ground (arith, q),
        ))
        (λ q. inr (
          (λ (one, plain, lo, hi). ground (arith, q, one, plain, lo, hi)),
          combine_reg_value ext r,
        ))

  -- From a source of bytes below 256, where the operand of a ModRM byte is decoded: in mode 3 it
  -- is the register of the field and its REX bit, or a high byte register just for one byte
  -- without REX and a field from 4; with a field of 4 it has the base, the index and the scale
  -- of the SIB byte, which is the next one, no base just for a field of 5 in mode 0 and no index
  -- just for 4; with a field of 5 in mode 0 it is relative to RIP; and otherwise it has the base
  -- of the field and its REX bit, and no index.
  pub decode_rm_operand-IsOperand :
      (px : Prefixes) (m : ModRm) (op_size : ℕ) (s : Source S)
      → Gives
          (IsOperand px m op_size (read_byte fetch s).0)
          (decode_rm_operand fetch px m op_size s)
  unfolding decode_rm_operand
  decode_rm_operand-IsOperand px m op_size s =
      let P =
        λ (step : Step S Operand). Gives (IsOperand px m op_size (read_byte fetch s).0) (step s) in
      if_split P (m.mod_field == 3) _ _
        (λ q. (ground (arith, q), register_of_valid px (rex_b px) op_size m.rm))
        λ memory.
          let other : m.mod_field ≢ 3 = λ e. ground (arith, memory, e) in
          if_split P ((m.mod_field == 0) && (m.rm == 5)) _ _
            (λ q.
              with_value-Gives (IsOperand px m op_size (read_byte fetch s).0) (disp32 fetch)
                (rip_form px) s (λ disp. (ground (arith, q), ground (arith, q), refl, refl)))
            λ relative.
              if_split P (m.rm == 4) _ _
                (λ q.
                  bind-Gives_byte (IsOperand px m op_size (read_byte fetch s).0) (read_byte fetch s)
                    (after_sib fetch px m) (bytes s)
                    λ b s' small is_next.
                      let sib = split_sib b m.mod_field (rex_x px) (rex_b px) in
                      with_value-Gives (IsOperand px m op_size (read_byte fetch s).0)
                        (sib_displacement fetch m.mod_field sib) (sib_form px sib) s'
                        (λ disp.
                          let (base, index, scale) = split_sib_valid b m.mod_field px small in
                          (other, inl (ground (arith, q), (b, (is_next, base, index, scale))))))
                (λ q.
                  with_value-Gives (IsOperand px m op_size (read_byte fetch s).0)
                    (displacement fetch m.mod_field) (base_form px m) s
                    λ disp. (
                      other,
                      inr (
                        (λ e. ground (arith, q, e)),
                        (λ (e, e'). ground (arith, relative, e, e')),
                        combine_reg_value (rex_b px) m.rm,
                        refl,
                      ),
                    ))
