-- ===== src/Decoder/Prefixes/Evex.antt =====
-- The register that the `vvvv` field of an EVEX prefix names.
use pico_cpu.Prelude.{
  ℕ, ◌+◌, ◌-◌, ◌*◌, ◌/◌, ◌%◌, ◌^◌, ◌<◌, ◌≡◌, ◌⊎◌, refl, ap, ◌∙◌, Bool, true, false, not, inl, inr,
  bit_and, bit_or, ◌==◌, if_split, if◌then◌else◌, u8, arith,
}
use native.Mathlib.Decide.{dec_lt}
use pico_cpu.Prelude.Bits.Masks.{bit_and_low, bit_and_single}
use pico_cpu.Memory.Provider.Bytes.Roundtrip.{disjoint_or}
use pico_cpu.Decoder.Prefixes.{Prefixes, evex, evex_fields, apply_vex_pp, clear}

-- The architecture inverts all five bits: bit 3 of the third byte above bits 3 to 6 of the second.
abbrev pub named_register : ℕ → ℕ → ℕ
named_register p2 p3 = 31 - (p3 / 8 % 2 * 16 + p2 / 8 % 16)

vex_vvvv-apply_vex_pp : (pp : ℕ) (px : Prefixes) → (apply_vex_pp pp px).vex_vvvv ≡ px.vex_vvvv
unfolding apply_vex_pp
vex_vvvv-apply_vex_pp pp px =
    let same : Prefixes → Type 0 = λ q. q.vex_vvvv ≡ px.vex_vvvv in
    if_split same (bit_and pp 3 == 1) _ _ (λ _. refl)
      λ _.
        if_split same (bit_and pp 3 == 2) _ _ (λ _. refl)
          λ _. if_split same (bit_and pp 3 == 3) _ _ (λ _. refl) (λ _. refl)

extends :
    (v p3 : ℕ) → v < 16 → (if not (clear p3 8) then u8 (bit_or v 16) else v) ≡ v + p3 / 8 % 2 * 16
extends v p3 small =
    if_split (λ t. t ≡ v + p3 / 8 % 2 * 16) (not (clear p3 8)) _ _
      (λ q. ground (arith, bit_and_single 3 p3, disjoint_or 4 v 1 small))
      (λ q. ground (arith, bit_and_single 3 p3))

if_vvvv :
    (t : Bool) (px : Prefixes)
    → (if t then record px { vex_vvvv = u8 (bit_or px.vex_vvvv 16) } else px).vex_vvvv
      ≡ (if t then u8 (bit_or px.vex_vvvv 16) else px.vex_vvvv)
if_vvvv true px = refl
if_vvvv false px = refl

-- The `vvvv` of a decoded EVEX prefix has the inverse of bits 3 to 6 of the second byte, and 16 more
-- where bit 3 of the third byte is set.
pub vex_vvvv-evex :
    (p1 p2 p3 : ℕ) (px : Prefixes)
    → (evex p1 p2 p3 px).vex_vvvv ≡ 15 - p2 / 8 % 16 + p3 / 8 % 2 * 16
unfolding evex
vex_vvvv-evex p1 p2 p3 px =
    let px' = evex_fields p1 p2 p3 px in
    let four : px'.vex_vvvv ≡ 15 - p2 / 8 % 16 =
      vex_vvvv-apply_vex_pp (bit_and p2 3) _ ∙ omega (arith, bit_and_low 4 (p2 / 2 ^ 3)) in
    if_vvvv (not (clear p3 8)) px'
    ∙ extends px'.vex_vvvv p3 (omega arith)
    ∙ ap (λ t. t + p3 / 8 % 2 * 16) four

-- The second source of a decoded EVEX prefix is never the register that the prefix names: the
-- two are 16 apart.
pub vex_vvvv-evex_wrong :
    (p1 p2 p3 : ℕ) (px : Prefixes)
    → ((evex p1 p2 p3 px).vex_vvvv ≡ named_register p2 p3 + 16)
      ⊎ ((evex p1 p2 p3 px).vex_vvvv + 16 ≡ named_register p2 p3)
vex_vvvv-evex_wrong p1 p2 p3 px =
    let e = vex_vvvv-evex p1 p2 p3 px in
    elim (dec_lt (p3 / 8 % 2) 1) [ yes p ↦ inr (omega arith) | no p ↦ inl (omega arith) ]
