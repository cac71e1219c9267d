-- ===== src/Handlers/Division.antt =====
-- The 64-bit DIV: RDX:RAX by the divisor.
use pico_cpu.Prelude.{
  ℕ, ◌+◌, ◌*◌, ◌/◌, ◌^◌, ◌<◌, ◌≤◌, ◌≡◌, Bool-cases, inl, inr, leb, arith, Option, none, some,
}
use native.Mathlib.Nat.{div-add-mod', mod-lt, le-div_iff_mul-le, div-lt_iff_lt-mul}
use pico_cpu.Cpu.State.{Cpu}
use pico_cpu.Cpu.State.Registers.{set_r64}
use pico_cpu.Ir.{rax, rdx}
use pico_cpu.Handlers.MulDiv.{div_qword, div_result}

-- RDX:RAX.
abbrev pub dividend : Cpu → ℕ
dividend c = c.gpr rdx * 2 ^ 64 + c.gpr rax

-- A fault means a quotient that does not fit; otherwise RAX is the quotient and RDX the remainder.
abbrev pub Divides : ℕ → Cpu → Option Cpu → Type 0
Divides d c none = 2 ^ 64 ≤ dividend c / d
Divides d c (some c') =
    (c'.gpr rax * d + c'.gpr rdx ≡ dividend c) × (c'.gpr rdx < d) × (c'.gpr rax < 2 ^ 64)

-- The 64-bit DIV of RDX:RAX by a positive divisor faults only if the quotient is 2^64 or more,
-- and otherwise leaves the quotient in RAX and the remainder in RDX, for a RAX below 2^64.
pub div_result-Divides :
    (d : ℕ) (c : Cpu) → 0 < d → c.gpr rax < 2 ^ 64 → Divides d c (div_result 8 d c)
unfolding div_result div_qword set_r64
div_result-Divides d c pos small = elim (Bool-cases (leb d (c.gpr rdx))) [
  | inl e ↦ rw e ((le-div_iff_mul-le pos).1 (ground arith))
  | inr e ↦
      let fits : c.gpr rdx < d = ground arith in
      rw e (
        div-add-mod' (dividend c) d,
        mod-lt (dividend c) pos,
        (div-lt_iff_lt-mul pos).1 (omega arith),
      )
]
