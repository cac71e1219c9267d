-- ===== src/Handlers/MulDiv.antt =====
-- src/emu/handlers/arithmetic.cpp: IMUL, MUL and DIV, on the branches of the compiler that the build
-- uses (`_MSC_VER`).
use pico_cpu.Prelude.{
  ℕ, ◌+◌, ◌-◌, ◌*◌, ◌/◌, ◌%◌, ◌^◌, bit_and, bit_or, Bool, false, not, ◌==◌, leb, ltb, nonzero,
  if◌then◌else◌, Option, none, some, u8, u16, u32, not64, mul64, shl64, shr, sext,
}
use pico_cpu.Error.{Status}
use pico_cpu.Cpu.Fault.{FaultKind}
use pico_cpu.Cpu.Widths.{mask_for}
use pico_cpu.Cpu.Lazy.{stash_mul_ov}
use pico_cpu.Cpu.State.{Cpu, on_flags}
use pico_cpu.Cpu.State.Registers.{r16, r32, set_r8, set_r16, set_r32, set_r64}
use pico_cpu.Ir.{Insn, rax, rdx}
use pico_cpu.Ir.OpKind
use pico_cpu.Handlers.Machine.{Attached, Action, ◌>>=◌, ◌>>◌, pure, reads, modify, raise, ignoring}
use pico_cpu.Handlers.Operands.{read_operand, write_operand, sign_extend}

-- The 128-bit signed pattern of a 64-bit one.
abbrev wide : ℕ → ℕ
wide x = if leb (2 ^ 63) x then x + 2 ^ 128 - 2 ^ 64 else x

-- The product of `op_imul` at 64 bits, and whether it overflows.
unfoldable pub imul_wide : ℕ → ℕ → ℕ × Bool
imul_wide a b =
    let full = (wide a * wide b) % 2 ^ 128 in
    let lo = full % 2 ^ 64 in
    let high = full / 2 ^ 64 in (lo, not (high == (if leb (2 ^ 63) lo then 2 ^ 64 - 1 else 0)))

-- The same at the narrower widths.
unfoldable pub imul_narrow : ℕ → ℕ → ℕ → ℕ × Bool
imul_narrow size a b =
    let full = mul64 (sign_extend a size) (sign_extend b size) in
    let r = bit_and full (mask_for size) in (r, not (full == sign_extend r size))

unfoldable pub imul_result : ℕ → ℕ → ℕ → ℕ × Bool
unfolding imul_wide imul_narrow
imul_result size a b = if size == 8 then imul_wide a b else imul_narrow size a b

-- The cases of `op_mul`: the registers that it writes for the product, and its overflow.
abbrev mul_byte : ℕ → Cpu → Cpu × Bool
mul_byte full c = (set_r16 rax full c, nonzero (bit_and (shr full 8) 0xFF))

abbrev mul_word : ℕ → Cpu → Cpu × Bool
mul_word full c =
    let lo = bit_and full 0xFFFF in
    let hi = bit_and (shr full 16) 0xFFFF in (set_r16 rdx hi (set_r16 rax lo c), nonzero hi)

abbrev mul_dword : ℕ → Cpu → Cpu × Bool
mul_dword full c =
    let lo = bit_and full 0xFFFF_FFFF in
    let hi = bit_and (shr full 32) 0xFFFF_FFFF in (set_r32 rdx hi (set_r32 rax lo c), nonzero hi)

abbrev mul_qword : ℕ → Cpu → Cpu × Bool
mul_qword full c =
    let lo = full % 2 ^ 64 in
    let hi = full / 2 ^ 64 in (set_r64 rdx hi (set_r64 rax lo c), nonzero hi)

unfoldable pub mul_result : ℕ → ℕ → ℕ → Cpu → Cpu × Bool
mul_result size a b c =
    if size == 1
    then mul_byte (u16 (a * b)) c
    else if size == 2
    then mul_word (u32 (a * b)) c
    else if size == 4
    then mul_dword (mul64 a b) c
    else if size == 8
    then mul_qword (a * b) c
    else (c, false)

-- The cases of `op_imul1`, as those of `op_mul`. Signed values are 64-bit patterns.
abbrev imul1_byte : ℕ → ℕ → Cpu → Cpu × Bool
imul1_byte a b c =
    let u = u16 (mul64 (sext 8 a) (sext 8 b)) in
    (set_r16 rax u c, not (sext 8 (bit_and u 0xFF) == sext 16 u))

abbrev imul1_word : ℕ → ℕ → Cpu → Cpu × Bool
imul1_word a b c =
    let u = u32 (mul64 (sext 16 a) (sext 16 b)) in
    let lo = bit_and u 0xFFFF in
    let hi = bit_and (shr u 16) 0xFFFF in
    (set_r16 rdx hi (set_r16 rax lo c), not (sext 16 lo == sext 32 u))

abbrev imul1_dword : ℕ → ℕ → Cpu → Cpu × Bool
imul1_dword a b c =
    let u = mul64 (sext 32 a) (sext 32 b) in
    let lo = bit_and u 0xFFFF_FFFF in
    let hi = bit_and (shr u 32) 0xFFFF_FFFF in
    (set_r32 rdx hi (set_r32 rax lo c), not (sext 32 lo == u))

abbrev imul1_qword : ℕ → ℕ → Cpu → Cpu × Bool
imul1_qword a b c =
    let full = (wide a * wide b) % 2 ^ 128 in
    let lo = full % 2 ^ 64 in
    let hi = full / 2 ^ 64 in
    (set_r64 rdx hi (set_r64 rax lo c), not (hi == (if leb (2 ^ 63) lo then 2 ^ 64 - 1 else 0)))

unfoldable pub imul1_result : ℕ → ℕ → ℕ → Cpu → Cpu × Bool
imul1_result size a b c =
    if size == 1
    then imul1_byte a b c
    else if size == 2
    then imul1_word a b c
    else if size == 4
    then imul1_dword a b c
    else if size == 8
    then imul1_qword a b c
    else (c, false)

-- The cases of `op_div`; `none` is the fault of a quotient that does not fit.
unfoldable pub div_byte : ℕ → Cpu → Option Cpu
div_byte divisor c =
    let num = r16 rax c in
    let q = u16 (num / divisor) in
    let r = u16 (num % divisor) in
    let c' = set_r8 rax (u8 q) c in
    let ah = bit_or (bit_and (c'.gpr rax) (not64 0xFF00)) (shl64 (bit_and r 0xFF) 8) in
    if ltb 0xFF q then none else some (set_r64 rax ah c')

unfoldable pub div_word : ℕ → Cpu → Option Cpu
div_word divisor c =
    let num = bit_or (u32 (shl64 (r16 rdx c) 16)) (r16 rax c) in
    let q = u32 (num / divisor) in
    let r = u32 (num % divisor) in
    if ltb 0xFFFF q then none else some (set_r16 rdx (u16 r) (set_r16 rax (u16 q) c))

unfoldable pub div_dword : ℕ → Cpu → Option Cpu
div_dword divisor c =
    let num = bit_or (shl64 (r32 rdx c) 32) (r32 rax c) in
    let q = num / divisor in
    let r = num % divisor in
    if ltb 0xFFFF_FFFF q then none else some (set_r32 rdx (u32 r) (set_r32 rax (u32 q) c))

unfoldable pub div_qword : ℕ → Cpu → Option Cpu
div_qword divisor c =
    let hi = c.gpr rdx in
    let num = hi * 2 ^ 64 + c.gpr rax in
    if leb divisor hi
    then none
    else some (set_r64 rdx (num % divisor) (set_r64 rax (num / divisor) c))

unfoldable pub div_result : ℕ → ℕ → Cpu → Option Cpu
div_result size divisor c =
    if size == 1
    then div_byte divisor c
    else if size == 2
    then div_word divisor c
    else if size == 4
    then div_dword divisor c
    else if size == 8
    then div_qword divisor c
    else some c

module _ {S : Type 0} (env : Attached S) where
  -- The two operands, by the form of the instruction.
  abbrev imul_operands : Insn → Action S (ℕ × ℕ)
  imul_operands insn =
      if insn.kind == OpKind.imul3
      then (do a ← read_operand env insn insn.src insn.op_size; pure (a, insn.imm_extra))
      else (do
        a ← read_operand env insn insn.dst insn.op_size
        b ← read_operand env insn insn.src insn.op_size
        pure (a, b))

  unfoldable pub op_imul : Insn → Action S (Unit {0})
  op_imul insn = do
    (a, b) ← imul_operands insn
    let result = imul_result insn.op_size a b
    ignoring (write_operand env insn insn.dst insn.op_size result.0)
    modify (on_flags (stash_mul_ov result.1))

  unfoldable pub op_mul : Insn → Action S (Unit {0})
  op_mul insn = do
    b ← read_operand env insn insn.src insn.op_size
    a ← reads (λ c. bit_and (c.gpr rax) (mask_for insn.op_size))
    overflow ← reads (λ c. (mul_result insn.op_size a b c).1)
    modify (λ c. (mul_result insn.op_size a b c).0)
    modify (on_flags (stash_mul_ov overflow))

  unfoldable pub op_imul1 : Insn → Action S (Unit {0})
  op_imul1 insn = do
    b ← read_operand env insn insn.src insn.op_size
    a ← reads (λ c. bit_and (c.gpr rax) (mask_for insn.op_size))
    overflow ← reads (λ c. (imul1_result insn.op_size a b c).1)
    modify (λ c. (imul1_result insn.op_size a b c).0)
    modify (on_flags (stash_mul_ov overflow))

  abbrev divide_error : Action S (Unit {0})
  divide_error = do rip ← reads (λ c. c.rip); raise FaultKind.divide_error rip Status.ok

  abbrev finish : Option Cpu → Action S (Unit {0})
  finish none = divide_error
  finish (some c) = modify (λ _. c)

  unfoldable pub op_div : Insn → Action S (Unit {0})
  op_div insn = do
    divisor ← read_operand env insn insn.src insn.op_size
    result ← reads (div_result insn.op_size divisor)
    if divisor == 0 then divide_error else finish result
