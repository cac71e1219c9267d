-- ===== src/Handlers/Misc.antt =====
-- src/emu/handlers/misc.cpp: the handlers above the vector ones, and CPUID, RDTSC and RDRAND of
-- src/emu/handlers/control_flow.cpp.
use pico_cpu.Prelude.{
  ℕ, zero, suc, ◌+◌, ◌-◌, ◌*◌, bit_and, bit_or, bit_xor, true, false, List, [], ◌∷◌, Option, none,
  some, ◌==◌, if◌then◌else◌, u8, u32, not64, add64, sub64, mul64, shl64, shr,
}
use pico_cpu.Error.{Status}
use pico_cpu.Cpu.Fault.{FaultKind}
use pico_cpu.Cpu.Rflags
use pico_cpu.Cpu.Lazy.{LazyFlags, sync_flags, set_flag, set_rflags}
use pico_cpu.Cpu.State.{Cpu, CpuidLeaf, on_flags}
use pico_cpu.Cpu.State.Registers.{r32, set_r32, set_r64, cpuid_lookup}
use pico_cpu.Ir.{Insn, rax, rbx, rcx, rdx, rsp}
use pico_cpu.Handlers.Machine.{Attached, Action, ◌>>=◌, ◌>>◌, pure, reads, modify, raise, ignoring}
use pico_cpu.Handlers.Operands.{read_operand, write_operand, store}
use pico_cpu.Handlers.ControlFlow.{pop_qword}

-- `rflags()` of synced flags.
abbrev pub word_of : LazyFlags → ℕ
word_of f = bit_or (sync_flags f).rflags Rflags.always_one

abbrev lahf_byte : LazyFlags → ℕ
lahf_byte f = bit_or (u8 (bit_and (word_of f) 0xD7)) 2

unfoldable pub lahf : Cpu → Cpu
lahf c =
    let v = bit_or (bit_and (c.gpr rax) (not64 0xFF00)) (shl64 (lahf_byte c.flags) 8) in
    set_r64 rax v (on_flags sync_flags c)

unfoldable pub sahf : Cpu → Cpu
sahf c =
    let ah = bit_and (shr (c.gpr rax) 8) 0xFF in
    let upper = bit_and (word_of c.flags) (not64 0xFF) in
    on_flags (λ f. set_rflags (bit_or upper (bit_or (bit_and ah 0xD5) 2)) (sync_flags f)) c

-- The loop of MOVBE from byte `i` on.
unfoldable pub reverse_from : ℕ → ℕ → ℕ → ℕ → ℕ
reverse_from size v i zero = 0
reverse_from size v i (suc left) =
    bit_or (shl64 (bit_and (shr v (8 * i)) 0xFF) (8 * (size - 1 - i)))
      (reverse_from size v (i + 1) left)

unfoldable pub reverse_bytes : ℕ → ℕ → ℕ
reverse_bytes size v = reverse_from size v 0 size

-- A word with the bits of a list set.
unfoldable pub with_bits : List ℕ → ℕ
with_bits [] = 0
with_bits (k ∷ ks) = bit_or (shl64 1 k) (with_bits ks)

unfoldable pub features_ecx : ℕ
features_ecx =
    with_bits (0 ∷ 1 ∷ 9 ∷ 12 ∷ 13 ∷ 19 ∷ 20 ∷ 22 ∷ 23 ∷ 25 ∷ 26 ∷ 27 ∷ 28 ∷ 29 ∷ 30 ∷ [])

unfoldable pub features_edx : ℕ
features_edx = with_bits (
    0 ∷ 1 ∷ 2 ∷ 3 ∷ 4 ∷ 5 ∷ 6 ∷ 7 ∷ 8 ∷ 9 ∷ 11 ∷ 12 ∷ 13 ∷ 14 ∷ 15 ∷ 16 ∷ 17 ∷ 19 ∷ 20 ∷ 21 ∷ 22
    ∷ 23 ∷ 24 ∷ 25 ∷ 26 ∷ 27 ∷ 28 ∷ [])

abbrev answer : ℕ → ℕ → ℕ → ℕ → ℕ → ℕ → CpuidLeaf
answer leaf subleaf eax ebx ecx edx = record {
  leaf = leaf;
  subleaf = subleaf;
  eax = eax;
  ebx = ebx;
  ecx = ecx;
  edx = edx;
}

-- The leaves above 0x80000000.
unfoldable pub extended_leaf : ℕ → ℕ → CpuidLeaf
extended_leaf l s =
    if l == 0x8000_0000
    then answer l s 0x8000_0004 0 0 0
    else if l == 0x8000_0001
    then answer l s 0 0 0 (with_bits (29 ∷ 27 ∷ []))
    else if l == 0x8000_0002
    then answer l s 0x6C75_6D45 0x726F_7461 0x3878_2820 0x3436_2D36
    else if l == 0x8000_0003
    then answer l s 0x5550_4320 0x29 0 0
    else answer l s 0 0 0 0

-- The canned answers.
unfoldable pub default_leaf : ℕ → ℕ → CpuidLeaf
default_leaf l s =
    if l == 0
    then answer l s 0xD 0x756E_6547 0x6C65_746E 0x4965_6E69
    else if l == 1
    then answer l s (bit_or (bit_or (shl64 6 8) (shl64 5 4)) (bit_or 3 (shl64 5 16)))
        (bit_or (bit_or 1 (shl64 8 8)) (shl64 1 16)) features_ecx features_edx
    else if l == 7
    then answer l s 0 (if s == 0 then with_bits (0 ∷ 3 ∷ 5 ∷ 8 ∷ 9 ∷ []) else 0) 0 0
    else extended_leaf l s

abbrev or_default : ℕ → ℕ → Option CpuidLeaf → CpuidLeaf
or_default l s none = default_leaf l s
or_default l s (some e) = e

abbrev pub answered : CpuidLeaf → Cpu → Cpu
answered e c = set_r32 rdx e.edx (set_r32 rcx e.ecx (set_r32 rbx e.ebx (set_r32 rax e.eax c)))

unfoldable pub cpuid : Cpu → Cpu
cpuid c = let l = r32 rax c in let s = r32 rcx c in answered (or_default l s (cpuid_lookup l s c)) c

-- The `static` counter of RDTSC, and what the handler does.
unfoldable pub rdtsc : ℕ → Cpu → ℕ × Cpu
rdtsc fake_tsc c =
    let t = add64 fake_tsc 1 in (t, set_r32 rdx (u32 (shr t 32)) (set_r32 rax (u32 t) c))

-- The `static` state of RDRAND.
unfoldable pub next_random : ℕ → ℕ
next_random s =
    let a = bit_xor s (shr s 12) in let b = bit_xor a (shl64 a 25) in bit_xor b (shr b 27)

unfoldable pub rdrand_flags : LazyFlags → LazyFlags
rdrand_flags f =
    let g = set_flag Rflags.of false (set_flag Rflags.cf true (sync_flags f)) in
    set_flag Rflags.pf false
      (set_flag Rflags.af false (set_flag Rflags.sf false (set_flag Rflags.zf false g)))

module _ {S : Type 0} (env : Attached S) where
  unfoldable pub op_lahf : Insn → Action S (Unit {0})
  op_lahf insn = modify lahf

  unfoldable pub op_sahf : Insn → Action S (Unit {0})
  op_sahf insn = modify sahf

  unfoldable pub op_pushf : Insn → Action S (Unit {0})
  op_pushf insn = do
    modify (on_flags sync_flags)
    v ← reads (λ c. word_of c.flags)
    new_rsp ← reads (λ c. sub64 (c.gpr rsp) 8)
    elim (env.mem_write) [
      | none ↦ raise FaultKind.provider_failure new_rsp Status.provider_failure
      | some mp ↦ store env mp new_rsp 8 v
    ]
    modify (set_r64 rsp new_rsp)

  -- The fetch of the eight bytes is that of RET.
  unfoldable pub op_popf : Insn → Action S (Unit {0})
  op_popf insn = do
    old ← reads (λ c. c.gpr rsp)
    v ← pop_qword env
    modify (on_flags (set_rflags v))
    modify (set_r64 rsp (add64 old 8))

  abbrev breakpoint : Action S (Unit {0})
  breakpoint = do rip ← reads (λ c. c.rip); raise FaultKind.breakpoint rip Status.ok

  unfoldable pub op_int3 : Insn → Action S (Unit {0})
  op_int3 insn = breakpoint

  unfoldable pub op_int_n : Insn → Action S (Unit {0})
  op_int_n insn = breakpoint

  -- The fences, PAUSE, CLFLUSH and the prefetches.
  unfoldable pub op_fence : Insn → Action S (Unit {0})
  op_fence insn = pure tt

  unfoldable pub op_movbe : Insn → Action S (Unit {0})
  op_movbe insn = do
    v ← read_operand env insn insn.src insn.op_size
    ignoring (write_operand env insn insn.dst insn.op_size (reverse_bytes insn.op_size v))

  unfoldable pub op_cpuid : Insn → Action S (Unit {0})
  op_cpuid insn = modify cpuid

  unfoldable pub op_rdrand : ℕ → Insn → Action S (Unit {0})
  op_rdrand seed insn = do
    ignoring (
        write_operand env insn insn.dst insn.op_size
          (mul64 (next_random seed) 0x2545_F491_4F6C_DD1D))
    modify (on_flags rdrand_flags)
