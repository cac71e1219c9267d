-- ===== src/Cpu/State/Debug.antt =====
-- src/emu/include/emu/cpu.h: the debug registers as breakpoints.
use pico_cpu.Prelude.{
  ℕ, zero, suc, ◌+◌, ◌*◌, ◌^◌, bit_and, bit_or, Bool, true, false, ◌&&◌, ◌||◌, ◌==◌, ltb, nonzero,
  if◌then◌else◌, add64, shr,
}
use pico_cpu.Cpu.State.{Cpu, update}

-- DR6.Bn.
abbrev hit : ℕ → Cpu → Cpu
hit n c = record c { dr = update c.dr 6 (bit_or (c.dr 6) (2 ^ n)) }

abbrev enabled : ℕ → Cpu → Bool
enabled n c = nonzero (bit_and (shr (c.dr 7) (2 * n)) 3)

abbrev condition : ℕ → Cpu → ℕ
condition n c = bit_and (shr (c.dr 7) (16 + 4 * n)) 3

-- The loop over DR0 to DR3, with `left` rounds to go.
exec_loop : ℕ → ℕ → ℕ → Cpu → Bool × Cpu
exec_loop zero n rip c = (false, c)
exec_loop (suc left) n rip c =
    let rest = exec_loop left (n + 1) rip c in
    if (enabled n c && (condition n c == 0)) && (c.dr n == rip) then (true, hit n c) else rest

unfoldable pub exec_breakpoint_at : ℕ → Cpu → Bool × Cpu
unfolding exec_loop
exec_breakpoint_at rip c = exec_loop 4 0 rip c

-- LEN_TABLE.
abbrev length_of : ℕ → ℕ
length_of zero = 1
length_of (suc zero) = 2
length_of (suc (suc zero)) = 8
length_of (suc (suc (suc n))) = 4

data_loop : ℕ → ℕ → ℕ → Bool → ℕ → Cpu → Bool × Cpu
data_loop zero n addr is_write size c = (false, c)
data_loop (suc left) n addr is_write size c =
    let rest = data_loop left (n + 1) addr is_write size c in
    let cond = condition n c in
    let matches_kind = ((cond == 1) && is_write) || (cond == 3) in
    let bp_size = length_of (bit_and (shr (c.dr 7) (18 + 4 * n)) 3) in
    let bp_lo = c.dr n in
    let bp_hi = add64 bp_lo bp_size in
    let ac_hi = add64 addr size in
    if (enabled n c && matches_kind) && (ltb addr bp_hi && ltb bp_lo ac_hi)
    then (true, hit n c)
    else rest

unfoldable pub data_breakpoint_at : ℕ → Bool → ℕ → Cpu → Bool × Cpu
unfolding data_loop
data_breakpoint_at addr is_write size c = data_loop 4 0 addr is_write size c
