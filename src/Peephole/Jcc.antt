-- ===== src/Peephole/Jcc.antt =====
-- A Jcc behind `xor reg, reg` that the pass turns into a JMP is always taken.
use pico_cpu.Prelude.{ℕ, ◌≡◌, ap, ◌∙◌, true, false, not, ◌||◌, differ, arith}
use pico_cpu.Cpu.Lazy.{LazyFlags, zf, sf, of}
use pico_cpu.Cpu.Cond.{Cc, cond_holds}
use pico_cpu.Peephole.{always_taken}
use pico_cpu.Cpu.Meaning.ZeroResult.{
  after_zero, zf-zero_result, cf-zero_result, of-zero_result, sf-zero_result,
}

-- After a logical operation with the result 0 every condition that the pass takes for always
-- taken holds.
pub always_taken-zero :
    (s : ℕ) (c : LazyFlags) (cc : Cc)
    → always_taken cc ≡ true
    → cond_holds cc (after_zero s c) ≡ true
unfolding always_taken cond_holds
always_taken-zero s c Cc.z h = zf-zero_result s c
always_taken-zero s c Cc.be h =
    ap (λ b. b || zf (after_zero s c)) (cf-zero_result s c) ∙ zf-zero_result s c
always_taken-zero s c Cc.le h =
    ap (λ b. b || differ (sf (after_zero s c)) (of (after_zero s c))) (zf-zero_result s c)
always_taken-zero s c Cc.nb h = ap not (cf-zero_result s c)
always_taken-zero s c Cc.ns h = ap not (sf-zero_result s c)
always_taken-zero s c Cc.no h = ap not (of-zero_result s c)
always_taken-zero s c Cc.nl h =
    ap (λ b. not (differ b (of (after_zero s c)))) (sf-zero_result s c)
    ∙ ap (λ b. not (differ false b)) (of-zero_result s c)
always_taken-zero s c _ h = ground arith
