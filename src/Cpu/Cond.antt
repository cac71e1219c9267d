-- ===== src/Cpu/Cond.antt =====
-- src/emu/include/emu/ir.h and src/emu/cpu/cpu.cpp: the condition codes.
pub mod Laws
use pico_cpu.Prelude.{Bool, true, not, ◌&&◌, ◌||◌, differ}
use pico_cpu.Cpu.Lazy.{LazyFlags, cf, pf, zf, sf, of}

pub data Cc : Type 0 where
  o no b nb z nz be nbe s ns p np l nl le nle none : Cc

-- `s == o` on Booleans.
abbrev same : Bool → Bool → Bool
same x y = not (differ x y)

unfoldable pub cond_holds : Cc → LazyFlags → Bool
cond_holds Cc.o f = of f
cond_holds Cc.no f = not (of f)
cond_holds Cc.b f = cf f
cond_holds Cc.nb f = not (cf f)
cond_holds Cc.z f = zf f
cond_holds Cc.nz f = not (zf f)
cond_holds Cc.be f = cf f || zf f
cond_holds Cc.nbe f = not (cf f) && not (zf f)
cond_holds Cc.s f = sf f
cond_holds Cc.ns f = not (sf f)
cond_holds Cc.p f = pf f
cond_holds Cc.np f = not (pf f)
cond_holds Cc.l f = differ (sf f) (of f)
cond_holds Cc.nl f = same (sf f) (of f)
cond_holds Cc.le f = zf f || differ (sf f) (of f)
cond_holds Cc.nle f = not (zf f) && same (sf f) (of f)
cond_holds Cc.none f = true
