-- ===== src/Cpu/Cond/Laws.antt =====
-- The condition codes come in pairs, and the codes of a pair are opposite.
use pico_cpu.Prelude.{not, ◌≡◌, ◌≢◌, arith}
use pico_cpu.Cpu.Lazy.{LazyFlags}
use pico_cpu.Cpu.Cond.{Cc, cond_holds}

-- The code that differs in the lowest bit of its encoding; `none` has no partner.
abbrev pub opposite : Cc → Cc
opposite Cc.o = Cc.no
opposite Cc.no = Cc.o
opposite Cc.b = Cc.nb
opposite Cc.nb = Cc.b
opposite Cc.z = Cc.nz
opposite Cc.nz = Cc.z
opposite Cc.be = Cc.nbe
opposite Cc.nbe = Cc.be
opposite Cc.s = Cc.ns
opposite Cc.ns = Cc.s
opposite Cc.p = Cc.np
opposite Cc.np = Cc.p
opposite Cc.l = Cc.nl
opposite Cc.nl = Cc.l
opposite Cc.le = Cc.nle
opposite Cc.nle = Cc.le
opposite Cc.none = Cc.none

-- Of a condition and the one that differs in the lowest bit of its code exactly one holds, in
-- every state, for the sixteen codes.
pub cond_holds-opposite :
    (cc : Cc) (f : LazyFlags) → cc ≢ Cc.none → cond_holds (opposite cc) f ≡ not (cond_holds cc f)
unfolding cond_holds
cond_holds-opposite Cc.o f h = ground arith
cond_holds-opposite _ f h = ground arith
