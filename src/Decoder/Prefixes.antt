-- ===== src/Decoder/Prefixes.antt =====
-- src/emu/decoder/decoder_internal.h and src/emu/decoder/decoder.cpp: the prefixes of an
-- instruction, from the legacy ones to REX, VEX and EVEX.
pub mod Ends
pub mod Evex
use pico_cpu.Prelude.{
  ℕ, zero, suc, ◌+◌, ◌-◌, ◌^◌, ◌%◌, bit_and, bit_or, Bool, true, false, not, ◌&&◌, Option, none,
  some, ◌==◌, leb, nonzero, if◌then◌else◌, shr, u8,
}
use pico_cpu.Ir.{Seg}
use pico_cpu.Decoder.Source.{Got, Source, Step, ◌>>=◌, ◌>>◌, pure, Fetch, peek_byte, read_byte}

pub record Prefixes : Type 0 where
  pub opsize_pfx : Bool
  pub addrsize_pfx : Bool
  pub lock : Bool
  pub rep : Bool
  pub repne : Bool
  pub has_seg : Bool
  pub seg : Seg
  pub has_rex : Bool
  pub rex : ℕ
  pub is_vex : Bool
  pub vex_w : Bool
  pub vex_l : Bool
  pub vex_vvvv : ℕ
  pub vex_map : ℕ
  pub vex_r : Bool
  pub vex_x : Bool
  pub vex_b : Bool
  pub is_evex : Bool
  pub evex_l2 : Bool
  pub evex_v : Bool
  pub evex_r : Bool
  pub evex_z : Bool
  pub evex_b : Bool
  pub evex_aaa : ℕ

abbrev pub no_prefixes : Prefixes
no_prefixes = record {
  opsize_pfx = false;
  addrsize_pfx = false;
  lock = false;
  rep = false;
  repne = false;
  has_seg = false;
  seg = Seg.ds;
  has_rex = false;
  rex = 0;
  is_vex = false;
  vex_w = false;
  vex_l = false;
  vex_vvvv = 0;
  vex_map = 0;
  vex_r = false;
  vex_x = false;
  vex_b = false;
  is_evex = false;
  evex_l2 = false;
  evex_v = false;
  evex_r = false;
  evex_z = false;
  evex_b = false;
  evex_aaa = 0;
}

abbrev pub rex_w : Prefixes → Bool
rex_w px = if px.is_vex then px.vex_w else nonzero (bit_and px.rex 8)

abbrev pub rex_r : Prefixes → Bool
rex_r px = if px.is_vex then px.vex_r else nonzero (bit_and px.rex 4)

abbrev pub rex_x : Prefixes → Bool
rex_x px = if px.is_vex then px.vex_x else nonzero (bit_and px.rex 2)

abbrev pub rex_b : Prefixes → Bool
rex_b px = if px.is_vex then px.vex_b else nonzero (bit_and px.rex 1)

unfoldable pub evex_vector_size : Prefixes → ℕ
evex_vector_size px = if px.evex_l2 then 64 else if px.vex_l then 32 else 16

unfoldable pub default_gpr_op_size : Prefixes → ℕ
default_gpr_op_size px = if rex_w px then 8 else if px.opsize_pfx then 2 else 4

unfoldable pub apply_vex_pp : ℕ → Prefixes → Prefixes
apply_vex_pp pp px =
    let k = bit_and pp 3 in
    if k == 1
    then record px { opsize_pfx = true }
    else if k == 2
    then record px { rep = true }
    else if k == 3
    then record px { repne = true }
    else px

abbrev pub with_seg : Seg → Prefixes → Prefixes
with_seg seg px = record px { seg = seg; has_seg = true }

-- The first `switch`: a legacy prefix, or none.
unfoldable pub legacy : ℕ → Prefixes → Option Prefixes
legacy b px =
    if b == 0x66
    then some (record px { opsize_pfx = true })
    else if b == 0x67
    then some (record px { addrsize_pfx = true })
    else if b == 0xF0
    then some (record px { lock = true })
    else if b == 0xF2
    then some (record px { repne = true })
    else if b == 0xF3
    then some (record px { rep = true })
    else if b == 0x26
    then some (with_seg Seg.es px)
    else if b == 0x2E
    then some (with_seg Seg.cs px)
    else if b == 0x36
    then some (with_seg Seg.ss px)
    else if b == 0x3E
    then some (with_seg Seg.ds px)
    else if b == 0x64
    then some (with_seg Seg.fs px)
    else if b == 0x65
    then some (with_seg Seg.gs px)
    else none

-- `(v & mask) == 0` and `!= 0`.
abbrev pub clear : ℕ → ℕ → Bool
clear v mask = bit_and v mask == 0

abbrev pub set : ℕ → ℕ → Bool
set v mask = nonzero (bit_and v mask)

-- `(~(v >> 3)) & 0xF`.
abbrev pub inverted_vvvv : ℕ → ℕ
inverted_vvvv v = 15 - bit_and (shr v 3) 0xF

-- The fields of a 2-byte VEX prefix.
unfoldable pub vex2 : ℕ → Prefixes → Prefixes
vex2 v px = apply_vex_pp (bit_and v 3) (record px {
  is_vex = true;
  vex_map = 1;
  vex_r = clear v 0x80;
  vex_x = false;
  vex_b = false;
  vex_vvvv = inverted_vvvv v;
  vex_l = set v 0x04;
})

-- The fields of a 3-byte VEX prefix.
unfoldable pub vex3 : ℕ → ℕ → Prefixes → Prefixes
vex3 b1 b2 px = apply_vex_pp (bit_and b2 3) (record px {
  is_vex = true;
  vex_r = clear b1 0x80;
  vex_x = clear b1 0x40;
  vex_b = clear b1 0x20;
  vex_map = bit_and b1 0x1F;
  vex_w = set b2 0x80;
  vex_vvvv = inverted_vvvv b2;
  vex_l = set b2 0x04;
})

-- The fields of an EVEX prefix. The last step of it extends `vvvv`.
abbrev pub evex_fields : ℕ → ℕ → ℕ → Prefixes → Prefixes
evex_fields p1 p2 p3 px =
    let px' = apply_vex_pp (bit_and p2 3) (record px {
      is_vex = true;
      is_evex = true;
      vex_r = clear p1 0x80;
      vex_x = clear p1 0x40;
      vex_b = clear p1 0x20;
      evex_r = clear p1 0x10;
      vex_map = bit_and p1 0x07;
      vex_w = set p2 0x80;
      vex_vvvv = inverted_vvvv p2;
    }) in
    record px' {
      evex_z = set p3 0x80;
      evex_l2 = set p3 0x40;
      vex_l = set p3 0x20;
      evex_b = set p3 0x10;
      evex_v = clear p3 0x08;
      evex_aaa = bit_and p3 0x07;
    }

unfoldable pub evex : ℕ → ℕ → ℕ → Prefixes → Prefixes
evex p1 p2 p3 px =
    let px' = evex_fields p1 p2 p3 px in
    if not px'.evex_v then record px' { vex_vvvv = u8 (bit_or px'.vex_vvvv 0x10) } else px'

abbrev pub finished : {S : Type 0} → Got Prefixes × Source S → Got (Option Prefixes) × Source S
finished (Got.got px, s) = (Got.got (some px), s)
finished (Got.failed st, s) = (Got.failed st, s)

module _ {S : Type 0} (fetch : Fetch S) where
  -- `(void)read_byte(bs, b)`.
  abbrev pub skip_byte : Step S (Unit {0})
  skip_byte s = (Got.got tt, (read_byte fetch s).1)

  abbrev pub scan_vex2 : Prefixes → Step S Prefixes
  scan_vex2 px = do skip_byte; v ← read_byte fetch; pure (vex2 v px)

  abbrev pub scan_evex : Prefixes → Step S Prefixes
  scan_evex px = do
    skip_byte
    p1 ← read_byte fetch
    p2 ← read_byte fetch
    p3 ← read_byte fetch
    pure (evex p1 p2 p3 px)

  abbrev pub scan_vex3 : Prefixes → Step S Prefixes
  scan_vex3 px = do skip_byte; b1 ← read_byte fetch; b2 ← read_byte fetch; pure (vex3 b1 b2 px)

  abbrev pub scan_rex : ℕ → Prefixes → Step S Prefixes
  scan_rex b px = do skip_byte; pure (record px { rex = b; has_rex = true })

  -- What follows the legacy prefixes, whose first byte is `b`.
  unfoldable pub scan_tail : ℕ → Prefixes → Step S Prefixes
  scan_tail b px =
      if b == 0xC5
      then scan_vex2 px
      else if b == 0x62
      then scan_evex px
      else if b == 0xC4
      then scan_vex3 px
      else if leb 0x40 b && leb b 0x4F
      then scan_rex b px
      else pure px

  -- The loop, or `none` where the fuel runs out.
  abbrev pub scan_byte :
      (Prefixes → Step S (Option Prefixes))
      → Prefixes
      → ℕ
      → Option Prefixes
      → Step S (Option Prefixes)
  scan_byte more px b (some px') = skip_byte >> more px'
  scan_byte more px b none = λ s. finished (scan_tail b px s)

  unfoldable pub scan_loop : ℕ → Prefixes → Step S (Option Prefixes)
  scan_loop zero px = pure none
  scan_loop (suc fuel) px = do b ← peek_byte fetch 0; scan_byte (scan_loop fuel) px b (legacy b px)

  unfoldable pub scan_prefixes : ℕ → Step S (Option Prefixes)
  scan_prefixes fuel = scan_loop fuel no_prefixes
