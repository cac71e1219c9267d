-- ===== src/Memory/Shadow.antt =====
-- src/emu/include/emu/shadow_pages.h and src/emu/memory/shadow_pages.cpp: pages that are copied on
-- the first write, over an optional provider that backs them.
pub mod Laws
pub mod Writes
pub mod Ranges
pub mod Verdict
use pico_cpu.Prelude.{
  ℕ, zero, suc, ◌+◌, ◌-◌, ◌*◌, ◌/◌, bit_and, Bool, true, false, ◌&&◌, Option, none, some, List, [],
  ◌∷◌, ◌==◌, ltb, leb, nonzero, if◌then◌else◌, length, add64,
}
use pico_cpu.Error.{Status}
use pico_cpu.Memory.Provider.{Provider, ReadResult}
use pico_cpu.Memory.Provider.Contract.{at, take, drop, window, patch}
use pico_cpu.Memory.Direct.{prepend}

pub record Range : Type 0 where
  pub base : ℕ
  pub size : ℕ

pub record ProtRange : Type 0 where
  pub base : ℕ
  pub size : ℕ
  pub prot : ℕ

-- PROT_R, PROT_W and PROT_X.
abbrev pub prot_r : ℕ
prot_r = 1

abbrev pub prot_w : ℕ
prot_w = 2

abbrev pub prot_x : ℕ
prot_x = 4

-- The bytes of a page by their offset. The last range that was added comes first. The listener is
-- the host's: `notified` has the calls of it, the last one first.
pub record Shadow (S : Type 0) : Type 0 where
  pub pages : ℕ → Option (ℕ → ℕ)
  pub private_ranges : List Range
  pub code_ranges : List Range
  pub prot_ranges : List ProtRange
  pub listening : Bool
  pub notified : List (ℕ × ℕ)
  pub below : S

-- `addr & PAGE_BASE_MASK` clears the twelve low bits.
abbrev pub page_of : ℕ → ℕ
page_of addr = addr / 4096 * 4096

-- The number of bytes of a request that lie in the page of `cur`.
abbrev pub page_chunk : ℕ → ℕ → ℕ
page_chunk cur remaining =
    let room = 4096 - (cur - page_of cur) in if ltb room remaining then room else remaining

-- `size` bytes from `addr` lie in one of the ranges.
abbrev pub within : List Range → ℕ → ℕ → Bool
within [] addr size = false
within (r ∷ rs) addr size =
    let rest = within rs addr size in
    if leb r.base addr && leb (add64 addr size) (add64 r.base r.size) then true else rest

-- The protection of the last range that has the address.
abbrev pub covering : List ProtRange → ℕ → Option ℕ
covering [] addr = none
covering (r ∷ rs) addr =
    let rest = covering rs addr in
    if leb r.base addr && ltb addr (add64 r.base r.size) then some r.prot else rest

abbrev pub set_page : {S : Type 0} → ℕ → (ℕ → ℕ) → Shadow S → Shadow S
set_page page bytes s = record s { pages = λ p. if page == p then some bytes else s.pages p }

-- A range has a byte of the request.
abbrev pub touches : List Range → ℕ → ℕ → Bool
touches [] addr size = false
touches (r ∷ rs) addr size =
    let rest = touches rs addr size in
    if ltb addr (add64 r.base r.size) && ltb r.base (add64 addr size) then true else rest

module _ {S : Type 0} where
  unfoldable pub add_private_region : ℕ → ℕ → Shadow S → Shadow S
  add_private_region base size s = record s {
    private_ranges = record { base = base; size = size } ∷ s.private_ranges;
  }

  unfoldable pub add_code_range : ℕ → ℕ → Shadow S → Shadow S
  add_code_range base size s = record s {
    code_ranges = record { base = base; size = size } ∷ s.code_ranges;
  }

  unfoldable pub protect : ℕ → ℕ → ℕ → Shadow S → Shadow S
  protect base size prot s = record s {
    prot_ranges = record { base = base; size = size; prot = prot } ∷ s.prot_ranges;
  }

  abbrev pub range_is_private : ℕ → ℕ → Shadow S → Bool
  range_is_private addr size s = within s.private_ranges addr size

  unfoldable pub perm_of : ℕ → Shadow S → ℕ
  perm_of addr s = elim (covering s.prot_ranges addr) [
    | some prot ↦ prot
    | none ↦ if range_is_private addr 1 s then prot_r + prot_w else prot_r
  ]

  -- A byte before `end` that may not be written.
  unfoldable pub denied : ℕ → ℕ → ℕ → Shadow S → Bool
  denied zero cur end s = false
  denied (suc fuel) cur end s =
      let rest = denied fuel (add64 cur 1) end s in
      if ltb cur end
      then (if nonzero (bit_and (perm_of cur s) prot_w) then rest else true)
      else false

  -- The check that starts `write`, which is made only where ranges are protected.
  unfoldable pub refuses : ℕ → ℕ → Shadow S → Bool
  refuses addr size s = elim (s.prot_ranges) [
    | [] ↦ false
    | _ ∷ _ ↦ denied size addr (add64 addr size) s
  ]

  -- The call of the listener that ends `write`.
  unfoldable pub notify : ℕ → ℕ → Shadow S → Shadow S
  notify addr size s =
      if s.listening && touches s.code_ranges addr size
      then record s { notified = (addr, size) ∷ s.notified }
      else s

  -- A page as the backing provider has it, or, where it fails, zeroes behind what it has stored.
  abbrev pub copied : ℕ → Shadow S → ReadResult × S → (ℕ → ℕ) × Shadow S
  copied page s (ReadResult.bytes bs, m) = (at bs, set_page page (at bs) (record s { below = m }))
  copied page s (ReadResult.failed st out, m) =
      let bytes = patch (λ _. 0) 0 out in (bytes, set_page page bytes (record s { below = m }))

  abbrev pub fresh_page : Option (Provider S) → ℕ → Shadow S → (ℕ → ℕ) × Shadow S
  fresh_page none page s = (λ _. 0, set_page page (λ _. 0) s)
  fresh_page (some p) page s = copied page s (p.read page 4096 s.below)

  abbrev pub lift : Shadow S → ReadResult × S → ReadResult × Shadow S
  lift s (r, m) = (r, record s { below = m })

  -- Bytes of a page that is neither shadowed nor private.
  abbrev pub pass_through : Option (Provider S) → ℕ → ℕ → Shadow S → ReadResult × Shadow S
  pass_through none cur n s = (ReadResult.failed Status.unmapped_read [], s)
  pass_through (some p) cur n s = lift s (p.read cur n s.below)

  abbrev pub then_read :
      ReadResult × Shadow S → (Shadow S → ReadResult × Shadow S) → ReadResult × Shadow S
  then_read (ReadResult.bytes bs, s) more = prepend bs (more s)
  then_read (ReadResult.failed st out, s) more = (ReadResult.failed st out, s)

  module _ (backing : Option (Provider S)) where
    unfoldable pub get_or_make_page : ℕ → Shadow S → (ℕ → ℕ) × Shadow S
    get_or_make_page page s = elim (s.pages page) [
      | some bytes ↦ (bytes, s)
      | none ↦
          if range_is_private page 4096 s
          then (λ _. 0, set_page page (λ _. 0) s)
          else fresh_page backing page s
    ]

    -- `n` bytes of one page.
    unfoldable pub read_chunk : ℕ → ℕ → Shadow S → ReadResult × Shadow S
    read_chunk cur n s = elim (s.pages (page_of cur)) [
      | some bytes ↦ (ReadResult.bytes (window bytes (cur - page_of cur) n), s)
      | none ↦
          if range_is_private (page_of cur) 4096 s
          then (ReadResult.bytes (window (λ _. 0) 0 n), s)
          else pass_through backing cur n s
    ]

    -- The loop of `read`. A round serves a byte at least, so that `fuel` rounds serve `fuel` bytes.
    unfoldable pub read_loop : ℕ → ℕ → ℕ → Shadow S → ReadResult × Shadow S
    read_loop zero cur remaining s =
        if remaining == 0
        then (ReadResult.bytes [], s)
        else (ReadResult.failed Status.internal [], s)
    read_loop (suc fuel) cur remaining s =
        let n = page_chunk cur remaining in
        let served =
          then_read (read_chunk cur n s) (read_loop fuel (add64 cur n) (remaining - n)) in
        if remaining == 0 then (ReadResult.bytes [], s) else served

    unfoldable pub read : ℕ → ℕ → Shadow S → ReadResult × Shadow S
    read addr size s = read_loop size addr size s

    -- The part of a write that lies in one page.
    unfoldable pub write_chunk : ℕ → List ℕ → Shadow S → Shadow S
    write_chunk cur bs s =
        let (bytes, s') = get_or_make_page (page_of cur) s in
        set_page (page_of cur) (patch bytes (cur - page_of cur) bs) s'

    -- The loop of `write`, over what is left of the source buffer.
    unfoldable pub write_loop : ℕ → ℕ → List ℕ → Shadow S → Shadow S
    write_loop zero cur src s = s
    write_loop (suc fuel) cur src s =
        let n = page_chunk cur (length src) in
        let rest = write_loop fuel (add64 cur n) (drop n src) (write_chunk cur (take n src) s) in
        if length src == 0 then s else rest

    unfoldable pub write : ℕ → List ℕ → Shadow S → Status × Shadow S
    write addr src s =
        if length src == 0
        then (Status.ok, s)
        else if refuses addr (length src) s
        then (Status.protection_violation, s)
        else (Status.ok, notify addr (length src) (write_loop (length src) addr src s))

    unfoldable pub provider : Provider (Shadow S)
    provider = record { read = read; write = write }

-- `is_mapped`, over that of the backing provider.
unfoldable pub is_mapped : {S : Type 0} → Option (ℕ → Bool) → ℕ → Shadow S → Bool
is_mapped backing addr s = elim (s.pages (page_of addr)) [
  | some bytes ↦ true
  | none ↦
      if range_is_private addr 1 s
      then true
      else elim backing [ none ↦ false | some mapped ↦ mapped addr ]
]
