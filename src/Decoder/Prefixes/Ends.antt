-- ===== src/Decoder/Prefixes/Ends.antt =====
-- Where the scan of the prefixes ends, and where it does not.
use pico_cpu.Prelude.{
  ℕ, zero, suc, ◌+◌, ◌≤◌, ◌<◌, ◌≡◌, ◌≢◌, refl, ap, sym, subst, ◌∙◌, false, Option, none, some, List,
  ltb, lt→ltb, u8, arith,
}
use native.Mathlib.Decide.{dec_lt}
use pico_cpu.Error.{Status}
use pico_cpu.Memory.Provider.Contract.{at}
use pico_cpu.Decoder.Source.{
  Got, Source, Step, Fetch, buf_fetch, peek_byte, read_byte, peeked, taken, bind,
}
use pico_cpu.Decoder.Prefixes.{Prefixes, legacy, finished, scan_byte, scan_loop, scan_prefixes}

-- The scan came to an end: it gave prefixes or failed.
abbrev pub HasEnded : {S : Type 0} → Got (Option Prefixes) × Source S → Type 0
HasEnded (Got.got none, s) = ⊥
HasEnded (Got.got (some px), s) = Unit
HasEnded (Got.failed st, s) = Unit

finished-HasEnded : {S : Type 0} (r : Got Prefixes × Source S) → HasEnded (finished r)
finished-HasEnded (Got.got px, s) = tt
finished-HasEnded (Got.failed st, s) = tt

module _ (bytes : List ℕ) (size : ℕ) where
  abbrev Buffer : Type 0
  Buffer = Source (Unit {0})

  buf_fetch_inside :
      (off : ℕ) → off < size → buf_fetch bytes size off tt ≡ (Got.got (at bytes off), tt)
  unfolding buf_fetch
  buf_fetch_inside off h = rw (lt→ltb off size h) refl

  buf_fetch_end :
      (off : ℕ)
      → size ≤ off
      → buf_fetch bytes size off tt ≡ (Got.failed Status.truncated_instruction, tt)
  unfolding buf_fetch
  buf_fetch_end off h = let e : ltb off size ≡ false = ground arith in rw e refl

  read_byte_inside :
      (s : Buffer)
      → s.consumed < size
      → size ≤ 15
      → (read_byte (buf_fetch bytes size) s).1 ≡ record s { consumed = s.consumed + 1 }
  unfolding read_byte
  read_byte_inside s h short =
      ap (λ t. (taken s t).1) (buf_fetch_inside s.consumed h)
      ∙ ap (λ k. record s { consumed = k }) (omega arith)

  peek_byte_at :
      (s : Buffer)
      → size ≤ 15
      → s.consumed ≤ size
      → peek_byte (buf_fetch bytes size) 0 s ≡ peeked s (buf_fetch bytes size s.consumed tt)
  unfolding peek_byte
  peek_byte_at s short inside = ap (λ k. peeked s (buf_fetch bytes size k tt)) (omega arith)

  scan_byte-HasEnded :
      (more : Prefixes → Step (Unit {0}) (Option Prefixes)) (px : Prefixes) (b : ℕ)
      (o : Option Prefixes) (s : Buffer)
      → s.consumed < size
      → size ≤ 15
      → ((px' : Prefixes) → HasEnded (more px' (record s { consumed = s.consumed + 1 })))
      → HasEnded (scan_byte (buf_fetch bytes size) more px b o s)
  scan_byte-HasEnded more px b none s inside short ends = finished-HasEnded _
  scan_byte-HasEnded more px b (some px') s inside short ends =
      subst (λ t. HasEnded (more px' t)) (sym (read_byte_inside s inside short)) (ends px')

  scan_loop-HasEnded :
      (fuel : ℕ) (px : Prefixes) (s : Buffer)
      → size ≤ 15
      → s.consumed ≤ size
      → size < fuel + s.consumed
      → HasEnded (scan_loop (buf_fetch bytes size) fuel px s)
  unfolding scan_loop
  scan_loop-HasEnded zero px s short inside enough = absurd (omega arith)
  scan_loop-HasEnded (suc fuel) px s short inside enough =
      let next = λ (b : ℕ).
        scan_byte (buf_fetch bytes size) (scan_loop (buf_fetch bytes size) fuel) px b
          (legacy b px) in
      subst (λ t. HasEnded (bind t next)) (sym (peek_byte_at s short inside))
        (elim (dec_lt s.consumed size) [
          | no p ↦
              subst (λ t. HasEnded (bind (peeked s t) next))
                (sym (buf_fetch_end s.consumed (omega arith))) tt
          | yes p ↦
              subst (λ t. HasEnded (bind (peeked s t) next)) (sym (buf_fetch_inside s.consumed p))
                (scan_byte-HasEnded (scan_loop (buf_fetch bytes size) fuel) px (at bytes s.consumed)
                  _ s p short
                  λ px'.
                    scan_loop-HasEnded fuel px' (record s { consumed = s.consumed + 1 }) short
                      (omega arith) (omega arith))
        ])

-- The scan of the prefixes of a buffer of at most 15 bytes ends within one round more than the
-- bytes.
pub scan_prefixes-HasEnded :
    (bytes : List ℕ) (size : ℕ)
    → size ≤ 15
    → HasEnded
        (scan_prefixes (buf_fetch bytes size) (size + 1) (record { consumed = 0; state = tt }))
unfolding scan_prefixes
scan_prefixes-HasEnded bytes size short =
    scan_loop-HasEnded bytes size (size + 1) _ (record { consumed = 0; state = tt }) short
      (omega arith) (omega arith)

scan_byte-endless :
    {S : Type 0} (fetch : Fetch S) (more : Prefixes → Step S (Option Prefixes)) (px : Prefixes)
    (b : ℕ) (o : Option Prefixes) (s : Source S)
    → o ≢ none
    → ((px' : Prefixes) (s' : Source S) → (more px' s').0 ≡ Got.got none)
    → (scan_byte fetch more px b o s).0 ≡ Got.got none
scan_byte-endless fetch more px b none s present h = absurd (present refl)
scan_byte-endless fetch more px b (some px') s present h = h px' _

-- In a memory that gives the same legacy prefix at every address the scan does not end, whatever
-- the fuel.
pub scan_loop-endless :
    {S : Type 0} (fetch : Fetch S) (b : ℕ)
    → ((off : ℕ) (m : S) → fetch off m ≡ (Got.got b, m))
    → ((px : Prefixes) → legacy b px ≢ none)
    → (fuel : ℕ) (px : Prefixes) (s : Source S) → (scan_loop fetch fuel px s).0 ≡ Got.got none
unfolding scan_loop peek_byte
scan_loop-endless fetch b same prefix zero px s = refl
scan_loop-endless fetch b same prefix (suc fuel) px s =
    let next = λ (c : ℕ). scan_byte fetch (scan_loop fetch fuel) px c (legacy c px) in
    ap (λ t. (bind (peeked s t) next).0) (same (u8 (s.consumed + 0)) s.state)
    ∙ scan_byte-endless fetch (scan_loop fetch fuel) px b (legacy b px) _ (prefix px)
        (λ px' s'. scan_loop-endless fetch b same prefix fuel px' s')
