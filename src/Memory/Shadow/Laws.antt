-- ===== src/Memory/Shadow/Laws.antt =====
-- The shadow pages are a memory: what a write stores is what reads give, over any backing provider
-- that keeps the contract.
use pico_cpu.Prelude.{
  ℕ, zero, suc, ◌+◌, ◌-◌, ◌^◌, ◌≤◌, ◌<◌, ◌≡◌, inl, inr, refl, sym, ap, subst, fun_ext, ◌∙◌, Bool,
  true, false, Option, none, some, ◌==◌, Bool-cases, Option-cases, if◌then◌else◌, add64, arith,
  length,
}
use pico_cpu.Memory.Provider.{Provider, ReadResult}
use pico_cpu.Memory.Provider.Contract.{window, window_ext, GoodRead, Serves}
use pico_cpu.Memory.Direct.{prepend}
use pico_cpu.Memory.Direct.Reads.{window_none, joined}
use pico_cpu.Memory.Shadow.{
  Shadow, page_of, page_chunk, range_is_private, read_chunk, then_read, lift, pass_through,
  read_loop,
}

pub page_chunk_bounds :
    (cur remaining : ℕ)
    → 0 < remaining
    → (0 < page_chunk cur remaining)
      × (page_chunk cur remaining ≤ remaining)
      × (cur - page_of cur + page_chunk cur remaining ≤ 4096)
page_chunk_bounds cur remaining some_left = ground arith

module _ {S : Type 0} (IsOk : S → Type 0) (view : S → ℕ → ℕ) where
  -- The provider keeps its contract, and where it does not give a page the page has zeroes.
  abbrev pub ZeroHole : ℕ → S → ReadResult × S → Type 0
  ZeroHole page s (ReadResult.bytes bs, m) = Unit
  ZeroHole page s (ReadResult.failed st out, m) = (i : ℕ) → i < 4096 → view s (page + i) ≡ 0

  abbrev pub HasZeroHoles : Provider S → Type 0
  HasZeroHoles p = (page : ℕ) (s : S) → ZeroHole page s (p.read page 4096 s)

  abbrev pub Backs : Option (Provider S) → Type 0
  Backs none = Unit
  Backs (some p) = Serves IsOk view p × HasZeroHoles p

  abbrev pub backed : Option (Provider S) → S → ℕ → ℕ
  backed none s x = 0
  backed (some p) s x = view s x

  -- The byte at an address of a page that is not shadowed, where the page is private or not.
  abbrev pub behind : Option (Provider S) → S → Bool → ℕ → ℕ
  behind backing s private x = if private then 0 else backed backing s x

  abbrev pub page_byte : Option (Provider S) → S → Bool → ℕ → Option (ℕ → ℕ) → ℕ
  page_byte b s private x (some bytes) = bytes (x - page_of x)
  page_byte b s private x none = behind b s private x

  -- The byte at an address.
  abbrev pub view_shadow : Option (Provider S) → Shadow S → ℕ → ℕ
  view_shadow b s x =
      page_byte b s.below (range_is_private (page_of x) 4096 s) x (s.pages (page_of x))

  abbrev pub IsOkShadow : Shadow S → Type 0
  IsOkShadow s = IsOk s.below

  pub view_some :
      (b : Option (Provider S)) (s : Shadow S) (cur x : ℕ) (bytes : ℕ → ℕ)
      → s.pages (page_of cur) ≡ some bytes
      → page_of x ≡ page_of cur
      → view_shadow b s x ≡ bytes (x - page_of cur)
  view_some b s cur x bytes e q =
      ap (page_byte b s.below (range_is_private (page_of x) 4096 s) x) (ap s.pages q ∙ e)
      ∙ ap (λ k. bytes (x - k)) q

  pub view_none :
      (b : Option (Provider S)) (s : Shadow S) (cur x : ℕ) (private : Bool)
      → s.pages (page_of cur) ≡ none
      → range_is_private (page_of cur) 4096 s ≡ private
      → page_of x ≡ page_of cur
      → view_shadow b s x ≡ behind b s.below private x
  view_none b s cur x private e h q =
      ap (page_byte b s.below (range_is_private (page_of x) 4096 s) x) (ap s.pages q ∙ e)
      ∙ ap (λ t. behind b s.below t x) (ap (λ k. range_is_private k 4096 s) q ∙ h)

  -- The view depends on the layer below only through its view.
  page_byte_ext :
      (b : Option (Provider S)) (m m' : S) (private : Bool) (x : ℕ) (o : Option (ℕ → ℕ))
      → view m ≡ view m'
      → page_byte b m private x o ≡ page_byte b m' private x o
  page_byte_ext b m m' private x (some bytes) e = refl
  page_byte_ext b m m' true x none e = refl
  page_byte_ext none m m' false x none e = refl
  page_byte_ext (some p) m m' false x none e = ap (λ f. f x) e

  pub view_below :
      (b : Option (Provider S)) (s : Shadow S) (m : S)
      → view m ≡ view s.below
      → view_shadow b (record s { below = m }) ≡ view_shadow b s
  view_below b s m e =
      fun_ext λ x.
        page_byte_ext b m s.below (range_is_private (page_of x) 4096 s) x (s.pages (page_of x)) e

  abbrev Good : Option (Provider S) → ℕ → ℕ → Shadow S → ReadResult × Shadow S → Type 0
  Good b = GoodRead IsOkShadow (view_shadow b)

  lift-Good :
      (p : Provider S) (cur n : ℕ) (s : Shadow S) (r : ReadResult × S)
      → cur - page_of cur + n ≤ 4096
      → s.pages (page_of cur) ≡ none
      → range_is_private (page_of cur) 4096 s ≡ false
      → GoodRead IsOk view cur n s.below r
      → Good (some p) cur n s (lift s r)
  lift-Good p cur n s (ReadResult.bytes bs, m) inside e h (g, okay, same) = (
    g
        ∙ window_ext _ _ cur cur n
            λ i lt. sym (view_none (some p) s cur (cur + i) false e h (omega arith)),
    okay,
    view_below (some p) s m same,
  )
  lift-Good p cur n s (ReadResult.failed st out, m) inside e h (g, small, okay, same) = (
    g
        ∙ window_ext _ _ cur cur (length out)
            λ i lt. sym (view_none (some p) s cur (cur + i) false e h (omega arith)),
    small,
    okay,
    view_below (some p) s m same,
  )

  read_chunk-Good :
      (b : Option (Provider S))
      → Backs b
      → (cur n : ℕ) (s : Shadow S) → IsOk s.below
      → cur - page_of cur + n ≤ 4096
      → cur + n ≤ 2 ^ 64
      → Good b cur n s (read_chunk b cur n s)
  unfolding read_chunk window
  read_chunk-Good b backs cur n s okay inside fits = elim (Option-cases (s.pages (page_of cur))) [
    | inr (bytes, e) ↦
        rw (e, read_chunk)
          (
            window_ext _ _ (cur - page_of cur) cur n λ i lt.
                ap bytes (omega arith) ∙ sym (view_some b s cur (cur + i) bytes e (omega arith)),
            okay,
            refl,
          )
    | inl e ↦
        rw (e, read_chunk)
          (elim (Bool-cases (range_is_private (page_of cur) 4096 s)) [
            | inl h ↦ rw h (
              window_ext _ _ 0 cur n
                  λ i lt. sym (view_none b s cur (cur + i) true e h (omega arith)),
              okay,
              refl,
            )
            | inr h ↦ rw h (unshadowed b backs e h)
          ])
  ]
    where
      unshadowed :
          (b : Option (Provider S))
          → Backs b
          → s.pages (page_of cur) ≡ none
          → range_is_private (page_of cur) 4096 s ≡ false
          → Good b cur n s (pass_through b cur n s)
      unshadowed none backs e h = (refl, omega arith, okay, refl)
      unshadowed (some p) (serves, holes) e h =
          lift-Good p cur n s _ inside e h (serves.read_good cur n s.below okay fits)

  then_read-Good :
      (b : Option (Provider S)) (cur n remaining : ℕ) (s : Shadow S)
      (more : Shadow S → ReadResult × Shadow S) (r : ReadResult × Shadow S)
      → n ≤ remaining
      → cur + remaining ≤ 2 ^ 64
      → ((s' : Shadow S) → IsOkShadow s' → Good b (add64 cur n) (remaining - n) s' (more s'))
      → Good b cur n s r
      → Good b cur remaining s (then_read r more)
  then_read-Good b cur n remaining s more (ReadResult.failed st out, s') small fits rest
        (e, few, okay, same) =
      (e, omega arith, okay, same)
  then_read-Good b cur n remaining s more (ReadResult.bytes bs, s') small fits rest
        (e, okay, same) =
      let all : n + (remaining - n) ≡ remaining = omega arith in
      subst (λ k. Good b cur k s (prepend bs (more s'))) all
        (joined IsOkShadow (view_shadow b) cur n (remaining - n) bs s s' (more s') e same
          (omega arith) (rest s' okay))

  pub read_loop_good :
      (b : Option (Provider S))
      → Backs b
      → (fuel cur remaining : ℕ) (s : Shadow S) → IsOkShadow s
      → remaining ≤ fuel
      → cur + remaining ≤ 2 ^ 64
      → GoodRead IsOkShadow (view_shadow b) cur remaining s (read_loop b fuel cur remaining s)
  unfolding read_loop
  read_loop_good b backs zero cur remaining s okay enough fits =
      let e : (remaining == 0) ≡ true = ground arith in
      rw e (window_none (view_shadow b s) cur remaining e, okay, refl)
  read_loop_good b backs (suc fuel) cur remaining s okay enough fits =
      elim (Bool-cases (remaining == 0)) [
        | inl e ↦ rw e (window_none (view_shadow b s) cur remaining e, okay, refl)
        | inr e ↦
            let n = page_chunk cur remaining in
            let (some_bytes, small, inside) = page_chunk_bounds cur remaining (ground arith) in
            rw e (
              then_read-Good b cur n remaining s (read_loop b fuel (add64 cur n) (remaining - n))
                (read_chunk b cur n s) small fits
                (λ s' okay'.
                  read_loop_good b backs fuel (add64 cur n) (remaining - n) s' okay' (omega arith)
                    (omega arith))
                (read_chunk-Good b backs cur n s okay inside (omega arith)))
      ]
