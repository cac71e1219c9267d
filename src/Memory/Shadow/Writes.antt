-- ===== src/Memory/Shadow/Writes.antt =====
-- A write stores its bytes and changes no others.
use pico_cpu.Prelude.{
  ℕ, zero, suc, ◌+◌, ◌-◌, ◌^◌, ◌≤◌, ◌<◌, ◌≡◌, inl, inr, refl, sym, ap, fun_ext, ◌∙◌, ◌⊎◌, ◌&&◌,
  Bool, true, false, Option, none, some, List, ◌==◌, ==_iff, Bool-cases, Option-cases,
  if◌then◌else◌, length, add64, arith,
}
use native.Mathlib.Decide.{dec_lt}
use pico_cpu.Memory.Provider.{Provider, ReadResult}
use pico_cpu.Memory.Provider.Contract.{
  at, take, drop, patch, at-window, length-take, length-drop, patch_inside, patch_outside,
  patch-patch, patch_wrap, GoodRead, Serves, empty_write,
}
use pico_cpu.Memory.Shadow.{
  Shadow, page_of, page_chunk, set_page, range_is_private, refuses, notify, touches, copied,
  fresh_page, get_or_make_page, read, write_chunk, write_loop, write, provider,
}
use pico_cpu.Memory.Shadow.Laws.{
  ZeroHole, Backs, page_byte, view_shadow, IsOkShadow, view_some, view_none, view_below,
  page_chunk_bounds, read_loop_good,
}

module _ {S : Type 0} (IsOk : S → Type 0) (view : S → ℕ → ℕ) where
  abbrev V : Option (Provider S) → Shadow S → ℕ → ℕ
  V = view_shadow IsOk view

  page_byte_if :
      (b : Option (Provider S)) (m : S) (private t : Bool) (x : ℕ) (bytes : ℕ → ℕ)
      (o : Option (ℕ → ℕ))
      → page_byte IsOk view b m private x (if t then some bytes else o)
        ≡ (if t then bytes (x - page_of x) else page_byte IsOk view b m private x o)
  page_byte_if b m private true x bytes o = refl
  page_byte_if b m private false x bytes o = refl

  view-set_page :
      (b : Option (Provider S)) (s : Shadow S) (page x : ℕ) (bytes : ℕ → ℕ)
      → V b (set_page page bytes s) x
        ≡ (if page == page_of x then bytes (x - page_of x) else V b s x)
  view-set_page b s page x bytes =
      page_byte_if b s.below (range_is_private (page_of x) 4096 s) (page == page_of x) x bytes
        (s.pages (page_of x))

  -- A page with the bytes that were there.
  set_page_same :
      (b : Option (Provider S)) (s : Shadow S) (page : ℕ) (bytes : ℕ → ℕ)
      → ((i : ℕ) → i < 4096 → bytes i ≡ V b s (page + i))
      → V b (set_page page bytes s) ≡ V b s
  set_page_same b s page bytes h = fun_ext λ x.
      view-set_page b s page x bytes ∙ (elim (Bool-cases (page == page_of x)) [
        | inl e ↦
            rw e (
              h (x - page_of x) (omega arith) ∙ ap (V b s) (back x ((==_iff page (page_of x)).0 e)))
        | inr e ↦ rw e refl
      ])
    where
      back : (x : ℕ) → page ≡ page_of x → page + (x - page_of x) ≡ x
      back x e = omega arith

  -- What a page is made of.
  Made : Option (Provider S) → ℕ → Shadow S → (ℕ → ℕ) × Shadow S → Type 0
  Made b page s (bytes, s') =
      IsOk s'.below × (V b s' ≡ V b s) × ((i : ℕ) → i < 4096 → bytes i ≡ V b s (page + i))

  copied-Made :
      (p : Provider S) (cur : ℕ) (s : Shadow S) (r : ReadResult × S)
      → s.pages (page_of cur) ≡ none
      → range_is_private (page_of cur) 4096 s ≡ false
      → GoodRead IsOk view (page_of cur) 4096 s.below r
      → ZeroHole IsOk view (page_of cur) s.below r
      → Made (some p) (page_of cur) s (copied (page_of cur) s r)
  unfolding Made
  copied-Made p cur s (ReadResult.bytes bs, m) e h (g, okay, same) holes = (
    okay,
    set_page_same (some p) (record s { below = m }) (page_of cur) (at bs)
          (λ i lt.
            held i lt
            ∙ ap (λ f. f (page_of cur + i)) (sym (view_below IsOk view (some p) s m same)))
        ∙ view_below IsOk view (some p) s m same,
    held,
  )
    where
      held : (i : ℕ) → i < 4096 → at bs i ≡ V (some p) s (page_of cur + i)
      held i lt =
          ap (λ t. at t i) g
          ∙ at-window (view s.below) (page_of cur) 4096 i lt
          ∙ sym (view_none IsOk view (some p) s cur (page_of cur + i) false e h (omega arith))
  copied-Made p cur s (ReadResult.failed st out, m) e h (g, small, okay, same) holes = (
    okay,
    set_page_same (some p) (record s { below = m }) (page_of cur) (patch (λ _. 0) 0 out)
          (λ i lt.
            held i lt
            ∙ ap (λ f. f (page_of cur + i)) (sym (view_below IsOk view (some p) s m same)))
        ∙ view_below IsOk view (some p) s m same,
    held,
  )
    where
      shown : (i : ℕ) → i < 4096 → view s.below (page_of cur + i) ≡ V (some p) s (page_of cur + i)
      shown i lt =
          sym (view_none IsOk view (some p) s cur (page_of cur + i) false e h (omega arith))

      held : (i : ℕ) → i < 4096 → patch (λ _. 0) 0 out i ≡ V (some p) s (page_of cur + i)
      held i lt = elim (dec_lt i (length out)) [
        | yes q ↦
            ap (patch (λ _. 0) 0 out) (omega arith)
            ∙ patch_inside (λ _. 0) 0 out i q
            ∙ ap (λ t. at t i) g
            ∙ at-window (view s.below) (page_of cur) (length out) i q
            ∙ shown i lt
        | no q ↦ patch_outside (λ _. 0) 0 out i (inr (omega arith)) ∙ sym (holes i lt) ∙ shown i lt
      ]

  fresh_page-Made :
      (b : Option (Provider S))
      → Backs IsOk view b
      → (cur : ℕ) (s : Shadow S) → IsOk s.below
      → cur < 2 ^ 64
      → s.pages (page_of cur) ≡ none
      → range_is_private (page_of cur) 4096 s ≡ false
      → Made b (page_of cur) s (fresh_page b (page_of cur) s)
  unfolding Made
  fresh_page-Made none backs cur s okay small e h =
      (okay, set_page_same none s (page_of cur) (λ _. 0) held, held)
    where
      held : (i : ℕ) → i < 4096 → 0 ≡ V none s (page_of cur + i)
      held i lt = sym (view_none IsOk view none s cur (page_of cur + i) false e h (omega arith))
  fresh_page-Made (some p) (serves, holes) cur s okay small e h =
      copied-Made p cur s _ e h (serves.read_good (page_of cur) 4096 s.below okay (omega arith))
        (holes (page_of cur) s.below)

  get_or_make_page-Made :
      (b : Option (Provider S))
      → Backs IsOk view b
      → (cur : ℕ) (s : Shadow S) → IsOk s.below
      → cur < 2 ^ 64
      → Made b (page_of cur) s (get_or_make_page b (page_of cur) s)
  unfolding get_or_make_page Made
  get_or_make_page-Made b backs cur s okay small = elim (Option-cases (s.pages (page_of cur))) [
    | inr (bytes, e) ↦
        rw (e, get_or_make_page)
          (
            okay,
            refl,
            λ i lt.
                ap bytes (omega arith)
                ∙ sym (view_some IsOk view b s cur (page_of cur + i) bytes e (omega arith)),
          )
    | inl e ↦
        rw (e, get_or_make_page)
          (elim (Bool-cases (range_is_private (page_of cur) 4096 s)) [
            | inl h ↦
                let held : (i : ℕ) → i < 4096 → 0 ≡ V b s (page_of cur + i) = λ i lt.
                  sym (view_none IsOk view b s cur (page_of cur + i) true e h (omega arith)) in
                rw h (okay, set_page_same b s (page_of cur) (λ _. 0) held, held)
            | inr h ↦ rw h (fresh_page-Made b backs cur s okay small e h)
          ])
  ]

  -- The bytes of a request within one page.
  Stored : Option (Provider S) → ℕ → List ℕ → Shadow S → Shadow S → Type 0
  Stored b cur bs s s' = IsOk s'.below × (V b s' ≡ patch (V b s) cur bs)

  patched :
      (f : ℕ → ℕ) (bytes : ℕ → ℕ) (cur x : ℕ) (bs : List ℕ)
      → cur - page_of cur + length bs ≤ 4096
      → ((i : ℕ) → i < 4096 → bytes i ≡ f (page_of cur + i))
      → (if page_of cur == page_of x
          then patch bytes (cur - page_of cur) bs (x - page_of x)
          else f x)
        ≡ patch f cur bs x
  patched f bytes cur x bs inside held = elim (Bool-cases (page_of cur == page_of x)) [
    | inr e ↦ rw e (
        sym (
          patch_outside f cur bs x (elim (dec_lt x cur) [
            | yes p ↦ inl p
            | no p ↦ inr (apart ((==_iff (page_of cur) (page_of x)).1) e p)
          ])))
    | inl e ↦ rw e (
        let q = (==_iff (page_of cur) (page_of x)).0 e in
        elim (dec_lt x cur) [
          | yes p ↦ outside q (inl (omega arith)) ∙ sym (patch_outside f cur bs x (inl p))
          | no p ↦ elim (dec_lt x (cur + length bs)) [
            | no r ↦
                outside q (inr (omega arith)) ∙ sym (patch_outside f cur bs x (inr (omega arith)))
            | yes r ↦
                ap (patch bytes (cur - page_of cur) bs) (omega arith)
                ∙ patch_inside bytes (cur - page_of cur) bs (x - cur) (omega arith)
                ∙ sym (patch_inside f cur bs (x - cur) (omega arith))
                ∙ ap (patch f cur bs) (omega arith)
          ]
        ])
  ]
    where
      apart :
          (page_of cur ≡ page_of x → (page_of cur == page_of x) ≡ true)
          → (page_of cur == page_of x) ≡ false
          → (x < cur → ⊥)
          → cur + length bs ≤ x
      apart k e p = ground arith

      outside :
          page_of cur ≡ page_of x
          → (x - page_of x < cur - page_of cur) ⊎ (cur - page_of cur + length bs ≤ x - page_of x)
          → patch bytes (cur - page_of cur) bs (x - page_of x) ≡ f x
      outside q out =
          patch_outside bytes (cur - page_of cur) bs (x - page_of x) out
          ∙ held (x - page_of x) (omega arith)
          ∙ ap f (omega arith)

  write_chunk-Stored :
      (b : Option (Provider S))
      → Backs IsOk view b
      → (cur : ℕ) (bs : List ℕ) (s : Shadow S) → IsOk s.below
      → cur < 2 ^ 64
      → cur - page_of cur + length bs ≤ 4096
      → Stored b cur bs s (write_chunk b cur bs s)
  unfolding write_chunk Stored Made
  write_chunk-Stored b backs cur bs s okay small inside =
      made (get_or_make_page b (page_of cur) s) (get_or_make_page-Made b backs cur s okay small)
    where
      made :
          (r : (ℕ → ℕ) × Shadow S)
          → Made b (page_of cur) s r
          → Stored b cur bs s (set_page (page_of cur) (patch r.0 (cur - page_of cur) bs) r.1)
      made (bytes, s') (okay', same, held) = (
        okay',
        fun_ext λ x.
            view-set_page b s' (page_of cur) x (patch bytes (cur - page_of cur) bs)
            ∙ ap
                (λ k.
                  if page_of cur == page_of x
                  then patch bytes (cur - page_of cur) bs (x - page_of x)
                  else k)
                (ap (λ f. f x) same)
            ∙ patched (V b s) bytes cur x bs inside held,
      )

  write_loop-Stored :
      (b : Option (Provider S))
      → Backs IsOk view b
      → (fuel cur : ℕ) (src : List ℕ) (s : Shadow S) → IsOk s.below
      → length src ≤ fuel
      → cur + length src ≤ 2 ^ 64
      → Stored b cur src s (write_loop b fuel cur src s)
  unfolding write_loop Stored
  write_loop-Stored b backs zero cur src s okay enough fits =
      (okay, (empty_write (IsOkShadow IsOk view) (V b) cur src s (omega arith) okay).1)
  write_loop-Stored b backs (suc fuel) cur src s okay enough fits =
      elim (Bool-cases (length src == 0)) [
        | inl e ↦ rw e (
          okay,
          (empty_write (IsOkShadow IsOk view) (V b) cur src s ((==_iff (length src) 0).0 e) okay).1,
        )
        | inr e ↦
            let n = page_chunk cur (length src) in
            let (some_bytes, small, inside) = page_chunk_bounds cur (length src) (ground arith) in
            let len = length-drop n src in
            let (okay', first) =
              write_chunk-Stored b backs cur (take n src) s okay (omega arith)
                (rw (length-take n src small) inside) in
            let (okay'', rest) =
              write_loop-Stored b backs fuel (add64 cur n) (drop n src)
                (write_chunk b cur (take n src) s) okay' (omega arith) (omega arith) in
            rw e (
              okay'',
              rest
                  ∙ ap (λ f. patch f (add64 cur n) (drop n src)) first
                  ∙ patch_wrap (patch (V b s) cur (take n src)) cur n (drop n src) (omega arith)
                  ∙ patch-patch (V b s) cur n src small,
            )
      ]

  notify_view :
      (b : Option (Provider S)) (addr size : ℕ) (s : Shadow S)
      → (V b (notify addr size s) ≡ V b s) × ((notify addr size s).below ≡ s.below)
  unfolding notify
  notify_view b addr size s = elim (Bool-cases (s.listening && touches s.code_ranges addr size)) [
    | inl e ↦ rw e (refl, refl)
    | inr e ↦ rw e (refl, refl)
  ]

  -- The shadow pages, alone or over a provider that keeps the contract of a memory and shows
  -- zeroes on the pages that it does not give, keep the contract. Of an access that does not
  -- wrap at 2^64: a read that succeeds gives the bytes written last or those behind them, one
  -- that fails leaves a prefix of them in the buffer, and a write that succeeds changes just its
  -- bytes, one that fails none.
  pub shadow-Serves :
      (b : Option (Provider S))
      → Backs IsOk view b
      → Serves (IsOkShadow IsOk view) (view_shadow IsOk view b) (provider b)
  unfolding provider read write Stored
  shadow-Serves b backs = record {
    read_good = λ a n s okay fits. read_loop_good IsOk view b backs n a n s okay (omega arith) fits;
    write_good = λ a bs s okay fits. elim (Bool-cases (length bs == 0)) [
      | inl e ↦
          rw e (empty_write (IsOkShadow IsOk view) (V b) a bs s ((==_iff (length bs) 0).0 e) okay)
      | inr e ↦ rw e (elim (Bool-cases (refuses a (length bs) s)) [
        | inl r ↦ rw r (okay, refl)
        | inr r ↦
            let s' = write_loop b (length bs) a bs s in
            let (okay', same) =
              write_loop-Stored b backs (length bs) a bs s okay (omega arith) fits in
            let (seen, kept) = notify_view b a (length bs) s' in rw r (rw kept okay', seen ∙ same)
      ])
    ];
  }
