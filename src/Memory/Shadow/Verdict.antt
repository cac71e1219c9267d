-- ===== src/Memory/Shadow/Verdict.antt =====
-- What a write does besides storing: whether it is refused, and whether the listener is called.
use pico_cpu.Prelude.{
  ℕ, zero, suc, ◌+◌, ◌^◌, ◌<◌, ◌≡◌, ◌≢◌, inl, inr, refl, ap, ap₂, ◌∙◌, ◌⊎◌, ◌&&◌, bit_and, nonzero,
  true, false, Option, none, some, List, [], ◌∷◌, ◌==◌, length, add64, arith, if_split,
  Option-cases, if_then, if_else, subst, sym, ltb,
}
use pico_cpu.Prelude.Bits.Masks.{nonzero_single}
use native.Mathlib.Decide.{dec_lt}
use pico_cpu.Error.{Status}
use pico_cpu.Memory.Provider.{Provider, ReadResult}
use pico_cpu.Memory.Provider.Contract.{take, drop}
use pico_cpu.Memory.Shadow.{
  Shadow, ProtRange, page_of, page_chunk, covering, touches, prot_w, perm_of, denied,
  range_is_private, refuses, notify, copied, fresh_page, get_or_make_page, write_chunk, write_loop,
  write,
}
use pico_cpu.Memory.Shadow.Ranges.{
  Decides, IsIn, IsWritable, AreNarrow, HaveBytes, Touches, permission, within-IsPrivate,
  covering-IsWritable, touches-Touches,
}

module _ {S : Type 0} where
  -- The ranges of the state lie below 2^64.
  abbrev pub IsRegular : Shadow S → Type 0
  IsRegular s = AreNarrow s.prot_ranges × HaveBytes s.private_ranges × HaveBytes s.code_ranges

  abbrev pub IsAllowed : Shadow S → ℕ → Type 0
  IsAllowed s x = IsWritable s.prot_ranges s.private_ranges x

  perm_bit :
      (s : Shadow S) (x : ℕ)
      → IsRegular s
      → x + 1 < 2 ^ 64
      → Decides (nonzero (bit_and (perm_of x s) prot_w)) (IsAllowed s x)
  unfolding perm_of
  perm_bit s x (h, private, _) fits =
      subst (λ b. Decides b (IsAllowed s x))
        (sym (nonzero_single 1 (permission (range_is_private x 1 s) (covering s.prot_ranges x))))
        (covering-IsWritable s.prot_ranges s.private_ranges (range_is_private x 1 s) x
          (within-IsPrivate s.private_ranges x private fits) h)

  -- A byte of the `n` from `a` may not be written.
  abbrev pub Denies : Shadow S → ℕ → ℕ → Type 0
  Denies s a n = (x : ℕ) × IsIn a n x × (IsAllowed s x → ⊥)

  denied-Denies :
      (fuel cur : ℕ) (s : Shadow S)
      → IsRegular s
      → cur + fuel < 2 ^ 64
      → Decides (denied fuel cur (cur + fuel) s) (Denies s cur fuel)
  unfolding denied
  denied-Denies zero cur s h fits =
      (λ e. absurd (cc), λ e (x, (lo, up), bad). omega (arith, lo, up))
  denied-Denies (suc fuel) cur s h fits =
      let next : add64 cur 1 ≡ suc cur = omega (arith, fits) in
      let more : suc cur + fuel ≡ cur + suc fuel = omega arith in
      let here : ltb cur (cur + suc fuel) ≡ true = ground arith in
      let (found, clear) =
        subst (λ k. Decides (denied fuel k (cur + suc fuel) s) (Denies s (suc cur) fuel)) (sym next)
          (subst (λ k. Decides (denied fuel (suc cur) k s) (Denies s (suc cur) fuel)) more
            (denied-Denies fuel (suc cur) s h (omega (arith, fits)))) in
      let (allowed, refused) = perm_bit s cur h (omega (arith, fits)) in
      if_then (λ b. Decides b (Denies s cur (suc fuel))) (ltb cur (cur + suc fuel)) _ false here
        (if_split (λ b. Decides b (Denies s cur (suc fuel)))
          (nonzero (bit_and (perm_of cur s) prot_w)) _ true
          (λ q. (
            λ e.
                let (x, (lo, up), bad) = found e in
                (x, (omega (arith, lo), omega (arith, up)), bad),
            λ e (x, (lo, up), bad). elim (dec_lt cur x) [
              | yes p ↦ clear e (x, (omega arith, omega (arith, up)), bad)
              | no p ↦
                  let same : cur ≡ x = omega (arith, lo, p) in
                  bad (subst (IsAllowed s) same (allowed q))
            ],
          ))
          (λ q. (λ e. (cur, (omega arith, omega arith), refused q), λ e w. absurd (cc))))

  -- The listener is called with a write that has a byte in a code range.
  abbrev pub Notifies : Shadow S → ℕ → ℕ → List (ℕ × ℕ) → Type 0
  Notifies s a n after =
      ((s.listening ≡ true) × Touches s.code_ranges a n × (after ≡ (a, n) ∷ s.notified))
      ⊎ (((s.listening ≡ true → Touches s.code_ranges a n → ⊥)) × (after ≡ s.notified))

  -- The fields that a store leaves alone.
  IsQuiet : Shadow S → Shadow S → Type 0
  IsQuiet s t =
      (t.listening ≡ s.listening) × (t.code_ranges ≡ s.code_ranges) × (t.notified ≡ s.notified)

  copied-IsQuiet : (page : ℕ) (s : Shadow S) (r : ReadResult × S) → IsQuiet s ((copied page s r).1)
  unfolding IsQuiet
  copied-IsQuiet page s (ReadResult.bytes bs, m) = (refl, refl, refl)
  copied-IsQuiet page s (ReadResult.failed st out, m) = (refl, refl, refl)

  fresh_page-IsQuiet :
      (b : Option (Provider S)) (page : ℕ) (s : Shadow S) → IsQuiet s ((fresh_page b page s).1)
  unfolding IsQuiet
  fresh_page-IsQuiet none page s = (refl, refl, refl)
  fresh_page-IsQuiet (some p) page s = copied-IsQuiet page s (p.read page 4096 s.below)

  get_or_make_page-IsQuiet :
      (b : Option (Provider S)) (page : ℕ) (s : Shadow S)
      → IsQuiet s ((get_or_make_page b page s).1)
  unfolding get_or_make_page IsQuiet
  get_or_make_page-IsQuiet b page s = elim (Option-cases (s.pages page)) [
    | inl e ↦
        rw (e, get_or_make_page)
          (if_split (λ (r : (ℕ → ℕ) × Shadow S). IsQuiet s (r.1)) (range_is_private page 4096 s) _ _
            (λ q. (refl, refl, refl)) (λ q. fresh_page-IsQuiet b page s))
    | inr (bytes, e) ↦ rw (e, get_or_make_page) (refl, refl, refl)
  ]

  write_loop-IsQuiet :
      (b : Option (Provider S)) (fuel cur : ℕ) (src : List ℕ) (s : Shadow S)
      → IsQuiet s (write_loop b fuel cur src s)
  unfolding write_loop write_chunk IsQuiet
  write_loop-IsQuiet b zero cur src s = (refl, refl, refl)
  write_loop-IsQuiet b (suc fuel) cur src s =
      if_split (IsQuiet s) (length src == 0) s _ (λ q. (refl, refl, refl))
        λ q.
          let n = page_chunk cur (length src) in
          let (l, c, d) = get_or_make_page-IsQuiet b (page_of cur) s in
          let (l', c', d') =
            write_loop-IsQuiet b fuel (add64 cur n) (drop n src)
              (write_chunk b cur (take n src) s) in
          (l' ∙ l, c' ∙ c, d' ∙ d)

  notify-Notifies :
      (s t : Shadow S) (a n : ℕ)
      → IsQuiet s t
      → HaveBytes s.code_ranges
      → 0 < n
      → a + n < 2 ^ 64
      → Notifies s a n ((notify a n t).notified)
  unfolding notify IsQuiet
  notify-Notifies s t a n (l, c, d) h has fits =
      let (found, clear) = touches-Touches s.code_ranges a n h has fits in
      let test : (t.listening && touches t.code_ranges a n)
          ≡ (s.listening && touches s.code_ranges a n) =
        ap₂ ◌&&◌ l (ap (λ rs. touches rs a n) c) in
      if_split (λ (u : Shadow S). Notifies s a n u.notified)
        (t.listening && touches t.code_ranges a n) _ t
        (λ q.
          inl (ground (arith, q, test), found (ground (arith, q, test)), ap (λ k. (a, n) ∷ k) d))
        (λ q. inr ((λ on. clear (ground (arith, q, test, on))), d))

  -- Some range is protected, and a byte of the write may not be written.
  abbrev pub IsRefused : Shadow S → ℕ → ℕ → Type 0
  IsRefused s a n = (s.prot_ranges ≢ []) × Denies s a n

  refuses-IsRefused :
      (s : Shadow S) (a n : ℕ)
      → IsRegular s
      → a + n < 2 ^ 64
      → Decides (refuses a n s) (IsRefused s a n)
  unfolding refuses
  refuses-IsRefused s a n h fits = decided s.prot_ranges refl
    where
      decided :
          (rs : List ProtRange) → s.prot_ranges ≡ rs → Decides (refuses a n s) (IsRefused s a n)
      decided [] e = rw e (λ k. absurd (cc), λ k w. w.0 refl)
      decided (r ∷ rs) e =
          let end : add64 a n ≡ a + n = omega (arith, fits) in
          let (found, clear) = denied-Denies n a s h fits in
          let same : refuses a n s ≡ denied n a (a + n) s = rw (e, end) refl in
          (λ k. ((λ none_left. absurd (cc)), found (sym same ∙ k)), λ k w. clear (sym same ∙ k) w.1)

  abbrev pub Verdict : Shadow S → ℕ → ℕ → Status × Shadow S → Type 0
  Verdict s a n (st, t) =
      ((st ≡ Status.protection_violation) × (t ≡ s) × IsRefused s a n)
      ⊎ ((st ≡ Status.ok) × (IsRefused s a n → ⊥) × Notifies s a n t.notified)

  -- A write of at least a byte to the shadow pages is refused with ProtectionViolation and
  -- changes nothing exactly if a range is protected and a byte of the write may not be written:
  -- the last protected range that has it does not allow writes, or none has it and it is in no
  -- private region. Any other write succeeds, and tells the listener, where there is one,
  -- exactly if it has a byte in a code range. The write and the ranges lie below 2^64, and no
  -- private or code range is empty.
  pub write-Verdict :
      (b : Option (Provider S)) (a : ℕ) (bs : List ℕ) (s : Shadow S)
      → IsRegular s
      → 0 < length bs
      → a + length bs < 2 ^ 64
      → Verdict s a (length bs) (write b a bs s)
  unfolding write
  write-Verdict b a bs s regular has fits =
      let n = length bs in
      let (refused, allowed) = refuses-IsRefused s a n regular fits in
      if_else (Verdict s a n) (n == 0) _ _ (ground (arith, has)) (
        if_split (Verdict s a n) (refuses a n s) _ _ (λ q. inl (refl, refl, refused q))
          (λ q. inr (
            refl,
            allowed q,
            notify-Notifies s (write_loop b n a bs s) a n (write_loop-IsQuiet b n a bs s) regular.2
                has fits,
          )))
