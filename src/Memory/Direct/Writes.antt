-- ===== src/Memory/Direct/Writes.antt =====
-- The loop of `write`: after a write through the cache its lines hold what the layer below holds.
use pico_cpu.Prelude.{
  ℕ, zero, suc, ◌+◌, ◌-◌, ◌^◌, ◌≤◌, ◌<◌, ◌≡◌, ◌⊎◌, inl, inr, refl, sym, ap, subst, ◌∙◌, true, false,
  List, ◌==◌, ==_iff, Bool-cases, if◌then◌else◌, length, add64, arith,
}
use native.Mathlib.Decide.{dec_lt}
use pico_cpu.Error.{Status, fail}
use pico_cpu.Memory.Provider.{Provider}
use pico_cpu.Memory.Provider.Contract.{
  at, take, drop, patch, length-take, length-drop, at-take, at-drop, patch_inside, patch_outside,
  GoodWrite, Serves,
}
use pico_cpu.Memory.Direct.{
  Geometry, Line, Cached, hit, chunk, refresh, refresh_loop, written, write_through,
}
use pico_cpu.Memory.Direct.Coherent.{
  IsGeometry, HoldsOutside, Outside, IsCoherent, hit→, chunk_bounds, IsOkCached, view_cached,
}

module _ (g : Geometry) (ok : IsGeometry g) where
  -- A line with a byte in the line of `cur` is that line.
  same_line :
      (cur t i x : ℕ)
      → g.base_of t ≡ t
      → i < g.line_size
      → t + i ≡ x
      → g.base_of cur ≤ x
      → x < g.base_of cur + g.line_size
      → t ≡ g.base_of cur
  same_line cur t i x aligned lt e lo hi =
      sym aligned
      ∙ sym (ok.base_same t i lt)
      ∙ ap g.base_of (ap (λ b. b + i) aligned ∙ e ∙ reach)
      ∙ ok.base_same cur (x - g.base_of cur) (omega arith)
    where
      reach : x ≡ g.base_of cur + (x - g.base_of cur)
      reach = omega arith

  -- The bytes of the request that a line holds are the new ones.
  covered_line :
      (v : ℕ → ℕ) (cur n hi j : ℕ) (src : List ℕ) (l : Line)
      → l.tag ≡ g.base_of cur
      → n ≤ length src
      → hi ≡ cur + length src
      → ((i : ℕ) → i < length src → at src i ≡ v (cur + i))
      → HoldsOutside g v cur hi j l
      → HoldsOutside g v
          (cur + n)
          hi
          j
          (record l { bytes = patch l.bytes (cur - g.base_of cur) (take n src) })
  covered_line v cur n hi j src l t small end new old valid =
      let (aligned, own, holds) = old valid in
      let lo = ok.base_le cur in
      let len = length-take n src small in
      let off = cur - g.base_of cur in
      (
        aligned,
        own,
        λ i lt out. elim (place i lo out) [
          | inl (k, (e, below)) ↦
              ap (patch l.bytes off (take n src)) e
              ∙ patch_inside l.bytes off (take n src) k (omega arith)
              ∙ at-take n k src below
              ∙ new k (omega arith)
              ∙ ap v (omega arith)
          | inr (outside, rest) ↦
              patch_outside l.bytes off (take n src) i (rw len outside) ∙ holds i lt rest
        ],
      )
    where
      place :
          (i : ℕ)
          → g.base_of cur ≤ cur
          → (l.tag + i < cur + n) ⊎ (hi ≤ l.tag + i)
          → ((k : ℕ) × ((i ≡ cur - g.base_of cur + k) × (k < n)))
            ⊎ (((i < cur - g.base_of cur) ⊎ (cur - g.base_of cur + n ≤ i))
                × ((l.tag + i < cur) ⊎ (hi ≤ l.tag + i)))
      place i lo (inr out) = inr (inr (omega arith), inr out)
      place i lo (inl out) = elim (dec_lt (l.tag + i) cur) [
        | yes p ↦ inr (inl (omega arith), inl p)
        | no p ↦ inl (l.tag + i - cur, (omega arith, omega arith))
      ]

  -- Any other line has no byte in this part of the request.
  other_line :
      (v : ℕ → ℕ) (cur n hi j : ℕ) (l : Line)
      → cur - g.base_of cur + n ≤ g.line_size
      → ((l.valid ≡ true) → (l.tag ≡ g.base_of cur) → (g.index_of l.tag ≡ j) → ⊥)
      → HoldsOutside g v cur hi j l
      → HoldsOutside g v (cur + n) hi j l
  other_line v cur n hi j l inside differs old valid =
      let (aligned, own, holds) = old valid in
      let lo = ok.base_le cur in
      (
        aligned,
        own,
        λ i lt out. holds i lt (elim out [
          | inr o ↦ inr o
          | inl o ↦ elim (dec_lt (l.tag + i) cur) [
            | yes p ↦ inl p
            | no p ↦ absurd (
                differs valid
                  (same_line cur l.tag i (l.tag + i) aligned lt refl (omega arith) (omega arith))
                  own)
          ]
        ]),
      )

  refresh-Outside :
      (v : ℕ → ℕ) (cur n hi : ℕ) (src : List ℕ) (lines : ℕ → Line) {S : Type 0} (next : Provider S)
      → n ≤ length src
      → cur - g.base_of cur + n ≤ g.line_size
      → hi ≡ cur + length src
      → ((i : ℕ) → i < length src → at src i ≡ v (cur + i))
      → Outside g v cur hi lines
      → Outside g v
          (cur + n)
          hi
          (refresh g next (g.base_of cur) (cur - g.base_of cur) (take n src) lines)
  refresh-Outside v cur n hi src lines next small inside end new old j =
      let base = g.base_of cur in
      let slot = lines (g.index_of base) in
      elim (Bool-cases (hit slot base)) [
        | inl e ↦ elim (Bool-cases (g.index_of base == j)) [
          | inl same ↦
              let p = (==_iff (g.index_of base) j).0 same in
              rw (e, same)
                (covered_line v cur n hi j src slot ((hit→ slot base e).1) small end new
                  (subst (λ k. HoldsOutside g v cur hi k slot) p (old (g.index_of base))))
          | inr apart ↦
              rw (e, apart)
                (other_line v cur n hi j (lines j) inside
                  (λ valid t own. grind (arith, ap g.index_of t)) (old j))
        ]
        | inr e ↦ rw e (
            other_line v cur n hi j (lines j) inside
              (λ valid t own. missed e valid t (sym own ∙ ap g.index_of t)) (old j))
      ]
    where
      missed :
          hit (lines (g.index_of (g.base_of cur))) (g.base_of cur) ≡ false
          → (lines j).valid ≡ true
          → (lines j).tag ≡ g.base_of cur
          → j ≡ g.index_of (g.base_of cur)
          → ⊥
      missed e valid t own = grind (arith, ap lines own)

  Outside-mono :
      (v : ℕ → ℕ) (a b a' b' : ℕ) (lines : ℕ → Line)
      → ((x : ℕ) → (x < a') ⊎ (b' ≤ x) → (x < a) ⊎ (b ≤ x))
      → Outside g v a b lines
      → Outside g v a' b' lines
  Outside-mono v a b a' b' lines sub h j valid =
      let (aligned, own, holds) = h j valid in
      (aligned, own, λ i lt out. holds i lt (sub ((lines j).tag + i) out))

  all_outside : (a x : ℕ) → (x < a) ⊎ (a ≤ x)
  all_outside a x = elim (dec_lt x a) [ yes p ↦ inl p | no p ↦ inr (omega arith) ]

  Outside-nothing :
      (v : ℕ → ℕ) (cur hi : ℕ) (lines : ℕ → Line)
      → cur ≡ hi
      → Outside g v cur hi lines
      → IsCoherent g v lines
  Outside-nothing v cur hi lines e h =
      Outside-mono v cur hi 0 0 lines (λ x _. rw e (all_outside hi x)) h

  -- The address wraps only where nothing is left of the source.
  wrapped :
      (cur n len x : ℕ)
      → n ≤ len
      → cur + len ≤ 2 ^ 64
      → (x < add64 cur n) ⊎ (add64 cur n + (len - n) ≤ x)
      → (x < cur + n) ⊎ (cur + len ≤ x)
  wrapped cur n len x small fits out = elim (dec_lt (cur + n) (2 ^ 64)) [
    | yes p ↦ elim out [ inl o ↦ inl (omega arith) | inr o ↦ inr (omega arith) ]
    | no p ↦ elim (dec_lt x (cur + n)) [ yes o ↦ inl o | no o ↦ inr (omega arith) ]
  ]

  refresh_loop-IsCoherent :
      (v : ℕ → ℕ) {S : Type 0} (next : Provider S) (fuel cur : ℕ) (src : List ℕ) (lines : ℕ → Line)
      → length src ≤ fuel
      → cur + length src ≤ 2 ^ 64
      → ((i : ℕ) → i < length src → at src i ≡ v (cur + i))
      → Outside g v cur (cur + length src) lines
      → IsCoherent g v (refresh_loop g next fuel cur src lines)
  unfolding refresh_loop
  refresh_loop-IsCoherent v next zero cur src lines enough fits new h =
      Outside-nothing v cur (cur + length src) lines (omega arith) h
  refresh_loop-IsCoherent v next (suc fuel) cur src lines enough fits new h =
      elim (Bool-cases (length src == 0)) [
        | inl e ↦ rw e (Outside-nothing v cur (cur + length src) lines (ground arith) h)
        | inr e ↦
            let n = chunk g cur (length src) in
            let (some_bytes, small, inside) = chunk_bounds g ok cur (length src) (ground arith) in
            let len = length-drop n src in
            rw e (
              refresh_loop-IsCoherent v next fuel (add64 cur n) (drop n src) _ (omega arith)
                (omega arith)
                (λ i lt. at-drop n i src ∙ new (n + i) (omega arith) ∙ ap v (omega arith))
                (Outside-mono v (cur + n) (cur + length src) _ _ _
                  (λ x out. wrapped cur n (length src) x small fits (rw (← len) out))
                  (refresh-Outside v cur n _ src lines next small inside refl new h)))
      ]

  module _ {S : Type 0} (next : Provider S) (IsOk : S → Type 0) (view : S → ℕ → ℕ)
      (serves : Serves IsOk view next) where
    pub write_through_good :
        (a : ℕ) (bs : List ℕ) (c : Cached S)
        → IsOkCached g IsOk view c
        → a + length bs ≤ 2 ^ 64
        → GoodWrite
            (IsOkCached g IsOk view)
            (view_cached g IsOk view)
            a
            bs
            c
            (write_through g next a bs c)
    unfolding write_through
    write_through_good a bs c (below, lines) fits =
        settled (next.write a bs c.below) (serves.write_good a bs c.below below fits)
      where
        settled :
            (r : Status × S)
            → GoodWrite IsOk view a bs c.below r
            → GoodWrite
                (IsOkCached g IsOk view)
                (view_cached g IsOk view)
                a
                bs
                c
                (written g next a bs c r)
        settled (st, m) (okay, e) = elim (Bool-cases (fail st)) [
          | inl f ↦
              let e' : view m ≡ view c.below =
                e ∙ ap (λ b. if b then view c.below else patch (view c.below) a bs) f in
              rw f ((okay, subst (λ v. IsCoherent g v c.lines) (sym e') lines), e')
          | inr f ↦
              let e' : view m ≡ patch (view c.below) a bs =
                e ∙ ap (λ b. if b then view c.below else patch (view c.below) a bs) f in
              rw f (
                (
                  okay,
                  subst (λ v. IsCoherent g v (refresh_loop g next (length bs) a bs c.lines))
                      (sym e')
                      (refresh_loop-IsCoherent (patch (view c.below) a bs) next (length bs) a bs
                        c.lines (omega arith) fits
                        (λ i lt. sym (patch_inside (view c.below) a bs i lt))
                        (λ j valid.
                          let (aligned, own, holds) = lines j valid in
                          (
                            aligned,
                            own,
                            λ i lt out.
                                holds i lt (inr (omega arith))
                                ∙ sym (patch_outside (view c.below) a bs _ out),
                          ))),
                ),
                e',
              )
        ]
