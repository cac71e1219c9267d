-- ===== src/Memory/Shadow/Ranges.antt =====
-- The lists of ranges of the shadow pages: which bytes may be written, and which ranges a write
-- touches.
use pico_cpu.Prelude.{
  ℕ, ◌+◌, ◌^◌, ◌≤◌, ◌<◌, ◌≡◌, inl, inr, refl, ◌⊎◌, ◌&&◌, bit, Bool, true, false, Option, none, some,
  List, [], ◌∷◌, add64, arith, if_split, leb, ltb, if◌then◌else◌,
}
use native.Mathlib.Decide.{dec_lt}
use pico_cpu.Memory.Shadow.{Range, ProtRange, within, covering, touches, prot_r, prot_w}

-- A test answers a question.
abbrev pub Decides : Bool → Type 0 → Type 0
Decides b A = (b ≡ true → A) × (b ≡ false → A → ⊥)

-- `x` is in the `size` bytes from `base`.
abbrev pub IsIn : ℕ → ℕ → ℕ → Type 0
IsIn base size x = (base ≤ x) × (x < base + size)

-- No range is empty or reaches 2^64.
abbrev pub HaveBytes : List Range → Type 0
HaveBytes [] = Unit
HaveBytes (r ∷ rs) = ((r.base + r.size < 2 ^ 64) × (0 < r.size)) × HaveBytes rs

abbrev pub IsPrivate : List Range → ℕ → Type 0
IsPrivate [] x = ⊥
IsPrivate (r ∷ rs) x = IsIn r.base r.size x ⊎ IsPrivate rs x

pub within-IsPrivate :
    (rs : List Range) (x : ℕ)
    → HaveBytes rs
    → x + 1 < 2 ^ 64
    → Decides (within rs x 1) (IsPrivate rs x)
within-IsPrivate [] x h fits = (λ e. absurd (cc), λ e w. w)
within-IsPrivate (r ∷ rs) x ((low, some_bytes), h) fits =
    let end : add64 r.base r.size ≡ r.base + r.size = omega (arith, low) in
    let last : add64 x 1 ≡ x + 1 = omega (arith, fits) in
    let (found, clear) = within-IsPrivate rs x h fits in
    if_split (λ b. Decides b (IsPrivate (r ∷ rs) x))
      (leb r.base x && leb (add64 x 1) (add64 r.base r.size)) true (within rs x 1)
      (λ q. (
        λ e. inl (
            let up : x + 1 ≤ r.base + r.size = ground (arith, q, end, last) in
            (ground (arith, q), omega (arith, up))),
        λ e w. absurd (cc),
      ))
      (λ q. (
        λ e. inr (found e),
        λ e w. elim w [
          | inl v ↦ let (lo, up) = v in ground (arith, q, end, last, lo, up)
          | inr v ↦ clear e v
        ],
      ))

-- A byte may be written as the last protected range that has it says, in bit 1, and, where none has
-- it, if it is in a private region.
abbrev pub IsWritable : List ProtRange → List Range → ℕ → Type 0
IsWritable [] privates x = IsPrivate privates x
IsWritable (r ∷ rs) privates x =
    (IsIn r.base r.size x × (bit r.prot 1 ≡ true))
    ⊎ ((IsIn r.base r.size x → ⊥) × IsWritable rs privates x)

-- No range reaches 2^64.
abbrev pub AreNarrow : List ProtRange → Type 0
AreNarrow [] = Unit
AreNarrow (r ∷ rs) = (r.base + r.size < 2 ^ 64) × AreNarrow rs

-- A range has a byte of the `n` from `a`.
abbrev pub Touches : List Range → ℕ → ℕ → Type 0
Touches [] a n = ⊥
Touches (r ∷ rs) a n = ((x : ℕ) × IsIn r.base r.size x × IsIn a n x) ⊎ Touches rs a n

abbrev pub permission : Bool → Option ℕ → ℕ
permission private o = elim o [
  | some prot ↦ prot
  | none ↦ if private then prot_r + prot_w else prot_r
]

pub covering-IsWritable :
    (rs : List ProtRange) (privates : List Range) (private : Bool) (x : ℕ)
    → Decides private (IsPrivate privates x)
    → AreNarrow rs
    → Decides (bit (permission private (covering rs x)) 1) (IsWritable rs privates x)
covering-IsWritable [] privates true x (allowed, refused) h =
    (λ e. allowed refl, λ e w. absurd (cc))
covering-IsWritable [] privates false x (allowed, refused) h =
    (λ e. absurd (cc), λ e w. refused refl w)
covering-IsWritable (r ∷ rs) privates private x d (narrow, h) =
    let end : add64 r.base r.size ≡ r.base + r.size = omega (arith, narrow) in
    let (allowed, refused) = covering-IsWritable rs privates private x d h in
    if_split (λ o. Decides (bit (permission private o) 1) (IsWritable (r ∷ rs) privates x))
      (leb r.base x && ltb x (add64 r.base r.size)) (some r.prot) (covering rs x)
      (λ q.
        let inside : IsIn r.base r.size x = (ground (arith, q), ground (arith, q, end)) in
        (λ e. inl (inside, e), λ e w. elim w [ inl v ↦ absurd (cc) | inr v ↦ v.0 inside ]))
      (λ q.
        let outside : IsIn r.base r.size x → ⊥ = λ (lo, up). ground (arith, q, end, lo, up) in
        (
          λ e. inr (outside, allowed e),
          λ e w. elim w [ inl v ↦ outside v.0 | inr v ↦ refused e v.1 ],
        ))

pub touches-Touches :
    (rs : List Range) (a n : ℕ)
    → HaveBytes rs
    → 0 < n
    → a + n < 2 ^ 64
    → Decides (touches rs a n) (Touches rs a n)
touches-Touches [] a n h has fits = (λ e. absurd (cc), λ e w. w)
touches-Touches (r ∷ rs) a n ((low, some_bytes), h) has fits =
    let end : add64 r.base r.size ≡ r.base + r.size = omega (arith, low) in
    let last : add64 a n ≡ a + n = omega (arith, fits) in
    let (found, clear) = touches-Touches rs a n h has fits in
    if_split (λ b. Decides b (Touches (r ∷ rs) a n))
      (ltb a (add64 r.base r.size) && ltb r.base (add64 a n)) true (touches rs a n)
      (λ q. (
        λ e. inl (
            let before : a < r.base + r.size = ground (arith, q, end) in
            let after : r.base < a + n = ground (arith, q, last) in
            elim (dec_lt a r.base) [
              | yes p ↦ (
                r.base,
                (omega arith, omega (arith, some_bytes)),
                (omega (arith, p), omega (arith, after)),
              )
              | no p ↦
                  (a, (omega (arith, p), omega (arith, before)), (omega arith, omega (arith, has)))
            ]),
        λ e w. absurd (cc),
      ))
      (λ q. (
        λ e. inr (found e),
        λ e w. elim w [
          | inl v ↦
              let (x, (lo, up), (from, to)) = v in ground (arith, q, end, last, lo, up, from, to)
          | inr v ↦ clear e v
        ],
      ))
