-- ===== src/Memory/StubHeap/Free.antt =====
-- A release into the stub heap.
use pico_cpu.Prelude.{
  ℕ, ◌+◌, ◌^◌, ◌<◌, ◌≤◌, ◌≡◌, refl, sym, ◌⊎◌, subst, ◌∙◌, Bool-cases, inl, inr, Bool, true, false,
  not, ◌&&◌, ◌||◌, List, [], ◌∷◌, Option, none, some, ltb, ◌==◌, arith, if_split, if_then, if_else,
  add64,
}
use pico_cpu.Memory.StubHeap.{
  Block, StubHeap, free_in, free_from, join_next, join_both, joined, released, behind,
}
use pico_cpu.Memory.StubHeap.Tiling.{
  Tiles, within, owns, owned, size_at, IsValid, NotAt, NotAt-below, Tiles-le, owned-below,
}

-- The blocks tile the region, and own the same bytes.
abbrev IsSame : ℕ → List Block → ℕ → List Block → Type 0
IsSame a bs e bs' = Tiles a bs' e × ((x : ℕ) → owned bs' x ≡ owned bs x)

join_next-IsSame :
    (a : ℕ) (b : Block) (bs : List Block) (e : ℕ)
    → Tiles a (b ∷ bs) e
    → e < 2 ^ 64
    → b.is_free ≡ true
    → IsSame a (b ∷ bs) e (join_next b bs)
unfolding join_next
join_next-IsSame a b [] e t bound f = (t, λ x. refl)
join_next-IsSame a b (c ∷ cs) e (at, positive, (next, large, t)) bound f =
    if_split (IsSame a (b ∷ c ∷ cs) e) c.is_free _ _
      (λ g.
        let top : a + b.size + c.size ≤ e = Tiles-le (a + b.size + c.size) cs e t in
        let size : add64 b.size c.size ≡ b.size + c.size = omega (arith, top, bound) in
        let whole : a + add64 b.size c.size ≡ a + b.size + c.size = omega (arith, size) in
        (
          (at, omega (arith, size, positive), subst (λ k. Tiles k cs e) (sym whole) t),
          λ x. ground (arith, f, g),
        ))
      (λ g. ((at, positive, (next, large, t)), λ x. refl))

join_both-IsSame :
    (a : ℕ) (prev b : Block) (bs : List Block) (e : ℕ)
    → Tiles a (prev ∷ b ∷ bs) e
    → e < 2 ^ 64
    → b.is_free ≡ true
    → IsSame a (prev ∷ b ∷ bs) e (join_both prev b bs)
unfolding join_both
join_both-IsSame a prev b bs e (at, positive, (next, large, t)) bound f =
    if_split (IsSame a (prev ∷ b ∷ bs) e) prev.is_free _ _
      (λ g.
        let top : a + prev.size + b.size ≤ e = Tiles-le (a + prev.size + b.size) bs e t in
        let size : add64 prev.size b.size ≡ prev.size + b.size = omega (arith, top, bound) in
        let whole : a + add64 prev.size b.size ≡ a + prev.size + b.size = omega (arith, size) in
        let (tiles, same) =
          join_next-IsSame a (joined prev b) bs e
            (at, omega (arith, size, positive), subst (λ k. Tiles k bs e) (sym whole) t) bound g in
        (tiles, λ x. ground (arith, same x, f, g)))
      (λ g.
        let (tiles, same) = join_next-IsSame (a + prev.size) b bs e (next, large, t) bound f in
        ((at, positive, tiles), λ x. ground (arith, same x)))

-- The blocks tile the region, and the `n` bytes from `p`, all of which were given out, are given out
-- no more.
abbrev Takes : ℕ → ℕ → List Block → ℕ → List Block → ℕ → Type 0
Takes p a bs e bs' n =
    Tiles a bs' e
    × (0 < n)
    × ((x : ℕ) → within p n x ≡ true → owned bs x ≡ true)
    × ((x : ℕ) → owned bs' x ≡ (owned bs x && not (within p n x)))

-- No block at `p` is given out, or its bytes, all of which were, are given out no more.
abbrev pub IsFreed : ℕ → ℕ → List Block → ℕ → Option (List Block) → Type 0
IsFreed p a bs e none = NotAt p bs
IsFreed p a bs e (some bs') = Takes p a bs e bs' (size_at p bs)

-- What the release of the block `b` takes away from the bytes given out.
taken_away :
    (a : ℕ) (b : Block) (bs : List Block) (e : ℕ)
    → Tiles a (b ∷ bs) e
    → b.is_free ≡ false
    → (x : ℕ) → owned bs x ≡ (owned (b ∷ bs) x && not (within b.addr b.size x))
taken_away a b bs e (at, positive, t) f x = elim (Bool-cases (within b.addr b.size x)) [
  | inl w ↦
      let rest : owned bs x ≡ false = owned-below (a + b.size) bs e x t (ground (arith, w, at)) in
      ground (arith, rest, w)
  | inr w ↦ ground (arith, w, f)
]

first-size : (b : Block) (bs : List Block) (P : ℕ → Type 0) → P b.size → P (size_at b.addr (b ∷ bs))
first-size b bs P h = if_then P (b.addr == b.addr) _ _ (ground arith) h

second-size :
    (a : ℕ) (prev b : Block) (bs : List Block) (e : ℕ)
    → Tiles a (prev ∷ b ∷ bs) e
    → (P : ℕ → Type 0) → P b.size
    → P (size_at b.addr (prev ∷ b ∷ bs))
second-size a prev b bs e (at, positive, (next, large, t)) P h =
    if_else P (prev.addr == b.addr) _ _ (ground (arith, at, next, positive)) (first-size b bs P h)

first-IsFreed :
    (a : ℕ) (b : Block) (bs : List Block) (e : ℕ)
    → Tiles a (b ∷ bs) e
    → e < 2 ^ 64
    → b.is_free ≡ false
    → IsFreed b.addr a (b ∷ bs) e (some (join_next (released b) bs))
first-IsFreed a b bs e t bound f =
    let (tiles, same) = join_next-IsSame a (released b) bs e t bound refl in
    first-size b bs (Takes b.addr a (b ∷ bs) e (join_next (released b) bs))
      (tiles, t.1, (λ x w. ground (arith, w, f)), λ x. same x ∙ taken_away a b bs e t f x)

later-IsFreed :
    (a : ℕ) (prev b : Block) (bs : List Block) (e : ℕ)
    → Tiles a (prev ∷ b ∷ bs) e
    → e < 2 ^ 64
    → b.is_free ≡ false
    → IsFreed b.addr a (prev ∷ b ∷ bs) e (some (join_both prev (released b) bs))
later-IsFreed a prev b bs e (at, positive, (next, large, t)) bound f =
    let (tiles, same) =
      join_both-IsSame a prev (released b) bs e (at, positive, (next, large, t)) bound refl in
    let apart = λ (x : ℕ).
      let less : owned bs x ≡ (owned (b ∷ bs) x && not (within b.addr b.size x)) =
        taken_away (a + prev.size) b bs e (next, large, t) f x in
      let all : (owns prev x || owned bs x)
          ≡ ((owns prev x || owned (b ∷ bs) x) && not (within b.addr b.size x)) =
        ground (arith, less, at, next, f) in
      all in
    second-size a prev b bs e (at, positive, (next, large, t))
      (Takes b.addr a (prev ∷ b ∷ bs) e (join_both prev (released b) bs))
      (tiles, large, (λ x w. ground (arith, w, f)), λ x. same x ∙ apart x)

behind-IsFreed :
    (p a : ℕ) (b : Block) (bs : List Block) (e : ℕ) (r : Option (List Block))
    → Tiles a (b ∷ bs) e
    → (b.addr == p) ≡ false
    → IsFreed p (a + b.size) bs e r
    → IsFreed p a (b ∷ bs) e (behind b r)
behind-IsFreed p a b bs e none t k h = (ground (arith, k), h)
behind-IsFreed p a b bs e (some bs') (at, positive, t) k (tiles, large, were, less) =
    if_else (Takes p a (b ∷ bs) e (b ∷ bs')) (b.addr == p) _ _ k (
      (at, positive, tiles),
      large,
      (λ x w. let was : owned bs x ≡ true = were x w in ground (arith, was)),
      λ x. elim (Bool-cases (within p (size_at p bs) x)) [
        | inl w ↦
            let low : owns b x ≡ false = above x (were x w) in
            let now : owned bs' x ≡ (owned bs x && not (within p (size_at p bs) x)) = less x in
            ground (arith, low, now, w)
        | inr w ↦
            let now : owned bs' x ≡ (owned bs x && not (within p (size_at p bs) x)) = less x in
            ground (arith, now, w)
      ],
    )
  where
    above : (x : ℕ) → owned bs x ≡ true → owns b x ≡ false
    above x h = elim (Bool-cases (ltb x (a + b.size))) [
      | inl l ↦
          let none_there : owned bs x ≡ false =
            owned-below (a + b.size) bs e x t (ground (arith, l)) in
          absurd (cc)
      | inr g ↦ ground (arith, g, at)
    ]

-- Where the block at `p` is free no block at `p` is given out.
free_there :
    (p a : ℕ) (b : Block) (bs : List Block) (e : ℕ)
    → Tiles a (b ∷ bs) e
    → b.addr ≡ p
    → b.is_free ≡ true
    → NotAt p (b ∷ bs)
free_there p a b bs e (at, positive, t) q g =
    (ground (arith, g), NotAt-below p (a + b.size) bs e t (omega (arith, at, q, positive)))

free_from-IsFreed :
    (p a : ℕ) (prev : Block) (bs : List Block) (e : ℕ)
    → Tiles a (prev ∷ bs) e
    → e < 2 ^ 64
    → (prev.addr == p) ≡ false
    → IsFreed p a (prev ∷ bs) e (free_from p prev bs)
unfolding free_from
free_from-IsFreed p a prev [] e t bound k = (ground (arith, k), tt)
free_from-IsFreed p a prev (b ∷ bs) e t bound k =
    if_split (IsFreed p a (prev ∷ b ∷ bs) e) (b.addr == p) _ _
      (λ h.
        let e' : b.addr ≡ p = ground (arith, h) in
        if_split (IsFreed p a (prev ∷ b ∷ bs) e) b.is_free _ _
          (λ g. (ground (arith, k), free_there p (a + prev.size) b bs e t.2 e' g))
          (λ g.
            subst (λ q. IsFreed q a (prev ∷ b ∷ bs) e (some (join_both prev (released b) bs))) (e')
              (later-IsFreed a prev b bs e t bound g)))
      (λ h.
        behind-IsFreed p a prev (b ∷ bs) e (free_from p b bs) t k
          (free_from-IsFreed p (a + prev.size) b bs e t.2 bound h))

-- The blocks after a release.
pub free_in-IsFreed :
    (p a : ℕ) (bs : List Block) (e : ℕ)
    → Tiles a bs e
    → e < 2 ^ 64
    → IsFreed p a bs e (free_in p bs)
unfolding free_in
free_in-IsFreed p a [] e t bound = tt
free_in-IsFreed p a (b ∷ bs) e t bound =
    if_split (IsFreed p a (b ∷ bs) e) (b.addr == p) _ _
      (λ h.
        let e' : b.addr ≡ p = ground (arith, h) in
        if_split (IsFreed p a (b ∷ bs) e) b.is_free _ _ (λ g. free_there p a b bs e t e' g)
          (λ g.
            subst (λ q. IsFreed q a (b ∷ bs) e (some (join_next (released b) bs))) (e')
              (first-IsFreed a b bs e t bound g)))
      (λ h. free_from-IsFreed p a b bs e t bound h)

-- The bytes of the block at `p`, all of which were given out, are given out no more.
abbrev pub IsReleased : ℕ → StubHeap → StubHeap → Type 0
IsReleased p h h' =
    IsValid h'
    × (0 < size_at p h.blocks)
    × ((x : ℕ) → within p (size_at p h.blocks) x ≡ true → owned h.blocks x ≡ true)
    × ((x : ℕ) → owned h'.blocks x ≡ (owned h.blocks x && not (within p (size_at p h.blocks) x)))

-- What `free` says, and the heap that it leaves.
abbrev pub Outcome : ℕ → StubHeap → Bool × StubHeap → Type 0
Outcome p h (false, h') = (h' ≡ h) × NotAt p h.blocks
Outcome p h (true, h') = ((p ≡ 0) × (h' ≡ h)) ⊎ IsReleased p h h'
