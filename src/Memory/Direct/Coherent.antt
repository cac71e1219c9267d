-- ===== src/Memory/Direct/Coherent.antt =====
-- The lines of a direct-mapped cache hold what the layer below holds, and so the cache serves the
-- same bytes as that layer.
use pico_cpu.Prelude.{
  ℕ, zero, suc, ◌+◌, ◌-◌, ◌^◌, ◌≤◌, ◌<◌, ◌≡◌, ◌⊎◌, inl, inr, refl, sym, ap, ◌∙◌, subst, true, false,
  Option, none, some, List, ◌==◌, ==_iff, Bool-cases, if◌then◌else◌, add64, arith,
}
use pico_cpu.Error.{Status}
use pico_cpu.Memory.Provider.{Provider, ReadResult}
use pico_cpu.Memory.Provider.Contract.{window, at, patch, at-window, GoodRead, Serves}
use pico_cpu.Memory.Direct.{
  Geometry, Line, Cached, set_line, hit, chunk, filled, fetch, drop_lines, no_lines,
}

-- Aligned lines within the address space.
pub record IsGeometry (g : Geometry) : Type 0 where
  pub base_le : (c : ℕ) → g.base_of c ≤ c
  pub base_room : (c : ℕ) → c < g.base_of c + g.line_size
  pub base_same : (c i : ℕ) → i < g.line_size → g.base_of (g.base_of c + i) ≡ g.base_of c
  pub base_end : (c : ℕ) → c < 2 ^ 64 → g.base_of c + g.line_size ≤ 2 ^ 64

-- A valid line stands in its own entry and holds the bytes `v`, except for those from `lo` to `hi`.
abbrev pub HoldsOutside : Geometry → (ℕ → ℕ) → ℕ → ℕ → ℕ → Line → Type 0
HoldsOutside g v lo hi j l =
    l.valid ≡ true
    → (g.base_of l.tag ≡ l.tag)
      × (g.index_of l.tag ≡ j)
      × ((i : ℕ)
          → i < g.line_size
          → (l.tag + i < lo) ⊎ (hi ≤ l.tag + i)
          → l.bytes i ≡ v (l.tag + i))

abbrev pub Outside : Geometry → (ℕ → ℕ) → ℕ → ℕ → (ℕ → Line) → Type 0
Outside g v lo hi lines = (j : ℕ) → HoldsOutside g v lo hi j (lines j)

abbrev pub IsCoherent : Geometry → (ℕ → ℕ) → (ℕ → Line) → Type 0
IsCoherent g v lines = Outside g v 0 0 lines

pub set_line_all :
    (P : ℕ → Line → Type 0) (i : ℕ) (l : Line) (lines : ℕ → Line)
    → P i l
    → ((j : ℕ) → P j (lines j))
    → (j : ℕ) → P j (set_line i l lines j)
set_line_all P i l lines new old j = elim (Bool-cases (i == j)) [
  | inl e ↦ rw e (subst (λ k. P k l) ((==_iff i j).0 e) new)
  | inr e ↦ rw e (old j)
]

set_line_self : (i : ℕ) (l : Line) (lines : ℕ → Line) → set_line i l lines i ≡ l
set_line_self i l lines = ap (λ b. if b then l else lines i) ((==_iff i i).1 refl)

pub hit→ : (l : Line) (base : ℕ) → hit l base ≡ true → (l.valid ≡ true) × (l.tag ≡ base)
hit→ l base h = grind arith

-- A round of a loop makes progress and does not leave the line.
pub chunk_bounds :
    (g : Geometry) (ok : IsGeometry g) (cur remaining : ℕ)
    → 0 < remaining
    → (0 < chunk g cur remaining)
      × (chunk g cur remaining ≤ remaining)
      × (cur - g.base_of cur + chunk g cur remaining ≤ g.line_size)
chunk_bounds g ok cur remaining some_left =
    let lo = ok.base_le cur in let hi = ok.base_room cur in ground arith

module _ (g : Geometry) {S : Type 0} (IsOk : S → Type 0) (view : S → ℕ → ℕ) where
  abbrev pub IsOkCached : Cached S → Type 0
  IsOkCached c = IsOk c.below × IsCoherent g (view c.below) c.lines

  abbrev pub view_cached : Cached S → ℕ → ℕ
  view_cached c = view c.below

  unfoldable pub Fetched : ℕ → Cached S → Option Status × Cached S → Type 0
  Fetched cur c (none, c') =
      IsOkCached c'
      × (view_cached c' ≡ view_cached c)
      × ((i : ℕ)
          → i < g.line_size
          → (c'.lines (g.index_of (g.base_of cur))).bytes i ≡ view_cached c (g.base_of cur + i))
  Fetched cur c (some st, c') = IsOkCached c' × (view_cached c' ≡ view_cached c)

-- The bytes of a line after a failed read into it.
failed_line : Line → List ℕ → Line
failed_line l out = record l { bytes = patch l.bytes 0 out }

module _ (g : Geometry) (ok : IsGeometry g) where
  new_line :
      (v : ℕ → ℕ) (c : ℕ) (bs : List ℕ)
      → bs ≡ window v (g.base_of c) g.line_size
      → HoldsOutside g v 0 0
          (g.index_of (g.base_of c))
          (record { tag = g.base_of c; valid = true; bytes = at bs })
  new_line v c bs e _ =
      (aligned, refl, λ i lt _. ap (λ t. at t i) e ∙ at-window v (g.base_of c) g.line_size i lt)
    where
      aligned : g.base_of (g.base_of c) ≡ g.base_of c
      aligned =
          ap g.base_of (omega arith)
          ∙ ok.base_same c 0 (let lo = ok.base_le c in let hi = ok.base_room c in omega arith)

  dropped_line :
      (v : ℕ → ℕ) (lo hi j : ℕ) (l : Line) → HoldsOutside g v lo hi j (record l { valid = false })
  dropped_line v lo hi j l e = cc

  pub drop_lines-IsCoherent :
      (v : ℕ → ℕ) (n base : ℕ) (lines : ℕ → Line)
      → IsCoherent g v lines
      → IsCoherent g v (drop_lines g n base lines)
  unfolding drop_lines
  drop_lines-IsCoherent v zero base lines h = h
  drop_lines-IsCoherent v (suc n) base lines h =
      drop_lines-IsCoherent v n (add64 base g.line_size) _ (elim (Bool-cases (hit slot base)) [
        | inl e ↦ rw e (set_line_all (HoldsOutside g v 0 0) _ _ lines (dropped_line v 0 0 _ slot) h)
        | inr e ↦ rw e h
      ])
    where
      slot : Line
      slot = lines (g.index_of base)

  pub no_lines-IsCoherent : (v : ℕ → ℕ) (lines : ℕ → Line) → IsCoherent g v (no_lines lines)
  unfolding no_lines
  no_lines-IsCoherent v lines j =
      dropped_line v 0 0 j (record { tag = 0; valid = false; bytes = (lines j).bytes })

  module _ {S : Type 0} (next : Provider S) (IsOk : S → Type 0) (view : S → ℕ → ℕ)
      (serves : Serves IsOk view next) where
    filled-Fetched :
        (cur : ℕ) (c : Cached S) (r : ReadResult × S)
        → IsOkCached g IsOk view c
        → GoodRead IsOk view (g.base_of cur) g.line_size c.below r
        → Fetched g IsOk view cur c (filled g next (g.base_of cur) c r)
    unfolding Fetched failed_line
    filled-Fetched cur c (ReadResult.bytes bs, m) (below, lines) (e, ok', same) = (
      (
        ok',
        set_line_all (HoldsOutside g (view m) 0 0) _ _ c.lines
            (new_line (view m) cur bs
              (e ∙ ap (λ f. window f (g.base_of cur) g.line_size) (sym same)))
            (subst (λ f. IsCoherent g f c.lines) (sym same) lines),
      ),
      same,
      λ i lt.
          ap (λ l. l.bytes i) (set_line_self (g.index_of (g.base_of cur)) _ c.lines)
          ∙ ap (λ t. at t i) e
          ∙ at-window (view c.below) (g.base_of cur) g.line_size i lt,
    )
    filled-Fetched cur c (ReadResult.failed st out, m) (below, lines) (e, small, ok', same) = (
      (
        ok',
        set_line_all (HoldsOutside g (view m) 0 0) _ _ c.lines
            (dropped_line (view m) 0 0 _ (failed_line (c.lines (g.index_of (g.base_of cur))) out))
            (subst (λ f. IsCoherent g f c.lines) (sym same) lines),
      ),
      same,
    )

    pub fetch-Fetched :
        (cur : ℕ) (c : Cached S)
        → IsOkCached g IsOk view c
        → cur < 2 ^ 64
        → Fetched g IsOk view cur c (fetch g next (g.base_of cur) c)
    unfolding fetch Fetched
    fetch-Fetched cur c (below, lines) small =
        elim (Bool-cases (hit (c.lines (g.index_of (g.base_of cur))) (g.base_of cur))) [
          | inl e ↦ rw e ((below, lines), refl, found (hit→ slot (g.base_of cur) e))
          | inr e ↦ rw e (
              filled-Fetched cur c _ (below, lines)
                (serves.read_good (g.base_of cur) g.line_size c.below below
                  (ok.base_end cur small)))
        ]
      where
        slot : Line
        slot = c.lines (g.index_of (g.base_of cur))

        found :
            (slot.valid ≡ true) × (slot.tag ≡ g.base_of cur)
            → (i : ℕ) → i < g.line_size
            → slot.bytes i ≡ view c.below (g.base_of cur + i)
        found (v, t) i lt =
            (lines (g.index_of (g.base_of cur)) v).2 i lt (inr (omega arith))
            ∙ ap (λ b. view c.below (b + i)) t
