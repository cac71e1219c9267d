-- ===== src/Memory/Direct/Reads.antt =====
-- The loop of `read`: a read through the cache is a read of the layer below.
use pico_cpu.Prelude.{
  ℕ, zero, suc, ◌+◌, ◌-◌, ◌^◌, ◌≤◌, ◌<◌, ◌≡◌, inl, inr, refl, ap, ap₂, subst, ◌∙◌, true, Option,
  none, some, List, [], ◌++◌, ◌==◌, Bool-cases, add64, arith, length, length-append,
}
use pico_cpu.Error.{Status}
use pico_cpu.Memory.Provider.{Provider, ReadResult}
use pico_cpu.Memory.Provider.Contract.{
  window, window-append, window_ext, length-window, GoodRead, Serves,
}
use pico_cpu.Memory.Direct.{Geometry, Cached, chunk, prepend, after_fetch, read_loop}
use pico_cpu.Memory.Direct.Coherent.{
  IsGeometry, chunk_bounds, IsOkCached, view_cached, Fetched, fetch-Fetched,
}

pub window_none : (f : ℕ → ℕ) (a n : ℕ) → (n == 0) ≡ true → [] ≡ window f a n
unfolding window
window_none f a zero e = refl
window_none f a (suc n) e = absurd (ground arith)

-- The address wraps only where nothing is left.
pub window_wrap :
    (f : ℕ → ℕ) (cur n rest : ℕ)
    → cur + n + rest ≤ 2 ^ 64
    → window f (add64 cur n) rest ≡ window f (cur + n) rest
unfolding window
window_wrap f cur n zero h = refl
window_wrap f cur n (suc rest) h = ap (λ a. window f a (suc rest)) (omega arith)

-- Two reads in a row.
pub joined :
    {S : Type 0} (IsOk : S → Type 0) (view : S → ℕ → ℕ) (cur n rest : ℕ) (bs : List ℕ) (c c' : S)
    (r : ReadResult × S)
    → bs ≡ window (view c) cur n
    → view c' ≡ view c
    → cur + n + rest ≤ 2 ^ 64
    → GoodRead IsOk view (add64 cur n) rest c' r
    → GoodRead IsOk view cur (n + rest) c (prepend bs r)
joined IsOk view cur n rest bs c c' (ReadResult.failed st more, s) e same fits
      (m, small, okay, eq) =
    let first : length bs ≡ n = ap length e ∙ length-window (view c) cur n in
    let all : n + length more ≡ length (bs ++ more) = omega (arith, first, length-append bs more) in
    (
      ap₂ ◌++◌ e (
            m
            ∙ window_wrap (view c') cur n (length more) (omega (arith, small, fits))
            ∙ ap (λ f. window f (cur + n) (length more)) same)
          ∙ window-append (view c) cur n (length more)
          ∙ ap (window (view c) cur) all,
      omega (arith, all, small),
      okay,
      eq ∙ same,
    )
joined IsOk view cur n rest bs c c' (ReadResult.bytes more, s) e same fits (m, okay, eq) = (
  ap₂ ◌++◌ e (m ∙ window_wrap (view c') cur n rest fits ∙ ap (λ f. window f (cur + n) rest) same)
      ∙ window-append (view c) cur n rest,
  okay,
  eq ∙ same,
)

module _ (g : Geometry) (ok : IsGeometry g) {S : Type 0} (next : Provider S) (IsOk : S → Type 0)
    (view : S → ℕ → ℕ) (serves : Serves IsOk view next) where
  abbrev pub Good : ℕ → ℕ → Cached S → ReadResult × Cached S → Type 0
  Good a n c r = GoodRead (IsOkCached g IsOk view) (view_cached g IsOk view) a n c r

  -- What a round hands on, for a rest of the loop that is right.
  abbrev round : ℕ → ℕ → (Cached S → ReadResult × Cached S) → Cached S → ReadResult × Cached S
  round cur n more c' =
      prepend (window ((c'.lines (g.index_of (g.base_of cur))).bytes) (cur - g.base_of cur) n)
        (more c')

  after_fetch-Good :
      (cur remaining : ℕ) (c : Cached S) (more : Cached S → ReadResult × Cached S)
      → 0 < remaining
      → cur + remaining ≤ 2 ^ 64
      → ((c' : Cached S)
          → IsOkCached g IsOk view c'
          → Good
              (add64 cur (chunk g cur remaining))
              (remaining - chunk g cur remaining)
              c'
              (more c'))
      → (r : Option Status × Cached S) → Fetched g IsOk view cur c r
      → Good cur remaining c (after_fetch g next r (round cur (chunk g cur remaining) more))
  unfolding Fetched window
  after_fetch-Good cur remaining c more some_left fits rest (some st, c') (okay, same) =
      (refl, omega arith, okay, same)
  after_fetch-Good cur remaining c more some_left fits rest (none, c') (okay, same, bytes) =
      let n = chunk g cur remaining in
      let (_, below, inside) = chunk_bounds g ok cur remaining some_left in
      let lo = ok.base_le cur in
      let all : n + (remaining - n) ≡ remaining = omega arith in
      subst (λ k. Good cur k c (round cur n more c')) all
        (joined (IsOkCached g IsOk view) (view_cached g IsOk view) cur n (remaining - n) _ c c'
          (more c')
          (window_ext _ _ (cur - g.base_of cur) cur n
            λ i lt. bytes (cur - g.base_of cur + i) (omega arith) ∙ ap (view c.below) (omega arith))
          same (omega arith) (rest c' okay))

  pub read_loop-Good :
      (fuel cur remaining : ℕ) (c : Cached S)
      → IsOkCached g IsOk view c
      → remaining ≤ fuel
      → cur + remaining ≤ 2 ^ 64
      → Good cur remaining c (read_loop g next fuel cur remaining c)
  unfolding read_loop
  read_loop-Good zero cur remaining c h enough fits =
      let e : (remaining == 0) ≡ true = ground arith in
      rw e (window_none (view c.below) cur remaining e, h, refl)
  read_loop-Good (suc fuel) cur remaining c h enough fits = elim (Bool-cases (remaining == 0)) [
    | inl e ↦ rw e (window_none (view c.below) cur remaining e, h, refl)
    | inr e ↦
        let n = chunk g cur remaining in
        let some_left : 0 < remaining = ground arith in
        let (some_bytes, below, _) = chunk_bounds g ok cur remaining some_left in
        rw e (
          after_fetch-Good cur remaining c (read_loop g next fuel (add64 cur n) (remaining - n))
            some_left fits
            (λ c' h'.
              read_loop-Good fuel (add64 cur n) (remaining - n) c' h' (omega arith) (omega arith))
            _ (fetch-Fetched g ok next IsOk view serves cur c h (omega arith)))
  ]
