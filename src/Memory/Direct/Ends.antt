-- ===== src/Memory/Direct/Ends.antt =====
-- The loop of `read` ends: it fails only where the layer below fails.
use pico_cpu.Prelude.{
  ℕ, zero, suc, ◌-◌, ◌≤◌, ◌≡◌, inl, inr, true, Option, none, some, List, ◌==◌, Bool-cases, add64,
  arith, sym, subst, length, length-append, ==_iff,
}
use pico_cpu.Error.{Status}
use pico_cpu.Memory.Provider.{Provider, ReadResult}
use pico_cpu.Memory.Provider.Contract.{window, length-window}
use pico_cpu.Memory.Direct.{
  Geometry, Cached, hit, chunk, prepend, filled, fetch, after_fetch, read_loop,
}
use pico_cpu.Memory.Direct.Coherent.{IsGeometry, chunk_bounds}

-- A read of `n` bytes gives as many, or fails with a status that satisfies `P`.
abbrev pub FailsWith : {S : Type 0} → (Status → Type 0) → ℕ → ReadResult × S → Type 0
FailsWith P n (ReadResult.bytes bs, s) = length bs ≡ n
FailsWith P n (ReadResult.failed st out, s) = P st

abbrev pub ReadsFailWith : {S : Type 0} → (Status → Type 0) → Provider S → Type 0
ReadsFailWith {S} P p = (a n : ℕ) (s : S) → FailsWith P n (p.read a n s)

module _ (g : Geometry) (ok : IsGeometry g) {S : Type 0} (next : Provider S) (P : Status → Type 0)
    (below : ReadsFailWith P next) where
  FetchFails : Option Status × Cached S → Type 0
  FetchFails (none, c) = Unit
  FetchFails (some st, c) = P st

  filled-FetchFails :
      (base n : ℕ) (c : Cached S) (r : ReadResult × S)
      → FailsWith P n r
      → FetchFails (filled g next base c r)
  unfolding FetchFails
  filled-FetchFails base n c (ReadResult.bytes bs, m) h = tt
  filled-FetchFails base n c (ReadResult.failed st out, m) h = h

  fetch-FetchFails : (base : ℕ) (c : Cached S) → FetchFails (fetch g next base c)
  unfolding fetch FetchFails
  fetch-FetchFails base c = elim (Bool-cases (hit (c.lines (g.index_of base)) base)) [
    | inl e ↦ rw e tt
    | inr e ↦ rw e (filled-FetchFails base g.line_size c _ (below base g.line_size c.below))
  ]

  prepend-FailsWith :
      (bs : List ℕ) (n : ℕ) (r : ReadResult × Cached S)
      → length bs ≤ n
      → FailsWith P (n - length bs) r
      → FailsWith P n (prepend bs r)
  prepend-FailsWith bs n (ReadResult.bytes more, s) small h =
      omega (arith, length-append bs more, h, small)
  prepend-FailsWith bs n (ReadResult.failed st out, s) small h = h

  after_fetch-FailsWith :
      (n : ℕ) (r : Option Status × Cached S) (more : Cached S → ReadResult × Cached S)
      → FetchFails r
      → ((c : Cached S) → FailsWith P n (more c))
      → FailsWith P n (after_fetch g next r more)
  unfolding FetchFails
  after_fetch-FailsWith n (none, c) more h k = k c
  after_fetch-FailsWith n (some st, c) more h k = h

  pub read_loop-FailsWith :
      (fuel cur remaining : ℕ) (c : Cached S)
      → remaining ≤ fuel
      → FailsWith P remaining (read_loop g next fuel cur remaining c)
  unfolding read_loop
  read_loop-FailsWith zero cur remaining c enough =
      let e : (remaining == 0) ≡ true = ground arith in rw e (sym ((==_iff remaining 0).0 e))
  read_loop-FailsWith (suc fuel) cur remaining c enough = elim (Bool-cases (remaining == 0)) [
    | inl e ↦ rw e (sym ((==_iff remaining 0).0 e))
    | inr e ↦
        let n = chunk g cur remaining in
        let (some_bytes, small, _) = chunk_bounds g ok cur remaining (ground arith) in
        rw e (
          after_fetch-FailsWith remaining _ _ (fetch-FetchFails (g.base_of cur) c) λ c'.
            let bs =
              window ((c'.lines (g.index_of (g.base_of cur))).bytes) (cur - g.base_of cur) n in
            let len : length bs ≡ n = length-window _ (cur - g.base_of cur) n in
            let rest = read_loop g next fuel (add64 cur n) (remaining - n) c' in
            prepend-FailsWith bs remaining rest (omega (arith, len, small)) (
              subst (λ k. FailsWith P (remaining - k) rest) (sym len)
                (read_loop-FailsWith fuel (add64 cur n) (remaining - n) c' (omega arith))))
  ]
