-- ===== src/Tests/Layers.antt =====
-- Examples for the shadow pages and the caches over a flat memory.
use pico_cpu.Prelude.{arith, true, ℕ, ◌%◌, ◌≡◌, refl, none, some, [], ◌∷◌, false}
use pico_cpu.Error.{Status}
use pico_cpu.Memory.Provider.{Provider, ReadResult}
use pico_cpu.Memory.Provider.Contract.{window, length-window, at, patch, Serves}
use pico_cpu.Memory.Direct.{Cached, read_loop, fetch}
use pico_cpu.Memory.Direct.Coherent.{IsOkCached, view_cached}
use pico_cpu.Memory.Direct.Ends.{ReadsFailWith}
use pico_cpu.Memory.L1
use pico_cpu.Memory.L2
use pico_cpu.Memory.L2.Laws.{IsOkPaged, view_paged, levels-Serve, levels-FailsWith}
use pico_cpu.Memory.Shadow.{
  Shadow, provider, write, refuses, denied, perm_of, protect, add_private_region, add_code_range,
}
use pico_cpu.Memory.Shadow.Laws.{IsOkShadow, view_shadow}
use pico_cpu.Memory.Shadow.Writes.{shadow-Serves}
use pico_cpu.Memory.Shadow.Verdict.{Verdict, write-Verdict}

-- A memory of all addresses.
abbrev flat : Provider (ℕ → ℕ)
flat = record {
  read = λ a n m. (ReadResult.bytes (window m a n), m);
  write = λ a bs m. (Status.ok, patch m a bs);
}

abbrev AnyState : (ℕ → ℕ) → Type 0
AnyState _ = Unit

abbrev bytes_of : (ℕ → ℕ) → ℕ → ℕ
bytes_of m = m

flat-Serves : Serves AnyState bytes_of flat
flat-Serves = record {
  read_good = λ a n s okay fits. (refl, tt, refl);
  write_good = λ a bs s okay fits. (tt, refl);
}

shadow-Serves_example :
    Serves
      (IsOkShadow AnyState bytes_of)
      (view_shadow AnyState bytes_of (some flat))
      (provider (some flat))
shadow-Serves_example = shadow-Serves AnyState bytes_of (some flat) (flat-Serves, λ page s. tt)

levels-Serve_example :
    Serves
      (IsOkCached L1.geometry (IsOkPaged AnyState bytes_of) (view_paged AnyState bytes_of))
      (view_cached L1.geometry (IsOkPaged AnyState bytes_of) (view_paged AnyState bytes_of))
      (L1.provider (some (L2.provider (some flat))))
levels-Serve_example = levels-Serve flat AnyState bytes_of flat-Serves

-- A read of a memory that never fails does not fail.
levels-FailsWith_example : ReadsFailWith (λ _. ⊥) (L1.provider (some (L2.provider (some flat))))
levels-FailsWith_example = levels-FailsWith flat (λ _. ⊥) λ a n s. length-window s a n

-- The byte at an address is its lowest digits.
abbrev digits : ℕ → ℕ
digits x = x % 251

-- A read of six bytes across a line and a page, twice: the second one is served by the lines.
abbrev twice : ReadResult × Cached (L2.Paged (ℕ → ℕ))
twice =
    let p = L1.provider (some (L2.provider (some flat))) in
    p.read 0x1FFD 6 ((p.read 0x1FFD 6 (L1.empty (L2.empty digits))).1)

read_twice : twice.0 ≡ ReadResult.bytes (157 ∷ 158 ∷ 159 ∷ 160 ∷ 161 ∷ 162 ∷ [])
unfolding L1.provider L1.read L2.provider L2.read read_loop fetch window at
read_twice = refl

-- Shadow pages over the memory, with a private region and a page that may not be written.
abbrev shadow : Shadow (ℕ → ℕ)
shadow = add_private_region 0x10000 0x1000 (
    protect 0x3000 0x1000 1 (
      protect 0x2000 0x2000 3 (record {
        pages = λ _. none;
        private_ranges = [];
        code_ranges = [];
        prot_ranges = [];
        listening = false;
        notified = [];
        below = digits;
      })))

write_refused : (write (some flat) 0x2FFF (1 ∷ 2 ∷ []) shadow).0 ≡ Status.protection_violation
unfolding write refuses denied perm_of protect add_private_region
write_refused = refl

-- The same write where the next page may be written and has code.
abbrev listened : Shadow (ℕ → ℕ)
listened = add_code_range 0x3000 0x10 (protect 0x3000 0x1000 3 (record shadow { listening = true }))

write-Verdict_example : Verdict listened 0x2FFF 2 (write (some flat) 0x2FFF (1 ∷ 2 ∷ []) listened)
unfolding protect add_private_region add_code_range
write-Verdict_example =
    write-Verdict (some flat) 0x2FFF (1 ∷ 2 ∷ []) listened
      (
        (omega arith, (omega arith, (omega arith, tt))),
        ((omega arith, omega arith), tt),
        ((omega arith, omega arith), tt),
      )
      (omega arith) (omega arith)
