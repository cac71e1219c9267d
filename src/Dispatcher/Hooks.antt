-- ===== src/Dispatcher/Hooks.antt =====
-- src/emu/include/emu/hooks.h: the registry of hooks. A list per kind, and an id per hook.
use pico_cpu.Prelude.{
  ℕ, zero, suc, ◌+◌, ◌%◌, ◌^◌, Bool, true, false, ◌&&◌, List, [], ◌∷◌, ◌++◌, ◌==◌, leb, ltb,
  if◌then◌else◌,
}

pub data HookKind : Type 0 where
  block code mem_read mem_write insn fault : HookKind

-- `callback` and `user_data` are one number, which stands for the function of the host.
pub record Hook : Type 0 where
  pub kind : HookKind
  pub callback : ℕ
  pub begin : ℕ
  pub end : ℕ
  pub filter_op : ℕ

pub record Entry : Type 0 where
  pub id : ℕ
  pub hook : Hook

-- `lists_`, indexed by the kind.
pub record HookManager : Type 0 where
  pub lists : ℕ → List Entry
  pub next_id : ℕ

-- `static_cast<u8>(kind)`.
abbrev pub index : HookKind → ℕ
index HookKind.block = 0
index HookKind.code = 1
index HookKind.mem_read = 2
index HookKind.mem_write = 3
index HookKind.insn = 4
index HookKind.fault = 5

-- The manager with the hook, and the id of the hook. The counter wraps as a `u32`.
unfoldable pub add : Hook → HookManager → ℕ × HookManager
add h m = (
  m.next_id,
  record {
    lists = λ k.
        if k == index h.kind
        then m.lists k ++ (record { id = m.next_id; hook = h } ∷ [])
        else m.lists k;
    next_id = (m.next_id + 1) % 2 ^ 32;
  },
)

-- The list without the first entry of the id, if it has one.
unfoldable pub erase : ℕ → List Entry → Bool × List Entry
erase id [] = (false, [])
erase id (e ∷ rest) =
    let (found, rest') = erase id rest in if e.id == id then (true, rest) else (found, e ∷ rest')

-- The loop over the lists, from the kind `k` on.
unfoldable pub remove_from : ℕ → ℕ → ℕ → HookManager → HookManager
remove_from zero k id m = m
remove_from (suc left) k id m =
    let (found, l) = erase id (m.lists k) in
    let rest = remove_from left (k + 1) id m in
    if found then record m { lists = λ j. if j == k then l else m.lists j } else rest

unfoldable pub remove : ℕ → HookManager → HookManager
remove id m = remove_from 6 0 id m

unfoldable pub clear : HookManager → HookManager
clear m = record m { lists = λ _. [] }

unfoldable pub any : HookKind → HookManager → Bool
any k m = elim (m.lists (index k)) [ [] ↦ false | _ ∷ _ ↦ true ]

-- A hook with `begin` above `end` is for every address.
unfoldable pub hook_in_range : Hook → ℕ → Bool
hook_in_range h addr = if ltb h.end h.begin then true else leb h.begin addr && leb addr h.end

-- What the hooks of a kind that accept an address do, in the order in which they were added.
unfoldable pub fire {ℓ} : {M : Type ℓ} → (Hook → M → M) → (Hook → Bool) → List Entry → M → M
fire call accepts [] m = m
fire call accepts (e ∷ rest) m =
    fire call accepts rest (if accepts e.hook then call e.hook m else m)

-- The filter of INSN hooks, where 0 is `OpKind::Invalid`.
unfoldable pub accepts_insn : ℕ → ℕ → Hook → Bool
unfolding hook_in_range
accepts_insn kind rip h =
    if h.filter_op == 0
    then hook_in_range h rip
    else if h.filter_op == kind
    then hook_in_range h rip
    else false
