-- ===== src/Decoder/Source.antt =====
-- src/emu/decoder/decoder.cpp and src/emu/decoder/decoder_internal.h: the source of the bytes of an
-- instruction, and reads of one to eight of them. `fetch` gives the byte at an offset; it may change
-- the state `S` of a memory behind it.
use pico_cpu.Prelude.{
  ℕ, zero, suc, ◌+◌, bit_or, List, [], ◌∷◌, ◌==◌, ltb, if◌then◌else◌, u8, shl64, add64, sext,
}
use pico_cpu.Error.{Status}
use pico_cpu.Memory.Provider.{Provider, ReadResult}
use pico_cpu.Memory.Provider.Contract.{at}

-- The outcome of a read of the decoder.
pub data Got (A : Type 0) : Type 0 where
  got : A → Got A
  failed : Status → Got A

-- `consumed` is a `u8`.
pub record Source (S : Type 0) : Type 0 where
  pub consumed : ℕ
  pub state : S

-- Any failure of a step ends the decoding.
abbrev pub Step : Type 0 → Type 0 → Type 0
Step S A = Source S → Got A × Source S

abbrev pub bind : {S A B : Type 0} → Got A × Source S → (A → Step S B) → Got B × Source S
bind (failed st, s) f = (failed st, s)
bind (got a, s) f = f a s

infixl 5 ◌>>=◌ ◌>>◌
abbrev pub ◌>>=◌ : {S A B : Type 0} → Step S A → (A → Step S B) → Step S B
◌>>=◌ m f s = bind (m s) f

abbrev pub ◌>>◌ : {S B : Type 0} → Step S (Unit {0}) → Step S B → Step S B
m >> k = m >>= λ _. k

abbrev pub pure : {S A : Type 0} → A → Step S A
pure a s = (got a, s)

-- A step, and a function of what it gives.
abbrev pub with_value : {S A B : Type 0} → Step S A → (A → B) → Step S B
with_value m f s = bind (m s) (λ a. pure (f a))

abbrev pub fail_with : {S A : Type 0} → Status → Step S A
fail_with st s = (failed st, s)

abbrev pub Fetch : Type 0 → Type 0
Fetch S = ℕ → S → Got ℕ × S

-- `buf_fetch`, over a buffer and its size.
unfoldable pub buf_fetch : List ℕ → ℕ → Fetch (Unit {0})
buf_fetch bytes size off s =
    if ltb off size then (got (at bytes off), s) else (failed Status.truncated_instruction, s)

-- `mem_fetch`.
abbrev pub fetched : {S : Type 0} → ReadResult × S → Got ℕ × S
fetched (ReadResult.bytes bs, s) = (got (at bs 0), s)
fetched (ReadResult.failed st out, s) = (failed st, s)

unfoldable pub mem_fetch : {S : Type 0} → Provider S → ℕ → Fetch S
mem_fetch mem rip off s = fetched (mem.read (add64 rip off) 1 s)

-- A byte that was fetched, and the source behind it.
abbrev pub peeked : {S : Type 0} → Source S → Got ℕ × S → Got ℕ × Source S
peeked s (r, m) = (r, record s { state = m })

abbrev pub taken : {S : Type 0} → Source S → Got ℕ × S → Got ℕ × Source S
taken s (failed st, m) = (failed st, record s { state = m })
taken s (got b, m) = (got b, record s { consumed = u8 (s.consumed + 1); state = m })

module _ {S : Type 0} (fetch : Fetch S) where
  unfoldable pub peek_byte : ℕ → Step S ℕ
  peek_byte off s = peeked s (fetch (u8 (s.consumed + off)) s.state)

  unfoldable pub read_byte : Step S ℕ
  read_byte s = taken s (fetch s.consumed s.state)

  unfoldable pub read_u16 : Step S ℕ
  read_u16 = do lo ← read_byte; hi ← read_byte; pure (bit_or lo (shl64 hi 8))

  unfoldable pub read_u32 : Step S ℕ
  read_u32 = do
    b0 ← read_byte
    b1 ← read_byte
    b2 ← read_byte
    b3 ← read_byte
    pure (bit_or (bit_or (bit_or b0 (shl64 b1 8)) (shl64 b2 16)) (shl64 b3 24))

  -- The loop of `read_u64`, which gathers the bytes.
  unfoldable pub read_bytes : ℕ → Step S (List ℕ)
  read_bytes zero = pure []
  read_bytes (suc n) = do b ← read_byte; bs ← read_bytes n; pure (b ∷ bs)

  -- The last byte is the highest one.
  abbrev pub gather : List ℕ → ℕ
  gather [] = 0
  gather (b ∷ bs) = bit_or (shl64 (gather bs) 8) b

  unfoldable pub read_u64 : Step S ℕ
  read_u64 = do bs ← read_bytes 8; pure (gather bs)

  abbrev pub extended : ℕ → Step S ℕ → Step S ℕ
  extended k m = do v ← m; pure (sext k v)

  -- `read_imm_sx` of modrm.cpp: an immediate as the pattern of an `i64`.
  unfoldable pub read_imm_sx : ℕ → Step S ℕ
  read_imm_sx imm_size =
      if imm_size == 1
      then extended 8 read_byte
      else if imm_size == 2
      then extended 16 read_u16
      else if imm_size == 4
      then extended 32 read_u32
      else if imm_size == 8
      then read_u64
      else fail_with Status.invalid_argument
