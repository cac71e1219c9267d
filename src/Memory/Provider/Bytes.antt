-- ===== src/Memory/Provider/Bytes.antt =====
-- src/emu/handlers/handler_util.h: the little-endian loops of `read_operand` and `write_operand`.
pub mod Roundtrip
use pico_cpu.Prelude.{ℕ, zero, suc, ◌+◌, ◌*◌, bit_and, bit_or, List, [], ◌∷◌, u8, shr, shl64}

-- `v |= u64{buf[i]} << (8 * i)`, from index `i` on.
unfoldable pub from_bytes : ℕ → ℕ → List ℕ → ℕ
from_bytes i v [] = v
from_bytes i v (b ∷ bs) = from_bytes (i + 1) (bit_or v (shl64 b (8 * i))) bs

-- `buf[i] = (value >> (8 * i)) & 0xFF`, for the `left` bytes from index `i` on.
unfoldable pub to_bytes : ℕ → ℕ → ℕ → List ℕ
to_bytes zero i value = []
to_bytes (suc left) i value = u8 (bit_and (shr value (8 * i)) 0xFF) ∷ to_bytes left (i + 1) value
