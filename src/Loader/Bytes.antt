-- ===== src/Loader/Bytes.antt =====
-- src/loader.c: reads and writes of integers inside the buffer (GET_JUMP_ADDR, get_opcode,
-- set_opcode), on a little-endian target.
use moz.Base.{
  ℕ, zero, suc, ◌+◌, ◌*◌, Option, none, some, List, [], ◌∷◌, ◌>>=◌, ltb, if◌then◌else◌, get_elem?,
  length, set,
}

-- A read of `n` bytes; `none` is a read beyond the buffer.
unfoldable pub read_at : ℕ → ℕ → List ℕ → Option ℕ
read_at zero i buf = some 0
read_at (suc n) i buf = do
  byte ← get_elem? buf i
  rest ← read_at n (i + 1) buf
  some (byte + 256 * rest)

unfoldable pub set_byte : ℕ → ℕ → List ℕ → Option (List ℕ)
set_byte i v buf = if ltb i (length buf) then some (set buf i v) else none

-- The write of the bytes of a value.
unfoldable pub write_at : List ℕ → ℕ → List ℕ → Option (List ℕ)
write_at [] i buf = some buf
write_at (byte ∷ bytes) i buf = do buf ← set_byte i byte buf; write_at bytes (i + 1) buf
