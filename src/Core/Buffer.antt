-- ===== src/Core/Buffer.antt =====
-- src/core/buffer.h: the writer and the reader of byte buffers, on a little-endian target. The list
-- holds the `size` bytes of the array; growth on demand is a longer list.
pub mod RoundTrip
use Prim.Native.Nat.{bit_or}
use moz.Base.{
  ℕ, zero, suc, ◌+◌, ◌*◌, ◌/◌, ◌%◌, ◌^◌, Bool, Option, none, some, List, [], ◌∷◌, ◌++◌, ltb, length,
  get_elem?, ◌>>=◌,
}

-- `pos` and the size are `unsigned` in the source, so this is a reader of less than 4 GB.
pub record BufferReader : Type 0 where
  pub buf : List ℕ
  pub pos : ℕ

unfoldable pub moz_buffer_reader_has_next : BufferReader → Bool
moz_buffer_reader_has_next r = ltb r.pos (length r.buf)

-- `none` is a read beyond the buffer.
pub moz_buffer_reader_read8 : BufferReader → Option (ℕ × BufferReader)
moz_buffer_reader_read8 r = do
  byte ← get_elem? r.buf r.pos
  some (byte, record r { pos = r.pos + 1 })

pub moz_buffer_reader_read16 : BufferReader → Option (ℕ × BufferReader)
moz_buffer_reader_read16 r = do
  (d1, r) ← moz_buffer_reader_read8 r
  (d2, r) ← moz_buffer_reader_read8 r
  some (bit_or (d2 * 2 ^ 8) d1 % 2 ^ 16, r)

pub moz_buffer_reader_read32 : BufferReader → Option (ℕ × BufferReader)
moz_buffer_reader_read32 r = do
  (d1, r) ← moz_buffer_reader_read16 r
  (d2, r) ← moz_buffer_reader_read16 r
  some (bit_or (d2 * 2 ^ 16 % 2 ^ 32) d1, r)

pub moz_buffer_reader_read64 : BufferReader → Option (ℕ × BufferReader)
moz_buffer_reader_read64 r = do
  (d1, r) ← moz_buffer_reader_read32 r
  (d2, r) ← moz_buffer_reader_read32 r
  some (bit_or (d2 * 2 ^ 32 % 2 ^ 64) d1, r)

-- The bytes that a store of `n` bytes writes.
unfoldable pub stored : ℕ → ℕ → List ℕ
stored zero v = []
stored (suc n) v = v % 256 ∷ stored n (v / 256)

pub moz_buffer_writer_write8 : List ℕ → ℕ → List ℕ
moz_buffer_writer_write8 w v = w ++ stored 1 v

pub moz_buffer_writer_write16 : List ℕ → ℕ → List ℕ
moz_buffer_writer_write16 w v = w ++ stored 2 v

unfoldable pub moz_buffer_writer_write32 : List ℕ → ℕ → List ℕ
moz_buffer_writer_write32 w v = w ++ stored 4 v

pub moz_buffer_writer_write64 : List ℕ → ℕ → List ℕ
moz_buffer_writer_write64 w v = w ++ stored 8 v

unfoldable pub moz_buffer_reader_init_from_writer : List ℕ → BufferReader
moz_buffer_reader_init_from_writer w = record { buf = w; pos = 0 }
