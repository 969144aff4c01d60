-- ===== src/Core/Buffer/RoundTrip.antt =====
-- src/core/buffer.h: reads after writes.
use moz.Base.{
  ℕ, zero, suc, ◌+◌, ◌*◌, ◌/◌, ◌%◌, ◌^◌, ◌<◌, false, Option, some, List, [], ◌∷◌, ◌++◌, ◌≡◌, refl,
  ap, sym, ◌∙◌, arith, map, drop, length, ltb, get_elem?, ◌>>=◌,
}
use Prim.Native.Nat.{bit_or}
use moz.Base.Bits.{bit_or-shifted}
use mathlib.Core.List.{append_assoc, append-nil}
use moz.Core.Buffer.{
  BufferReader, moz_buffer_reader_has_next, moz_buffer_reader_init_from_writer,
  moz_buffer_reader_read8, moz_buffer_reader_read16, moz_buffer_reader_read32,
  moz_buffer_reader_read64, moz_buffer_writer_write8, moz_buffer_writer_write16,
  moz_buffer_writer_write32, moz_buffer_writer_write64, stored,
}

-- The bytes that are not read.
abbrev left : BufferReader → List ℕ
left r = drop r.pos r.buf

abbrev skip : BufferReader → ℕ → BufferReader
skip r n = record r { pos = r.pos + n }

pub drop-next :
    (xs : List ℕ) (i x : ℕ) (rest : List ℕ)
    → drop i xs ≡ x ∷ rest
    → (get_elem? xs i ≡ some x) × (drop (i + 1) xs ≡ rest)
drop-next [] zero x rest e = absurd cc
drop-next [] (suc i) x rest e = absurd cc
drop-next (y ∷ xs) zero x rest e = (cc, cc)
drop-next (y ∷ xs) (suc i) x rest e =
    let (a, b) = drop-next xs i x rest e in
    (a, let q : suc i + 1 ≡ suc (i + 1) = omega arith in rw q b)

-- A read of `n` bytes that gives `v` and leaves `rest`.
abbrev Reads : (BufferReader → Option (ℕ × BufferReader)) → ℕ → BufferReader → ℕ → List ℕ → Type 0
Reads read n r v rest = (read r ≡ some (v, skip r n)) × (left (skip r n) ≡ rest)

read8 :
    (r : BufferReader) (x : ℕ) (rest : List ℕ)
    → left r ≡ x ∷ rest
    → Reads moz_buffer_reader_read8 1 r x rest
unfolding moz_buffer_reader_read8
read8 r x rest e = let (a, b) = drop-next r.buf r.pos x rest e in (rw a refl, b)

skip-skip : (r : BufferReader) (m n : ℕ) → skip (skip r m) n ≡ skip r (m + n)
skip-skip r m n =
    let e : r.pos + m + n ≡ r.pos + (m + n) = omega arith in ap (λ p. record r { pos = p }) e

-- Two reads after each other.
twice :
    (read : BufferReader → Option (ℕ × BufferReader)) (n k : ℕ) (r : BufferReader) (v w : ℕ)
    (mid rest : List ℕ) (join : ℕ → ℕ → ℕ) (result : ℕ)
    → n + n ≡ k
    → join v w ≡ result
    → Reads read n r v mid
    → Reads read n (skip r n) w rest
    → Reads (λ r. read r >>= λ (d1, r). read r >>= λ (d2, r). some (join d1 d2, r)) k r result rest
twice read n k r v w mid rest join result size value (a, _) (b, c) =
    let e : skip (skip r n) n ≡ skip r k = rw (← size) (skip-skip r n n) in
    (rw (a, b, e, value) refl, ap left (sym e) ∙ c)

read16 :
    (r : BufferReader) (x y : ℕ) (rest : List ℕ)
    → x < 256
    → y < 256
    → left r ≡ x ∷ y ∷ rest
    → Reads moz_buffer_reader_read16 2 r (x + 256 * y) rest
unfolding moz_buffer_reader_read16
read16 r x y rest p q e =
    let first = read8 r x (y ∷ rest) e in
    twice moz_buffer_reader_read8 1 2 r x y (y ∷ rest) rest
      (λ d1 d2. bit_or (d2 * 2 ^ 8) d1 % 2 ^ 16) (x + 256 * y) refl
      (omega (arith, bit_or-shifted 8 y x p)) first (read8 (skip r 1) y rest first.1)

stored2 : (v : ℕ) → v < 2 ^ 16 → v % 256 + 256 * (v / 256 % 256) ≡ v
stored2 v lt = omega arith

read-stored2 :
    (r : BufferReader) (v : ℕ) (rest : List ℕ)
    → v < 2 ^ 16
    → left r ≡ stored 2 v ++ rest
    → Reads moz_buffer_reader_read16 2 r v rest
unfolding stored
read-stored2 r v rest lt e =
    let (a, b) = read16 r (v % 256) (v / 256 % 256) rest (omega arith) (omega arith) e in
    (a ∙ ap (λ x. some (x, skip r 2)) (stored2 v lt), b)

-- A longer store is two shorter ones.
stored4 :
    (v : ℕ) (rest : List ℕ)
    → stored 4 v ++ rest ≡ stored 2 (v % 2 ^ 16) ++ (stored 2 (v / 2 ^ 16) ++ rest)
unfolding stored
stored4 v rest =
    let a : v % 256 ≡ v % 2 ^ 16 % 256 = omega arith in
    let b : v / 256 % 256 ≡ v % 2 ^ 16 / 256 % 256 = omega arith in
    let c : v / 256 / 256 ≡ v / 2 ^ 16 = omega arith in rw (c, a, b) refl

read-stored4 :
    (r : BufferReader) (v : ℕ) (rest : List ℕ)
    → v < 2 ^ 32
    → left r ≡ stored 4 v ++ rest
    → Reads moz_buffer_reader_read32 4 r v rest
unfolding moz_buffer_reader_read32
read-stored4 r v rest lt e =
    let first =
      read-stored2 r (v % 2 ^ 16) (stored 2 (v / 2 ^ 16) ++ rest) (omega arith)
        (e ∙ stored4 v rest) in
    twice moz_buffer_reader_read16 2 4 r (v % 2 ^ 16) (v / 2 ^ 16) (stored 2 (v / 2 ^ 16) ++ rest)
      rest (λ d1 d2. bit_or (d2 * 2 ^ 16 % 2 ^ 32) d1) v refl
      (let q : v / 2 ^ 16 * 2 ^ 16 % 2 ^ 32 ≡ v / 2 ^ 16 * 2 ^ 16 = omega arith in
        rw q (omega (arith, bit_or-shifted 16 (v / 2 ^ 16) (v % 2 ^ 16) (omega arith))))
      first (read-stored2 (skip r 2) (v / 2 ^ 16) rest (omega arith) first.1)

stored8 :
    (v : ℕ) (rest : List ℕ)
    → stored 8 v ++ rest ≡ stored 4 (v % 2 ^ 32) ++ (stored 4 (v / 2 ^ 32) ++ rest)
unfolding stored
stored8 v rest =
    let w : ℕ = v % 2 ^ 32 in
    let a : v % 256 ≡ v % 2 ^ 32 % 256 = omega arith in
    let b : v / 256 % 256 ≡ v % 2 ^ 32 / 256 % 256 = omega arith in
    let c : v / 256 / 256 % 256 ≡ v % 2 ^ 32 / 256 / 256 % 256 = omega arith in
    let d : v / 256 / 256 / 256 % 256 ≡ v % 2 ^ 32 / 256 / 256 / 256 % 256 = omega arith in
    let h : v / 256 / 256 / 256 / 256 ≡ v / 2 ^ 32 = omega arith in rw (h, a, b, c, d) refl

read-stored8 :
    (r : BufferReader) (v : ℕ) (rest : List ℕ)
    → v < 2 ^ 64
    → left r ≡ stored 8 v ++ rest
    → Reads moz_buffer_reader_read64 8 r v rest
unfolding moz_buffer_reader_read64
read-stored8 r v rest lt e =
    let first =
      read-stored4 r (v % 2 ^ 32) (stored 4 (v / 2 ^ 32) ++ rest) (omega arith)
        (e ∙ stored8 v rest) in
    twice moz_buffer_reader_read32 4 8 r (v % 2 ^ 32) (v / 2 ^ 32) (stored 4 (v / 2 ^ 32) ++ rest)
      rest (λ d1 d2. bit_or (d2 * 2 ^ 32 % 2 ^ 64) d1) v refl
      (let q : v / 2 ^ 32 * 2 ^ 32 % 2 ^ 64 ≡ v / 2 ^ 32 * 2 ^ 32 = omega arith in
        rw q (omega (arith, bit_or-shifted 32 (v / 2 ^ 32) (v % 2 ^ 32) (omega arith))))
      first (read-stored4 (skip r 4) (v / 2 ^ 32) rest (omega arith) first.1)

-- A value and the width that it is written with.
pub data Item : Type 0 where
  item8 : ℕ → Item
  item16 : ℕ → Item
  item32 : ℕ → Item
  item64 : ℕ → Item

abbrev pub value_of : Item → ℕ
value_of (item8 v) = v
value_of (item16 v) = v
value_of (item32 v) = v
value_of (item64 v) = v

abbrev pub AllFit : List Item → Type 0
AllFit [] = Unit
AllFit (item8 v ∷ items) = (v < 2 ^ 8) × AllFit items
AllFit (item16 v ∷ items) = (v < 2 ^ 16) × AllFit items
AllFit (item32 v ∷ items) = (v < 2 ^ 32) × AllFit items
AllFit (item64 v ∷ items) = (v < 2 ^ 64) × AllFit items

pub write_all : List ℕ → List Item → List ℕ
write_all w [] = w
write_all w (item8 v ∷ items) = write_all (moz_buffer_writer_write8 w v) items
write_all w (item16 v ∷ items) = write_all (moz_buffer_writer_write16 w v) items
write_all w (item32 v ∷ items) = write_all (moz_buffer_writer_write32 w v) items
write_all w (item64 v ∷ items) = write_all (moz_buffer_writer_write64 w v) items

-- The read of the width of an item; its value is not looked at.
pub read_as : Item → BufferReader → Option (ℕ × BufferReader)
read_as (item8 _) r = moz_buffer_reader_read8 r
read_as (item16 _) r = moz_buffer_reader_read16 r
read_as (item32 _) r = moz_buffer_reader_read32 r
read_as (item64 _) r = moz_buffer_reader_read64 r

pub read_all : List Item → BufferReader → Option (List ℕ × BufferReader)
read_all [] r = some ([], r)
read_all (item ∷ items) r = do (v, r) ← read_as item r; (vs, r) ← read_all items r; some (v ∷ vs, r)

bytes_of : List Item → List ℕ
bytes_of [] = []
bytes_of (item8 v ∷ items) = stored 1 v ++ bytes_of items
bytes_of (item16 v ∷ items) = stored 2 v ++ bytes_of items
bytes_of (item32 v ∷ items) = stored 4 v ++ bytes_of items
bytes_of (item64 v ∷ items) = stored 8 v ++ bytes_of items

write_all-eq : (w : List ℕ) (items : List Item) → write_all w items ≡ w ++ bytes_of items
unfolding write_all bytes_of moz_buffer_writer_write8 moz_buffer_writer_write16
    moz_buffer_writer_write32 moz_buffer_writer_write64
write_all-eq w [] = sym (append-nil w)
write_all-eq w (item8 v ∷ items) =
    write_all-eq (w ++ stored 1 v) items ∙ append_assoc w (stored 1 v) (bytes_of items)
write_all-eq w (item16 v ∷ items) =
    write_all-eq (w ++ stored 2 v) items ∙ append_assoc w (stored 2 v) (bytes_of items)
write_all-eq w (item32 v ∷ items) =
    write_all-eq (w ++ stored 4 v) items ∙ append_assoc w (stored 4 v) (bytes_of items)
write_all-eq w (item64 v ∷ items) =
    write_all-eq (w ++ stored 8 v) items ∙ append_assoc w (stored 8 v) (bytes_of items)

read-stored1 :
    (r : BufferReader) (v : ℕ) (rest : List ℕ)
    → v < 2 ^ 8
    → left r ≡ stored 1 v ++ rest
    → Reads moz_buffer_reader_read8 1 r v rest
unfolding stored
read-stored1 r v rest lt e =
    let q : v % 256 ≡ v = omega arith in read8 r v rest (e ∙ ap (λ x. x ∷ rest) q)

then-all :
    (item : Item) (items : List Item) (n : ℕ) (r : BufferReader) (rest : List ℕ)
    → Reads (read_as item) n r (value_of item) rest
    → (out : BufferReader) × (read_all items (skip r n) ≡ some (map value_of items, out))
      × (left out ≡ [])
    → (out : BufferReader) × (read_all (item ∷ items) r ≡ some (map value_of (item ∷ items), out))
      × (left out ≡ [])
unfolding read_all
then-all item items n r rest (a, _) (out, b, done) = (out, rw (a, b) refl, done)

read_all-eq :
    (items : List Item) (r : BufferReader)
    → AllFit items
    → left r ≡ bytes_of items
    → (out : BufferReader) × (read_all items r ≡ some (map value_of items, out)) × (left out ≡ [])
unfolding read_all bytes_of read_as
read_all-eq [] r w e = (r, refl, e)
read_all-eq (item8 v ∷ items) r (lt, w) e =
    let h = read-stored1 r v (bytes_of items) lt e in
    then-all (item8 v) items 1 r (bytes_of items) h (read_all-eq items (skip r 1) w h.1)
read_all-eq (item16 v ∷ items) r (lt, w) e =
    let h = read-stored2 r v (bytes_of items) lt e in
    then-all (item16 v) items 2 r (bytes_of items) h (read_all-eq items (skip r 2) w h.1)
read_all-eq (item32 v ∷ items) r (lt, w) e =
    let h = read-stored4 r v (bytes_of items) lt e in
    then-all (item32 v) items 4 r (bytes_of items) h (read_all-eq items (skip r 4) w h.1)
read_all-eq (item64 v ∷ items) r (lt, w) e =
    let h = read-stored8 r v (bytes_of items) lt e in
    then-all (item64 v) items 8 r (bytes_of items) h (read_all-eq items (skip r 8) w h.1)

drop-nil : (i : ℕ) (xs : List ℕ) → drop i xs ≡ [] → ltb i (length xs) ≡ false
drop-nil zero [] e = refl
drop-nil zero (x ∷ xs) e = absurd cc
drop-nil (suc i) [] e = ground arith
drop-nil (suc i) (x ∷ xs) e = let h = drop-nil i xs e in ground arith

-- Values that fit their widths, 8, 16, 32 or 64 bits in any order, are read back as they were
-- written: from a reader on an empty writer after all writes, the reads of the same widths succeed,
-- give the values, and leave nothing to read.
pub read_all-write_all :
    (items : List Item)
    → AllFit items
    → (out : BufferReader) × (read_all items
          (moz_buffer_reader_init_from_writer (write_all [] items))
        ≡ some (map value_of items, out))
      × (moz_buffer_reader_has_next out ≡ false)
unfolding moz_buffer_reader_init_from_writer moz_buffer_reader_has_next
read_all-write_all items w =
    let (out, e, done) =
      read_all-eq items (moz_buffer_reader_init_from_writer (write_all [] items)) w
        (write_all-eq [] items) in
    (out, e, drop-nil out.pos out.buf done)
