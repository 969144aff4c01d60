-- ===== src/Tests/Core.antt =====
-- Tests of src/core/bitset.h, src/core/buffer.h and src/jmptbl.h. `two_and_five` is the set of test/test_bitset.c.
use moz.Base.{
  ℕ, zero, suc, ◌<◌, ◌≤◌, ◌^◌, ◌≡◌, refl, true, false, none, some, List, [], ◌∷◌, arith, ◌>>=◌,
  get_or,
}
use moz.Core.Karray.{array_ensure_size, Array}
use moz.Core.Karray.Growth.{array_ensure_size-room}
use moz.Core.Buffer.{BufferReader, moz_buffer_reader_has_next, moz_buffer_reader_init_from_writer}
use moz.Core.Buffer.RoundTrip.{
  Item, item16, item32, item64, item8, read_all, read_all-write_all, write_all,
}
use moz.Core.Bitset.{Bitset, bitset_init, bitset_set, bitset_get}
use moz.Core.Bitset.Laws.{IsValid}

abbrev two_and_five : Bitset
two_and_five = record { words = 36 ∷ 0 ∷ 0 ∷ 0 ∷ [] }

two_and_five-IsValid : IsValid two_and_five
two_and_five-IsValid = record { four = refl; fits = fits }
  where
    fits : (j : ℕ) → get_or (36 ∷ 0 ∷ 0 ∷ 0 ∷ []) j 0 < Prim.Native.Nat.◌^◌ 2 64
    fits zero = omega arith
    fits (suc zero) = omega arith
    fits (suc (suc zero)) = omega arith
    fits (suc (suc (suc zero))) = omega arith
    fits (suc (suc (suc (suc j)))) = omega arith

-- bitset_set(&set, 2); bitset_set(&set, 5)
set_two_and_five : (bitset_set bitset_init 2 >>= λ s. bitset_set s 5) ≡ some two_and_five
unfolding bitset_set bitset_init
set_two_and_five = refl

get_five_and_six :
    (bitset_get two_and_five 5 ≡ some true) × (bitset_get two_and_five 6 ≡ some false)
unfolding bitset_get
get_five_and_six = (refl, refl)

-- An index beyond 255 reads past the structure.
get_beyond : bitset_get two_and_five 4294967168 ≡ none
unfolding bitset_get
get_beyond = refl

abbrev items : List Item
items = item16 1000 ∷ item8 7 ∷ item32 70000 ∷ item64 (2 ^ 40) ∷ []

read_all-write_all_example :
    (out : BufferReader) × (read_all items (moz_buffer_reader_init_from_writer (write_all [] items))
      ≡ some (1000 ∷ 7 ∷ 70000 ∷ 2 ^ 40 ∷ [], out))
    × (moz_buffer_reader_has_next out ≡ false)
read_all-write_all_example =
    read_all-write_all items (omega arith, (omega arith, (omega arith, (omega arith, tt))))

array_ensure_size-room_example :
    (a' : Array) × (array_ensure_size 30 (record { size = 4; capacity = 4 }) 9 ≡ some a')
    × (a'.size ≡ 4)
    × (13 ≤ a'.capacity)
    × (4 ≤ a'.capacity)
array_ensure_size-room_example =
    array_ensure_size-room (record { size = 4; capacity = 4 }) 9 29 (omega arith) (omega arith)
      (omega arith)
