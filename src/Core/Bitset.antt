-- ===== src/Core/Bitset.antt =====
-- src/core/bitset.h: sets of bytes as four words of 64 bits (BITSET_USE_ULONG on an LP64 target).
pub mod Laws
pub mod Membership
use Prim.Native.Nat.{bit_and, bit_or}
use moz.Base.{
  ℕ, ◌-◌, ◌*◌, ◌/◌, ◌%◌, ◌^◌, Bool, not, Option, none, some, List, [], ◌∷◌, ◌≡◌, ◌>>=◌, ◌==◌,
  get_elem?, set, zero, suc, true, false, ◌&&◌,
}

abbrev pub bits : ℕ
bits = 64

-- `data` has `256 / BITS` entries.
pub record Bitset : Type 0 where
  pub words : List ℕ

-- for (i = 0; i < 256 / BITS; i++) data[i] = 0
unfoldable pub bitset_init : Bitset
bitset_init = record { words = 0 ∷ 0 ∷ 0 ∷ 0 ∷ [] }

-- ((bitset_entry_t)1) << (index % BITS)
abbrev pub mask : ℕ → ℕ
mask index = 2 ^ (index % bits)

-- `none` where `data[index / BITS]` is out of range.
unfoldable pub bitset_set : Bitset → ℕ → Option Bitset
bitset_set s index = do
  word ← get_elem? s.words (index / bits)
  some (record { words = set s.words (index / bits) (bit_or word (mask index)) })

unfoldable pub bitset_get : Bitset → ℕ → Option Bool
bitset_get s index = do
  word ← get_elem? s.words (index / bits)
  some (not (bit_and word (mask index) == 0))

-- The loops over the four entries; `set1` is what the C function overwrites.
abbrev pub zip_words : (ℕ → ℕ → ℕ) → List ℕ → List ℕ → List ℕ
zip_words f [] ys = []
zip_words f (x ∷ xs) [] = x ∷ xs
zip_words f (x ∷ xs) (y ∷ ys) = f x y ∷ zip_words f xs ys

pub bitset_and : Bitset → Bitset → Bitset
bitset_and set1 set2 = record { words = zip_words bit_and set1.words set2.words }

pub bitset_or : Bitset → Bitset → Bitset
bitset_or set1 set2 = record { words = zip_words bit_or set1.words set2.words }

-- ~x on 64 bits
abbrev pub complement : ℕ → ℕ
complement x = 2 ^ 64 - 1 - x

abbrev pub map_words : (ℕ → ℕ) → List ℕ → List ℕ
map_words f [] = []
map_words f (x ∷ xs) = f x ∷ map_words f xs

pub bitset_flip : Bitset → Bitset
bitset_flip s = record { words = map_words complement s.words }

-- memcpy of the whole structure
pub bitset_copy : Bitset → Bitset → Bitset
bitset_copy set1 set2 = set2

-- memcmp of the whole structure
abbrev pub equal_words : List ℕ → List ℕ → Bool
equal_words [] [] = true
equal_words [] (y ∷ ys) = false
equal_words (x ∷ xs) [] = false
equal_words (x ∷ xs) (y ∷ ys) = x == y && equal_words xs ys

pub bitset_equal : Bitset → Bitset → Bool
bitset_equal set1 set2 = equal_words set1.words set2.words
