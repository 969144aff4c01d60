-- ===== src/Core/Bitset/Laws.antt =====
-- src/core/bitset.h: what the operations do to membership.
use Prim.Native.Nat.{bit_and, bit_or}
use native.Mathlib.Nat.{one-le-pow}
use moz.Base.{
  ℕ, ◌*◌, ◌/◌, ◌%◌, ◌^◌, ◌<◌, ◌≤◌, ◌+◌, Bool, not, none, some, List, [], ◌∷◌, ◌≡◌, ◌≢◌, ◌==◌,
  get_or, set, zero, suc, true, false, ◌&&◌, ◌||◌, arith, refl, length, if◌then◌else◌, ◌↔◌, inl,
  inr, ap, sym, ◌∙◌, Bool-cases,
}
use moz.Base.Lists.{
  length-set, get_elem?-eq-get_or, get_elem?-beyond, get_or-set_self, get_or-set_ne,
}
use moz.Base.Bits.{
  bit, bit-lt_two, bit-zero, bit-or, bit-and, bit-pow_self, bit-pow_ne, bit-complement, bits_ext,
  bit_or-lt, bit_and-le, bit_and-pow,
}
use moz.Core.Bitset.{
  Bitset, bits, mask, bitset_init, bitset_set, bitset_get, bitset_and, bitset_or, bitset_flip,
  zip_words, map_words, complement, equal_words,
}

-- Four words, each of 64 bits.
pub record IsValid (s : Bitset) : Type 0 where
  pub four : length s.words ≡ 4
  pub fits : (j : ℕ) → get_or s.words j 0 < 2 ^ 64

-- The bit that stands for `i`.
abbrev pub bit_of : Bitset → ℕ → ℕ
bit_of s i = bit (i % bits) (get_or s.words (i / bits) 0)

abbrev pub has : Bitset → ℕ → Bool
has s i = bit_of s i == 1

product_test : (b p : ℕ) → b < 2 → 0 < p → not (b * p == 0) ≡ (b == 1)
product_test zero p h q = ground arith
product_test (suc zero) p h q = ground arith
product_test (suc (suc b)) p h q = absurd (omega arith)

pub bitset_get-eq-has :
    {s : Bitset} → IsValid s → (i : ℕ) → i < 256 → bitset_get s i ≡ some (has s i)
unfolding bitset_get
bitset_get-eq-has {s} v i h =
    rw
      (
        get_elem?-eq-get_or s.words (i / 64) 0 (omega (arith, v.four)),
        bit_and-pow (i % 64) (get_or s.words (i / 64) 0),
      )
      (ap some (
        product_test (bit_of s i) (2 ^ (i % 64)) (bit-lt_two (i % 64) (get_or s.words (i / 64) 0))
          (one-le-pow (i % 64) 2 (omega arith))))

-- An index beyond the last byte reads beyond the words.
pub bitset_get-beyond : {s : Bitset} → IsValid s → (i : ℕ) → 256 ≤ i → bitset_get s i ≡ none
unfolding bitset_get
bitset_get-beyond {s} v i h = rw (get_elem?-beyond s.words (i / bits) (omega (arith, v.four))) refl

pub bitset_init-IsValid : IsValid bitset_init
unfolding bitset_init
bitset_init-IsValid = record { four = refl; fits = fits }
  where
    fits : (j : ℕ) → get_or (0 ∷ 0 ∷ 0 ∷ 0 ∷ []) j 0 < 2 ^ 64
    fits zero = omega arith
    fits (suc zero) = omega arith
    fits (suc (suc zero)) = omega arith
    fits (suc (suc (suc zero))) = omega arith
    fits (suc (suc (suc (suc j)))) = omega arith

pub has-bitset_init : (i : ℕ) → has bitset_init i ≡ false
unfolding bitset_init
has-bitset_init i = rw (zeros (i / 64), bit-zero (i % 64)) refl
  where
    zeros : (j : ℕ) → get_or {A = ℕ} (0 ∷ 0 ∷ 0 ∷ 0 ∷ []) j 0 ≡ 0
    zeros zero = refl
    zeros (suc zero) = refl
    zeros (suc (suc zero)) = refl
    zeros (suc (suc (suc zero))) = refl
    zeros (suc (suc (suc (suc j)))) = refl

-- What `bitset_set` stores.
abbrev pub with_bit : Bitset → ℕ → Bitset
with_bit s i = record {
  words = set s.words (i / bits) (bit_or (get_or s.words (i / bits) 0) (mask i));
}

pub bitset_set-eq :
    {s : Bitset} → IsValid s → (i : ℕ) → i < 256 → bitset_set s i ≡ some (with_bit s i)
unfolding bitset_set
bitset_set-eq {s} v i h = rw (get_elem?-eq-get_or s.words (i / 64) 0 (omega (arith, v.four))) refl

pow-lt : (k w : ℕ) → k < w → 2 ^ k < 2 ^ w
pow-lt k zero h = absurd (omega arith)
pow-lt zero (suc w) h = omega (arith, native.Mathlib.Nat.pow-suc 2 w, one-le-pow w 2)
pow-lt (suc k) (suc w) h = omega (
  arith,
  native.Mathlib.Nat.pow-suc 2 w,
  native.Mathlib.Nat.pow-suc 2 k,
  pow-lt k w (omega arith),
)

pub with_bit-IsValid : {s : Bitset} → IsValid s → (i : ℕ) → i < 256 → IsValid (with_bit s i)
with_bit-IsValid {s} v i h = record {
  four = length-set s.words (i / 64) _ ∙ v.four;
  fits = λ j. elim (Bool-cases (i / 64 == j)) [
    | inl e ↦
        let p : i / 64 ≡ j = ground arith in
        rw (← p, get_or-set_self s.words (i / 64) _ 0 (omega (arith, v.four)))
          (bit_or-lt 64 _ _ (v.fits (i / 64)) (pow-lt (i % 64) 64 (omega arith)))
    | inr e ↦ rw (get_or-set_ne s.words (i / 64) j _ 0 (λ p. ground arith)) (v.fits j)
  ];
}

has-with_bit_self : {s : Bitset} → IsValid s → (i : ℕ) → i < 256 → has (with_bit s i) i ≡ true
has-with_bit_self {s} v i h =
    rw
      (
        get_or-set_self s.words (i / 64) (bit_or (get_or s.words (i / 64) 0) (2 ^ (i % 64))) 0
            (omega (arith, v.four)),
        bit-or (i % 64) (get_or s.words (i / 64) 0) (2 ^ (i % 64)),
        bit-pow_self (i % 64),
      )
      (ground (arith, bit-lt_two (i % 64) (get_or s.words (i / 64) 0)))

has-with_bit_ne :
    {s : Bitset} → IsValid s → (i j : ℕ) → i < 256 → i ≢ j → has (with_bit s i) j ≡ has s j
has-with_bit_ne {s} v i j h ne = elim (Bool-cases (i / 64 == j / 64)) [
  | inl e ↦
      let p : i / 64 ≡ j / 64 = ground arith in
      let r : i % 64 ≢ j % 64 = λ q. ne (omega arith) in
      let w : ℕ = bit_or (get_or s.words (i / 64) 0) (2 ^ (i % 64)) in
      let q : get_or (set s.words (i / 64) w) (j / 64) 0 ≡ w =
        rw (← p) (get_or-set_self s.words (i / 64) w 0 (omega (arith, v.four))) in
      let b : bit (j % 64) w ≡ bit (j % 64) (get_or s.words (j / 64) 0) = omega (
        arith,
        bit-or (j % 64) (get_or s.words (i / 64) 0) (2 ^ (i % 64)),
        bit-pow_ne (j % 64) (i % 64) (λ x. r (sym x)),
        ap (λ t. bit (j % 64) (get_or s.words t 0)) p,
      ) in
      rw (q, b) refl
  | inr e ↦ rw (get_or-set_ne s.words (i / 64) (j / 64) _ 0 (λ p. ground arith)) refl
]

pub has-with_bit :
    {s : Bitset}
    → IsValid s
    → (i j : ℕ) → i < 256
    → has (with_bit s i) j ≡ (if i == j then true else has s j)
has-with_bit {s} v i j h = elim (Bool-cases (i == j)) [
  | inl e ↦ let p : i ≡ j = ground arith in rw e (rw (← p) (has-with_bit_self v i h))
  | inr e ↦ rw e (has-with_bit_ne v i j h (λ p. ground arith))
]

-- The pointwise loops.
get_or-zip_words :
    (f : ℕ → ℕ → ℕ) (xs ys : List ℕ)
    → length xs ≡ length ys
    → f 0 0 ≡ 0
    → (j : ℕ) → get_or (zip_words f xs ys) j 0 ≡ f (get_or xs j 0) (get_or ys j 0)
get_or-zip_words f [] [] e z j = sym z
get_or-zip_words f [] (y ∷ ys) e z j = absurd (omega arith)
get_or-zip_words f (x ∷ xs) [] e z j = absurd (omega arith)
get_or-zip_words f (x ∷ xs) (y ∷ ys) e z zero = refl
get_or-zip_words f (x ∷ xs) (y ∷ ys) e z (suc j) = get_or-zip_words f xs ys (omega arith) z j

length-zip_words : (f : ℕ → ℕ → ℕ) (xs ys : List ℕ) → length (zip_words f xs ys) ≡ length xs
length-zip_words f [] ys = refl
length-zip_words f (x ∷ xs) [] = refl
length-zip_words f (x ∷ xs) (y ∷ ys) = ap suc (length-zip_words f xs ys)

get_or-map_words :
    (f : ℕ → ℕ) (xs : List ℕ) (j : ℕ)
    → j < length xs
    → get_or (map_words f xs) j 0 ≡ f (get_or xs j 0)
get_or-map_words f [] j h = absurd (omega arith)
get_or-map_words f (x ∷ xs) zero h = refl
get_or-map_words f (x ∷ xs) (suc j) h = get_or-map_words f xs j (omega arith)

length-map_words : (f : ℕ → ℕ) (xs : List ℕ) → length (map_words f xs) ≡ length xs
length-map_words f [] = refl
length-map_words f (x ∷ xs) = ap suc (length-map_words f xs)

module _ {a b : Bitset} (va : IsValid a) (vb : IsValid b) where
  pub has-bitset_or : (i : ℕ) → has (bitset_or a b) i ≡ (has a i || has b i)
  unfolding bitset_or
  has-bitset_or i =
      let wa = get_or a.words (i / 64) 0 in
      let wb = get_or b.words (i / 64) 0 in
      rw
        (
          get_or-zip_words bit_or a.words b.words (va.four ∙ sym vb.four) refl (i / 64),
          bit-or (i % 64) wa wb,
        )
        (ground (arith, bit-lt_two (i % 64) wa, bit-lt_two (i % 64) wb))

  pub has-bitset_and : (i : ℕ) → has (bitset_and a b) i ≡ (has a i && has b i)
  unfolding bitset_and
  has-bitset_and i =
      let wa = get_or a.words (i / 64) 0 in
      let wb = get_or b.words (i / 64) 0 in
      rw
        (
          get_or-zip_words bit_and a.words b.words (va.four ∙ sym vb.four) refl (i / 64),
          bit-and (i % 64) wa wb,
        )
        (ground (arith, bit-lt_two (i % 64) wa, bit-lt_two (i % 64) wb))

  pub bitset_or-IsValid : IsValid (bitset_or a b)
  unfolding bitset_or
  bitset_or-IsValid = record {
    four = length-zip_words bit_or a.words b.words ∙ va.four;
    fits = λ j.
        rw (get_or-zip_words bit_or a.words b.words (va.four ∙ sym vb.four) refl j)
          (bit_or-lt 64 _ _ (va.fits j) (vb.fits j));
  }

  pub bitset_and-IsValid : IsValid (bitset_and a b)
  unfolding bitset_and
  bitset_and-IsValid = record {
    four = length-zip_words bit_and a.words b.words ∙ va.four;
    fits = λ j.
        let wa = get_or a.words j 0 in
        let wb = get_or b.words j 0 in
        rw (get_or-zip_words bit_and a.words b.words (va.four ∙ sym vb.four) refl j)
          (omega (arith, bit_and-le wa wa wb (omega arith), va.fits j));
  }

pub has-bitset_flip :
    {s : Bitset} → IsValid s → (i : ℕ) → i < 256 → has (bitset_flip s) i ≡ not (has s i)
unfolding bitset_flip
has-bitset_flip {s} v i h =
    let w = get_or s.words (i / 64) 0 in
    rw
      (
        get_or-map_words complement s.words (i / 64) (omega (arith, v.four)),
        bit-complement 64 (i % 64) w (v.fits (i / 64)) (omega arith),
      )
      (ground (arith, bit-lt_two (i % 64) w))

pub bitset_flip-IsValid : {s : Bitset} → IsValid s → IsValid (bitset_flip s)
unfolding bitset_flip
bitset_flip-IsValid {s} v = record {
  four = length-map_words complement s.words ∙ v.four;
  fits = fits-map s.words v.fits;
}
  where
    fits-map :
        (xs : List ℕ)
        → ((j : ℕ) → get_or xs j 0 < 2 ^ 64)
        → (j : ℕ) → get_or (map_words complement xs) j 0 < 2 ^ 64
    fits-map [] h j = omega arith
    fits-map (x ∷ xs) h zero = omega arith
    fits-map (x ∷ xs) h (suc j) = fits-map xs (λ k. h (suc k)) j

pub equal_words_iff : (xs ys : List ℕ) → (equal_words xs ys ≡ true) ↔ (xs ≡ ys)
equal_words_iff [] [] = (λ h. refl, λ h. refl)
equal_words_iff [] (y ∷ ys) = (λ h. cc, λ h. cc)
equal_words_iff (x ∷ xs) [] = (λ h. cc, λ h. cc)
equal_words_iff (x ∷ xs) (y ∷ ys) =
    (λ h. ground (arith, equal_words_iff xs ys), λ h. ground (arith, equal_words_iff xs ys))

-- Word `j` holds the elements `64 j` to `64 j + 63`.
pub words_ext :
    {a b : Bitset}
    → IsValid a
    → IsValid b
    → ((i : ℕ) → i < 256 → has a i ≡ has b i)
    → (j : ℕ) → j < 4
    → get_or a.words j 0 ≡ get_or b.words j 0
words_ext {a} {b} va vb h j lt =
    bits_ext 64 (get_or a.words j 0) (get_or b.words j 0) (va.fits j) (vb.fits j) same
  where
    same : (k : ℕ) → k < 64 → bit k (get_or a.words j 0) ≡ bit k (get_or b.words j 0)
    same k lk =
        let q : (64 * j + k) / 64 ≡ j = omega arith in
        let r : (64 * j + k) % 64 ≡ k = omega arith in
        let e : has a (64 * j + k) ≡ has b (64 * j + k) = h (64 * j + k) (omega arith) in
        let e' : (bit k (get_or a.words j 0) == 1) ≡ (bit k (get_or b.words j 0) == 1) =
          rw (q, r) at e in
        ground (arith, bit-lt_two k (get_or a.words j 0), bit-lt_two k (get_or b.words j 0))
