-- ===== src/Core/Bitset/Membership.antt =====
-- src/core/bitset.h: the operations as sets of bytes, seen through `bitset_get`.
use moz.Base.{
  ℕ, ◌<◌, ◌≤◌, Bool, not, some, List, [], ◌∷◌, ◌≡◌, ◌==◌, ◌>>=◌, suc, zero, get_or, true, false,
  ◌&&◌, ◌||◌, arith, refl, length, if◌then◌else◌, ◌↔◌, ap, sym, ◌∙◌,
}
use moz.Base.Lists.{get_or_ext}
use native.Mathlib.Decide.{dec_lt}
use moz.Core.Bitset.{
  Bitset, bitset_set, bitset_get, bitset_and, bitset_or, bitset_flip, bitset_equal,
}
use moz.Core.Bitset.Laws.{
  IsValid, has, with_bit, bitset_get-eq-has, bitset_set-eq, with_bit-IsValid, has-with_bit,
  has-bitset_or, has-bitset_and, has-bitset_flip, bitset_or-IsValid, bitset_and-IsValid,
  bitset_flip-IsValid, words_ext, equal_words_iff,
}

-- Setting a byte of a valid set succeeds, keeps the set valid, adds that byte, and leaves the
-- answer for every other byte as it was.
bitset_get-bitset_set :
    {s : Bitset}
    → IsValid s
    → (i j : ℕ) → i < 256
    → j < 256
    → (s' : Bitset) × (bitset_set s i ≡ some s')
      × IsValid s'
      × (bitset_get s' j ≡ (if i == j then some true else bitset_get s j))
bitset_get-bitset_set {s} v i j hi hj = (
  with_bit s i,
  bitset_set-eq v i hi,
  with_bit-IsValid v i hi,
  rw
      (
        bitset_get-eq-has (with_bit-IsValid v i hi) j hj,
        bitset_get-eq-has v j hj,
        has-with_bit v i j hi,
      )
      (push (i == j)),
)
  where
    push :
        (b : Bool) → some (if b then true else has s j) ≡ (if b then some true else some (has s j))
    push true = refl
    push false = refl

-- On valid sets `bitset_or`, `bitset_and` and `bitset_flip` give valid sets: the union, the
-- intersection and the complement.
bitset_get-algebra :
    {a b : Bitset}
    → IsValid a
    → IsValid b
    → (i : ℕ) → i < 256
    → (bitset_get (bitset_or a b) i
        ≡ (bitset_get a i >>= λ x. bitset_get b i >>= λ y. some (x || y)))
      × (bitset_get (bitset_and a b) i
          ≡ (bitset_get a i >>= λ x. bitset_get b i >>= λ y. some (x && y)))
      × (bitset_get (bitset_flip a) i ≡ (bitset_get a i >>= λ x. some (not x)))
      × IsValid (bitset_or a b)
      × IsValid (bitset_and a b)
      × IsValid (bitset_flip a)
bitset_get-algebra {a} {b} va vb i h = (
  rw
      (
        bitset_get-eq-has (bitset_or-IsValid va vb) i h,
        bitset_get-eq-has va i h,
        bitset_get-eq-has vb i h,
      )
      (ap some (has-bitset_or va vb i)),
  rw
      (
        bitset_get-eq-has (bitset_and-IsValid va vb) i h,
        bitset_get-eq-has va i h,
        bitset_get-eq-has vb i h,
      )
      (ap some (has-bitset_and va vb i)),
  rw (bitset_get-eq-has (bitset_flip-IsValid va) i h, bitset_get-eq-has va i h)
      (ap some (has-bitset_flip va i h)),
  bitset_or-IsValid va vb,
  bitset_and-IsValid va vb,
  bitset_flip-IsValid va,
)

words_eq :
    {a b : Bitset}
    → IsValid a
    → IsValid b
    → ((i : ℕ) → bitset_get a i ≡ bitset_get b i)
    → a.words ≡ b.words
words_eq {a} {b} va vb h = get_or_ext 0 a.words b.words (va.four ∙ sym vb.four) each
  where
    same : (i : ℕ) → i < 256 → has a i ≡ has b i
    same i lt =
        let e : some (has a i) ≡ some (has b i) =
          sym (bitset_get-eq-has va i lt) ∙ h i ∙ bitset_get-eq-has vb i lt in
        cc e

    beyond : (xs : List ℕ) (j : ℕ) → length xs ≤ j → get_or xs j 0 ≡ 0
    beyond [] j p = refl
    beyond (x ∷ xs) zero p = absurd (omega arith)
    beyond (x ∷ xs) (suc j) p = beyond xs j (omega arith)

    each : (j : ℕ) → get_or a.words j 0 ≡ get_or b.words j 0
    each j = elim (dec_lt j 4) [
      | yes p ↦ words_ext va vb same j p
      | no p ↦
          beyond a.words j (omega (arith, va.four))
          ∙ sym (beyond b.words j (omega (arith, vb.four)))
    ]

-- `bitset_equal`, which compares the representations, answers true on two valid sets exactly when
-- `bitset_get` cannot tell them apart.
bitset_equal_iff :
    {a b : Bitset}
    → IsValid a
    → IsValid b
    → (bitset_equal a b ≡ true) ↔ ((i : ℕ) → bitset_get a i ≡ bitset_get b i)
unfolding bitset_equal
bitset_equal_iff {a} {b} va vb = (
  λ e i. ap (λ ws. bitset_get (record { words = ws }) i) ((equal_words_iff a.words b.words).0 e),
  λ h. (equal_words_iff a.words b.words).1 (words_eq va vb h),
)
