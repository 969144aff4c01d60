-- ===== src/Loader/Sets.antt =====
-- src/loader.c: the sets of bytes of a byte code file.
use Prim.Native.Nat.{bit_and}
use moz.Base.{
  ℕ, zero, suc, ◌+◌, ◌*◌, ◌/◌, ◌%◌, ◌^◌, ◌<◌, Bool, true, false, ◌&&◌, Option, some, List, [], ◌∷◌,
  ◌≡◌, refl, sym, ap, ◌∙◌, ◌>>=◌, ◌==◌, ltb, if◌then◌else◌, Bool-cases, Option-cases, inl, inr,
  get_or, arith,
}
use moz.Base.Bits.{bit, bit-lt_two, bit_and-pow}
use native.Mathlib.Nat.{one-le-pow}
use mathlib.Core.Path.{subst}
use moz.Core.Bitset.{Bitset, bitset_get, bitset_init}
use moz.Core.Bitset.Laws.{
  IsValid, bitset_get-eq-has, bitset_init-IsValid, bitset_set-eq, has, has-bitset_init,
  has-with_bit, with_bit, with_bit-IsValid,
}
use moz.Loader.{InputStream, read32}
use moz.Loader.Emits.{Each, Each-bind, Each-at}
use moz.Loader.Syntax.{load_bits, load_words}

-- The words alone.
unfoldable pub read32s : ℕ → InputStream → Option (List ℕ × InputStream)
read32s zero is = some ([], is)
read32s (suc left) is = do (v, is) ← read32 is; (vs, is) ← read32s left is; some (v ∷ vs, is)

-- The bit of an element in the words of the file.
abbrev pub in_words : List ℕ → ℕ → Bool
in_words vs i = bit (i % 32) (get_or vs (i / 32) 0) == 1

-- The elements below `n` are loaded.
record UpTo (vs : List ℕ) (n : ℕ) (s : Bitset) : Type 0 where
  valid : IsValid s
  elements : (i : ℕ) → has s i ≡ (ltb i n && in_words vs i)

same_test : (b p : ℕ) → b < 2 → 0 < p → (b * p == p) ≡ (b == 1)
same_test zero p h q = ground arith
same_test (suc zero) p h q = ground arith
same_test (suc (suc b)) p h q = absurd (omega arith)

bit_test : (k v : ℕ) → (bit_and v (2 ^ k) == 2 ^ k) ≡ (bit k v == 1)
bit_test k v =
    rw (bit_and-pow k v)
      (same_test (bit k v) (2 ^ k) (bit-lt_two k v) (omega (arith, one-le-pow k 2)))

UpTo-at : {vs : List ℕ} {m n : ℕ} {s : Bitset} → m ≡ n → UpTo vs m s → UpTo vs n s
UpTo-at {vs} {m} {n} {s} e u = subst (λ k. UpTo vs k s) e u

UpTo-set :
    (vs : List ℕ) (n : ℕ) (s : Bitset)
    → n < 256
    → in_words vs n ≡ true
    → UpTo vs n s
    → UpTo vs (n + 1) (with_bit s n)
UpTo-set vs n s h e u = record {
  valid = with_bit-IsValid u.valid n h;
  elements = λ i. has-with_bit u.valid n i h ∙ same i (u.elements i);
}
  where
    same :
        (i : ℕ)
        → has s i ≡ (ltb i n && in_words vs i)
        → (if n == i then true else has s i) ≡ (ltb i (n + 1) && in_words vs i)
    same i q = elim (Bool-cases (n == i)) [
      | inl p ↦
          let w : n ≡ i = ground arith in
          let l : ltb i (n + 1) ≡ true = ground arith in rw (p, l) (sym e ∙ ap (in_words vs) w)
      | inr p ↦ let l : ltb i (n + 1) ≡ ltb i n = ground arith in rw (p, l) q
    ]

UpTo-skip :
    (vs : List ℕ) (n : ℕ) (s : Bitset) → in_words vs n ≡ false → UpTo vs n s → UpTo vs (n + 1) s
UpTo-skip vs n s e u = record { valid = u.valid; elements = λ i. u.elements i ∙ same i }
  where
    same : (i : ℕ) → (ltb i n && in_words vs i) ≡ (ltb i (n + 1) && in_words vs i)
    same i = elim (Bool-cases (n == i)) [
      | inl p ↦
          let w : n ≡ i = ground arith in
          let l : ltb i n ≡ false = ground arith in
          let m : ltb i (n + 1) ≡ true = ground arith in rw (l, m) (sym e ∙ ap (in_words vs) w)
      | inr p ↦ let l : ltb i (n + 1) ≡ ltb i n = ground arith in rw l refl
    ]

load_bits-UpTo :
    (left k j v : ℕ) (vs : List ℕ) (s : Bitset)
    → left + k ≡ 32
    → j < 8
    → get_or vs j 0 ≡ v
    → UpTo vs (k + 32 * j) s
    → (s' : Bitset) × (load_bits left k v j s ≡ some s') × UpTo vs (32 + 32 * j) s'
unfolding load_bits
load_bits-UpTo zero k j v vs s e h word u =
    let q : k + 32 * j ≡ 32 + 32 * j = omega arith in (s, refl, UpTo-at q u)
load_bits-UpTo (suc left) k j v vs s e h word u =
    let at : (k + 32 * j) / 32 ≡ j = omega arith in
    let digit : (k + 32 * j) % 32 ≡ k = omega arith in
    let next : k + 32 * j + 1 ≡ k + 1 + 32 * j = omega arith in
    let test : in_words vs (k + 32 * j) ≡ (bit k v == 1) = rw (at, digit, word) refl in
    elim (Bool-cases (bit k v == 1)) [
      | inl b ↦
          let (s', same, u') =
            load_bits-UpTo left (k + 1) j v vs (with_bit s (k + 32 * j)) (omega arith) h word
              (UpTo-at next (UpTo-set vs (k + 32 * j) s (omega arith) (test ∙ b) u)) in
          (s', rw (bit_test k v, b, bitset_set-eq u.valid (k + 32 * j) (omega arith)) same, u')
      | inr b ↦
          let (s', same, u') =
            load_bits-UpTo left (k + 1) j v vs s (omega arith) h word
              (UpTo-at next (UpTo-skip vs (k + 32 * j) s (test ∙ b) u)) in
          (s', rw (bit_test k v, b) same, u')
    ]

-- The words from `j` on are those of a list.
abbrev TailFrom : ℕ → List ℕ → List ℕ → Type 0
TailFrom j vs ws = (m : ℕ) → get_or vs (j + m) 0 ≡ get_or ws m 0

-- A result of the reads alone is one of the loop, from every set that is loaded so far.
abbrev SetOf : ℕ → ℕ → List ℕ → InputStream → List ℕ × InputStream → Type 0
SetOf left j vs is (ws, is') =
    TailFrom j vs ws
    → (s : Bitset) → UpTo vs (32 * j) s
    → (s' : Bitset) × (load_words left j s is ≡ some (s', is')) × UpTo vs 256 s'

TailFrom-next : (j : ℕ) (vs ws : List ℕ) (v : ℕ) → TailFrom j vs (v ∷ ws) → TailFrom (j + 1) vs ws
TailFrom-next j vs ws v t m =
    let q : j + 1 + m ≡ j + suc m = omega arith in ap (λ i. get_or vs i 0) q ∙ t (suc m)

load_words-SetOf :
    (left j : ℕ) (vs : List ℕ) (is : InputStream)
    → left + j ≡ 8
    → Each (SetOf left j vs is) (read32s left is)
unfolding load_words read32s
load_words-SetOf zero j vs is e =
    Each.each_some λ t s u. let q : 32 * j ≡ 256 = omega arith in (s, refl, UpTo-at q u)
load_words-SetOf (suc left) j vs is e = elim (Option-cases (read32 is)) [
  | inl nothing ↦ rw nothing Each.each_none
  | inr ((v, is1), r) ↦ rw r (
      Each-bind (read32s left is1) _ (load_words-SetOf left (j + 1) vs is1 (omega arith))
        λ (ws, is2) h. Each.each_some λ t s u.
          let zero_j : j + 0 ≡ j = omega arith in
          let word : get_or vs j 0 ≡ v = ap (λ i. get_or vs i 0) (sym zero_j) ∙ t 0 in
          let start : 32 * j ≡ 0 + 32 * j = omega arith in
          let next : 32 + 32 * j ≡ 32 * (j + 1) = omega arith in
          let (s1, same1, u1) =
            load_bits-UpTo 32 0 j v vs s refl (omega arith) word (UpTo-at start u) in
          let (s2, same2, u2) = h (TailFrom-next j vs ws v t) s1 (UpTo-at next u1) in
          (s2, rw (r, same1, same2) refl, u2))
]

-- Where eight words of 32 bits can be read, loading a set succeeds behind them, and the set holds
-- the bytes whose bit is set: byte `i` is bit `i % 32` of word `i / 32`.
pub load_words-bitset_get :
    (is is' : InputStream) (vs : List ℕ)
    → read32s 8 is ≡ some (vs, is')
    → (s : Bitset) × (load_words 8 0 bitset_init is ≡ some (s, is'))
      × IsValid s
      × ((i : ℕ) → i < 256 → bitset_get s i ≡ some (in_words vs i))
load_words-bitset_get is is' vs e =
    let empty : UpTo vs (32 * 0) bitset_init = record {
      valid = bitset_init-IsValid;
      elements = λ i. has-bitset_init i ∙ ground arith;
    } in
    let h = Each-at (load_words-SetOf 8 0 vs is refl) e in
    let (s, same, u) =
      h (λ m. let q : 0 + m ≡ m = omega arith in ap (λ i. get_or vs i 0) q) bitset_init empty in
    (
      s,
      same,
      u.valid,
      λ i lt.
          let inside : ltb i 256 ≡ true = ground arith in
          bitset_get-eq-has u.valid i lt ∙ ap some (rw inside at (u.elements i)),
    )
