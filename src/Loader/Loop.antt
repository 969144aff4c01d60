-- ===== src/Loader/Loop.antt =====
-- src/loader.c: the loop of the second pass of mozvm_loader_load.
use moz.Base.{
  ℕ, zero, suc, ◌+◌, ◌^◌, ◌≤◌, ◌<◌, false, ltb, Option, none, some, List, [], ◌∷◌, ◌≡◌, refl, ap,
  ◌∙◌, ◌>>=◌, Bool-cases, inl, inr, length, take, arith,
}
use moz.Loader.{Loader}
use moz.Loader.Layout.{IsSize, IsWhole}
use moz.Loader.Emits.{Each, Each-bind, Each-map}
use moz.Loader.Second.{Moved, SplitAt, relocate_one-Moved}
use moz.Loader.Load.{relocate_all, relocate_one}

-- What the whole pass keeps of a buffer and a table.
abbrev pub Relocated : ℕ → List ℕ → Loader → Type 0
Relocated total table l' = IsWhole l'.buf × (length l'.buf ≡ total) × (l'.table ≡ table)

take-beyond : (xs : List ℕ) (n : ℕ) → length xs ≤ n → take n xs ≡ xs
take-beyond [] zero h = refl
take-beyond [] (suc n) h = refl
take-beyond (x ∷ xs) zero h = absurd (omega arith)
take-beyond (x ∷ xs) (suc n) h = ap (λ t. x ∷ t) (take-beyond xs n (omega arith))

finished :
    (j : ℕ) (l : Loader)
    → SplitAt j l.buf
    → ltb j (length l.buf) ≡ false
    → Relocated (length l.buf) l.table l
finished j l at e =
    let w : take j l.buf ≡ l.buf = take-beyond l.buf j (ground arith) in
    (rw w at at.before, refl, refl)

same-length :
    {total : ℕ} {table table' : List ℕ} {total' : ℕ}
    → total' ≡ total
    → table' ≡ table
    → (l : Loader) → Relocated total' table' l
    → Relocated total table l
same-length e f l (w, a, b) = (w, a ∙ e, b ∙ f)

relocate_all-Relocated :
    (size : ℕ → ℕ) (rounds j : ℕ) (l : Loader)
    → IsSize size
    → SplitAt j l.buf
    → length l.buf < 2 ^ 31
    → Each (Relocated (length l.buf) l.table) (relocate_all size rounds j l)
unfolding relocate_all
relocate_all-Relocated size zero j l sizes at small = elim (Bool-cases (ltb j (length l.buf))) [
  | inl e ↦ rw e Each.each_none
  | inr e ↦ rw e (Each.each_some (finished j l at e))
]
relocate_all-Relocated size (suc rounds) j l sizes at small =
    elim (Bool-cases (ltb j (length l.buf))) [
      | inr e ↦ rw e (Each.each_some (finished j l at e))
      | inl e ↦ rw e (
          Each-bind (relocate_one size j l) _
            (relocate_one-Moved size j l sizes at (ground arith) small)
            λ (j', l') (at', on, len, table).
              Each-map (relocate_all-Relocated size rounds j' l' sizes at' (omega (arith, len)))
                (same-length len table))
    ]

same-rounds :
    (size : ℕ → ℕ) (m n j : ℕ) (l : Loader) (total : ℕ)
    → ((j' : ℕ) (l' : Loader)
        → Moved total j l (j', l')
        → relocate_all size m j' l' ≡ relocate_all size n j' l')
    → (o : Option (ℕ × Loader)) → Each (Moved total j l) o
    → (o >>= λ (j, l). relocate_all size m j l) ≡ (o >>= λ (j, l). relocate_all size n j l)
same-rounds size m n j l total h none e = refl
same-rounds size m n j l total h (some (j', l')) (Each.each_some e) = h j' l' e

relocate_all-enough :
    (size : ℕ → ℕ) (m n j : ℕ) (l : Loader)
    → IsSize size
    → SplitAt j l.buf
    → length l.buf < 2 ^ 31
    → length l.buf ≤ j + m
    → m ≤ n
    → relocate_all size m j l ≡ relocate_all size n j l
unfolding relocate_all
relocate_all-enough size zero zero j l sizes at small h1 h2 = refl
relocate_all-enough size zero (suc n) j l sizes at small h1 h2 =
    let e : ltb j (length l.buf) ≡ false = ground arith in rw e refl
relocate_all-enough size (suc m) zero j l sizes at small h1 h2 = absurd (omega arith)
relocate_all-enough size (suc m) (suc n) j l sizes at small h1 h2 =
    elim (Bool-cases (ltb j (length l.buf))) [
      | inr e ↦ rw e refl
      | inl e ↦ rw e (
          same-rounds size m n j l (length l.buf)
            (λ j' l' (at', on, len, table).
              relocate_all-enough size m n j' l' sizes at' (omega (arith, len)) (omega (arith, len))
                (omega arith))
            (relocate_one size j l) (relocate_one-Moved size j l sizes at (ground arith) small))
    ]

-- On a buffer of whole instructions that is smaller than 2 GB, with the sizes of the declarations,
-- the second pass gives the same result for every number of rounds from the number of bytes on, and
-- a result has a buffer of whole instructions, as long as before, and the same table.
pub relocate_all-IsWhole :
    (size : ℕ → ℕ) (l : Loader) (rounds : ℕ)
    → IsSize size
    → IsWhole l.buf
    → length l.buf < 2 ^ 31
    → length l.buf ≤ rounds
    → (relocate_all size (length l.buf) 0 l ≡ relocate_all size rounds 0 l)
      × Each (Relocated (length l.buf) l.table) (relocate_all size rounds 0 l)
relocate_all-IsWhole size l rounds sizes w small h =
    let at : SplitAt 0 l.buf = record {
      low = omega arith;
      before = IsWhole.whole_nil;
      behind = w;
    } in
    (
      relocate_all-enough size (length l.buf) rounds 0 l sizes at small (omega arith) h,
      relocate_all-Relocated size rounds 0 l sizes at small,
    )
