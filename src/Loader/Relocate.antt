-- ===== src/Loader/Relocate.antt =====
-- src/loader.c: the writes of the second pass of mozvm_loader_load.
use moz.Base.{
  ℕ, zero, suc, ◌+◌, ◌-◌, ◌≤◌, ◌<◌, true, ltb, leb, List, [], ◌∷◌, ◌≡◌, refl, sym, ap, ◌∙◌,
  Bool-cases, inl, inr, length, set, take, drop, arith,
}
use moz.Base.Lists.{length-set}
use moz.Core.Buffer.{stored}
use moz.Loader.{Loader}
use moz.Loader.Emits.{Each, Each-bind, Each-map, then_any}
use moz.Loader.Bytes.{read_at, set_byte, write_at}
use moz.Loader.Load.{displacement, relocate_addr}

-- A buffer that is changed from `low` on and before `high` only.
pub record Within (low high : ℕ) (from to : List ℕ) : Type 0 where
  pub size : length to ≡ length from
  pub before : take low to ≡ take low from
  pub behind : drop high to ≡ drop high from

take-set : (xs : List ℕ) (n i v : ℕ) → n ≤ i → take n (set xs i v) ≡ take n xs
take-set xs zero i v h = refl
take-set [] (suc n) i v h = refl
take-set (x ∷ xs) (suc n) zero v h = absurd (omega arith)
take-set (x ∷ xs) (suc n) (suc i) v h = ap (λ t. x ∷ t) (take-set xs n i v (omega arith))

drop-set : (xs : List ℕ) (n i v : ℕ) → i < n → drop n (set xs i v) ≡ drop n xs
drop-set xs zero i v h = absurd (omega arith)
drop-set [] (suc n) i v h = refl
drop-set (x ∷ xs) (suc n) zero v h = refl
drop-set (x ∷ xs) (suc n) (suc i) v h = drop-set xs n i v (omega arith)

pub take-take : (xs : List ℕ) (m n : ℕ) → m ≤ n → take m (take n xs) ≡ take m xs
take-take xs zero n h = refl
take-take xs (suc m) zero h = absurd (omega arith)
take-take [] (suc m) (suc n) h = refl
take-take (x ∷ xs) (suc m) (suc n) h = ap (λ t. x ∷ t) (take-take xs m n (omega arith))

pub Within-refl : (low high : ℕ) (buf : List ℕ) → Within low high buf buf
Within-refl low high buf = record { size = refl; before = refl; behind = refl }

pub Within-trans :
    {low high : ℕ} {a b c : List ℕ}
    → Within low high a b
    → Within low high b c
    → Within low high a c
Within-trans p q = record {
  size = q.size ∙ p.size;
  before = q.before ∙ p.before;
  behind = q.behind ∙ p.behind;
}

pub Within-lower :
    {low low' high : ℕ} {a b : List ℕ} → low' ≤ low → Within low high a b → Within low' high a b
Within-lower {low} {low'} {high} {a} {b} h p = record {
  size = p.size;
  before = sym (take-take b low' low h) ∙ ap (take low') p.before ∙ take-take a low' low h;
  behind = p.behind;
}

pub set_byte-Within :
    (low high i v : ℕ) (buf : List ℕ)
    → low ≤ i
    → i < high
    → Each (Within low high buf) (set_byte i v buf)
unfolding set_byte
set_byte-Within low high i v buf h1 h2 = elim (Bool-cases (ltb i (length buf))) [
  | inl e ↦ rw e (
      Each.each_some (record {
        size = length-set buf i v;
        before = take-set buf low i v h1;
        behind = drop-set buf high i v h2;
      }))
  | inr e ↦ rw e Each.each_none
]

pub write_at-Within :
    (low high : ℕ) (bytes : List ℕ) (i : ℕ) (buf : List ℕ)
    → low ≤ i
    → i + length bytes ≤ high
    → Each (Within low high buf) (write_at bytes i buf)
unfolding write_at
write_at-Within low high [] i buf h1 h2 = Each.each_some (Within-refl low high buf)
write_at-Within low high (byte ∷ bytes) i buf h1 h2 =
    Each-bind (set_byte i byte buf) _ (set_byte-Within low high i byte buf h1 (omega arith))
      λ buf1 p.
        Each-map (write_at-Within low high bytes (i + 1) buf1 (omega arith) (omega arith))
          λ buf2 q. Within-trans p q

-- A loader that has kept its table of instructions.
pub record Changes (low high : ℕ) (l l' : Loader) : Type 0 where
  pub buf : Within low high l.buf l'.buf
  pub table : l'.table ≡ l.table

pub Changes-trans :
    {low high : ℕ} {a b c : Loader}
    → Changes low high a b
    → Changes low high b c
    → Changes low high a c
Changes-trans p q = record { buf = Within-trans p.buf q.buf; table = q.table ∙ p.table }

pub relocate_addr-Changes :
    (low high at back : ℕ) (l : Loader)
    → low + back ≤ at
    → at + 4 ≤ high + back
    → Each (Changes low high l) (relocate_addr at back l)
unfolding relocate_addr stored
relocate_addr-Changes low high at back l h1 h2 =
    let e : leb back at ≡ true = ground arith in
    rw e (
      then_any (read_at 4 (at - back) l.buf) _ λ x. then_any (displacement l.table at x) _ λ offset.
        Each-bind (write_at (stored 4 offset) (at - back) l.buf) _
          (write_at-Within low high (stored 4 offset) (at - back) l.buf (omega arith) (omega arith))
          λ buf w. Each.each_some (record { buf = w; table = refl }))
