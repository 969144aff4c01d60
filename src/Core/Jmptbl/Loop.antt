-- ===== src/Core/Jmptbl/Loop.antt =====
-- src/jmptbl.h: what the initialising loops leave in the bitsets.
use moz.Base.{
  ℕ, zero, suc, ◌+◌, ◌<◌, ◌≤◌, Bool, true, false, Option, some, List, [], ◌∷◌, ◌≡◌, refl, ◌==◌, ltb,
  ◌&&◌, ◌||◌, if◌then◌else◌, map, get_or, arith, ap, ◌∙◌, Bool-cases, inl, inr,
}
use moz.Core.Bitset.{Bitset}
use moz.Core.Bitset.Laws.{IsValid, has, with_bit, bitset_set-eq, with_bit-IsValid, has-with_bit}
use moz.Core.Jmptbl.{set_if, for_bytes}

-- The invariant rule of the loop.
pub for_bytes_inv {ℓ κ} :
    {T : Type ℓ} (P : ℕ → T → Type κ) (body : ℕ → T → Option T)
    → ((i : ℕ) (t : T) → i < 256 → P i t → (t' : T) × (body i t ≡ some t') × P (i + 1) t')
    → (left i j : ℕ) (t : T) → i + left ≡ j
    → j ≤ 256
    → P i t
    → (t' : T) × (for_bytes body left i t ≡ some t') × P j t'
unfolding for_bytes
for_bytes_inv P body keep zero i j t e le h = let e' : i ≡ j = omega arith in (t, refl, rw (← e') h)
for_bytes_inv P body keep (suc left) i j t e le h =
    let (t₁, e₁, h₁) = keep i t (omega arith) h in
    let (t₂, e₂, h₂) = for_bytes_inv P body keep left (i + 1) j t₁ (omega arith) le h₁ in
    (t₂, rw e₁ e₂, h₂)

abbrev pub put_if : Bool → ℕ → Bitset → Bitset
put_if c i s = if c then with_bit s i else s

pub set_if-eq :
    {s : Bitset} → IsValid s → (c : Bool) (i : ℕ) → i < 256 → set_if c i s ≡ some (put_if c i s)
set_if-eq v true i h = bitset_set-eq v i h
set_if-eq v false i h = refl

pub put_if-IsValid :
    {s : Bitset} → IsValid s → (c : Bool) (i : ℕ) → i < 256 → IsValid (put_if c i s)
put_if-IsValid v true i h = with_bit-IsValid v i h
put_if-IsValid v false i h = v

has-put_if :
    {s : Bitset}
    → IsValid s
    → (c : Bool) (i j : ℕ) → i < 256
    → has (put_if c i s) j ≡ ((c && i == j) || has s j)
has-put_if {s} v true i j h = has-with_bit v i j h ∙ split (i == j)
  where
    split : (b : Bool) → (if b then true else has s j) ≡ (b || has s j)
    split true = refl
    split false = refl
has-put_if v false i j h = refl

-- A chain of conditional writes of one element.
abbrev pub puts : List Bool → ℕ → Bitset → Bitset
puts [] i s = s
puts (c ∷ cs) i s = puts cs i (put_if c i s)

abbrev pub any : List Bool → Bool
any [] = false
any (c ∷ cs) = c || any cs

pub puts-IsValid :
    (cs : List Bool) {s : Bitset} → IsValid s → (i : ℕ) → i < 256 → IsValid (puts cs i s)
puts-IsValid [] v i h = v
puts-IsValid (c ∷ cs) v i h = puts-IsValid cs (put_if-IsValid v c i h) i h

has-puts :
    (cs : List Bool) {s : Bitset}
    → IsValid s
    → (i j : ℕ) → i < 256
    → has (puts cs i s) j ≡ ((any cs && i == j) || has s j)
has-puts [] v i j h = refl
has-puts (c ∷ cs) {s} v i j h =
    has-puts cs (put_if-IsValid v c i h) i j h
    ∙ ap (λ x. (any cs && i == j) || x) (has-put_if v c i j h)
    ∙ swap c (any cs) (i == j) (has s j)
  where
    swap : (a b e x : Bool) → ((b && e) || ((a && e) || x)) ≡ (((a || b) && e) || x)
    swap a b e x = ground arith

-- Which targets equal `v`.
abbrev pub tests : List ℕ → ℕ → List Bool
tests ts v = map (λ t. t == v) ts

abbrev pub hits : List ℕ → ℕ → Bool
hits ts v = any (tests ts v)

-- The set holds the bytes below `i` whose target is among `ts`.
pub record Marks (ts jumps : List ℕ) (i : ℕ) (s : Bitset) : Type 0 where
  pub valid : IsValid s
  pub marked : (j : ℕ) → has s j ≡ (ltb j i && hits ts (get_or jumps j 0))

grow : (f : ℕ → Bool) (i j : ℕ) → ((f i && i == j) || (ltb j i && f j)) ≡ (ltb j (i + 1) && f j)
grow f i j = elim (Bool-cases (i == j)) [
  | inl e ↦
      let p : i ≡ j = ground arith in
      let a : ltb j i ≡ false = ground arith in
      let b : ltb j (i + 1) ≡ true = ground arith in
      let q : f i ≡ f j = ap f p in rw (e, a, b, q) (ground arith)
  | inr e ↦ let a : ltb j (i + 1) ≡ ltb j i = ground arith in rw (e, a) (ground arith)
]

pub puts-Marks :
    (ts jumps : List ℕ) (i : ℕ) {s : Bitset}
    → i < 256
    → Marks ts jumps i s
    → Marks ts jumps (i + 1) (puts (tests ts (get_or jumps i 0)) i s)
puts-Marks ts jumps i {s} h m = record {
  valid = puts-IsValid (tests ts (get_or jumps i 0)) m.valid i h;
  marked = λ j.
      has-puts (tests ts (get_or jumps i 0)) m.valid i j h
      ∙ ap (λ x. (hits ts (get_or jumps i 0) && i == j) || x) (m.marked j)
      ∙ grow (λ k. hits ts (get_or jumps k 0)) i j;
}
