-- ===== src/Loader/Replaced.antt =====
-- src/loader.c: the loops over the entries of a jump table in the second pass, and the lookups of
-- src/core/jmptbl.h in a table whose entries a loop has replaced.
use moz.Base.{
  ℕ, zero, suc, ◌+◌, ◌*◌, ◌≤◌, ◌<◌, ◌≢◌, Bool, true, false, Option, none, some, List, [], ◌∷◌, ◌≡◌,
  refl, sym, ap, ◌∙◌, ◌==◌, Bool-cases, Option-cases, inl, inr, length, get_elem?, set, arith,
}
use moz.Base.Lists.{get_elem?-set_self, get_elem?-set_ne}
use mathlib.Core.Path.{subst}
use moz.Core.Bitset.{bitset_get}
use moz.Core.Jmptbl.{
  JumpTable1, JumpTable2, JumpTable3, jump_table1_jump, jump_table2_jump, jump_table3_jump, to_int,
}
use moz.Loader.Emits.{Each, Each-bind, Each-map}
use moz.Loader.Links.{Each-self}
use moz.Loader.Load.{for_entries}

-- Entries from `low` up to `high` are replaced by what a function gives, those below `low` are kept.
abbrev pub Replaced : (ℕ → Option ℕ) → ℕ → Option ℕ → Type 0
Replaced f x out = (y : ℕ) × (out ≡ some y) × (f x ≡ some y)

pub record Mapped (f : ℕ → Option ℕ) (low high : ℕ) (jumps out : List ℕ) : Type 0 where
  pub inside :
      (k x : ℕ) → low ≤ k → k < high → get_elem? jumps k ≡ some x → Replaced f x (get_elem? out k)
  pub below : (k : ℕ) → k < low → get_elem? out k ≡ get_elem? jumps k

in_range : (xs : List ℕ) (i x : ℕ) → get_elem? xs i ≡ some x → i < length xs
in_range [] i x e = absurd cc
in_range (y ∷ xs) zero x e = omega arith
in_range (y ∷ xs) (suc i) x e = let h = in_range xs i x e in omega arith

Mapped-step :
    (f : ℕ → Option ℕ) (i high : ℕ) (jumps out : List ℕ) (x y : ℕ)
    → get_elem? jumps i ≡ some x
    → f x ≡ some y
    → Mapped f (i + 1) high (set jumps i y) out
    → Mapped f i high jumps out
Mapped-step f i high jumps out x y e g m = record {
  inside = λ k z lo hi at. elim (Bool-cases (i == k)) [
    | inl q ↦
        let p : i ≡ k = ground arith in
        let same : some x ≡ some z = sym e ∙ ap (get_elem? jumps) p ∙ at in
        let x_z : x ≡ z = cc in
        (
          y,
          m.below k (omega arith)
              ∙ ap (get_elem? (set jumps i y)) (sym p)
              ∙ get_elem?-set_self jumps i y (in_range jumps i x e),
          ap f (sym x_z) ∙ g,
        )
    | inr q ↦
        let p : i ≢ k = λ e. ground arith in
        let lo' : i + 1 ≤ k = ground arith in
        m.inside k z lo' hi (get_elem?-set_ne jumps i k y p ∙ at)
  ];
  below = λ k h. m.below k (omega arith) ∙ get_elem?-set_ne jumps i k y (λ e. absurd (omega arith));
}

pub for_entries-Mapped :
    (f : ℕ → Option ℕ) (left i : ℕ) (jumps : List ℕ)
    → Each (Mapped f i (i + left) jumps) (for_entries f left i jumps)
unfolding for_entries
for_entries-Mapped f zero i jumps =
    Each.each_some (record { inside = λ k x lo hi e. absurd (omega arith); below = λ k h. refl })
for_entries-Mapped f (suc left) i jumps =
    Each-bind (get_elem? jumps i) _ (Each-self (get_elem? jumps i)) λ x e.
      Each-bind (f x) _ (Each-self (f x)) λ y g.
        let q : i + 1 + left ≡ i + suc left = omega arith in
        Each-map (for_entries-Mapped f left (i + 1) (set jumps i y)) λ out m.
          Mapped-step f i (i + suc left) jumps out x y e g
            (subst (λ n. Mapped f (i + 1) n (set jumps i y) out) q m)

bit_lt : (b : Bool) → to_int b < 2
bit_lt true = omega arith
bit_lt false = omega arith

-- The lookups of a byte in a table whose jumps are replaced.
pub jump1 :
    (f : ℕ → Option ℕ) (t : JumpTable1) (out : List ℕ) (ch x : ℕ)
    → Mapped f 0 2 t.jumps out
    → jump_table1_jump t ch ≡ some x
    → Replaced f x (jump_table1_jump (record t { jumps = out }) ch)
unfolding jump_table1_jump
jump1 f t out ch x m e = elim (Option-cases (bitset_get t.b0 ch)) [
  | inl n ↦ let bad : none ≡ some x = rw n at e in absurd cc
  | inr (b, s) ↦ rw s (m.inside (to_int b) x (omega arith) (bit_lt b) (rw s at e))
]

pub jump2 :
    (f : ℕ → Option ℕ) (t : JumpTable2) (out : List ℕ) (ch x : ℕ)
    → Mapped f 0 4 t.jumps out
    → jump_table2_jump t ch ≡ some x
    → Replaced f x (jump_table2_jump (record t { jumps = out }) ch)
unfolding jump_table2_jump
jump2 f t out ch x m e = elim (Option-cases (bitset_get t.b0 ch)) [
  | inl n ↦ let bad : none ≡ some x = rw n at e in absurd cc
  | inr (b, s) ↦ elim (Option-cases (bitset_get t.b1 ch)) [
    | inl n ↦ let bad : none ≡ some x = rw (s, n) at e in absurd cc
    | inr (c, u) ↦
        rw (s, u)
          (m.inside (to_int c * 2 + to_int b) x (omega arith) (omega (arith, bit_lt b, bit_lt c))
            (rw (s, u) at e))
  ]
]

pub jump3 :
    (f : ℕ → Option ℕ) (t : JumpTable3) (out : List ℕ) (ch x : ℕ)
    → Mapped f 0 8 t.jumps out
    → jump_table3_jump t ch ≡ some x
    → Replaced f x (jump_table3_jump (record t { jumps = out }) ch)
unfolding jump_table3_jump
jump3 f t out ch x m e = elim (Option-cases (bitset_get t.b0 ch)) [
  | inl n ↦ let bad : none ≡ some x = rw n at e in absurd cc
  | inr (b, s) ↦ elim (Option-cases (bitset_get t.b1 ch)) [
    | inl n ↦ let bad : none ≡ some x = rw (s, n) at e in absurd cc
    | inr (c, u) ↦ elim (Option-cases (bitset_get t.b2 ch)) [
      | inl n ↦ let bad : none ≡ some x = rw (s, u, n) at e in absurd cc
      | inr (d, v) ↦
          rw (s, u, v)
            (m.inside (to_int d * 4 + to_int c * 2 + to_int b) x (omega arith)
              (omega (arith, bit_lt b, bit_lt c, bit_lt d)) (rw (s, u, v) at e))
    ]
  ]
]
