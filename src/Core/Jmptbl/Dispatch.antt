-- ===== src/Core/Jmptbl/Dispatch.antt =====
-- src/jmptbl.h: the jumps of a table against the list that it is built from.
use moz.Base.{
  ℕ, zero, suc, ◌+◌, ◌*◌, ◌<◌, ◌≤◌, true, false, some, List, [], ◌∷◌, ◌≡◌, refl, ◌==◌, ltb, ◌&&◌,
  get_or, get_elem?, length, arith, ap, ◌∙◌, sym, Bool-cases, inl, inr,
}
use moz.Base.Lists.{get_elem?-eq-get_or}
use moz.Core.Bitset.{Bitset, bitset_init, bitset_get}
use moz.Core.Bitset.Laws.{IsValid, bitset_get-eq-has, bitset_init-IsValid, has-bitset_init}
use moz.Core.Jmptbl.{
  JumpTable1, JumpTable2, JumpTable3, body1, body2, body3, jump_table1_init, jump_table2_init,
  jump_table3_init, jump_table1_jump, jump_table2_jump, jump_table3_jump, to_int,
}
use moz.Core.Jmptbl.Loop.{
  for_bytes_inv, set_if-eq, put_if-IsValid, puts, tests, hits, Marks, puts-Marks,
}

-- Two equal targets are equal to the last one: distinct targets, padded with one value at the end.
abbrev pub OnlyLastRepeats : List ℕ → ℕ → Type 0
OnlyLastRepeats ts last =
    (i j : ℕ) → i < j → j < last → get_or ts i 0 ≡ get_or ts j 0 → get_or ts j 0 ≡ get_or ts last 0

empty-Marks : (ts jumps : List ℕ) → Marks ts jumps 0 bitset_init
empty-Marks ts jumps = record {
  valid = bitset_init-IsValid;
  marked = λ j. has-bitset_init j ∙ ground arith;
}

-- After all 256 rounds `bitset_get` tells whether a byte's target is among `ts`.
bitset_get-Marks :
    {ts jumps : List ℕ} {s : Bitset}
    → Marks ts jumps 256 s
    → (ch : ℕ) → ch < 256
    → bitset_get s ch ≡ some (hits ts (get_or jumps ch 0))
bitset_get-Marks {ts} {jumps} {s} m ch h =
    bitset_get-eq-has m.valid ch h ∙ ap some (m.marked ch ∙ below)
  where
    below : (ltb ch 256 && hits ts (get_or jumps ch 0)) ≡ hits ts (get_or jumps ch 0)
    below = let e : ltb ch 256 ≡ true = ground arith in rw e refl

module _ (t0 t1 : ℕ) (jumps : List ℕ) where
  abbrev pub targets1 : List ℕ
  targets1 = t0 ∷ t1 ∷ []

  record Built1 (i : ℕ) (t : JumpTable1) : Type 0 where
    b0 : Bitset
    is : t ≡ record { b0 = b0; jumps = targets1 }
    m0 : Marks (t1 ∷ []) jumps i b0

  body1-eq :
      (b0 : Bitset) (i v : ℕ)
      → i < 256
      → get_elem? jumps i ≡ some v
      → IsValid b0
      → body1 jumps i (record { b0 = b0; jumps = targets1 })
        ≡ some (record { b0 = puts (tests (t1 ∷ []) v) i b0; jumps = targets1 })
  unfolding body1
  body1-eq b0 i v h e v0 = rw (e, set_if-eq v0 (t1 == v) i h) refl

  body1-Built :
      256 ≤ length jumps
      → (i : ℕ) (t : JumpTable1) → i < 256
      → Built1 i t
      → (t' : JumpTable1) × (body1 jumps i t ≡ some t') × Built1 (i + 1) t'
  body1-Built len i t h w =
      let v : ℕ = get_or jumps i 0 in
      (
        record { b0 = puts (tests (t1 ∷ []) v) i w.b0; jumps = targets1 },
        ap (body1 jumps i) w.is
            ∙ body1-eq w.b0 i v h (get_elem?-eq-get_or jumps i 0 (omega arith)) w.m0.valid,
        record {
          b0 = puts (tests (t1 ∷ []) v) i w.b0;
          is = refl;
          m0 = puts-Marks (t1 ∷ []) jumps i h w.m0;
        },
      )

  jump_table1_init-Built :
      256 ≤ length jumps
      → (t : JumpTable1) × (jump_table1_init targets1 jumps ≡ some t) × Built1 256 t
  unfolding jump_table1_init
  jump_table1_init-Built len =
      for_bytes_inv Built1 (body1 jumps) (body1-Built len) 256 0 256 _ (omega arith) (omega arith)
        (record { b0 = bitset_init; is = refl; m0 = empty-Marks (t1 ∷ []) jumps })

  select1_early :
      (k v : ℕ)
      → (t1 == v) ≡ false
      → get_elem? targets1 k ≡ some v
      → OnlyLastRepeats targets1 1
      → get_elem? targets1 (to_int (hits (t1 ∷ []) v)) ≡ some v
  select1_early zero v o e r =
      let p : t0 ≡ v = ground arith in let e0 : (t0 == v) ≡ true = ground arith in rw o (ap some p)
  select1_early (suc zero) v o e r = ground arith
  select1_early (suc (suc k)) v o e r = cc

  select1 :
      (k v : ℕ)
      → get_elem? targets1 k ≡ some v
      → OnlyLastRepeats targets1 1
      → get_elem? targets1 (to_int (hits (t1 ∷ []) v)) ≡ some v
  select1 k v e r = elim (Bool-cases (t1 == v)) [
    | inl last ↦ let p : t1 ≡ v = ground arith in rw last (ap some p)
    | inr other ↦ select1_early k v other e r
  ]

  -- A table that `jump_table1_init` builds from targets of which only the last may repeat jumps to
  -- `jumps[ch]` on every byte `ch` whose entry is one of the targets.
  pub jump_table1_jump-init :
      256 ≤ length jumps
      → OnlyLastRepeats targets1 1
      → (ch k : ℕ) → ch < 256
      → get_elem? targets1 k ≡ get_elem? jumps ch
      → (t : JumpTable1) × (jump_table1_init targets1 jumps ≡ some t)
        × (jump_table1_jump t ch ≡ get_elem? jumps ch)
  unfolding jump_table1_jump
  jump_table1_jump-init len r ch k h e =
      let (t, built, w) = jump_table1_init-Built len in
      let v : ℕ = get_or jumps ch 0 in
      let g : get_elem? jumps ch ≡ some v = get_elem?-eq-get_or jumps ch 0 (omega arith) in
      (t, built, rw (w.is, bitset_get-Marks w.m0 ch h) (select1 k v (e ∙ g) r ∙ sym g))

module _ (t0 t1 t2 t3 : ℕ) (jumps : List ℕ) where
  abbrev pub targets2 : List ℕ
  targets2 = t0 ∷ t1 ∷ t2 ∷ t3 ∷ []

  record Built2 (i : ℕ) (t : JumpTable2) : Type 0 where
    b0 : Bitset
    b1 : Bitset
    is : t ≡ record { b0 = b0; b1 = b1; jumps = targets2 }
    m0 : Marks (t3 ∷ t1 ∷ []) jumps i b0
    m1 : Marks (t3 ∷ t2 ∷ []) jumps i b1

  body2-eq :
      (b0 b1 : Bitset) (i v : ℕ)
      → i < 256
      → get_elem? jumps i ≡ some v
      → IsValid b0
      → IsValid b1
      → body2 jumps i (record { b0 = b0; b1 = b1; jumps = targets2 })
        ≡ some (record {
          b0 = puts (tests (t3 ∷ t1 ∷ []) v) i b0;
          b1 = puts (tests (t3 ∷ t2 ∷ []) v) i b1;
          jumps = targets2;
        })
  unfolding body2
  body2-eq b0 b1 i v h e v0 v1 =
      rw
        (
          e,
          set_if-eq v1 (t3 == v) i h,
          set_if-eq v0 (t3 == v) i h,
          set_if-eq (put_if-IsValid v1 (t3 == v) i h) (t2 == v) i h,
          set_if-eq (put_if-IsValid v0 (t3 == v) i h) (t1 == v) i h,
        )
        refl

  body2-Built :
      256 ≤ length jumps
      → (i : ℕ) (t : JumpTable2) → i < 256
      → Built2 i t
      → (t' : JumpTable2) × (body2 jumps i t ≡ some t') × Built2 (i + 1) t'
  body2-Built len i t h w =
      let v : ℕ = get_or jumps i 0 in
      (
        record {
          b0 = puts (tests (t3 ∷ t1 ∷ []) v) i w.b0;
          b1 = puts (tests (t3 ∷ t2 ∷ []) v) i w.b1;
          jumps = targets2;
        },
        ap (body2 jumps i) w.is
            ∙ body2-eq w.b0 w.b1 i v h (get_elem?-eq-get_or jumps i 0 (omega arith)) w.m0.valid
                w.m1.valid,
        record {
          b0 = puts (tests (t3 ∷ t1 ∷ []) v) i w.b0;
          b1 = puts (tests (t3 ∷ t2 ∷ []) v) i w.b1;
          is = refl;
          m0 = puts-Marks (t3 ∷ t1 ∷ []) jumps i h w.m0;
          m1 = puts-Marks (t3 ∷ t2 ∷ []) jumps i h w.m1;
        },
      )

  jump_table2_init-Built :
      256 ≤ length jumps
      → (t : JumpTable2) × (jump_table2_init targets2 jumps ≡ some t) × Built2 256 t
  unfolding jump_table2_init
  jump_table2_init-Built len =
      for_bytes_inv Built2 (body2 jumps) (body2-Built len) 256 0 256 _ (omega arith) (omega arith)
        (record {
          b0 = bitset_init;
          b1 = bitset_init;
          is = refl;
          m0 = empty-Marks (t3 ∷ t1 ∷ []) jumps;
          m1 = empty-Marks (t3 ∷ t2 ∷ []) jumps;
        })

  select2_early :
      (k v : ℕ)
      → (t3 == v) ≡ false
      → get_elem? targets2 k ≡ some v
      → OnlyLastRepeats targets2 3
      → get_elem? targets2 (to_int (hits (t3 ∷ t2 ∷ []) v) * 2 + to_int (hits (t3 ∷ t1 ∷ []) v))
        ≡ some v
  select2_early zero v o e r =
      let p : t0 ≡ v = ground arith in
      let e0 : (t0 == v) ≡ true = ground arith in
      let e1 : (t1 == v) ≡ false = ground (arith, r 0 1 (omega arith) (omega arith)) in
      let e2 : (t2 == v) ≡ false = ground (arith, r 0 2 (omega arith) (omega arith)) in
      rw (o, e1, e2) (ap some p)
  select2_early (suc zero) v o e r =
      let p : t1 ≡ v = ground arith in
      let e1 : (t1 == v) ≡ true = ground arith in
      let e0 : (t0 == v) ≡ false = ground (arith, r 0 1 (omega arith) (omega arith)) in
      let e2 : (t2 == v) ≡ false = ground (arith, r 1 2 (omega arith) (omega arith)) in
      rw (o, e1, e2) (ap some p)
  select2_early (suc (suc zero)) v o e r =
      let p : t2 ≡ v = ground arith in
      let e2 : (t2 == v) ≡ true = ground arith in
      let e0 : (t0 == v) ≡ false = ground (arith, r 0 2 (omega arith) (omega arith)) in
      let e1 : (t1 == v) ≡ false = ground (arith, r 1 2 (omega arith) (omega arith)) in
      rw (o, e1, e2) (ap some p)
  select2_early (suc (suc (suc zero))) v o e r = ground arith
  select2_early (suc (suc (suc (suc k)))) v o e r = cc

  select2 :
      (k v : ℕ)
      → get_elem? targets2 k ≡ some v
      → OnlyLastRepeats targets2 3
      → get_elem? targets2 (to_int (hits (t3 ∷ t2 ∷ []) v) * 2 + to_int (hits (t3 ∷ t1 ∷ []) v))
        ≡ some v
  select2 k v e r = elim (Bool-cases (t3 == v)) [
    | inl last ↦ let p : t3 ≡ v = ground arith in rw last (ap some p)
    | inr other ↦ select2_early k v other e r
  ]

  -- A table that `jump_table2_init` builds from targets of which only the last may repeat jumps to
  -- `jumps[ch]` on every byte `ch` whose entry is one of the targets.
  pub jump_table2_jump-init :
      256 ≤ length jumps
      → OnlyLastRepeats targets2 3
      → (ch k : ℕ) → ch < 256
      → get_elem? targets2 k ≡ get_elem? jumps ch
      → (t : JumpTable2) × (jump_table2_init targets2 jumps ≡ some t)
        × (jump_table2_jump t ch ≡ get_elem? jumps ch)
  unfolding jump_table2_jump
  jump_table2_jump-init len r ch k h e =
      let (t, built, w) = jump_table2_init-Built len in
      let v : ℕ = get_or jumps ch 0 in
      let g : get_elem? jumps ch ≡ some v = get_elem?-eq-get_or jumps ch 0 (omega arith) in
      (
        t,
        built,
        rw (w.is, bitset_get-Marks w.m0 ch h, bitset_get-Marks w.m1 ch h)
            (select2 k v (e ∙ g) r ∙ sym g),
      )

module _ (t0 t1 t2 t3 t4 t5 t6 t7 : ℕ) (jumps : List ℕ) where
  abbrev pub targets3 : List ℕ
  targets3 = t0 ∷ t1 ∷ t2 ∷ t3 ∷ t4 ∷ t5 ∷ t6 ∷ t7 ∷ []

  record Built3 (i : ℕ) (t : JumpTable3) : Type 0 where
    b0 : Bitset
    b1 : Bitset
    b2 : Bitset
    is : t ≡ record { b0 = b0; b1 = b1; b2 = b2; jumps = targets3 }
    m0 : Marks (t7 ∷ t5 ∷ t3 ∷ t1 ∷ []) jumps i b0
    m1 : Marks (t7 ∷ t6 ∷ t3 ∷ t2 ∷ []) jumps i b1
    m2 : Marks (t7 ∷ t6 ∷ t5 ∷ t4 ∷ []) jumps i b2

  body3-eq :
      (b0 b1 b2 : Bitset) (i v : ℕ)
      → i < 256
      → get_elem? jumps i ≡ some v
      → IsValid b0
      → IsValid b1
      → IsValid b2
      → body3 jumps i (record { b0 = b0; b1 = b1; b2 = b2; jumps = targets3 })
        ≡ some (record {
          b0 = puts (tests (t7 ∷ t5 ∷ t3 ∷ t1 ∷ []) v) i b0;
          b1 = puts (tests (t7 ∷ t6 ∷ t3 ∷ t2 ∷ []) v) i b1;
          b2 = puts (tests (t7 ∷ t6 ∷ t5 ∷ t4 ∷ []) v) i b2;
          jumps = targets3;
        })
  unfolding body3
  body3-eq b0 b1 b2 i v h e v0 v1 v2 =
      rw
        (
          e,
          set_if-eq v2 (t7 == v) i h,
          set_if-eq v1 (t7 == v) i h,
          set_if-eq v0 (t7 == v) i h,
          set_if-eq (put_if-IsValid v2 (t7 == v) i h) (t6 == v) i h,
          set_if-eq (put_if-IsValid v1 (t7 == v) i h) (t6 == v) i h,
          set_if-eq (put_if-IsValid (put_if-IsValid v2 (t7 == v) i h) (t6 == v) i h) (t5 == v) i h,
          set_if-eq (put_if-IsValid v0 (t7 == v) i h) (t5 == v) i h,
          set_if-eq
              (put_if-IsValid (put_if-IsValid (put_if-IsValid v2 (t7 == v) i h) (t6 == v) i h)
                (t5 == v) i h)
              (t4 == v) i h,
          set_if-eq (put_if-IsValid (put_if-IsValid v1 (t7 == v) i h) (t6 == v) i h) (t3 == v) i h,
          set_if-eq (put_if-IsValid (put_if-IsValid v0 (t7 == v) i h) (t5 == v) i h) (t3 == v) i h,
          set_if-eq
              (put_if-IsValid (put_if-IsValid (put_if-IsValid v1 (t7 == v) i h) (t6 == v) i h)
                (t3 == v) i h)
              (t2 == v) i h,
          set_if-eq
              (put_if-IsValid (put_if-IsValid (put_if-IsValid v0 (t7 == v) i h) (t5 == v) i h)
                (t3 == v) i h)
              (t1 == v) i h,
        )
        refl

  body3-Built :
      256 ≤ length jumps
      → (i : ℕ) (t : JumpTable3) → i < 256
      → Built3 i t
      → (t' : JumpTable3) × (body3 jumps i t ≡ some t') × Built3 (i + 1) t'
  body3-Built len i t h w =
      let v : ℕ = get_or jumps i 0 in
      (
        record {
          b0 = puts (tests (t7 ∷ t5 ∷ t3 ∷ t1 ∷ []) v) i w.b0;
          b1 = puts (tests (t7 ∷ t6 ∷ t3 ∷ t2 ∷ []) v) i w.b1;
          b2 = puts (tests (t7 ∷ t6 ∷ t5 ∷ t4 ∷ []) v) i w.b2;
          jumps = targets3;
        },
        ap (body3 jumps i) w.is
            ∙ body3-eq w.b0 w.b1 w.b2 i v h (get_elem?-eq-get_or jumps i 0 (omega arith)) w.m0.valid
                w.m1.valid w.m2.valid,
        record {
          b0 = puts (tests (t7 ∷ t5 ∷ t3 ∷ t1 ∷ []) v) i w.b0;
          b1 = puts (tests (t7 ∷ t6 ∷ t3 ∷ t2 ∷ []) v) i w.b1;
          b2 = puts (tests (t7 ∷ t6 ∷ t5 ∷ t4 ∷ []) v) i w.b2;
          is = refl;
          m0 = puts-Marks (t7 ∷ t5 ∷ t3 ∷ t1 ∷ []) jumps i h w.m0;
          m1 = puts-Marks (t7 ∷ t6 ∷ t3 ∷ t2 ∷ []) jumps i h w.m1;
          m2 = puts-Marks (t7 ∷ t6 ∷ t5 ∷ t4 ∷ []) jumps i h w.m2;
        },
      )

  jump_table3_init-Built :
      256 ≤ length jumps
      → (t : JumpTable3) × (jump_table3_init targets3 jumps ≡ some t) × Built3 256 t
  unfolding jump_table3_init
  jump_table3_init-Built len =
      for_bytes_inv Built3 (body3 jumps) (body3-Built len) 256 0 256 _ (omega arith) (omega arith)
        (record {
          b0 = bitset_init;
          b1 = bitset_init;
          b2 = bitset_init;
          is = refl;
          m0 = empty-Marks (t7 ∷ t5 ∷ t3 ∷ t1 ∷ []) jumps;
          m1 = empty-Marks (t7 ∷ t6 ∷ t3 ∷ t2 ∷ []) jumps;
          m2 = empty-Marks (t7 ∷ t6 ∷ t5 ∷ t4 ∷ []) jumps;
        })

  select3_early :
      (k v : ℕ)
      → (t7 == v) ≡ false
      → get_elem? targets3 k ≡ some v
      → OnlyLastRepeats targets3 7
      → get_elem? targets3 (
          to_int (hits (t7 ∷ t6 ∷ t5 ∷ t4 ∷ []) v) * 4
          + to_int (hits (t7 ∷ t6 ∷ t3 ∷ t2 ∷ []) v) * 2
          + to_int (hits (t7 ∷ t5 ∷ t3 ∷ t1 ∷ []) v))
        ≡ some v
  select3_early zero v o e r =
      let p : t0 ≡ v = ground arith in
      let e0 : (t0 == v) ≡ true = ground arith in
      let e1 : (t1 == v) ≡ false = ground (arith, r 0 1 (omega arith) (omega arith)) in
      let e2 : (t2 == v) ≡ false = ground (arith, r 0 2 (omega arith) (omega arith)) in
      let e3 : (t3 == v) ≡ false = ground (arith, r 0 3 (omega arith) (omega arith)) in
      let e4 : (t4 == v) ≡ false = ground (arith, r 0 4 (omega arith) (omega arith)) in
      let e5 : (t5 == v) ≡ false = ground (arith, r 0 5 (omega arith) (omega arith)) in
      let e6 : (t6 == v) ≡ false = ground (arith, r 0 6 (omega arith) (omega arith)) in
      rw (o, e1, e2, e3, e4, e5, e6) (ap some p)
  select3_early (suc zero) v o e r =
      let p : t1 ≡ v = ground arith in
      let e1 : (t1 == v) ≡ true = ground arith in
      let e0 : (t0 == v) ≡ false = ground (arith, r 0 1 (omega arith) (omega arith)) in
      let e2 : (t2 == v) ≡ false = ground (arith, r 1 2 (omega arith) (omega arith)) in
      let e3 : (t3 == v) ≡ false = ground (arith, r 1 3 (omega arith) (omega arith)) in
      let e4 : (t4 == v) ≡ false = ground (arith, r 1 4 (omega arith) (omega arith)) in
      let e5 : (t5 == v) ≡ false = ground (arith, r 1 5 (omega arith) (omega arith)) in
      let e6 : (t6 == v) ≡ false = ground (arith, r 1 6 (omega arith) (omega arith)) in
      rw (o, e1, e2, e3, e4, e5, e6) (ap some p)
  select3_early (suc (suc zero)) v o e r =
      let p : t2 ≡ v = ground arith in
      let e2 : (t2 == v) ≡ true = ground arith in
      let e0 : (t0 == v) ≡ false = ground (arith, r 0 2 (omega arith) (omega arith)) in
      let e1 : (t1 == v) ≡ false = ground (arith, r 1 2 (omega arith) (omega arith)) in
      let e3 : (t3 == v) ≡ false = ground (arith, r 2 3 (omega arith) (omega arith)) in
      let e4 : (t4 == v) ≡ false = ground (arith, r 2 4 (omega arith) (omega arith)) in
      let e5 : (t5 == v) ≡ false = ground (arith, r 2 5 (omega arith) (omega arith)) in
      let e6 : (t6 == v) ≡ false = ground (arith, r 2 6 (omega arith) (omega arith)) in
      rw (o, e1, e2, e3, e4, e5, e6) (ap some p)
  select3_early (suc (suc (suc zero))) v o e r =
      let p : t3 ≡ v = ground arith in
      let e3 : (t3 == v) ≡ true = ground arith in
      let e0 : (t0 == v) ≡ false = ground (arith, r 0 3 (omega arith) (omega arith)) in
      let e1 : (t1 == v) ≡ false = ground (arith, r 1 3 (omega arith) (omega arith)) in
      let e2 : (t2 == v) ≡ false = ground (arith, r 2 3 (omega arith) (omega arith)) in
      let e4 : (t4 == v) ≡ false = ground (arith, r 3 4 (omega arith) (omega arith)) in
      let e5 : (t5 == v) ≡ false = ground (arith, r 3 5 (omega arith) (omega arith)) in
      let e6 : (t6 == v) ≡ false = ground (arith, r 3 6 (omega arith) (omega arith)) in
      rw (o, e1, e2, e3, e4, e5, e6) (ap some p)
  select3_early (suc (suc (suc (suc zero)))) v o e r =
      let p : t4 ≡ v = ground arith in
      let e4 : (t4 == v) ≡ true = ground arith in
      let e0 : (t0 == v) ≡ false = ground (arith, r 0 4 (omega arith) (omega arith)) in
      let e1 : (t1 == v) ≡ false = ground (arith, r 1 4 (omega arith) (omega arith)) in
      let e2 : (t2 == v) ≡ false = ground (arith, r 2 4 (omega arith) (omega arith)) in
      let e3 : (t3 == v) ≡ false = ground (arith, r 3 4 (omega arith) (omega arith)) in
      let e5 : (t5 == v) ≡ false = ground (arith, r 4 5 (omega arith) (omega arith)) in
      let e6 : (t6 == v) ≡ false = ground (arith, r 4 6 (omega arith) (omega arith)) in
      rw (o, e1, e2, e3, e4, e5, e6) (ap some p)
  select3_early (suc (suc (suc (suc (suc zero))))) v o e r =
      let p : t5 ≡ v = ground arith in
      let e5 : (t5 == v) ≡ true = ground arith in
      let e0 : (t0 == v) ≡ false = ground (arith, r 0 5 (omega arith) (omega arith)) in
      let e1 : (t1 == v) ≡ false = ground (arith, r 1 5 (omega arith) (omega arith)) in
      let e2 : (t2 == v) ≡ false = ground (arith, r 2 5 (omega arith) (omega arith)) in
      let e3 : (t3 == v) ≡ false = ground (arith, r 3 5 (omega arith) (omega arith)) in
      let e4 : (t4 == v) ≡ false = ground (arith, r 4 5 (omega arith) (omega arith)) in
      let e6 : (t6 == v) ≡ false = ground (arith, r 5 6 (omega arith) (omega arith)) in
      rw (o, e1, e2, e3, e4, e5, e6) (ap some p)
  select3_early (suc (suc (suc (suc (suc (suc zero)))))) v o e r =
      let p : t6 ≡ v = ground arith in
      let e6 : (t6 == v) ≡ true = ground arith in
      let e0 : (t0 == v) ≡ false = ground (arith, r 0 6 (omega arith) (omega arith)) in
      let e1 : (t1 == v) ≡ false = ground (arith, r 1 6 (omega arith) (omega arith)) in
      let e2 : (t2 == v) ≡ false = ground (arith, r 2 6 (omega arith) (omega arith)) in
      let e3 : (t3 == v) ≡ false = ground (arith, r 3 6 (omega arith) (omega arith)) in
      let e4 : (t4 == v) ≡ false = ground (arith, r 4 6 (omega arith) (omega arith)) in
      let e5 : (t5 == v) ≡ false = ground (arith, r 5 6 (omega arith) (omega arith)) in
      rw (o, e1, e2, e3, e4, e5, e6) (ap some p)
  select3_early (suc (suc (suc (suc (suc (suc (suc zero))))))) v o e r = ground arith
  select3_early (suc (suc (suc (suc (suc (suc (suc (suc k)))))))) v o e r = cc

  select3 :
      (k v : ℕ)
      → get_elem? targets3 k ≡ some v
      → OnlyLastRepeats targets3 7
      → get_elem? targets3 (
          to_int (hits (t7 ∷ t6 ∷ t5 ∷ t4 ∷ []) v) * 4
          + to_int (hits (t7 ∷ t6 ∷ t3 ∷ t2 ∷ []) v) * 2
          + to_int (hits (t7 ∷ t5 ∷ t3 ∷ t1 ∷ []) v))
        ≡ some v
  select3 k v e r = elim (Bool-cases (t7 == v)) [
    | inl last ↦ let p : t7 ≡ v = ground arith in rw last (ap some p)
    | inr other ↦ select3_early k v other e r
  ]

  -- A table that `jump_table3_init` builds from targets of which only the last may repeat jumps to
  -- `jumps[ch]` on every byte `ch` whose entry is one of the targets.
  pub jump_table3_jump-init :
      256 ≤ length jumps
      → OnlyLastRepeats targets3 7
      → (ch k : ℕ) → ch < 256
      → get_elem? targets3 k ≡ get_elem? jumps ch
      → (t : JumpTable3) × (jump_table3_init targets3 jumps ≡ some t)
        × (jump_table3_jump t ch ≡ get_elem? jumps ch)
  unfolding jump_table3_jump
  jump_table3_jump-init len r ch k h e =
      let (t, built, w) = jump_table3_init-Built len in
      let v : ℕ = get_or jumps ch 0 in
      let g : get_elem? jumps ch ≡ some v = get_elem?-eq-get_or jumps ch 0 (omega arith) in
      (
        t,
        built,
        rw
            (
              w.is,
              bitset_get-Marks w.m0 ch h,
              bitset_get-Marks w.m1 ch h,
              bitset_get-Marks w.m2 ch h,
            )
            (select3 k v (e ∙ g) r ∙ sym g),
      )
