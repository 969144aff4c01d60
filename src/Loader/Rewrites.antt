-- ===== src/Loader/Rewrites.antt =====
-- src/loader.c: what one instruction of the second pass of mozvm_loader_load writes.
use moz.Base.{
  ℕ, zero, suc, ◌+◌, ◌*◌, ◌≤◌, ◌<◌, Bool, ltb, ◌==◌, some, List, [], ◌∷◌, ◌≡◌, refl, sym, ap, ◌∙◌,
  Bool-cases, inl, inr, length, get_elem?, take, arith, ==_iff,
}
use moz.Base.Lists.{get_elem?-set_self}
use moz.Loader.{Loader}
use moz.Loader.Opcode.{Opcode, number}
use moz.Loader.Layout.{inst_bytes}
use moz.Loader.Emits.{Each, Each-bind, Each-both, Each-map, then_any}
use moz.Loader.Bytes.{read_at, set_byte}
use moz.Loader.First.{jmptable_size}
use moz.Loader.Relocate.{
  Changes, Changes-trans, Within-lower, Within-refl, take-take, relocate_addr-Changes,
  set_byte-Within,
}
use moz.Loader.Load.{
  displacement, for_entries, jump_to_ret, place, relocate_addr, relocate_call, relocate_case,
  relocate_first, relocate_jump, relocate_table1, relocate_table2, relocate_table3, same_size,
  short_jump,
}

-- The byte of the opcode of an instruction, which may be replaced by one of the same size.
pub record Rewrites (op : Opcode) (j high : ℕ) (l l' : Loader) : Type 0 where
  pub op' : Opcode
  pub same_size : inst_bytes op' ≡ inst_bytes op
  pub opcode : get_elem? l'.buf j ≡ some (number op')
  pub changes : Changes j high l l'

pub get_elem?-taken : (xs : List ℕ) (i : ℕ) → get_elem? (take (i + 1) xs) i ≡ get_elem? xs i
get_elem?-taken [] zero = refl
get_elem?-taken [] (suc i) = let q : suc i + 1 ≡ suc (i + 1) = omega arith in rw q refl
get_elem?-taken (x ∷ xs) zero = refl
get_elem?-taken (x ∷ xs) (suc i) =
    let q : suc i + 1 ≡ suc (i + 1) = omega arith in rw q (get_elem?-taken xs i)

pub same-before :
    (i low : ℕ) (a b : List ℕ) → take low a ≡ take low b → i < low → get_elem? a i ≡ get_elem? b i
same-before i low a b e h =
    sym (get_elem?-taken a i) ∙ ap (λ t. get_elem? t i) shorter ∙ get_elem?-taken b i
  where
    shorter : take (i + 1) a ≡ take (i + 1) b
    shorter =
        sym (take-take a (i + 1) low (omega arith))
        ∙ ap (take (i + 1)) e
        ∙ take-take b (i + 1) low (omega arith)

-- Changes behind the opcode keep it.
keeping :
    (op : Opcode) (j high : ℕ) (l l' : Loader)
    → get_elem? l.buf j ≡ some (number op)
    → Changes (j + 1) high l l'
    → Rewrites op j high l l'
keeping op j high l l' e c = record {
  op' = op;
  same_size = refl;
  opcode = same-before j (j + 1) l'.buf l.buf c.buf.before (omega arith) ∙ e;
  changes = record { buf = Within-lower (omega arith) c.buf; table = c.table };
}

Rewrites-trans :
    {op : Opcode} {j high : ℕ} {a b c : Loader}
    → Rewrites op j high a b
    → Changes (j + 1) high b c
    → Rewrites op j high a c
Rewrites-trans {op} {j} {high} {a} {b} {c} p q =
    let k = keeping p.op' j high b c p.opcode q in
    record {
      op' = k.op';
      same_size = k.same_size ∙ p.same_size;
      opcode = k.opcode;
      changes = Changes-trans p.changes k.changes;
    }

pub set_byte-at :
    (j v : ℕ) (buf : List ℕ) → Each (λ buf'. get_elem? buf' j ≡ some v) (set_byte j v buf)
unfolding set_byte
set_byte-at j v buf = elim (Bool-cases (ltb j (length buf))) [
  | inl e ↦ rw e (Each.each_some (get_elem?-set_self buf j v (ground arith)))
  | inr e ↦ rw e Each.each_none
]

module _ (size : ℕ → ℕ) where
  abbrev is_ret : ℕ → Bool
  is_ret opcode = opcode == number Opcode.code_ret

  pub jump_to_ret-Rewrites :
      (j at high : ℕ) (l : Loader)
      → get_elem? l.buf j ≡ some (number Opcode.code_jump)
      → j < high
      → Each (Rewrites Opcode.code_jump j high l) (jump_to_ret size j at l)
  unfolding jump_to_ret inst_bytes
  jump_to_ret-Rewrites j at high l e h = then_any (place at 4) _ λ i.
      then_any (read_at 4 i l.buf) _ λ x. then_any (get_elem? l.table x) _ λ start.
        then_any (get_elem? l.buf start) _ λ opcode. elim (Bool-cases (is_ret opcode)) [
          | inr no_ret ↦ rw no_ret (
              Each.each_some (
                keeping Opcode.code_jump j high l l e
                  (record { buf = Within-refl (j + 1) high l.buf; table = refl })))
          | inl ret ↦
              let same : opcode ≡ number Opcode.code_ret = (==_iff opcode 6).0 ret in
              rw ret (
                Each-bind (set_byte j opcode l.buf) _
                  (Each-both (set_byte-Within j high j opcode l.buf (omega arith) h)
                    (set_byte-at j opcode l.buf))
                  λ buf (w, put). Each.each_some (record {
                    op' = Opcode.code_ret;
                    same_size = refl;
                    opcode = put ∙ ap some same;
                    changes = record { buf = w; table = refl };
                  }))
        ]

  relocate_jump-Rewrites :
      (j at : ℕ) (l : Loader)
      → get_elem? l.buf j ≡ some (number Opcode.code_jump)
      → j + 5 ≤ at
      → Each (Rewrites Opcode.code_jump j at l) (relocate_jump size j at l)
  unfolding relocate_jump
  relocate_jump-Rewrites j at l e h = elim (Bool-cases (same_size size)) [
    | inl same ↦ rw same (
        Each-bind (jump_to_ret size j at l) _ (jump_to_ret-Rewrites j at at l e (omega arith))
          λ l1 r.
            Each-map (relocate_addr-Changes (j + 1) at at 4 l1 (omega arith) (omega arith))
              λ l2 c. Rewrites-trans r c)
    | inr other ↦ rw other (
        Each-map (relocate_addr-Changes (j + 1) at at 4 l (omega arith) (omega arith))
          λ l1 c. keeping Opcode.code_jump j at l l1 e c)
  ]

  relocate_call-Changes :
      (low at : ℕ) (l : Loader) → low + 8 ≤ at → Each (Changes low at l) (relocate_call size at l)
  unfolding relocate_call
  relocate_call-Changes low at l h =
      Each-bind (relocate_addr at 8 l) _ (relocate_addr-Changes low at at 8 l h (omega arith))
        λ l1 p.
          Each-map (relocate_addr-Changes low at at 4 l1 (omega arith) (omega arith))
            λ l2 q. Changes-trans p q

  -- Only constants change.
  untouched :
      (low at : ℕ) (l l' : Loader) → l'.buf ≡ l.buf → l'.table ≡ l.table → Changes low at l l'
  untouched low at l l' b t = record { buf = rw b (Within-refl low at l.buf); table = t }

  relocate_first-Changes :
      (low at : ℕ) (l : Loader) → Each (Changes low at l) (relocate_first size at l)
  unfolding relocate_first
  relocate_first-Changes low at l = then_any (place at 2) _ λ i.
      then_any (read_at 2 i l.buf) _ λ id.
        then_any
          (for_entries (displacement l.table at) jmptable_size (jmptable_size * id) l.consts.jumps)
          _ λ jumps. Each.each_some (untouched low at l _ refl refl)

  relocate_table1-Changes :
      (low at : ℕ) (l : Loader) → Each (Changes low at l) (relocate_table1 size at l)
  unfolding relocate_table1
  relocate_table1-Changes low at l = then_any (place at 2) _ λ i.
      then_any (read_at 2 i l.buf) _ λ id. then_any (get_elem? l.consts.jumps1 id) _ λ t.
        then_any (for_entries (short_jump l.table at) 2 0 t.jumps) _
          λ jumps. Each.each_some (untouched low at l _ refl refl)

  relocate_table2-Changes :
      (low at : ℕ) (l : Loader) → Each (Changes low at l) (relocate_table2 size at l)
  unfolding relocate_table2
  relocate_table2-Changes low at l = then_any (place at 2) _ λ i.
      then_any (read_at 2 i l.buf) _ λ id. then_any (get_elem? l.consts.jumps2 id) _ λ t.
        then_any (for_entries (short_jump l.table at) 4 0 t.jumps) _
          λ jumps. Each.each_some (untouched low at l _ refl refl)

  relocate_table3-Changes :
      (low at : ℕ) (l : Loader) → Each (Changes low at l) (relocate_table3 size at l)
  unfolding relocate_table3
  relocate_table3-Changes low at l = then_any (place at 2) _ λ i.
      then_any (read_at 2 i l.buf) _ λ id. then_any (get_elem? l.consts.jumps3 id) _ λ t.
        then_any (for_entries (short_jump l.table at) 8 0 t.jumps) _
          λ jumps. Each.each_some (untouched low at l _ refl refl)

  kept_whole :
      (op : Opcode) (j at : ℕ) (l : Loader)
      → get_elem? l.buf j ≡ some (number op)
      → Each (Rewrites op j at l) (some l)
  kept_whole op j at l e =
      Each.each_some (keeping op j at l l e (untouched (j + 1) at l l refl refl))

  pub relocate_case-Rewrites :
      (op : Opcode) (j at : ℕ) (l : Loader)
      → get_elem? l.buf j ≡ some (number op)
      → j + inst_bytes op ≤ at
      → Each (Rewrites op j at l) (relocate_case size (some op) j at l)
  unfolding relocate_case inst_bytes
  relocate_case-Rewrites Opcode.code_nop j at l e h = kept_whole Opcode.code_nop j at l e
  relocate_case-Rewrites Opcode.code_fail j at l e h = kept_whole Opcode.code_fail j at l e
  relocate_case-Rewrites Opcode.code_alt j at l e h =
      Each-map (relocate_addr-Changes (j + 1) at at 4 l (omega arith) (omega arith))
        (λ l1 c. keeping Opcode.code_alt j at l l1 e c)
  relocate_case-Rewrites Opcode.code_succ j at l e h = kept_whole Opcode.code_succ j at l e
  relocate_case-Rewrites Opcode.code_jump j at l e h = relocate_jump-Rewrites j at l e h
  relocate_case-Rewrites Opcode.code_call j at l e h =
      Each-map (relocate_call-Changes (j + 1) at l (omega arith))
        (λ l1 c. keeping Opcode.code_call j at l l1 e c)
  relocate_case-Rewrites Opcode.code_ret j at l e h = kept_whole Opcode.code_ret j at l e
  relocate_case-Rewrites Opcode.code_pos j at l e h = kept_whole Opcode.code_pos j at l e
  relocate_case-Rewrites Opcode.code_back j at l e h = kept_whole Opcode.code_back j at l e
  relocate_case-Rewrites Opcode.code_skip j at l e h = kept_whole Opcode.code_skip j at l e
  relocate_case-Rewrites Opcode.code_byte j at l e h = kept_whole Opcode.code_byte j at l e
  relocate_case-Rewrites Opcode.code_any j at l e h = kept_whole Opcode.code_any j at l e
  relocate_case-Rewrites Opcode.code_str j at l e h = kept_whole Opcode.code_str j at l e
  relocate_case-Rewrites Opcode.code_set j at l e h = kept_whole Opcode.code_set j at l e
  relocate_case-Rewrites Opcode.code_nbyte j at l e h = kept_whole Opcode.code_nbyte j at l e
  relocate_case-Rewrites Opcode.code_nany j at l e h = kept_whole Opcode.code_nany j at l e
  relocate_case-Rewrites Opcode.code_nstr j at l e h = kept_whole Opcode.code_nstr j at l e
  relocate_case-Rewrites Opcode.code_nset j at l e h = kept_whole Opcode.code_nset j at l e
  relocate_case-Rewrites Opcode.code_obyte j at l e h = kept_whole Opcode.code_obyte j at l e
  relocate_case-Rewrites Opcode.code_oany j at l e h = kept_whole Opcode.code_oany j at l e
  relocate_case-Rewrites Opcode.code_ostr j at l e h = kept_whole Opcode.code_ostr j at l e
  relocate_case-Rewrites Opcode.code_oset j at l e h = kept_whole Opcode.code_oset j at l e
  relocate_case-Rewrites Opcode.code_rbyte j at l e h = kept_whole Opcode.code_rbyte j at l e
  relocate_case-Rewrites Opcode.code_rany j at l e h = kept_whole Opcode.code_rany j at l e
  relocate_case-Rewrites Opcode.code_rstr j at l e h = kept_whole Opcode.code_rstr j at l e
  relocate_case-Rewrites Opcode.code_rset j at l e h = kept_whole Opcode.code_rset j at l e
  relocate_case-Rewrites Opcode.code_consume j at l e h = kept_whole Opcode.code_consume j at l e
  relocate_case-Rewrites Opcode.code_first j at l e h =
      Each-map (relocate_first-Changes (j + 1) at l)
        (λ l1 c. keeping Opcode.code_first j at l l1 e c)
  relocate_case-Rewrites Opcode.code_lookup j at l e h =
      Each-map (relocate_addr-Changes (j + 1) at at 4 l (omega arith) (omega arith))
        (λ l1 c. keeping Opcode.code_lookup j at l l1 e c)
  relocate_case-Rewrites Opcode.code_memo j at l e h = kept_whole Opcode.code_memo j at l e
  relocate_case-Rewrites Opcode.code_memo_fail j at l e h =
      kept_whole Opcode.code_memo_fail j at l e
  relocate_case-Rewrites Opcode.code_tpush j at l e h = kept_whole Opcode.code_tpush j at l e
  relocate_case-Rewrites Opcode.code_tpop j at l e h = kept_whole Opcode.code_tpop j at l e
  relocate_case-Rewrites Opcode.code_tleft_fold j at l e h =
      kept_whole Opcode.code_tleft_fold j at l e
  relocate_case-Rewrites Opcode.code_tnew j at l e h = kept_whole Opcode.code_tnew j at l e
  relocate_case-Rewrites Opcode.code_tcapture j at l e h = kept_whole Opcode.code_tcapture j at l e
  relocate_case-Rewrites Opcode.code_ttag j at l e h = kept_whole Opcode.code_ttag j at l e
  relocate_case-Rewrites Opcode.code_treplace j at l e h = kept_whole Opcode.code_treplace j at l e
  relocate_case-Rewrites Opcode.code_tstart j at l e h = kept_whole Opcode.code_tstart j at l e
  relocate_case-Rewrites Opcode.code_tcommit j at l e h = kept_whole Opcode.code_tcommit j at l e
  relocate_case-Rewrites Opcode.code_tabort j at l e h = kept_whole Opcode.code_tabort j at l e
  relocate_case-Rewrites Opcode.code_tlookup j at l e h =
      Each-map (relocate_addr-Changes (j + 1) at at 4 l (omega arith) (omega arith))
        (λ l1 c. keeping Opcode.code_tlookup j at l l1 e c)
  relocate_case-Rewrites Opcode.code_tmemo j at l e h = kept_whole Opcode.code_tmemo j at l e
  relocate_case-Rewrites Opcode.code_sopen j at l e h = kept_whole Opcode.code_sopen j at l e
  relocate_case-Rewrites Opcode.code_sclose j at l e h = kept_whole Opcode.code_sclose j at l e
  relocate_case-Rewrites Opcode.code_smask j at l e h = kept_whole Opcode.code_smask j at l e
  relocate_case-Rewrites Opcode.code_sdef j at l e h = kept_whole Opcode.code_sdef j at l e
  relocate_case-Rewrites Opcode.code_sis_def j at l e h = kept_whole Opcode.code_sis_def j at l e
  relocate_case-Rewrites Opcode.code_sexists j at l e h = kept_whole Opcode.code_sexists j at l e
  relocate_case-Rewrites Opcode.code_smatch j at l e h = kept_whole Opcode.code_smatch j at l e
  relocate_case-Rewrites Opcode.code_sis j at l e h = kept_whole Opcode.code_sis j at l e
  relocate_case-Rewrites Opcode.code_sisa j at l e h = kept_whole Opcode.code_sisa j at l e
  relocate_case-Rewrites Opcode.code_sdef_num j at l e h = kept_whole Opcode.code_sdef_num j at l e
  relocate_case-Rewrites Opcode.code_scount j at l e h = kept_whole Opcode.code_scount j at l e
  relocate_case-Rewrites Opcode.code_exit j at l e h = kept_whole Opcode.code_exit j at l e
  relocate_case-Rewrites Opcode.code_tbl_jump1 j at l e h =
      Each-map (relocate_table1-Changes (j + 1) at l)
        (λ l1 c. keeping Opcode.code_tbl_jump1 j at l l1 e c)
  relocate_case-Rewrites Opcode.code_tbl_jump2 j at l e h =
      Each-map (relocate_table2-Changes (j + 1) at l)
        (λ l1 c. keeping Opcode.code_tbl_jump2 j at l l1 e c)
  relocate_case-Rewrites Opcode.code_tbl_jump3 j at l e h =
      Each-map (relocate_table3-Changes (j + 1) at l)
        (λ l1 c. keeping Opcode.code_tbl_jump3 j at l l1 e c)
  relocate_case-Rewrites Opcode.code_label j at l e h = kept_whole Opcode.code_label j at l e
