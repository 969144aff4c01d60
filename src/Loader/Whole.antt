-- ===== src/Loader/Whole.antt =====
-- src/loader.c: the code of mozvm_loader_load_inst, for the optimising loader.
use Prim.Native.Nat.{bit_and}
use moz.Base.{
  ℕ, zero, suc, ◌+◌, ◌%◌, ◌^◌, ◌-◌, ◌<◌, Bool, true, false, not, ◌&&◌, leb, ◌==◌, if◌then◌else◌,
  some, List, [], ◌++◌, ◌≡◌, refl, sym, ◌∙◌, ◌>>=◌, Bool-cases, inl, inr, length, get_elem?, arith,
}
use mathlib.Core.List.{append-nil}
use moz.Core.Buffer.{stored}
use moz.Core.Jmptbl.{jump_table1_init, jump_table2_init, jump_table3_init}
use moz.Loader.{InputStream, Loader, mozvm_loader_write_opcode, read16, read24, read8, skip}
use moz.Loader.Opcode.{Opcode, number, opcode_of}
use moz.Loader.Layout.{IsWhole, IsWhole-append, inst_bytes, is_file_op}
use moz.Loader.Emits.{
  Appends, Appends-refl, Appends-trans, Each, Each-bind, Each-map, Follows, Follows-trans,
  read16-Reads, read24-Reads, then_any, write16-Appends, write_opcode-Appends,
}
use moz.Loader.First.{
  alloc_jump_table, alloc_jump_table1, alloc_jump_table2, alloc_jump_table3, build_table,
  load_first, load_table, load_table1, load_table2, load_table3, padded, read_entries, write_table,
}
use moz.Loader.Inst.{
  load_case, load_jump, load_known, load_operands, mozvm_loader_load_inst, own_jump, skipped,
}
use moz.Loader.Size.{Loads, inst_bytes-pos, load_addr-Emits, load_operands-Emits, one_inst}

-- A loader with whole instructions behind the buffer.
record Codes (l l' : Loader) : Type 0 where
  code : List ℕ
  whole : IsWhole code
  appended : Appends code l l'

write_table-Codes :
    (op : Opcode) (id : ℕ) (l l1 : Loader)
    → 3 ≡ inst_bytes op
    → Appends [] l l1
    → Codes l (write_table op id l1)
unfolding write_table stored
write_table-Codes op id l l1 size same = record {
  code = stored 1 (number op) ++ stored 2 id;
  whole = one_inst op (stored 2 id) 2 size refl;
  appended =
      Appends-trans same
        (Appends-trans (write_opcode-Appends (number op) l1) (write16-Appends id _));
}

same-buffer :
    (l : Loader) {l1 : Loader}
    → l1.buf ≡ l.buf
    → l1.table ≡ l.table
    → l1.room ≡ l.room
    → Appends [] l l1
same-buffer l a b c = record { buf = a ∙ sym (append-nil l.buf); table = b; room = c }

build_table-Codes :
    (target table : List ℕ) (l : Loader) → Each (Codes l) (build_table true target table l)
unfolding build_table load_table load_table1 load_table2 load_table3 inst_bytes
build_table-Codes target table l = elim (Bool-cases (leb (length target) 1)) [
  | inl a ↦ rw a (
      then_any (jump_table1_init (padded 2 target) table) _ λ t.
        then_any (alloc_jump_table1 (l.jmptbl1_id % 2 ^ 16) t l.consts) _ λ consts.
          Each.each_some
            (write_table-Codes Opcode.code_tbl_jump1 _ l _ refl (same-buffer l refl refl refl)))
  | inr a ↦ elim (Bool-cases (leb (length target) 4)) [
    | inl b ↦
        rw (a, b)
          (then_any (jump_table2_init (padded 4 target) table) _ λ t.
            then_any (alloc_jump_table2 (l.jmptbl2_id % 2 ^ 16) t l.consts) _ λ consts.
              Each.each_some
                (write_table-Codes Opcode.code_tbl_jump2 _ l _ refl (same-buffer l refl refl refl)))
    | inr b ↦ elim (Bool-cases (leb (length target) 8)) [
      | inl c ↦
          rw (a, b, c)
            (then_any (jump_table3_init (padded 8 target) table) _ λ t.
              then_any (alloc_jump_table3 (l.jmptbl3_id % 2 ^ 16) t l.consts) _ λ consts.
                Each.each_some (
                  write_table-Codes Opcode.code_tbl_jump3 _ l _ refl
                    (same-buffer l refl refl refl)))
      | inr c ↦
          rw (a, b, c)
            (then_any (alloc_jump_table (l.jmptbl_id % 2 ^ 16) table l.consts) _ λ consts.
              Each.each_some
                (write_table-Codes Opcode.code_first _ l _ refl (same-buffer l refl refl refl)))
    ]
  ]
]

-- The stream behind the entries of a table.
read_entries-Follows :
    (n : ℕ) (target : List ℕ) (is : InputStream)
    → Each (λ r. (m : ℕ) × Follows m is (r.2)) (read_entries n target is)
unfolding read_entries
read_entries-Follows zero target is =
    Each.each_some (0, record { place = omega arith; same_end = refl; same_bytes = refl })
read_entries-Follows (suc n) target is = Each-bind (read24 is) _ (read24-Reads is) λ (v, is1) f.
    Each-bind (read_entries n _ is1) _ (read_entries-Follows n _ is1)
      λ (target, table, is2) (m, g). Each.each_some (3 + m, Follows-trans f g)

load_first-Loads :
    (l : Loader) (is : InputStream) → Each (λ r. Loads l is (r.0) (r.1)) (load_first true l is)
unfolding load_first
load_first-Loads l is =
    Each-bind (read_entries 257 [] is) _ (read_entries-Follows 257 [] is)
      λ (target, table, is1) (m, f).
        Each-bind (build_table true target table l) _ (build_table-Codes target table l) λ l1 c.
          Each.each_some (record {
            code = c.code;
            whole = c.whole;
            appended = c.appended;
            read = m;
            follows = f;
          })

-- The loader and the stream of a result with the number of a production.
abbrev pub Loaded : Loader → InputStream → ℕ × Loader × InputStream → Type 0
Loaded l is (prod, l', is') = Loads l is l' is'

no_code : (l : Loader) {m : ℕ} {is is' : InputStream} → Follows m is is' → Loads l is l is'
no_code l {m} f = record {
  code = [];
  whole = IsWhole.whole_nil;
  appended = Appends-refl l;
  read = m;
  follows = f;
}

Loads-trans : {a b c : Loader} {x y z : InputStream} → Loads a x b y → Loads b y c z → Loads a x c z
Loads-trans p q = record {
  code = p.code ++ q.code;
  whole = IsWhole-append p.code q.code p.whole q.whole;
  appended = Appends-trans p.appended q.appended;
  read = p.read + q.read;
  follows = Follows-trans p.follows q.follows;
}

plain-Loads :
    (op : Opcode) (l : Loader) (is : InputStream)
    → (number op == 27) ≡ false
    → is_file_op op ≡ true
    → Each (Loaded l is) (
        load_operands true op (mozvm_loader_write_opcode (number op) l) is >>= λ (l, is).
        some (0, l, is))
plain-Loads op l is other file =
    Each-bind (load_operands true op (mozvm_loader_write_opcode (number op) l) is) _
      (load_operands-Emits op (mozvm_loader_write_opcode (number op) l) is other file)
      λ (l1, is1) e. Each.each_some (record {
        code = stored 1 (number op) ++ e.code;
        whole = one_inst op e.code (inst_bytes op - 1) (inst_bytes-pos op) e.size;
        appended = Appends-trans (write_opcode-Appends (number op) l) e.appended;
        read = e.read;
        follows = e.follows;
      })

here : (is : InputStream) → Follows 0 is is
here is = record { place = omega arith; same_end = refl; same_bytes = refl }

-- The opcode, where it is written, and its case.
load_case-Loads :
    (op : Opcode) (l : Loader) (is : InputStream)
    → is_file_op op ≡ true
    → Each
        (Loaded l is)
        (load_case true op (if skipped op then l else mozvm_loader_write_opcode (number op) l) is)
unfolding load_case load_operands
load_case-Loads Opcode.code_nop l is h = Each.each_some (no_code l (here is))
load_case-Loads Opcode.code_fail l is h = plain-Loads Opcode.code_fail l is refl h
load_case-Loads Opcode.code_alt l is h = plain-Loads Opcode.code_alt l is refl h
load_case-Loads Opcode.code_succ l is h = plain-Loads Opcode.code_succ l is refl h
load_case-Loads Opcode.code_jump l is h = plain-Loads Opcode.code_jump l is refl h
load_case-Loads Opcode.code_call l is h = plain-Loads Opcode.code_call l is refl h
load_case-Loads Opcode.code_ret l is h = plain-Loads Opcode.code_ret l is refl h
load_case-Loads Opcode.code_pos l is h = plain-Loads Opcode.code_pos l is refl h
load_case-Loads Opcode.code_back l is h = plain-Loads Opcode.code_back l is refl h
load_case-Loads Opcode.code_skip l is h = plain-Loads Opcode.code_skip l is refl h
load_case-Loads Opcode.code_byte l is h = plain-Loads Opcode.code_byte l is refl h
load_case-Loads Opcode.code_any l is h = plain-Loads Opcode.code_any l is refl h
load_case-Loads Opcode.code_str l is h = plain-Loads Opcode.code_str l is refl h
load_case-Loads Opcode.code_set l is h = plain-Loads Opcode.code_set l is refl h
load_case-Loads Opcode.code_nbyte l is h = plain-Loads Opcode.code_nbyte l is refl h
load_case-Loads Opcode.code_nany l is h = plain-Loads Opcode.code_nany l is refl h
load_case-Loads Opcode.code_nstr l is h = plain-Loads Opcode.code_nstr l is refl h
load_case-Loads Opcode.code_nset l is h = plain-Loads Opcode.code_nset l is refl h
load_case-Loads Opcode.code_obyte l is h = plain-Loads Opcode.code_obyte l is refl h
load_case-Loads Opcode.code_oany l is h = plain-Loads Opcode.code_oany l is refl h
load_case-Loads Opcode.code_ostr l is h = plain-Loads Opcode.code_ostr l is refl h
load_case-Loads Opcode.code_oset l is h = plain-Loads Opcode.code_oset l is refl h
load_case-Loads Opcode.code_rbyte l is h = plain-Loads Opcode.code_rbyte l is refl h
load_case-Loads Opcode.code_rany l is h = plain-Loads Opcode.code_rany l is refl h
load_case-Loads Opcode.code_rstr l is h = plain-Loads Opcode.code_rstr l is refl h
load_case-Loads Opcode.code_rset l is h = plain-Loads Opcode.code_rset l is refl h
load_case-Loads Opcode.code_consume l is h = plain-Loads Opcode.code_consume l is refl h
load_case-Loads Opcode.code_first l is h =
    Each-bind (load_first true l is) _ (load_first-Loads l is) (λ (l1, is1) e. Each.each_some e)
load_case-Loads Opcode.code_lookup l is h = plain-Loads Opcode.code_lookup l is refl h
load_case-Loads Opcode.code_memo l is h = plain-Loads Opcode.code_memo l is refl h
load_case-Loads Opcode.code_memo_fail l is h = plain-Loads Opcode.code_memo_fail l is refl h
load_case-Loads Opcode.code_tpush l is h = plain-Loads Opcode.code_tpush l is refl h
load_case-Loads Opcode.code_tpop l is h = plain-Loads Opcode.code_tpop l is refl h
load_case-Loads Opcode.code_tleft_fold l is h = plain-Loads Opcode.code_tleft_fold l is refl h
load_case-Loads Opcode.code_tnew l is h = plain-Loads Opcode.code_tnew l is refl h
load_case-Loads Opcode.code_tcapture l is h = plain-Loads Opcode.code_tcapture l is refl h
load_case-Loads Opcode.code_ttag l is h = plain-Loads Opcode.code_ttag l is refl h
load_case-Loads Opcode.code_treplace l is h = plain-Loads Opcode.code_treplace l is refl h
load_case-Loads Opcode.code_tstart l is h = plain-Loads Opcode.code_tstart l is refl h
load_case-Loads Opcode.code_tcommit l is h = plain-Loads Opcode.code_tcommit l is refl h
load_case-Loads Opcode.code_tabort l is h = plain-Loads Opcode.code_tabort l is refl h
load_case-Loads Opcode.code_tlookup l is h = plain-Loads Opcode.code_tlookup l is refl h
load_case-Loads Opcode.code_tmemo l is h = plain-Loads Opcode.code_tmemo l is refl h
load_case-Loads Opcode.code_sopen l is h = plain-Loads Opcode.code_sopen l is refl h
load_case-Loads Opcode.code_sclose l is h = plain-Loads Opcode.code_sclose l is refl h
load_case-Loads Opcode.code_smask l is h = plain-Loads Opcode.code_smask l is refl h
load_case-Loads Opcode.code_sdef l is h = plain-Loads Opcode.code_sdef l is refl h
load_case-Loads Opcode.code_sis_def l is h = plain-Loads Opcode.code_sis_def l is refl h
load_case-Loads Opcode.code_sexists l is h = plain-Loads Opcode.code_sexists l is refl h
load_case-Loads Opcode.code_smatch l is h = plain-Loads Opcode.code_smatch l is refl h
load_case-Loads Opcode.code_sis l is h = plain-Loads Opcode.code_sis l is refl h
load_case-Loads Opcode.code_sisa l is h = plain-Loads Opcode.code_sisa l is refl h
load_case-Loads Opcode.code_sdef_num l is h = plain-Loads Opcode.code_sdef_num l is refl h
load_case-Loads Opcode.code_scount l is h = plain-Loads Opcode.code_scount l is refl h
load_case-Loads Opcode.code_exit l is h = plain-Loads Opcode.code_exit l is refl h
load_case-Loads Opcode.code_tbl_jump1 l is h = absurd cc
load_case-Loads Opcode.code_tbl_jump2 l is h = absurd cc
load_case-Loads Opcode.code_tbl_jump3 l is h = absurd cc
load_case-Loads Opcode.code_label l is h =
    Each-bind (read16 is) _ (read16-Reads is) (λ (label, is1) f. Each.each_some (no_code l f))

load_jump-Loads :
    (has_jump : Bool) (l : Loader) (is : InputStream)
    → Each (λ r. Loads l is (r.0) (r.1)) (load_jump has_jump l is)
unfolding load_jump inst_bytes
load_jump-Loads false l is = Each.each_some (no_code l (here is))
load_jump-Loads true l is =
    Each-map (load_addr-Emits (mozvm_loader_write_opcode (number Opcode.code_jump) l) is)
      λ (l1, is1) e. record {
        code = stored 1 (number Opcode.code_jump) ++ e.code;
        whole = one_inst Opcode.code_jump e.code 4 refl e.size;
        appended = Appends-trans (write_opcode-Appends (number Opcode.code_jump) l) e.appended;
        read = e.read;
        follows = e.follows;
      }

load_known-Loads :
    (has_jump : Bool) (op : Opcode) (l : Loader) (is : InputStream)
    → is_file_op op ≡ true
    → Each (Loaded l is) (load_known true has_jump op l is)
unfolding load_known
load_known-Loads has_jump op l is h =
    let l0 : Loader = if skipped op then l else mozvm_loader_write_opcode (number op) l in
    Each-bind (load_case true op l0 is) _ (load_case-Loads op l is h) λ (prod, l1, is1) a.
      Each-bind (load_jump (has_jump && not (own_jump op)) l1 is1) _ (load_jump-Loads _ l1 is1)
        λ (l2, is2) b. Each.each_some (Loads-trans a b)

abbrev pub LoadedOn : Loader → InputStream → ℕ × Loader × InputStream → Type 0
LoadedOn l is (prod, l', is') = Loads l is l' is' × (is.pos < is'.pos)

-- A byte that is read gives an opcode of a file.
abbrev pub IsFileByte : ℕ → Type 0
IsFileByte byte = (op : Opcode) × (opcode_of (bit_and byte 127) ≡ some op) × (is_file_op op ≡ true)

-- Whenever the optimising loader loads an instruction of a file, it appends whole instructions to
-- the buffer, keeps the table of instructions, and reads on in the same stream, by a byte at least.
pub mozvm_loader_load_inst-IsWhole :
    (l : Loader) (is : InputStream) (byte : ℕ)
    → get_elem? is.bytes is.pos ≡ some byte
    → IsFileByte byte
    → Each (LoadedOn l is) (mozvm_loader_load_inst true l is)
unfolding mozvm_loader_load_inst read8 skip
mozvm_loader_load_inst-IsWhole l is byte e (op, known, file) =
    rw (e, known)
      (Each-map (load_known-Loads (not (bit_and byte 128 == 0)) op l (skip is 1) file) λ _ r. (
        Loads-trans (no_code l (record { place = refl; same_end = refl; same_bytes = refl })) r,
        omega (arith, r.follows.place),
      ))
