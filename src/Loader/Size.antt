-- ===== src/Loader/Size.antt =====
-- src/loader.c: the size of the code that mozvm_loader_load_inst writes.
use moz.Base.{ℕ, suc, ◌%◌, true, false, List, [], ◌++◌, ◌≡◌, ◌==◌, ◌-◌, refl, length}
use moz.Core.Buffer.{stored}
use mathlib.Core.List.{append-nil}
use moz.Loader.{InputStream, Loader}
use moz.Loader.Opcode.{Opcode, number}
use moz.Loader.Layout.{inst_bytes, is_file_op, IsWhole}
use moz.Loader.Emits.{
  Appends, Appends-refl, Appends-trans, Each, Emits, emits, Follows, read16-Reads, read24-Reads,
  read32-Reads, read8-Reads, then_checked, then_read, write16-Appends, write8-Appends,
  write_addr-Appends, write_id-Appends,
}
use moz.Loader.Inst.{
  load_addr, load_byte, load_call, load_id, load_lookup, load_memo, load_operands, load_sis_def,
  load_tleft_fold, load_tlookup,
}

load_byte-Emits : (l : Loader) (is : InputStream) → Each (Emits 1 l is) (load_byte l is)
unfolding load_byte stored
load_byte-Emits l is =
    then_read (read8-Reads is) _ λ ch is1. Each.each_some (emits (write8-Appends ch l) is1)

pub load_addr-Emits : (l : Loader) (is : InputStream) → Each (Emits 4 l is) (load_addr l is)
unfolding load_addr stored
load_addr-Emits l is =
    then_read (read24-Reads is) _ λ addr is1. Each.each_some (emits (write_addr-Appends addr l) is1)

load_id-Emits {ℓ} :
    {A : Type ℓ} (entries : List A) (l : Loader) (is : InputStream)
    → Each (Emits 2 l is) (load_id entries l is)
unfolding load_id stored
load_id-Emits entries l is =
    then_read (read16-Reads is) _
      λ id is1. then_checked id entries l _ (Each.each_some (emits (write_id-Appends id l) is1))

load_call-Emits : (l : Loader) (is : InputStream) → Each (Emits 8 l is) (load_call l is)
unfolding load_call stored
load_call-Emits l is = then_read (read24-Reads is) _ λ next is1.
    then_read (read16-Reads is1) _ λ prod is2. then_read (read24-Reads is2) _ λ jump is3.
      Each.each_some
        (emits (Appends-trans (write_addr-Appends next l) (write_addr-Appends jump _)) is3)

load_memo-Emits : (l : Loader) (is : InputStream) → Each (Emits 3 l is) (load_memo l is)
unfolding load_memo stored
load_memo-Emits l is = then_read (read8-Reads is) _ λ state is1.
    then_read (read32-Reads is1) _ λ memo_id is2.
      Each.each_some
        (emits (Appends-trans (write8-Appends state l) (write16-Appends memo_id _)) is2)

load_lookup-Emits : (l : Loader) (is : InputStream) → Each (Emits 7 l is) (load_lookup l is)
unfolding load_lookup stored
load_lookup-Emits l is = then_read (read8-Reads is) _ λ state is1.
    then_read (read32-Reads is1) _ λ memo_id is2. then_read (read24-Reads is2) _ λ skip is3.
      Each.each_some (
        emits
          (Appends-trans (Appends-trans (write8-Appends state l) (write16-Appends memo_id _))
            (write_addr-Appends skip _))
          is3)

load_tlookup-Emits : (l : Loader) (is : InputStream) → Each (Emits 9 l is) (load_tlookup l is)
unfolding load_tlookup stored
load_tlookup-Emits l is = then_read (read8-Reads is) _ λ state is1.
    then_read (read32-Reads is1) _ λ memo_id is2. then_read (read24-Reads is2) _ λ skip is3.
      then_read (read16-Reads is3) _ λ tag_id is4. then_checked tag_id l.consts.tags l _ (
        Each.each_some (
          emits
            (Appends-trans
              (Appends-trans (Appends-trans (write8-Appends state l) (write_id-Appends tag_id _))
                (write16-Appends memo_id _))
              (write_addr-Appends skip _))
            is4))

load_tleft_fold-Emits : (l : Loader) (is : InputStream) → Each (Emits 3 l is) (load_tleft_fold l is)
unfolding load_tleft_fold stored
load_tleft_fold-Emits l is = then_read (read8-Reads is) _ λ shift is1.
    then_read (read16-Reads is1) _ λ tag_id is2. then_checked tag_id l.consts.tags l _ (
      Each.each_some
        (emits (Appends-trans (write8-Appends shift l) (write_id-Appends tag_id _)) is2))

load_sis_def-Emits : (l : Loader) (is : InputStream) → Each (Emits 4 l is) (load_sis_def l is)
unfolding load_sis_def stored
load_sis_def-Emits l is = then_read (read16-Reads is) _ λ tbl_id is1.
    then_read (read16-Reads is1) _ λ str_id is2. then_checked tbl_id l.consts.tables l _ (
      then_checked str_id l.consts.strs l _ (
        Each.each_some
          (emits (Appends-trans (write_id-Appends tbl_id l) (write_id-Appends str_id _)) is2)))

pub load_operands-Emits :
    (op : Opcode) (l : Loader) (is : InputStream)
    → (number op == 27) ≡ false
    → is_file_op op ≡ true
    → Each (Emits (inst_bytes op - 1) l is) (load_operands true op l is)
unfolding load_operands inst_bytes stored
load_operands-Emits Opcode.code_nop l is h w = Each.each_some (emits (Appends-refl l) is)
load_operands-Emits Opcode.code_fail l is h w = Each.each_some (emits (Appends-refl l) is)
load_operands-Emits Opcode.code_alt l is h w = load_addr-Emits l is
load_operands-Emits Opcode.code_succ l is h w = Each.each_some (emits (Appends-refl l) is)
load_operands-Emits Opcode.code_jump l is h w = load_addr-Emits l is
load_operands-Emits Opcode.code_call l is h w = load_call-Emits l is
load_operands-Emits Opcode.code_ret l is h w = Each.each_some (emits (write_addr-Appends 0 l) is)
load_operands-Emits Opcode.code_pos l is h w = Each.each_some (emits (Appends-refl l) is)
load_operands-Emits Opcode.code_back l is h w = Each.each_some (emits (Appends-refl l) is)
load_operands-Emits Opcode.code_skip l is h w = Each.each_some (emits (Appends-refl l) is)
load_operands-Emits Opcode.code_byte l is h w = load_byte-Emits l is
load_operands-Emits Opcode.code_any l is h w = Each.each_some (emits (Appends-refl l) is)
load_operands-Emits Opcode.code_str l is h w = load_id-Emits l.consts.strs l is
load_operands-Emits Opcode.code_set l is h w = load_id-Emits l.consts.sets l is
load_operands-Emits Opcode.code_nbyte l is h w = load_byte-Emits l is
load_operands-Emits Opcode.code_nany l is h w = Each.each_some (emits (Appends-refl l) is)
load_operands-Emits Opcode.code_nstr l is h w = load_id-Emits l.consts.strs l is
load_operands-Emits Opcode.code_nset l is h w = load_id-Emits l.consts.sets l is
load_operands-Emits Opcode.code_obyte l is h w = load_byte-Emits l is
load_operands-Emits Opcode.code_oany l is h w = Each.each_some (emits (Appends-refl l) is)
load_operands-Emits Opcode.code_ostr l is h w = load_id-Emits l.consts.strs l is
load_operands-Emits Opcode.code_oset l is h w = load_id-Emits l.consts.sets l is
load_operands-Emits Opcode.code_rbyte l is h w = load_byte-Emits l is
load_operands-Emits Opcode.code_rany l is h w = Each.each_some (emits (Appends-refl l) is)
load_operands-Emits Opcode.code_rstr l is h w = load_id-Emits l.consts.strs l is
load_operands-Emits Opcode.code_rset l is h w = load_id-Emits l.consts.sets l is
load_operands-Emits Opcode.code_consume l is h w = load_byte-Emits l is
load_operands-Emits Opcode.code_first l is h w = absurd cc
load_operands-Emits Opcode.code_lookup l is h w = load_lookup-Emits l is
load_operands-Emits Opcode.code_memo l is h w = load_memo-Emits l is
load_operands-Emits Opcode.code_memo_fail l is h w = load_memo-Emits l is
load_operands-Emits Opcode.code_tpush l is h w = Each.each_some (emits (Appends-refl l) is)
load_operands-Emits Opcode.code_tpop l is h w = load_id-Emits l.consts.tags l is
load_operands-Emits Opcode.code_tleft_fold l is h w = load_tleft_fold-Emits l is
load_operands-Emits Opcode.code_tnew l is h w = load_byte-Emits l is
load_operands-Emits Opcode.code_tcapture l is h w = load_byte-Emits l is
load_operands-Emits Opcode.code_ttag l is h w = load_id-Emits l.consts.tags l is
load_operands-Emits Opcode.code_treplace l is h w = load_id-Emits l.consts.strs l is
load_operands-Emits Opcode.code_tstart l is h w = Each.each_some (emits (Appends-refl l) is)
load_operands-Emits Opcode.code_tcommit l is h w = load_id-Emits l.consts.tags l is
load_operands-Emits Opcode.code_tabort l is h w = Each.each_none
load_operands-Emits Opcode.code_tlookup l is h w = load_tlookup-Emits l is
load_operands-Emits Opcode.code_tmemo l is h w = load_memo-Emits l is
load_operands-Emits Opcode.code_sopen l is h w = Each.each_some (emits (Appends-refl l) is)
load_operands-Emits Opcode.code_sclose l is h w = Each.each_some (emits (Appends-refl l) is)
load_operands-Emits Opcode.code_smask l is h w = load_id-Emits l.consts.tables l is
load_operands-Emits Opcode.code_sdef l is h w = load_id-Emits l.consts.tables l is
load_operands-Emits Opcode.code_sis_def l is h w = load_sis_def-Emits l is
load_operands-Emits Opcode.code_sexists l is h w = load_id-Emits l.consts.tables l is
load_operands-Emits Opcode.code_smatch l is h w = load_id-Emits l.consts.tables l is
load_operands-Emits Opcode.code_sis l is h w = load_id-Emits l.consts.tables l is
load_operands-Emits Opcode.code_sisa l is h w = load_id-Emits l.consts.tables l is
load_operands-Emits Opcode.code_sdef_num l is h w = Each.each_none
load_operands-Emits Opcode.code_scount l is h w = Each.each_none
load_operands-Emits Opcode.code_exit l is h w = load_byte-Emits l is
load_operands-Emits Opcode.code_tbl_jump1 l is h w = absurd cc
load_operands-Emits Opcode.code_tbl_jump2 l is h w = absurd cc
load_operands-Emits Opcode.code_tbl_jump3 l is h w = absurd cc
load_operands-Emits Opcode.code_label l is h w = Each.each_some (emits (Appends-refl l) is)

-- An opcode fits in its byte.
number-byte : (op : Opcode) → number op % 256 ≡ number op
number-byte Opcode.code_nop = refl
number-byte Opcode.code_fail = refl
number-byte Opcode.code_alt = refl
number-byte Opcode.code_succ = refl
number-byte Opcode.code_jump = refl
number-byte Opcode.code_call = refl
number-byte Opcode.code_ret = refl
number-byte Opcode.code_pos = refl
number-byte Opcode.code_back = refl
number-byte Opcode.code_skip = refl
number-byte Opcode.code_byte = refl
number-byte Opcode.code_any = refl
number-byte Opcode.code_str = refl
number-byte Opcode.code_set = refl
number-byte Opcode.code_nbyte = refl
number-byte Opcode.code_nany = refl
number-byte Opcode.code_nstr = refl
number-byte Opcode.code_nset = refl
number-byte Opcode.code_obyte = refl
number-byte Opcode.code_oany = refl
number-byte Opcode.code_ostr = refl
number-byte Opcode.code_oset = refl
number-byte Opcode.code_rbyte = refl
number-byte Opcode.code_rany = refl
number-byte Opcode.code_rstr = refl
number-byte Opcode.code_rset = refl
number-byte Opcode.code_consume = refl
number-byte Opcode.code_first = refl
number-byte Opcode.code_lookup = refl
number-byte Opcode.code_memo = refl
number-byte Opcode.code_memo_fail = refl
number-byte Opcode.code_tpush = refl
number-byte Opcode.code_tpop = refl
number-byte Opcode.code_tleft_fold = refl
number-byte Opcode.code_tnew = refl
number-byte Opcode.code_tcapture = refl
number-byte Opcode.code_ttag = refl
number-byte Opcode.code_treplace = refl
number-byte Opcode.code_tstart = refl
number-byte Opcode.code_tcommit = refl
number-byte Opcode.code_tabort = refl
number-byte Opcode.code_tlookup = refl
number-byte Opcode.code_tmemo = refl
number-byte Opcode.code_sopen = refl
number-byte Opcode.code_sclose = refl
number-byte Opcode.code_smask = refl
number-byte Opcode.code_sdef = refl
number-byte Opcode.code_sis_def = refl
number-byte Opcode.code_sexists = refl
number-byte Opcode.code_smatch = refl
number-byte Opcode.code_sis = refl
number-byte Opcode.code_sisa = refl
number-byte Opcode.code_sdef_num = refl
number-byte Opcode.code_scount = refl
number-byte Opcode.code_exit = refl
number-byte Opcode.code_tbl_jump1 = refl
number-byte Opcode.code_tbl_jump2 = refl
number-byte Opcode.code_tbl_jump3 = refl
number-byte Opcode.code_label = refl

-- What one instruction does: it appends code that consists of whole instructions, and reads.
pub record Loads (l : Loader) (is : InputStream) (l' : Loader) (is' : InputStream) : Type 0 where
  pub code : List ℕ
  pub whole : IsWhole code
  pub appended : Appends code l l'
  pub read : ℕ
  pub follows : Follows read is is'

pub one_inst :
    (op : Opcode) (operands : List ℕ) (n : ℕ)
    → suc n ≡ inst_bytes op
    → length operands ≡ n
    → IsWhole (stored 1 (number op) ++ operands)
unfolding stored
one_inst op operands n fits len =
    rw (number-byte op, ← append-nil operands)
      (IsWhole.whole_inst op operands [] (rw (← fits, len) refl) IsWhole.whole_nil)

pub inst_bytes-pos : (op : Opcode) → suc (inst_bytes op - 1) ≡ inst_bytes op
unfolding inst_bytes
inst_bytes-pos Opcode.code_nop = refl
inst_bytes-pos Opcode.code_fail = refl
inst_bytes-pos Opcode.code_alt = refl
inst_bytes-pos Opcode.code_succ = refl
inst_bytes-pos Opcode.code_jump = refl
inst_bytes-pos Opcode.code_call = refl
inst_bytes-pos Opcode.code_ret = refl
inst_bytes-pos Opcode.code_pos = refl
inst_bytes-pos Opcode.code_back = refl
inst_bytes-pos Opcode.code_skip = refl
inst_bytes-pos Opcode.code_byte = refl
inst_bytes-pos Opcode.code_any = refl
inst_bytes-pos Opcode.code_str = refl
inst_bytes-pos Opcode.code_set = refl
inst_bytes-pos Opcode.code_nbyte = refl
inst_bytes-pos Opcode.code_nany = refl
inst_bytes-pos Opcode.code_nstr = refl
inst_bytes-pos Opcode.code_nset = refl
inst_bytes-pos Opcode.code_obyte = refl
inst_bytes-pos Opcode.code_oany = refl
inst_bytes-pos Opcode.code_ostr = refl
inst_bytes-pos Opcode.code_oset = refl
inst_bytes-pos Opcode.code_rbyte = refl
inst_bytes-pos Opcode.code_rany = refl
inst_bytes-pos Opcode.code_rstr = refl
inst_bytes-pos Opcode.code_rset = refl
inst_bytes-pos Opcode.code_consume = refl
inst_bytes-pos Opcode.code_first = refl
inst_bytes-pos Opcode.code_lookup = refl
inst_bytes-pos Opcode.code_memo = refl
inst_bytes-pos Opcode.code_memo_fail = refl
inst_bytes-pos Opcode.code_tpush = refl
inst_bytes-pos Opcode.code_tpop = refl
inst_bytes-pos Opcode.code_tleft_fold = refl
inst_bytes-pos Opcode.code_tnew = refl
inst_bytes-pos Opcode.code_tcapture = refl
inst_bytes-pos Opcode.code_ttag = refl
inst_bytes-pos Opcode.code_treplace = refl
inst_bytes-pos Opcode.code_tstart = refl
inst_bytes-pos Opcode.code_tcommit = refl
inst_bytes-pos Opcode.code_tabort = refl
inst_bytes-pos Opcode.code_tlookup = refl
inst_bytes-pos Opcode.code_tmemo = refl
inst_bytes-pos Opcode.code_sopen = refl
inst_bytes-pos Opcode.code_sclose = refl
inst_bytes-pos Opcode.code_smask = refl
inst_bytes-pos Opcode.code_sdef = refl
inst_bytes-pos Opcode.code_sis_def = refl
inst_bytes-pos Opcode.code_sexists = refl
inst_bytes-pos Opcode.code_smatch = refl
inst_bytes-pos Opcode.code_sis = refl
inst_bytes-pos Opcode.code_sisa = refl
inst_bytes-pos Opcode.code_sdef_num = refl
inst_bytes-pos Opcode.code_scount = refl
inst_bytes-pos Opcode.code_exit = refl
inst_bytes-pos Opcode.code_tbl_jump1 = refl
inst_bytes-pos Opcode.code_tbl_jump2 = refl
inst_bytes-pos Opcode.code_tbl_jump3 = refl
inst_bytes-pos Opcode.code_label = refl
