-- ===== src/Vm/Inst.antt =====
-- src/vm1/instruction.def and src/vm1/instruction.h: the instructions with their operands. A signed
-- operand is its bit pattern.
use moz.Base.{ℕ}

pub data Inst : Type 0 where
  op_nop op_fail op_succ op_pos op_back op_skip op_label : Inst
  op_any op_nany op_oany op_rany : Inst
  op_tpush op_tstart op_tabort : Inst
  op_sopen op_sclose op_sdef_num op_scount : Inst
  op_alt : (failjump : ℕ) → Inst
  op_jump : (offset : ℕ) → Inst
  op_call : (nterm next offset : ℕ) → Inst
  op_ret : (dummy : ℕ) → Inst
  op_byte op_nbyte op_obyte op_rbyte : (ch : ℕ) → Inst
  op_str op_nstr op_ostr op_rstr : (str_id : ℕ) → Inst
  op_set op_nset op_oset op_rset : (set_id : ℕ) → Inst
  op_consume : (shift : ℕ) → Inst
  op_first : (tbl_id : ℕ) → Inst
  op_lookup : (state memo_id skip : ℕ) → Inst
  op_memo op_memo_fail op_tmemo : (state memo_id : ℕ) → Inst
  op_tpop op_ttag op_tcommit : (tag_id : ℕ) → Inst
  op_tleft_fold : (shift tag_id : ℕ) → Inst
  op_tnew op_tcapture : (shift : ℕ) → Inst
  op_treplace : (str_id : ℕ) → Inst
  op_tlookup : (state tag_id memo_id skip : ℕ) → Inst
  op_smask op_sdef op_sexists op_smatch op_sis op_sisa : (tag_id : ℕ) → Inst
  op_sis_def : (tag_id str_id : ℕ) → Inst
  op_exit : (status : ℕ) → Inst
  op_tbl_jump1 op_tbl_jump2 op_tbl_jump3 : (tbl_id : ℕ) → Inst
