-- ===== src/Vm/Step.antt =====
-- src/vm1/mozvm1.c: moz_runtime_parse_init and moz_runtime_parse, and the instructions that move
-- the program counter. Decoding is a parameter, since vm_core.c is generated: `fetch` gives the
-- instruction at an address and the address behind it.
use moz.Base.{ℕ, zero, suc, ◌+◌, Option, none, some, ◌==◌, if◌then◌else◌, ◌>>=◌}
use moz.Node.Heap.{update}
use moz.Libnez.Ast.{ast_save_tx}
use moz.Libnez.Symtable.{symtable_savepoint}
use moz.Vm.State.{
  Runtime, Vm, do_fail, drop_frame, fp_ast, fp_pos, fp_symtbl, frame_now, jump, moved, peek_frame,
  pop, push, push_frame, sext32,
}
use moz.Vm.Inst.{Inst}
use moz.Vm.Match.{
  do_any, do_byte, do_consume, do_first, do_nany, do_nbyte, do_nset, do_nstr, do_obyte, do_oset,
  do_ostr, do_rbyte, do_rset, do_rstr, do_set, do_str, do_tbl_jump1, do_tbl_jump2, do_tbl_jump3,
}
use moz.Vm.Tree.{
  do_tcapture, do_tcommit, do_tleft_fold, do_tnew, do_tpop, do_tpush, do_treplace, do_tstart,
  do_ttag,
}
use moz.Vm.Symbol.{
  do_sclose, do_sdef, do_sexists, do_sis, do_sis_def, do_sisa, do_smask, do_smatch, do_sopen,
}
use moz.Vm.Table.{do_lookup, do_memo, do_memo_fail, do_tlookup, do_tmemo}

unfoldable pub do_alt : ℕ → Vm → Option Vm
do_alt failjump vm = push_frame vm (frame_now vm (moved vm.pc (sext32 failjump)))

unfoldable pub do_call : ℕ → ℕ → Vm → Option Vm
do_call next offset vm = do vm ← push vm (moved vm.pc (sext32 next)); some (jump vm offset)

unfoldable pub do_ret : Vm → Option Vm
do_ret vm = do (next, vm) ← pop vm; some (record vm { pc = next })

unfoldable pub do_pos : Vm → Option Vm
do_pos vm = push vm vm.pos

unfoldable pub do_back : Vm → Option Vm
do_back vm = do (pos, vm) ← pop vm; some (record vm { pos = pos })

-- The writes through PEEK_FRAME's pointers.
abbrev pub refreshed : Vm → ℕ → ℕ
refreshed vm =
    update (update (update vm.stack (vm.fp + fp_pos) vm.pos) (vm.fp + fp_ast) (ast_save_tx vm.ast))
      (vm.fp + fp_symtbl) (symtable_savepoint vm.tbl)

unfoldable pub do_skip : Runtime → Vm → Option Vm
do_skip r vm = do
  f ← peek_frame vm
  let failed = do_fail r vm
  if f.pos == vm.pos then failed else some (record vm { stack = refreshed vm })

pub data Outcome : Type 0 where
  running : Vm → Outcome
  exited : ℕ → Vm → Outcome

-- Every handler but that of Exit. ABORT is `none`.
unfoldable pub exec : Runtime → Inst → Vm → Option Vm
exec r Inst.op_nop vm = some vm
exec r Inst.op_label vm = some vm
exec r Inst.op_fail vm = do_fail r vm
exec r (Inst.op_alt failjump) vm = do_alt failjump vm
exec r Inst.op_succ vm = drop_frame vm
exec r (Inst.op_jump offset) vm = some (jump vm offset)
exec r (Inst.op_call nterm next offset) vm = do_call next offset vm
exec r (Inst.op_ret dummy) vm = do_ret vm
exec r Inst.op_pos vm = do_pos vm
exec r Inst.op_back vm = do_back vm
exec r Inst.op_skip vm = do_skip r vm
exec r (Inst.op_byte ch) vm = do_byte r ch vm
exec r Inst.op_any vm = do_any r vm
exec r (Inst.op_str str_id) vm = do_str r str_id vm
exec r (Inst.op_set set_id) vm = do_set r set_id vm
exec r (Inst.op_nbyte ch) vm = do_nbyte r ch vm
exec r Inst.op_nany vm = do_nany r vm
exec r (Inst.op_nstr str_id) vm = do_nstr r str_id vm
exec r (Inst.op_nset set_id) vm = do_nset r set_id vm
exec r (Inst.op_obyte ch) vm = do_obyte r ch vm
exec r Inst.op_oany vm = none
exec r (Inst.op_ostr str_id) vm = do_ostr r str_id vm
exec r (Inst.op_oset set_id) vm = do_oset r set_id vm
exec r (Inst.op_rbyte ch) vm = do_rbyte r ch vm
exec r Inst.op_rany vm = none
exec r (Inst.op_rstr str_id) vm = do_rstr r str_id vm
exec r (Inst.op_rset set_id) vm = do_rset r set_id vm
exec r (Inst.op_consume shift) vm = do_consume shift vm
exec r (Inst.op_first tbl_id) vm = do_first r tbl_id vm
exec r (Inst.op_lookup state memo_id skip) vm = do_lookup r state memo_id skip vm
exec r (Inst.op_memo state memo_id) vm = do_memo r state memo_id vm
exec r (Inst.op_memo_fail state memo_id) vm = do_memo_fail r state memo_id vm
exec r Inst.op_tpush vm = do_tpush vm
exec r (Inst.op_tpop tag_id) vm = do_tpop tag_id vm
exec r (Inst.op_tleft_fold shift tag_id) vm = do_tleft_fold shift tag_id vm
exec r (Inst.op_tnew shift) vm = do_tnew shift vm
exec r (Inst.op_tcapture shift) vm = do_tcapture shift vm
exec r (Inst.op_ttag tag_id) vm = do_ttag r tag_id vm
exec r (Inst.op_treplace str_id) vm = do_treplace r str_id vm
exec r Inst.op_tstart vm = do_tstart vm
exec r (Inst.op_tcommit tag_id) vm = do_tcommit r tag_id vm
exec r Inst.op_tabort vm = none
exec r (Inst.op_tlookup state tag_id memo_id skip) vm = do_tlookup r state tag_id memo_id skip vm
exec r (Inst.op_tmemo state memo_id) vm = do_tmemo r state memo_id vm
exec r Inst.op_sopen vm = do_sopen vm
exec r Inst.op_sclose vm = do_sclose vm
exec r (Inst.op_smask tag_id) vm = do_smask r tag_id vm
exec r (Inst.op_sdef tag_id) vm = do_sdef r tag_id vm
exec r (Inst.op_sis_def tag_id str_id) vm = do_sis_def r tag_id str_id vm
exec r (Inst.op_sexists tag_id) vm = do_sexists r tag_id vm
exec r (Inst.op_smatch tag_id) vm = do_smatch r tag_id vm
exec r (Inst.op_sis tag_id) vm = do_sis r tag_id vm
exec r (Inst.op_sisa tag_id) vm = do_sisa r tag_id vm
exec r Inst.op_sdef_num vm = none
exec r Inst.op_scount vm = none
exec r (Inst.op_exit status) vm = none
exec r (Inst.op_tbl_jump1 tbl_id) vm = do_tbl_jump1 r tbl_id vm
exec r (Inst.op_tbl_jump2 tbl_id) vm = do_tbl_jump2 r tbl_id vm
exec r (Inst.op_tbl_jump3 tbl_id) vm = do_tbl_jump3 r tbl_id vm

-- Exit returns its operand; every other handler ends in NEXT().
abbrev pub handle : Runtime → Inst → Vm → Option Outcome
handle r (Inst.op_exit status) vm = some (exited status vm)
handle r inst vm = exec r inst vm >>= λ vm. some (running vm)

abbrev pub resume : (Vm → Option Outcome) → Outcome → Option Outcome
resume next (exited status vm) = some (exited status vm)
resume next (running vm) = next vm

module _ (r : Runtime) (fetch : ℕ → Option (Inst × ℕ)) where
  unfoldable pub step : Vm → Option Outcome
  step vm = do (inst, pc) ← fetch vm.pc; handle r inst (record vm { pc = pc })

  -- The dispatch loop, for a number of instructions; `running` is a parse that goes on.
  unfoldable pub moz_runtime_parse : ℕ → Vm → Option Outcome
  moz_runtime_parse zero vm = some (running vm)
  moz_runtime_parse (suc n) vm = step vm >>= resume (moz_runtime_parse n)

-- CURRENT = str
abbrev pub at_input : ℕ → Vm → Vm
at_input str vm = record vm { pos = str }

-- The frame that catches a failure of the whole parse continues behind `bytecode_base`'s first
-- Exit, the return address is its start.
unfoldable pub moz_runtime_parse_init : ℕ → ℕ → Vm → Option Vm
moz_runtime_parse_init bytecode_base str vm = do
  let vm = at_input str vm
  vm ← push_frame vm (frame_now vm (bytecode_base + 2))
  push vm bytecode_base
