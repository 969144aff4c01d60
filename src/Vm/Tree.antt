-- ===== src/Vm/Tree.antt =====
-- src/vm1/instruction.def: the instructions that log tree operations.
use moz.Base.{ℕ, Option, some, get_elem?, ◌>>=◌}
use moz.Libnez.Ast.{
  AstMachine, ast_log_capture, ast_log_new, ast_log_pop, ast_log_push, ast_log_replace,
  ast_log_swap, ast_log_tag, ast_save_tx,
}
use moz.Libnez.Ast.Build.{ast_commit_tx}
use moz.Vm.State.{Runtime, Vm, moved, pop, push, sext8}

abbrev with_ast : Vm → AstMachine → Option Vm
with_ast vm ast = some (record vm { ast = ast })

pub do_tpush : Vm → Option Vm
do_tpush vm = with_ast vm (ast_log_push vm.ast)

pub do_tpop : ℕ → Vm → Option Vm
do_tpop tag_id vm = with_ast vm (ast_log_pop vm.ast tag_id)

pub do_tleft_fold : ℕ → ℕ → Vm → Option Vm
do_tleft_fold shift tag_id vm =
    with_ast vm (ast_log_swap vm.ast (moved vm.pos (sext8 shift)) tag_id)

pub do_tnew : ℕ → Vm → Option Vm
do_tnew shift vm = with_ast vm (ast_log_new vm.ast (moved vm.pos (sext8 shift)))

pub do_tcapture : ℕ → Vm → Option Vm
do_tcapture shift vm = with_ast vm (ast_log_capture vm.ast (moved vm.pos (sext8 shift)))

pub do_ttag : Runtime → ℕ → Vm → Option Vm
do_ttag r tag_id vm = do tag ← get_elem? r.tags tag_id; with_ast vm (ast_log_tag vm.ast tag)

pub do_treplace : Runtime → ℕ → Vm → Option Vm
do_treplace r str_id vm = do
  str ← get_elem? r.strs str_id
  with_ast vm (ast_log_replace vm.ast str.s)

pub do_tstart : Vm → Option Vm
do_tstart vm = push vm (ast_save_tx vm.ast)

pub do_tcommit : Runtime → ℕ → Vm → Option Vm
do_tcommit r tag_id vm = do
  (tx, vm) ← pop vm
  (ast, heap) ← ast_commit_tx r.rounds r.fuel vm.ast vm.heap tag_id tx
  some (record vm { ast = ast; heap = heap })
