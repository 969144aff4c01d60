-- ===== src/Vm/Table.antt =====
-- src/vm1/instruction.def: the instructions on the memo table, without
-- MOZVM_USE_DYNAMIC_DEACTIVATION.
use moz.Base.{ℕ, ◌+◌, ◌-◌, ◌%◌, ◌^◌, Option, none, some, ◌==◌, if◌then◌else◌, ◌>>=◌}
use moz.Libnez.Ast.{ast_log_link}
use moz.Libnez.Memo.{MemoEntry, memo_entry_failed, memo_fail, memo_get, memo_set}
use moz.Vm.State.{Runtime, Vm, consume_n, do_fail, jump, pop_frame}

-- What Lookup does with the entry that memo_get returns.
unfoldable pub looked_up : Runtime → ℕ → Vm → Option MemoEntry → Option Vm
looked_up r skip vm none = some vm
looked_up r skip vm (some entry) =
    let failed = do_fail r vm in
    if entry.result == memo_entry_failed
    then failed
    else some (jump (consume_n vm entry.consumed) skip)

unfoldable pub do_lookup : Runtime → ℕ → ℕ → ℕ → Vm → Option Vm
do_lookup r state memo_id skip vm = do
  entry ← memo_get vm.memo vm.pos memo_id state
  looked_up r skip vm entry

-- memo_set's `consumed` is an `unsigned`.
abbrev pub consumed_since : Vm → ℕ → ℕ
consumed_since vm start = (vm.pos + 2 ^ 64 - start) % 2 ^ 32

unfoldable pub do_memo : Runtime → ℕ → ℕ → Vm → Option Vm
do_memo r state memo_id vm = do
  (f, vm) ← pop_frame vm
  (heap, memo) ← memo_set r.fuel vm.heap vm.memo f.pos memo_id 0 (consumed_since vm f.pos) state
  some (record vm { heap = heap; memo = memo })

-- memo_fail takes no state.
unfoldable pub do_memo_fail : Runtime → ℕ → ℕ → Vm → Option Vm
do_memo_fail r state memo_id vm = do
  (heap, memo) ← memo_fail r.fuel vm.heap vm.memo vm.pos memo_id
  do_fail r (record vm { heap = heap; memo = memo })

unfoldable pub tree_looked_up : Runtime → ℕ → ℕ → Vm → Option MemoEntry → Option Vm
tree_looked_up r tag_id skip vm none = some vm
tree_looked_up r tag_id skip vm (some entry) =
    let failed = do_fail r vm in
    let linked = (do
      (ast, heap) ← ast_log_link vm.ast vm.heap tag_id entry.result
      some (jump (consume_n (record vm { ast = ast; heap = heap }) entry.consumed) skip)) in
    if entry.result == memo_entry_failed then failed else linked

unfoldable pub do_tlookup : Runtime → ℕ → ℕ → ℕ → ℕ → Vm → Option Vm
do_tlookup r state tag_id memo_id skip vm = do
  entry ← memo_get vm.memo vm.pos memo_id state
  tree_looked_up r tag_id skip vm entry

-- The result is ast_get_last_linked_node.
unfoldable pub do_tmemo : Runtime → ℕ → ℕ → Vm → Option Vm
do_tmemo r state memo_id vm = do
  (f, vm) ← pop_frame vm
  (heap, memo) ←
      memo_set r.fuel vm.heap vm.memo f.pos memo_id vm.ast.last_linked (consumed_since vm f.pos)
        state
  some (record vm { heap = heap; memo = memo })
