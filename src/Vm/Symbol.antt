-- ===== src/Vm/Symbol.antt =====
-- src/vm1/instruction.def: the instructions on the symbol table.
use moz.Base.{ℕ, not, Option, none, some, get_elem?, if◌then◌else◌, ◌>>=◌}
use moz.Libnez.Token.{Token, token_equal, token_equal_string, token_init, token_length}
use moz.Libnez.Symtable.{
  symtable_add_symbol, symtable_add_symbol_mask, symtable_contains, symtable_get_symbol,
  symtable_has_symbol, symtable_rollback, symtable_savepoint,
}
use moz.Vm.State.{Runtime, Vm, consume_n, do_fail, pop, push}
use moz.Vm.Match.{fail_if}

pub do_sopen : Vm → Option Vm
do_sopen vm = push vm (symtable_savepoint vm.tbl)

pub do_sclose : Vm → Option Vm
do_sclose vm = do (saved, vm) ← pop vm; some (record vm { tbl = symtable_rollback vm.tbl saved })

pub do_smask : Runtime → ℕ → Vm → Option Vm
do_smask r tag_id vm = do
  table_name ← get_elem? r.tables tag_id
  vm ← push vm (symtable_savepoint vm.tbl)
  some (record vm { tbl = symtable_add_symbol_mask r.junk vm.tbl table_name })

pub do_sdef : Runtime → ℕ → Vm → Option Vm
do_sdef r tag_id vm = do
  table_name ← get_elem? r.tables tag_id
  (start, vm) ← pop vm
  let captured = token_init start vm.pos
  some (record vm { tbl = symtable_add_symbol r.mem r.junk vm.tbl table_name captured })

pub do_sis_def : Runtime → ℕ → ℕ → Vm → Option Vm
do_sis_def r tag_id str_id vm = do
  table_name ← get_elem? r.tables tag_id
  symbol ← get_elem? r.strs str_id
  fail_if r vm (not (symtable_contains r.mem vm.tbl table_name symbol))

pub do_sexists : Runtime → ℕ → Vm → Option Vm
do_sexists r tag_id vm = do
  table_name ← get_elem? r.tables tag_id
  fail_if r vm (not (symtable_has_symbol vm.tbl table_name))

-- The test after symtable_get_symbol, for its token.
pub match_token : Runtime → Vm → Option Token → Option Vm
match_token r vm none = do_fail r vm
match_token r vm (some t) =
    let failed = do_fail r vm in
    if token_equal_string r.mem t vm.pos then some (consume_n vm (token_length t)) else failed

pub do_smatch : Runtime → ℕ → Vm → Option Vm
do_smatch r tag_id vm = do
  table_name ← get_elem? r.tables tag_id
  match_token r vm (symtable_get_symbol vm.tbl table_name)

-- The stack is popped only where there is a token.
pub is_token : Runtime → Vm → Option Token → Option Vm
is_token r vm none = do_fail r vm
is_token r vm (some t) = do
  (start, vm) ← pop vm
  fail_if r vm (not (token_equal r.mem t (token_init start vm.pos)))

pub do_sis : Runtime → ℕ → Vm → Option Vm
do_sis r tag_id vm = do
  table_name ← get_elem? r.tables tag_id
  is_token r vm (symtable_get_symbol vm.tbl table_name)

pub do_sisa : Runtime → ℕ → Vm → Option Vm
do_sisa r tag_id vm = do
  table_name ← get_elem? r.tables tag_id
  (start, vm) ← pop vm
  fail_if r vm (not (symtable_contains r.mem vm.tbl table_name (token_init start vm.pos)))
