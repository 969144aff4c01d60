-- ===== src/Vm/State.antt =====
-- src/vm1/mozvm1.c and src/mozvm.h: the registers and the stack of the machine.
-- An entry of the stack is a 64-bit word: SP, FP and a saved FP are indices of entries, a position
-- is an address of the input, a code address is a number. `none` is undefined behaviour of C or
-- an ABORT.
use moz.Base.{ℕ, ◌+◌, ◌-◌, ◌%◌, ◌^◌, Option, none, some, List, ◌==◌, ltb, if◌then◌else◌, ◌>>=◌}
use moz.Core.Bitset.{Bitset}
use moz.Core.Jmptbl.{JumpTable1, JumpTable2, JumpTable3}
use moz.Node.Heap.{Heap, update}
use moz.Libnez.Token.{Token}
use moz.Libnez.Symtable.{Symtable, symtable_savepoint, symtable_rollback}
use moz.Libnez.Memo.{Memo}
use moz.Libnez.Ast.{AstMachine, ast_save_tx, ast_rollback_tx}

-- What a parse does not change: the memory with the input in it, mozvm_constant_t and `tail`. A
-- constant string is its address and length, a tag or a table name its address. `junk` is what an
-- uninitialised token holds; `rounds` and `fuel` bound ast_create_node and the releases, `scan`
-- the loops of the repeated matches.
pub record Runtime : Type 0 where
  pub mem : ℕ → ℕ
  pub sets : List Bitset
  pub tags : List ℕ
  pub strs : List Token
  pub tables : List ℕ
  pub jumps : List ℕ
  pub jumps1 : List JumpTable1
  pub jumps2 : List JumpTable2
  pub jumps3 : List JumpTable3
  pub tail : ℕ
  pub junk : Token
  pub rounds : ℕ
  pub fuel : ℕ
  pub scan : ℕ

-- PC, CURRENT, SP, FP, runtime->head, the stack, and the objects that handlers change.
pub record Vm : Type 0 where
  pub pc : ℕ
  pub pos : ℕ
  pub sp : ℕ
  pub fp : ℕ
  pub head : ℕ
  pub stack : ℕ → ℕ
  pub ast : AstMachine
  pub tbl : Symtable
  pub memo : Memo
  pub heap : Heap

-- MOZ_DEFAULT_STACK_SIZE
abbrev pub stack_size : ℕ
stack_size = 1024

abbrev pub fp_fp : ℕ
fp_fp = 0

abbrev pub fp_pos : ℕ
fp_pos = 1

abbrev pub fp_next : ℕ
fp_next = 2

abbrev pub fp_ast : ℕ
fp_ast = 3

abbrev pub fp_symtbl : ℕ
fp_symtbl = 4

abbrev pub fp_max : ℕ
fp_max = 5

pub record Frame : Type 0 where
  pub pos : ℕ
  pub next : ℕ
  pub ast : ℕ
  pub symtbl : ℕ

unfoldable pub push : Vm → ℕ → Option Vm
push vm x =
    if ltb vm.sp stack_size
    then some (record vm { stack = update vm.stack vm.sp x; sp = vm.sp + 1 })
    else none

unfoldable pub pop : Vm → Option (ℕ × Vm)
pop vm = if vm.sp == 0 then none else some (vm.stack (vm.sp - 1), record vm { sp = vm.sp - 1 })

-- The five writes of PUSH_FRAME.
abbrev pub framed : Vm → Frame → ℕ → ℕ
framed vm f =
    update
      (update
        (update (update (update vm.stack (vm.sp + fp_fp) vm.fp) (vm.sp + fp_pos) f.pos)
          (vm.sp + fp_next) f.next)
        (vm.sp + fp_ast) f.ast)
      (vm.sp + fp_symtbl) f.symtbl

unfoldable pub push_frame : Vm → Frame → Option Vm
push_frame vm f =
    if ltb (vm.sp + fp_symtbl) stack_size
    then some (record vm { stack = framed vm f; fp = vm.sp; sp = vm.sp + fp_max })
    else none

unfoldable pub drop_frame : Vm → Option Vm
drop_frame vm =
    if ltb vm.fp stack_size
    then some (record vm { sp = vm.fp; fp = vm.stack (vm.fp + fp_fp) })
    else none

abbrev pub frame_at : (ℕ → ℕ) → ℕ → Frame
frame_at stack fp = record {
  pos = stack (fp + fp_pos);
  next = stack (fp + fp_next);
  ast = stack (fp + fp_ast);
  symtbl = stack (fp + fp_symtbl);
}

-- PEEK_FRAME, for the reads through its pointers
unfoldable pub peek_frame : Vm → Option Frame
peek_frame vm = if ltb (vm.fp + fp_symtbl) stack_size then some (frame_at vm.stack vm.fp) else none

unfoldable pub pop_frame : Vm → Option (Frame × Vm)
pop_frame vm = do f ← peek_frame vm; vm ← drop_frame vm; some (f, vm)

-- The two's complement value of a 32-bit or 8-bit pattern, as a 64-bit one.
abbrev pub sext32 : ℕ → ℕ
sext32 x = if ltb x (2 ^ 31) then x else x + (2 ^ 64 - 2 ^ 32)

abbrev pub sext8 : ℕ → ℕ
sext8 x = if ltb x 128 then x else x + (2 ^ 64 - 256)

-- A pointer moved by a signed offset.
abbrev pub moved : ℕ → ℕ → ℕ
moved p offset = (p + offset) % 2 ^ 64

-- PC += N, for an `int`
abbrev pub jump : Vm → ℕ → Vm
jump vm offset = record vm { pc = moved vm.pc (sext32 offset) }

-- CURRENT += N
abbrev pub consume_n : Vm → ℕ → Vm
consume_n vm n = record vm { pos = vm.pos + n }

abbrev pub consume : Vm → Vm
consume vm = consume_n vm 1

-- `*GET_CURRENT()`: a `char`, which is signed, as the 32-bit pattern that it is promoted to.
abbrev pub char_value : ℕ → ℕ
char_value c = if ltb c 128 then c else c + (2 ^ 32 - 256)

abbrev pub current : Runtime → Vm → ℕ
current r vm = char_value (r.mem vm.pos)

-- if (pos_ < GET_POS()) { HEAD = ...; SET_POS(pos_); }
abbrev pub backtrack : ℕ → Vm → Vm
backtrack pos vm =
    if ltb pos vm.pos
    then record vm { head = if ltb vm.head vm.pos then vm.pos else vm.head; pos = pos }
    else vm

-- FAIL_IMPL
unfoldable pub do_fail : Runtime → Vm → Option Vm
do_fail r vm = do
  (f, vm) ← pop_frame vm
  let vm = backtrack f.pos vm
  (ast, heap) ← ast_rollback_tx r.fuel vm.ast vm.heap f.ast
  some (record vm { ast = ast; heap = heap; tbl = symtable_rollback vm.tbl f.symtbl; pc = f.next })

-- The position of the frame, and the logs' sizes now.
abbrev pub frame_now : Vm → ℕ → Frame
frame_now vm next = record {
  pos = vm.pos;
  next = next;
  ast = ast_save_tx vm.ast;
  symtbl = symtable_savepoint vm.tbl;
}
