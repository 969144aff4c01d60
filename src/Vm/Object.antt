-- ===== src/Vm/Object.antt =====
-- src/runtime.c and src/mozvm.h: the run time object, which puts the machines together, and its
-- reset. The registers that a parse sets itself, the program
-- counter and the position, are 0 until then.
use moz.Base.{ℕ, ◌+◌, ◌-◌, ◌^◌, ◌<◌, ◌≤◌, Option, some, [], ◌≡◌, refl, ◌>>=◌, ltb, if◌then◌else◌}
use moz.Node.Heap.{Heap}
use moz.Libnez.Ast.{AstMachine, AstMachine_init, ast_rollback_tx, ast_save_tx}
use moz.Libnez.Symtable.{symtable_init, symtable_savepoint}
use moz.Libnez.Memo.{memo_dispose, memo_init, memo_window}
use moz.Libnez.Memo.Init.{memo_init_lem}
use moz.Libnez.Memo.Sound.{Agrees}
use moz.Vm.State.{Vm, push, push_frame, stack_size}
use moz.Vm.Backtrack.{IsFrame}
use moz.Vm.Step.{moz_runtime_parse_init}

-- r->stack = &r->stack_[0] + 0xf
abbrev pub stack_start : ℕ
stack_start = 15

-- The two calls of memset on the words of the stack.
abbrev pub fresh_stack : ℕ → ℕ
fresh_stack i = if ltb i (stack_size - 15) then 12297829382473034410 else 13527612320720337851

unfoldable pub moz_runtime_init : ℕ → Heap → Option Vm
moz_runtime_init memo heap = do
  m ← memo_init memo_window memo
  some (record {
    pc = 0;
    pos = 0;
    sp = stack_start;
    fp = stack_start;
    head = 0;
    stack = fresh_stack;
    ast = AstMachine_init 0;
    tbl = symtable_init;
    memo = m;
    heap = heap;
  })

-- AstMachine_dispose: what is logged is released.
unfoldable pub AstMachine_dispose : ℕ → AstMachine → Heap → Option Heap
AstMachine_dispose fuel ast heap = do (ast, heap) ← ast_rollback_tx fuel ast heap 0; some heap

-- `memo` is the number of memo points in the constants.
unfoldable pub moz_runtime_reset1 : ℕ → ℕ → Vm → Option Vm
moz_runtime_reset1 fuel memo vm = do
  heap ← AstMachine_dispose fuel vm.ast vm.heap
  heap ← memo_dispose fuel heap vm.memo.ary
  m ← memo_init memo_window memo
  some (record vm {
    sp = stack_start;
    fp = stack_start;
    ast = AstMachine_init 0;
    tbl = symtable_init;
    memo = m;
    heap = heap;
  })

-- The end of the input, `tail`, is a constant of a parse.
unfoldable pub moz_runtime_set_source : ℕ → Vm → Vm
moz_runtime_set_source str vm = record vm { head = str; ast = record vm.ast { source = str } }

-- A machine that a parse of the input at `str` can start from: at the start of the input, with an
-- empty log, no symbols, no memo, the frame of the whole parse and the return address on the stack.
pub record IsReady (base str : ℕ) (vm : Vm) : Type 0 where
  pub pos : vm.pos ≡ str
  pub sp : vm.sp ≡ 21
  pub fp : vm.fp ≡ 15
  pub head : vm.head ≡ str
  pub return_word : vm.stack 20 ≡ base
  pub frame : IsFrame vm.stack 15 15 (record { pos = str; next = base + 2; ast = 0; symtbl = 0 })
  pub logs : vm.ast.logs ≡ []
  pub source : vm.ast.source ≡ str
  pub symbols : vm.tbl.table ≡ []
  pub agrees : Agrees vm.memo.shift vm.memo.mask [] vm.memo

-- For 2 to 65,536 memo points, moz_runtime_init, moz_runtime_set_source and moz_runtime_parse_init
-- succeed one after the other and leave the machine ready for a parse: the log, the symbols and the
-- memo table are empty, the position is the start of the input, the frame that catches a failure
-- holds that position, the sizes 0 of the log and of the symbols and the address of the second Exit,
-- and the return address is that of the first.
pub moz_runtime_init-IsReady :
    (memo base str : ℕ) (heap : Heap)
    → 1 < memo
    → memo ≤ 2 ^ 16
    → (vm : Vm) × (v : Vm) × (moz_runtime_init memo heap ≡ some vm)
      × (moz_runtime_parse_init base str (moz_runtime_set_source str vm) ≡ some v)
      × IsReady base str v
unfolding moz_runtime_init moz_runtime_set_source moz_runtime_parse_init push push_frame
    AstMachine_init symtable_init ast_save_tx symtable_savepoint
moz_runtime_init-IsReady memo base str heap lo hi =
    let (m, e, _, _, _, agrees) = memo_init_lem memo lo hi in
    (
      record {
        pc = 0;
        pos = 0;
        sp = stack_start;
        fp = stack_start;
        head = 0;
        stack = fresh_stack;
        ast = AstMachine_init 0;
        tbl = symtable_init;
        memo = m;
        heap = heap;
      },
      _,
      rw e refl,
      refl,
      record {
        pos = refl;
        sp = refl;
        fp = refl;
        head = refl;
        return_word = refl;
        frame = record {
          prev_word = refl;
          pos_word = refl;
          next_word = refl;
          ast_word = refl;
          symtbl_word = refl;
        };
        logs = refl;
        source = refl;
        symbols = refl;
        agrees = agrees;
      },
    )
