-- ===== src/Tests/Vm.antt =====
-- Tests of src/vm1.
use moz.Base.{
  ℕ, zero, suc, ◌+◌, ◌*◌, ◌^◌, ◌<◌, ◌≡◌, refl, true, false, ◌&&◌, Option, none, some, List, [], ◌∷◌,
  arith, if◌then◌else◌, ◌==◌, ltb, set, ◌>>=◌,
}
use moz.Core.Bitset.{Bitset, bitset_get, bitset_init}
use moz.Core.Bitset.Laws.{bitset_init-IsValid}
use moz.Node.Heap.{Heap, Node, put, retain, retain_if, update}
use moz.Node.Entry.{raw}
use moz.Libnez.Token.{Token, same_bytes}
use moz.Libnez.Symtable.Scope
use moz.Libnez.Symtable.Scope.{Change, mask}
use moz.Libnez.Memo.{Memo, empty_entry, hash_of, held, index_of}
use moz.Libnez.Ast.{
  AstMachine, ast_log, ast_log_link, ast_log_new, ast_rollback_tx, ast_save_tx, type_link, type_new,
}
use moz.Libnez.Ast.Rollback.{AllHeld, Op, apply_all, ast_rollback_tx-ast_save_tx, last_of}
use moz.Vm.State.{
  Frame, Runtime, Vm, consume_n, do_fail, drop_frame, frame_now, framed, jump, moved, push,
  push_frame, sext32,
}
use moz.Vm.Inst.{Inst}
use moz.Vm.Match.{
  do_byte, do_nbyte, do_nset, do_obyte, do_oset, do_rbyte, do_rset, do_rstr, do_set, starts_with,
}
use moz.Vm.Step.{
  do_alt, do_back, do_call, do_pos, do_ret, do_skip, exited, moz_runtime_parse,
  moz_runtime_parse_init, refreshed,
}
use moz.Vm.Table.{consumed_since, do_lookup, do_memo}
use moz.Vm.Backtrack.{IsFrame, IsRestored, Kept, do_fail-do_alt, framed-IsFrame}
use moz.Vm.Frames.{SameBelow, do_back-do_pos, do_fail-do_skip, do_ret-do_call, drop_frame-do_alt}
use moz.Vm.Parse.{moz_runtime_parse-success}
use moz.Vm.Scan.{do_rbyte-longest, do_rset-longest, do_rstr-longest}
use moz.Vm.Bytes.{AgreeOn, do_byte-AgreeOn, do_set-beyond}
use moz.Vm.Memoize.{do_lookup-do_memo}

-- The text "aab" at address 100, and a byte beyond ASCII behind it.
abbrev mem : ℕ → ℕ
mem a =
    if a == 100
    then 97
    else if a == 101
    then 97
    else if a == 102
    then 98
    else if a == 103
    then 200
    else 0

abbrev junk : Token
junk = record { s = 0; len = 0 }

abbrev letter : Token
letter = record { s = 100; len = 1 }

-- The set of the byte 97.
abbrev letters : Bitset
letters = record { words = 0 ∷ 2 ^ 33 ∷ 0 ∷ 0 ∷ [] }

abbrev runtime : Runtime
runtime = record {
  mem = mem;
  sets = letters ∷ bitset_init ∷ [];
  tags = [];
  strs = letter ∷ [];
  tables = [];
  jumps = [];
  jumps1 = [];
  jumps2 = [];
  jumps3 = [];
  tail = 104;
  junk = junk;
  rounds = 10;
  fuel = 3;
  scan = 9;
}

abbrev node : ℕ → Node
node refc = record { refc = refc; tag = 0; pos = 0; value = 0; len = 0; entry = raw 0 0 0 }

abbrev heap : Heap
heap = record {
  cells = λ a. if a == 1 then some (node 1) else none;
  label_id = λ a. 0;
  free_list = [];
  free_object_count = 0;
  fresh = 2;
}

abbrev vm : Vm
vm = record {
  pc = 1000;
  pos = 100;
  sp = 15;
  fp = 15;
  head = 100;
  stack = λ a. 0;
  ast = record { logs = []; last_linked = 0; parsed = 0; source = 100 };
  tbl = record { state = 0; table = [] };
  memo = record { ary = empty_entry ∷ empty_entry ∷ []; shift = 1; mask = 1 };
  heap = heap;
}

abbrev ops : List Op
ops = Op.new 100 ∷ Op.link 3 1 ∷ []

abbrev changes : List Change
changes = mask junk 9 ∷ []

ops-AllHeld : AllHeld heap ops
ops-AllHeld = (tt, (λ e. omega arith, tt))

abbrev logged : AstMachine
logged = record {
  logs =
      record { type = type_new; shift = 0; e = 0; i = 100 }
      ∷ record { type = type_link; shift = 0; e = 1; i = 3 }
      ∷ [];
  last_linked = 1;
  parsed = 0;
  source = 100;
}

ops-logged : apply_all ops (vm.ast, vm.heap) ≡ some (logged, put heap 1 (node 2))
unfolding apply_all ast_log_new ast_log_link ast_log retain_if retain
ops-logged = refl

ast_rollback_tx-ast_save_tx_example :
    (apply_all ops (vm.ast, heap) >>= λ (ast', h'). ast_rollback_tx 1 ast' h' (ast_save_tx vm.ast))
    ≡ some (record vm.ast { last_linked = last_of ops vm.ast.last_linked }, heap)
ast_rollback_tx-ast_save_tx_example = ast_rollback_tx-ast_save_tx 0 vm.ast heap ops ops-AllHeld

-- The state that `ops` and `changes` make of `v`, two bytes ahead.
abbrev worked : Vm → Vm
worked v = record v {
  pos = 102;
  ast = logged;
  heap = put heap 1 (node 2);
  tbl = Scope.apply_all mem vm.tbl changes;
}

kept : (v : Vm) → Kept runtime vm v (worked v) ops changes
kept v = record {
  on_top = refl;
  same_words = λ i lt. refl;
  logged = ops-logged;
  symbols = refl;
  ahead = omega arith;
}

abbrev alted : Vm
alted = record vm { stack = framed vm (frame_now vm 1040); fp = 15; sp = 20 }

vm-alted : do_alt 40 vm ≡ some alted
unfolding do_alt push_frame
vm-alted = refl

do_fail-do_alt_example :
    (out : Vm) × (do_fail runtime (worked alted) ≡ some out)
    × IsRestored vm (moved vm.pc (sext32 40)) out
do_fail-do_alt_example =
    do_fail-do_alt runtime 2 vm alted (worked alted) 40 ops changes refl vm-alted ops-AllHeld
      (kept alted)

drop_frame-do_alt_example :
    drop_frame (worked alted) ≡ some (record (worked alted) { sp = vm.sp; fp = vm.fp })
drop_frame-do_alt_example = drop_frame-do_alt vm alted (worked alted) 40 vm-alted refl refl

-- A frame of the position 98 on top.
abbrev earlier : Frame
earlier = record { pos = 98; next = 1040; ast = 0; symtbl = 0 }

abbrev looping : Vm
looping = record vm { stack = framed vm earlier; fp = 15; sp = 20 }

looping-IsFrame : IsFrame looping.stack 15 15 earlier
looping-IsFrame = framed-IsFrame vm earlier

do_fail-do_skip_example :
    (do_skip runtime looping ≡ some (record looping { stack = refreshed looping }))
    × ((out : Vm) × (do_fail runtime (worked (record looping { stack = refreshed looping }))
          ≡ some out)
        × IsRestored (record looping { sp = looping.fp; fp = 15 }) 1040 out)
do_fail-do_skip_example =
    do_fail-do_skip runtime 2 looping 15 earlier ops changes
      (worked (record looping { stack = refreshed looping })) refl (omega arith) looping-IsFrame
      refl ops-AllHeld
      (record {
        on_top = refl;
        same_words = λ i lt. refl;
        logged = ops-logged;
        symbols = refl;
        ahead = omega arith;
      })

abbrev called : Vm
called = record vm { pos = 102; sp = 16; stack = update vm.stack 15 1008 }

do_ret-do_call_example :
    ((v : Vm) × (do_call 8 40 vm ≡ some v)
      × (v.pc ≡ moved vm.pc (sext32 40))
      × (v.sp ≡ vm.sp + 1)
      × (v.stack vm.sp ≡ moved vm.pc (sext32 8))
      × SameBelow vm v)
    × (do_ret called ≡ some (record called { sp = vm.sp; pc = moved vm.pc (sext32 8) }))
do_ret-do_call_example = do_ret-do_call vm called 8 40 (omega arith) refl refl

abbrev looked_ahead : Vm
looked_ahead = record vm { pos = 102; sp = 16; stack = update vm.stack 15 100 }

do_back-do_pos_example :
    ((v : Vm) × (do_pos vm ≡ some v)
      × (v.sp ≡ vm.sp + 1)
      × (v.stack vm.sp ≡ vm.pos)
      × SameBelow vm v)
    × (do_back looked_ahead ≡ some (record looked_ahead { sp = vm.sp; pos = vm.pos }))
do_back-do_pos_example = do_back-do_pos vm looked_ahead (omega arith) refl refl

-- `bytecode_base` is 500; the code at 600 fails, that at 700 returns.
abbrev fetch : ℕ → Option (Inst × ℕ)
fetch a =
    if a == 500
    then some (Inst.op_exit 0, 502)
    else if a == 502
    then some (Inst.op_exit 1, 504)
    else if a == 600
    then some (Inst.op_fail, 601)
    else if a == 700
    then some (Inst.op_ret 0, 705)
    else none

abbrev begun : Vm
begun = record vm { stack = update (framed vm (frame_now vm 502)) 20 500; fp = 15; sp = 21 }

vm-begun : moz_runtime_parse_init 500 100 vm ≡ some begun
unfolding moz_runtime_parse_init push push_frame
vm-begun = refl

moz_runtime_parse-success_example :
    moz_runtime_parse runtime fetch 2 (record (worked begun) { pc = 700 })
    ≡ some (exited 0 (record (worked begun) { sp = 20; pc = 502 }))
moz_runtime_parse-success_example =
    moz_runtime_parse-success runtime fetch 500 100 0 705 502 vm begun
      (record (worked begun) { pc = 700 }) vm-begun refl refl refl refl

do_rbyte-longest_example : do_rbyte runtime 97 vm ≡ some (consume_n vm 2)
do_rbyte-longest_example =
    do_rbyte-longest runtime 97 2 vm (omega arith) (λ i l. ground arith) refl (omega arith)
      (omega arith)

do_rset-longest_example : do_rset runtime 0 vm ≡ some (consume_n vm 2)
unfolding bitset_get
do_rset-longest_example =
    do_rset-longest runtime 0 2 letters vm refl (λ i l. ground arith)
      (λ i l. rw (letter_at i l) in_letters) not_in_letters (omega arith)
  where
    letter_at : (i : ℕ) → i < 2 → mem (100 + i) ≡ 97
    letter_at i l = ground arith

    in_letters : bitset_get letters 97 ≡ some true
    in_letters = refl

    not_in_letters : bitset_get letters 98 ≡ some false
    not_in_letters = refl

do_rstr-longest_example : do_rstr runtime 0 vm ≡ some (consume_n vm (2 * 1))
unfolding starts_with same_bytes
do_rstr-longest_example = do_rstr-longest runtime 0 2 letter vm refl copies refl (omega arith)
  where
    copies : (i : ℕ) → i < 2 → starts_with runtime (100 + i * 1) letter ≡ true
    copies zero l = refl
    copies (suc zero) l = refl
    copies (suc (suc i)) l = absurd (omega arith)

do_byte-AgreeOn_example :
    AgreeOn runtime vm
      (ltb (mem 100) 128 && (mem 100 == 97))
      1
      (do_byte runtime 97 vm)
      (do_nbyte runtime 97 vm)
      (do_obyte runtime 97 vm)
do_byte-AgreeOn_example = do_byte-AgreeOn runtime 97 vm (omega arith) (omega arith)

do_set-beyond_example :
    let v = consume_n vm 3 in
    (do_set runtime 1 v ≡ none) × (do_nset runtime 1 v ≡ none) × (do_oset runtime 1 v ≡ none)
do_set-beyond_example =
    do_set-beyond runtime 1 bitset_init (consume_n vm 3) refl bitset_init-IsValid (omega arith)
      (omega arith)

-- The table that Memo leaves for the frame of the position 98.
abbrev remembered : Memo
remembered = record looping.memo {
  ary = set looping.memo.ary (index_of looping.memo 98 0) (record {
    hash = hash_of looping.memo.shift 98 0;
    result = 0;
    consumed = consumed_since looping 98;
    state = 0;
  });
}

do_lookup-do_memo_example :
    (do_memo runtime 0 0 looping ≡ some (record looping { sp = 15; fp = 15; memo = remembered }))
    × (do_lookup runtime 0 0 8 (record vm { pos = 98; memo = remembered })
        ≡ some (jump (record vm { pos = 100; memo = remembered }) 8))
unfolding hash_of held
do_lookup-do_memo_example =
    do_lookup-do_memo runtime looping (record vm { pos = 98; memo = remembered }) 15 0 0 8 earlier
      empty_entry (omega arith) looping-IsFrame (omega arith) (omega arith) refl refl (omega arith)
      refl refl
