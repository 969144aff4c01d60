-- ===== src/Vm/Match.antt =====
-- src/vm1/instruction.def: the instructions that match input bytes.
use moz.Base.{
  ℕ, zero, suc, ◌+◌, ◌*◌, ◌%◌, Bool, not, Option, none, some, ◌==◌, if◌then◌else◌, get_elem?, ◌>>=◌,
}
use moz.Core.Bitset.{bitset_get}
use moz.Core.Jmptbl.{jump_table1_jump, jump_table2_jump, jump_table3_jump}
use moz.Libnez.Token.{Token, same_bytes}
use moz.Vm.State.{Runtime, Vm, current, consume, consume_n, do_fail, jump, moved, sext8}

-- pstring_starts_with_simple; the bytes before `text + len` are compared from the first on.
unfoldable pub starts_with : Runtime → ℕ → Token → Bool
starts_with r p text = same_bytes r.mem text.len p text.s

-- The two ways that a match continues.
abbrev pub consume_if : Runtime → Vm → Bool → ℕ → Option Vm
consume_if r vm ok n = let failed = do_fail r vm in if ok then some (consume_n vm n) else failed

abbrev pub fail_if : Runtime → Vm → Bool → Option Vm
fail_if r vm bad = let failed = do_fail r vm in if bad then failed else some vm

unfoldable pub do_byte : Runtime → ℕ → Vm → Option Vm
do_byte r ch vm = consume_if r vm (current r vm == ch) 1

unfoldable pub do_any : Runtime → Vm → Option Vm
do_any r vm = consume_if r vm (not (vm.pos == r.tail)) 1

unfoldable pub do_str : Runtime → ℕ → Vm → Option Vm
do_str r str_id vm = do
  str ← get_elem? r.strs str_id
  consume_if r vm (starts_with r vm.pos str) str.len

-- The index of a `char` that is negative is out of the range of the set: `none`.
unfoldable pub do_set : Runtime → ℕ → Vm → Option Vm
do_set r set_id vm = do
  s ← get_elem? r.sets set_id
  found ← bitset_get s (current r vm)
  consume_if r vm found 1

unfoldable pub do_nbyte : Runtime → ℕ → Vm → Option Vm
do_nbyte r ch vm = fail_if r vm (current r vm == ch)

unfoldable pub do_nany : Runtime → Vm → Option Vm
do_nany r vm = fail_if r vm (not (vm.pos == r.tail))

unfoldable pub do_nstr : Runtime → ℕ → Vm → Option Vm
do_nstr r str_id vm = do str ← get_elem? r.strs str_id; fail_if r vm (starts_with r vm.pos str)

unfoldable pub do_nset : Runtime → ℕ → Vm → Option Vm
do_nset r set_id vm = do
  s ← get_elem? r.sets set_id
  found ← bitset_get s (current r vm)
  fail_if r vm found

unfoldable pub do_obyte : Runtime → ℕ → Vm → Option Vm
do_obyte r ch vm = some (if current r vm == ch then consume vm else vm)

unfoldable pub do_ostr : Runtime → ℕ → Vm → Option Vm
do_ostr r str_id vm = do
  str ← get_elem? r.strs str_id
  some (if starts_with r vm.pos str then consume_n vm str.len else vm)

unfoldable pub do_oset : Runtime → ℕ → Vm → Option Vm
do_oset r set_id vm = do
  s ← get_elem? r.sets set_id
  found ← bitset_get s (current r vm)
  some (if found then consume vm else vm)

-- while (test) CONSUME_N(n), on fuel; `none` is a test that is undefined, or too many rounds.
unfoldable pub scan_while : ℕ → (Vm → Option Bool) → ℕ → Vm → Option Vm
scan_while zero test n vm = none
scan_while (suc left) test n vm = do
  ok ← test vm
  let rest = scan_while left test n (consume_n vm n)
  if ok then rest else some vm

-- Without MOZVM_USE_SSE4_2.
unfoldable pub do_rbyte : Runtime → ℕ → Vm → Option Vm
do_rbyte r ch vm = scan_while r.scan (λ v. some (current r v == ch)) 1 vm

unfoldable pub do_rstr : Runtime → ℕ → Vm → Option Vm
do_rstr r str_id vm = do
  str ← get_elem? r.strs str_id
  scan_while r.scan (λ v. some (starts_with r v.pos str)) str.len vm

unfoldable pub do_rset : Runtime → ℕ → Vm → Option Vm
do_rset r set_id vm = do
  s ← get_elem? r.sets set_id
  scan_while r.scan (λ v. bitset_get s (current r v)) 1 vm

unfoldable pub do_consume : ℕ → Vm → Option Vm
do_consume shift vm = some (record vm { pos = moved vm.pos (sext8 shift) })

-- jmpTable[(unsigned)*GET_CURRENT()], with MOZ_JMPTABLE_SIZE entries for each table
unfoldable pub do_first : Runtime → ℕ → Vm → Option Vm
do_first r tbl_id vm = do
  offset ← get_elem? r.jumps (256 * tbl_id + current r vm)
  some (jump vm offset)

-- The argument of jump_table1_jump is an `unsigned char`.
unfoldable pub do_tbl_jump1 : Runtime → ℕ → Vm → Option Vm
do_tbl_jump1 r tbl_id vm = do
  t ← get_elem? r.jumps1 tbl_id
  offset ← jump_table1_jump t (current r vm % 256)
  some (jump vm offset)

unfoldable pub do_tbl_jump2 : Runtime → ℕ → Vm → Option Vm
do_tbl_jump2 r tbl_id vm = do
  t ← get_elem? r.jumps2 tbl_id
  offset ← jump_table2_jump t (current r vm % 256)
  some (jump vm offset)

unfoldable pub do_tbl_jump3 : Runtime → ℕ → Vm → Option Vm
do_tbl_jump3 r tbl_id vm = do
  t ← get_elem? r.jumps3 tbl_id
  offset ← jump_table3_jump t (current r vm % 256)
  some (jump vm offset)
