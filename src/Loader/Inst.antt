-- ===== src/Loader/Inst.antt =====
-- src/loader.c: mozvm_loader_load_inst, which reads one instruction and writes its code.
use Prim.Native.Nat.{bit_and}
use moz.Base.{
  ℕ, Bool, true, false, not, ◌&&◌, Option, none, some, List, ◌>>=◌, ◌==◌, ltb, if◌then◌else◌,
  length,
}
use moz.Loader.{
  InputStream, Loader, mozvm_loader_write16, mozvm_loader_write8, mozvm_loader_write_addr,
  mozvm_loader_write_id, mozvm_loader_write_opcode, read16, read24, read32, read8,
}
use moz.Loader.Opcode.{Opcode, number, opcode_of}
use moz.Loader.First.{load_first}

-- A constant's entry is looked up before its index is written; of a set, only its address is taken.
abbrev pub checked {ℓ} : {A : Type ℓ} → ℕ → List A → Loader → Option Loader
checked id entries l = if ltb id (length entries) then some l else none

-- An operand of a byte.
unfoldable pub load_byte : Loader → InputStream → Option (Loader × InputStream)
load_byte l is = do (ch, is) ← read8 is; some (mozvm_loader_write8 ch l, is)

unfoldable pub load_addr : Loader → InputStream → Option (Loader × InputStream)
load_addr l is = do (addr, is) ← read24 is; some (mozvm_loader_write_addr addr l, is)

unfoldable pub load_id {ℓ} :
    {A : Type ℓ} → List A → Loader → InputStream → Option (Loader × InputStream)
load_id entries l is = do
  (id, is) ← read16 is
  l ← checked id entries l
  some (mozvm_loader_write_id id l, is)

-- Call: without MOZVM_USE_PROD the number of the production is dropped.
unfoldable pub load_call : Loader → InputStream → Option (Loader × InputStream)
load_call l is = do
  (next, is) ← read24 is
  (prod, is) ← read16 is
  (jump, is) ← read24 is
  some (mozvm_loader_write_addr jump (mozvm_loader_write_addr next l), is)

-- Memo, MemoFail and TMemo: of the 32 bits of the memo point 16 are written.
unfoldable pub load_memo : Loader → InputStream → Option (Loader × InputStream)
load_memo l is = do
  (state, is) ← read8 is
  (memo_id, is) ← read32 is
  some (mozvm_loader_write16 memo_id (mozvm_loader_write8 state l), is)

unfoldable pub load_lookup : Loader → InputStream → Option (Loader × InputStream)
load_lookup l is = do
  (state, is) ← read8 is
  (memo_id, is) ← read32 is
  (skip, is) ← read24 is
  some (
    mozvm_loader_write_addr skip (mozvm_loader_write16 memo_id (mozvm_loader_write8 state l)),
    is,
  )

unfoldable pub load_tlookup : Loader → InputStream → Option (Loader × InputStream)
load_tlookup l is = do
  (state, is) ← read8 is
  (memo_id, is) ← read32 is
  (skip, is) ← read24 is
  (tag_id, is) ← read16 is
  l ← checked tag_id l.consts.tags l
  let l = mozvm_loader_write_id tag_id (mozvm_loader_write8 state l)
  some (mozvm_loader_write_addr skip (mozvm_loader_write16 memo_id l), is)

unfoldable pub load_tleft_fold : Loader → InputStream → Option (Loader × InputStream)
load_tleft_fold l is = do
  (shift, is) ← read8 is
  (tag_id, is) ← read16 is
  l ← checked tag_id l.consts.tags l
  some (mozvm_loader_write_id tag_id (mozvm_loader_write8 shift l), is)

unfoldable pub load_sis_def : Loader → InputStream → Option (Loader × InputStream)
load_sis_def l is = do
  (tbl_id, is) ← read16 is
  (str_id, is) ← read16 is
  l ← checked tbl_id l.consts.tables l
  l ← checked str_id l.consts.strs l
  some (mozvm_loader_write_id str_id (mozvm_loader_write_id tbl_id l), is)

-- The switch, for the opcodes that write operands; TAbort, SDefNum and SCount trap.
unfoldable pub load_operands : Bool → Opcode → Loader → InputStream → Option (Loader × InputStream)
load_operands opt Opcode.code_alt l is = load_addr l is
load_operands opt Opcode.code_jump l is = load_addr l is
load_operands opt Opcode.code_call l is = load_call l is
load_operands opt Opcode.code_ret l is = some (mozvm_loader_write_addr 0 l, is)
load_operands opt Opcode.code_byte l is = load_byte l is
load_operands opt Opcode.code_nbyte l is = load_byte l is
load_operands opt Opcode.code_obyte l is = load_byte l is
load_operands opt Opcode.code_rbyte l is = load_byte l is
load_operands opt Opcode.code_str l is = load_id l.consts.strs l is
load_operands opt Opcode.code_nstr l is = load_id l.consts.strs l is
load_operands opt Opcode.code_ostr l is = load_id l.consts.strs l is
load_operands opt Opcode.code_rstr l is = load_id l.consts.strs l is
load_operands opt Opcode.code_set l is = load_id l.consts.sets l is
load_operands opt Opcode.code_nset l is = load_id l.consts.sets l is
load_operands opt Opcode.code_oset l is = load_id l.consts.sets l is
load_operands opt Opcode.code_rset l is = load_id l.consts.sets l is
load_operands opt Opcode.code_consume l is = load_byte l is
load_operands opt Opcode.code_first l is = load_first opt l is
load_operands opt Opcode.code_lookup l is = load_lookup l is
load_operands opt Opcode.code_memo l is = load_memo l is
load_operands opt Opcode.code_memo_fail l is = load_memo l is
load_operands opt Opcode.code_tpop l is = load_id l.consts.tags l is
load_operands opt Opcode.code_tleft_fold l is = load_tleft_fold l is
load_operands opt Opcode.code_tnew l is = load_byte l is
load_operands opt Opcode.code_tcapture l is = load_byte l is
load_operands opt Opcode.code_ttag l is = load_id l.consts.tags l is
load_operands opt Opcode.code_treplace l is = load_id l.consts.strs l is
load_operands opt Opcode.code_tcommit l is = load_id l.consts.tags l is
load_operands opt Opcode.code_tabort l is = none
load_operands opt Opcode.code_tlookup l is = load_tlookup l is
load_operands opt Opcode.code_tmemo l is = load_memo l is
load_operands opt Opcode.code_sis_def l is = load_sis_def l is
load_operands opt Opcode.code_smask l is = load_id l.consts.tables l is
load_operands opt Opcode.code_sdef l is = load_id l.consts.tables l is
load_operands opt Opcode.code_sexists l is = load_id l.consts.tables l is
load_operands opt Opcode.code_smatch l is = load_id l.consts.tables l is
load_operands opt Opcode.code_sis l is = load_id l.consts.tables l is
load_operands opt Opcode.code_sisa l is = load_id l.consts.tables l is
load_operands opt Opcode.code_sdef_num l is = none
load_operands opt Opcode.code_scount l is = none
load_operands opt Opcode.code_exit l is = load_byte l is
load_operands opt _ l is = some (l, is)

-- Label without MOZVM_EMIT_OP_LABEL: it gives the number of the production and writes nothing.
unfoldable pub load_case : Bool → Opcode → Loader → InputStream → Option (ℕ × Loader × InputStream)
load_case opt Opcode.code_label l is = do (label, is) ← read16 is; some (label, l, is)
load_case opt op l is = do (l, is) ← load_operands opt op l is; some (0, l, is)

-- get_next clears `has_jump`: Jump and Call hold their jump themselves.
abbrev pub own_jump : Opcode → Bool
own_jump Opcode.code_jump = true
own_jump Opcode.code_call = true
own_jump _ = false

-- The opcodes that the optimising loader does not write by itself.
abbrev pub skipped : Opcode → Bool
skipped Opcode.code_nop = true
skipped Opcode.code_first = true
skipped Opcode.code_label = true
skipped _ = false

-- if (has_jump) { ... }
unfoldable pub load_jump : Bool → Loader → InputStream → Option (Loader × InputStream)
load_jump has_jump l is =
    if has_jump
    then load_addr (mozvm_loader_write_opcode (number Opcode.code_jump) l) is
    else some (l, is)

-- An opcode of the input without its highest bit, which says that a jump follows; a number that is
-- no opcode is written as it is.
unfoldable pub load_known :
    Bool → Bool → Opcode → Loader → InputStream → Option (ℕ × Loader × InputStream)
load_known opt has_jump op l is = do
  let l = if opt && skipped op then l else mozvm_loader_write_opcode (number op) l
  (prod, l, is) ← load_case opt op l is
  (l, is) ← load_jump (has_jump && not (own_jump op)) l is
  some (prod, l, is)

unfoldable pub load_unknown : Bool → ℕ → Loader → InputStream → Option (ℕ × Loader × InputStream)
load_unknown has_jump n l is = do
  (l, is) ← load_jump has_jump (mozvm_loader_write_opcode n l) is
  some (0, l, is)

abbrev pub load_decoded :
    Bool → Bool → ℕ → Option Opcode → Loader → InputStream → Option (ℕ × Loader × InputStream)
load_decoded opt has_jump n none l is = load_unknown has_jump n l is
load_decoded opt has_jump n (some op) l is = load_known opt has_jump op l is

unfoldable pub mozvm_loader_load_inst :
    Bool → Loader → InputStream → Option (ℕ × Loader × InputStream)
mozvm_loader_load_inst opt l is = do
  (byte, is) ← read8 is
  let n = bit_and byte 127
  load_decoded opt (not (bit_and byte 128 == 0)) n (opcode_of n) l is
