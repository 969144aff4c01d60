-- ===== src/Loader/Layout.antt =====
-- src/vm1/instruction.def: the bytes of an instruction, its opcode and the operands that its DEF
-- line declares, and the size of a jump that follows an instruction.
use moz.Base.{ℕ, suc, Bool, true, false, Option, none, some, List, [], ◌∷◌, ◌++◌, ◌≡◌, ap, length}
use mathlib.Core.List.{append_assoc}
use moz.Loader.Opcode.{Opcode, number, opcode_of}

unfoldable pub inst_bytes : Opcode → ℕ
inst_bytes Opcode.code_alt = 5
inst_bytes Opcode.code_jump = 5
inst_bytes Opcode.code_call = 9
inst_bytes Opcode.code_ret = 5
inst_bytes Opcode.code_byte = 2
inst_bytes Opcode.code_nbyte = 2
inst_bytes Opcode.code_obyte = 2
inst_bytes Opcode.code_rbyte = 2
inst_bytes Opcode.code_str = 3
inst_bytes Opcode.code_nstr = 3
inst_bytes Opcode.code_ostr = 3
inst_bytes Opcode.code_rstr = 3
inst_bytes Opcode.code_set = 3
inst_bytes Opcode.code_nset = 3
inst_bytes Opcode.code_oset = 3
inst_bytes Opcode.code_rset = 3
inst_bytes Opcode.code_consume = 2
inst_bytes Opcode.code_first = 3
inst_bytes Opcode.code_lookup = 8
inst_bytes Opcode.code_memo = 4
inst_bytes Opcode.code_memo_fail = 4
inst_bytes Opcode.code_tpop = 3
inst_bytes Opcode.code_tleft_fold = 4
inst_bytes Opcode.code_tnew = 2
inst_bytes Opcode.code_tcapture = 2
inst_bytes Opcode.code_ttag = 3
inst_bytes Opcode.code_treplace = 3
inst_bytes Opcode.code_tcommit = 3
inst_bytes Opcode.code_tlookup = 10
inst_bytes Opcode.code_tmemo = 4
inst_bytes Opcode.code_smask = 3
inst_bytes Opcode.code_sdef = 3
inst_bytes Opcode.code_sis_def = 5
inst_bytes Opcode.code_sexists = 3
inst_bytes Opcode.code_smatch = 3
inst_bytes Opcode.code_sis = 3
inst_bytes Opcode.code_sisa = 3
inst_bytes Opcode.code_exit = 2
inst_bytes Opcode.code_tbl_jump1 = 3
inst_bytes Opcode.code_tbl_jump2 = 3
inst_bytes Opcode.code_tbl_jump3 = 3
inst_bytes _ = 1

-- A function of opcodes that gives the bytes of each instruction.
abbrev pub IsSize : (ℕ → ℕ) → Type 0
IsSize size = (op : Opcode) → size (number op) ≡ inst_bytes op

-- 1 for a number that is no opcode
unfoldable pub bytes_of : Option Opcode → ℕ
bytes_of none = 1
bytes_of (some op) = inst_bytes op

-- The function that looks a number up.
abbrev pub size_of : ℕ → ℕ
size_of n = bytes_of (opcode_of n)

-- The opcodes of a file; the loader makes the small tables' opcodes itself.
abbrev pub is_file_op : Opcode → Bool
is_file_op Opcode.code_tbl_jump1 = false
is_file_op Opcode.code_tbl_jump2 = false
is_file_op Opcode.code_tbl_jump3 = false
is_file_op _ = true

-- A buffer of whole instructions: opcodes, each with the operands that it declares.
pub data IsWhole : List ℕ → Type 0 where
  whole_nil : IsWhole []
  whole_inst :
      (op : Opcode) (operands rest : List ℕ)
      → suc (length operands) ≡ inst_bytes op
      → IsWhole rest
      → IsWhole (number op ∷ operands ++ rest)

pub IsWhole-append : (xs ys : List ℕ) → IsWhole xs → IsWhole ys → IsWhole (xs ++ ys)
IsWhole-append _ ys IsWhole.whole_nil w = w
IsWhole-append _ ys (IsWhole.whole_inst op operands rest h v) w =
    rw (ap (λ t. number op ∷ t) (append_assoc operands rest ys))
      (IsWhole.whole_inst op operands (rest ++ ys) h (IsWhole-append rest ys v w))
