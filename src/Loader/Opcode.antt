-- ===== src/Loader/Opcode.antt =====
-- src/vm1/instruction.h: the opcodes.
use moz.Base.{ℕ, Option, some, List, [], ◌∷◌, ◌==◌, if◌then◌else◌, get_elem?}

pub data Opcode : Type 0 where
  code_nop code_fail code_alt code_succ code_jump code_call code_ret code_pos : Opcode
  code_back code_skip code_byte code_any code_str code_set : Opcode
  code_nbyte code_nany code_nstr code_nset : Opcode
  code_obyte code_oany code_ostr code_oset : Opcode
  code_rbyte code_rany code_rstr code_rset : Opcode
  code_consume code_first code_lookup code_memo code_memo_fail : Opcode
  code_tpush code_tpop code_tleft_fold code_tnew code_tcapture code_ttag : Opcode
  code_treplace code_tstart code_tcommit code_tabort code_tlookup code_tmemo : Opcode
  code_sopen code_sclose code_smask code_sdef code_sis_def code_sexists : Opcode
  code_smatch code_sis code_sisa code_sdef_num code_scount code_exit : Opcode
  code_tbl_jump1 code_tbl_jump2 code_tbl_jump3 code_label : Opcode

abbrev pub number : Opcode → ℕ
number Opcode.code_nop = 0
number Opcode.code_fail = 1
number Opcode.code_alt = 2
number Opcode.code_succ = 3
number Opcode.code_jump = 4
number Opcode.code_call = 5
number Opcode.code_ret = 6
number Opcode.code_pos = 7
number Opcode.code_back = 8
number Opcode.code_skip = 9
number Opcode.code_byte = 10
number Opcode.code_any = 11
number Opcode.code_str = 12
number Opcode.code_set = 13
number Opcode.code_nbyte = 14
number Opcode.code_nany = 15
number Opcode.code_nstr = 16
number Opcode.code_nset = 17
number Opcode.code_obyte = 18
number Opcode.code_oany = 19
number Opcode.code_ostr = 20
number Opcode.code_oset = 21
number Opcode.code_rbyte = 22
number Opcode.code_rany = 23
number Opcode.code_rstr = 24
number Opcode.code_rset = 25
number Opcode.code_consume = 26
number Opcode.code_first = 27
number Opcode.code_lookup = 28
number Opcode.code_memo = 29
number Opcode.code_memo_fail = 30
number Opcode.code_tpush = 31
number Opcode.code_tpop = 32
number Opcode.code_tleft_fold = 33
number Opcode.code_tnew = 34
number Opcode.code_tcapture = 35
number Opcode.code_ttag = 36
number Opcode.code_treplace = 37
number Opcode.code_tstart = 38
number Opcode.code_tcommit = 39
number Opcode.code_tabort = 40
number Opcode.code_tlookup = 41
number Opcode.code_tmemo = 42
number Opcode.code_sopen = 43
number Opcode.code_sclose = 44
number Opcode.code_smask = 45
number Opcode.code_sdef = 46
number Opcode.code_sis_def = 47
number Opcode.code_sexists = 48
number Opcode.code_smatch = 49
number Opcode.code_sis = 50
number Opcode.code_sisa = 51
number Opcode.code_sdef_num = 52
number Opcode.code_scount = 53
number Opcode.code_exit = 54
number Opcode.code_tbl_jump1 = 55
number Opcode.code_tbl_jump2 = 56
number Opcode.code_tbl_jump3 = 57
number Opcode.code_label = 127

-- The opcodes in the order of their numbers, without Label.
abbrev opcodes : List Opcode
opcodes =
    Opcode.code_nop ∷ Opcode.code_fail ∷ Opcode.code_alt ∷ Opcode.code_succ ∷ Opcode.code_jump
    ∷ Opcode.code_call ∷ Opcode.code_ret ∷ Opcode.code_pos ∷ Opcode.code_back ∷ Opcode.code_skip
    ∷ Opcode.code_byte ∷ Opcode.code_any ∷ Opcode.code_str ∷ Opcode.code_set ∷ Opcode.code_nbyte
    ∷ Opcode.code_nany ∷ Opcode.code_nstr ∷ Opcode.code_nset ∷ Opcode.code_obyte ∷ Opcode.code_oany
    ∷ Opcode.code_ostr ∷ Opcode.code_oset ∷ Opcode.code_rbyte ∷ Opcode.code_rany ∷ Opcode.code_rstr
    ∷ Opcode.code_rset ∷ Opcode.code_consume ∷ Opcode.code_first ∷ Opcode.code_lookup
    ∷ Opcode.code_memo ∷ Opcode.code_memo_fail ∷ Opcode.code_tpush ∷ Opcode.code_tpop
    ∷ Opcode.code_tleft_fold ∷ Opcode.code_tnew ∷ Opcode.code_tcapture ∷ Opcode.code_ttag
    ∷ Opcode.code_treplace ∷ Opcode.code_tstart ∷ Opcode.code_tcommit ∷ Opcode.code_tabort
    ∷ Opcode.code_tlookup ∷ Opcode.code_tmemo ∷ Opcode.code_sopen ∷ Opcode.code_sclose
    ∷ Opcode.code_smask ∷ Opcode.code_sdef ∷ Opcode.code_sis_def ∷ Opcode.code_sexists
    ∷ Opcode.code_smatch ∷ Opcode.code_sis ∷ Opcode.code_sisa ∷ Opcode.code_sdef_num
    ∷ Opcode.code_scount ∷ Opcode.code_exit ∷ Opcode.code_tbl_jump1 ∷ Opcode.code_tbl_jump2
    ∷ Opcode.code_tbl_jump3 ∷ []

-- The opcode with a number; `none` is a number without one.
unfoldable pub opcode_of : ℕ → Option Opcode
opcode_of n = if n == 127 then some Opcode.code_label else get_elem? opcodes n
