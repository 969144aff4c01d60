-- ===== src/Tests/Loader.antt =====
-- Runs of the loader on small byte code, and of the run time object.
use moz.Base.{
  ℕ, zero, suc, ◌<◌, ◌&&◌, true, none, some, List, [], ◌∷◌, ◌++◌, ◌≡◌, refl, ◌==◌, if◌then◌else◌,
  arith,
}
use moz.Core.Bitset.{Bitset, bitset_get, bitset_init}
use moz.Core.Bitset.Laws.{IsValid}
use moz.Node.Heap.{Heap}
use moz.Libnez.Ast.{AstMachine_init}
use moz.Libnez.Symtable.{symtable_init}
use moz.Loader.{
  Constants, Loader, mozvm_loader_init, mozvm_loader_write32, mozvm_loader_write8,
  mozvm_loader_write_addr, mozvm_loader_write_opcode, peek8, read16, read24, read32, read8, skip,
}
use moz.Loader.Opcode.{Opcode, opcode_of}
use moz.Loader.Layout.{IsWhole, inst_bytes, size_of}
use moz.Loader.Syntax.{LoadResult, load_body, load_words, mozvm_loader_load_syntax}
use moz.Loader.Inst.{
  load_byte, load_case, load_jump, load_known, load_operands, mozvm_loader_load_inst,
}
use moz.Loader.Load.{displacement, load_all, load_one, mark_prod, record_start, relocate_all}
use moz.Loader.Emits.{Each}
use moz.Loader.Landing.{jump-displacement}
use moz.Loader.Rounds.{Finished, file_ops, inst_starts, load_all-IsLoaded, stream}
use moz.Loader.Loop.{Relocated, relocate_all-IsWhole}
use moz.Loader.Second.{size_of-IsSize}
use moz.Loader.Links.{HasAddr, Links}
use moz.Loader.Linked.{relocate_all-Linked}
use moz.Loader.Sets.{in_words, load_words-bitset_get, read32s}
use moz.Loader.BigEndian.{read32-value}
use moz.Loader.Header.{behind_header, mozvm_loader_load_syntax-header}
use moz.Vm.State.{Vm, jump}
use moz.Vm.Object.{IsReady, moz_runtime_init, moz_runtime_init-IsReady, moz_runtime_set_source}
use moz.Vm.Step.{moz_runtime_parse_init}

abbrev empty_heap : Heap
empty_heap = record {
  cells = λ a. none;
  label_id = λ a. 0;
  free_list = [];
  free_object_count = 0;
  fresh = 1;
}

abbrev entry : ℕ → List ℕ
entry n = 0 ∷ 0 ∷ n ∷ []

abbrev repeated : ℕ → List ℕ → List ℕ
repeated zero e = []
repeated (suc n) e = e ++ repeated n e

-- 257 entries: byte 97 goes to instruction 3, every other one to instruction 5.
abbrev entries : List ℕ
entries = repeated 97 (entry 5) ++ entry 3 ++ repeated 159 (entry 5)

abbrev targets : List ℕ
targets = repeated 97 (5 ∷ []) ++ 3 ∷ repeated 159 (5 ∷ [])

abbrev no_constants : Constants
no_constants = record {
  sets = [];
  tags = [];
  strs = [];
  tables = [];
  jumps = [];
  jumps1 = [];
  jumps2 = [];
  jumps3 = [];
  prods = record { begin_at = none; end_at = none; name = 83 ∷ [] } ∷ [];
  inst_size = 4;
  memo_size = 2;
}

abbrev loader : List ℕ → List ℕ → Loader
loader table buf = record {
  inst_size = 0;
  jmptbl_id = 0;
  jmptbl1_id = 0;
  jmptbl2_id = 0;
  jmptbl3_id = 0;
  consts = no_constants;
  room = 4;
  table = table;
  buf = buf;
}

-- Byte 'a'; Jump 2; Nop: the third instruction starts at 7.
abbrev jumping : Loader
jumping = loader (0 ∷ 2 ∷ 7 ∷ []) (10 ∷ 97 ∷ 4 ∷ 2 ∷ 0 ∷ 0 ∷ 0 ∷ 0 ∷ [])

byte-IsWhole : IsWhole (10 ∷ 97 ∷ [])
unfolding inst_bytes
byte-IsWhole = IsWhole.whole_inst Opcode.code_byte (97 ∷ []) [] refl IsWhole.whole_nil

nop-IsWhole : IsWhole (0 ∷ [])
unfolding inst_bytes
nop-IsWhole = IsWhole.whole_inst Opcode.code_nop [] [] refl IsWhole.whole_nil

jumping-IsWhole : IsWhole jumping.buf
unfolding inst_bytes
jumping-IsWhole =
    IsWhole.whole_inst Opcode.code_byte (97 ∷ []) (4 ∷ 2 ∷ 0 ∷ 0 ∷ 0 ∷ 0 ∷ []) refl
      (IsWhole.whole_inst Opcode.code_jump (2 ∷ 0 ∷ 0 ∷ 0 ∷ []) (0 ∷ []) refl nop-IsWhole)

-- Byte 'a'; Call 0 with the return address 2; Nop: the third instruction starts at 11.
abbrev calling : Loader
calling = loader (0 ∷ 2 ∷ 11 ∷ []) (10 ∷ 97 ∷ 5 ∷ 2 ∷ 0 ∷ 0 ∷ 0 ∷ 0 ∷ 0 ∷ 0 ∷ 0 ∷ 0 ∷ [])

relocate_all-Linked_example : Each (Links 8 11 calling) (relocate_all size_of 12 0 calling)
unfolding inst_bytes
relocate_all-Linked_example =
    relocate_all-Linked size_of calling 12 (10 ∷ 97 ∷ []) (2 ∷ 0 ∷ 0 ∷ 0 ∷ 0 ∷ 0 ∷ 0 ∷ 0 ∷ [])
      (0 ∷ []) Opcode.code_call size_of-IsSize HasAddr.addr_return refl byte-IsWhole refl
      nop-IsWhole (omega arith)

relocate_all-IsWhole_example :
    (relocate_all size_of 8 0 jumping ≡ relocate_all size_of 20 0 jumping)
    × Each (Relocated 8 jumping.table) (relocate_all size_of 20 0 jumping)
relocate_all-IsWhole_example =
    relocate_all-IsWhole size_of jumping 20 size_of-IsSize jumping-IsWhole (omega arith)
      (omega arith)

abbrev machine : Vm
machine = record {
  pc = 1060;
  pos = 100;
  sp = 15;
  fp = 15;
  head = 100;
  stack = λ i. 0;
  ast = AstMachine_init 100;
  tbl = symtable_init;
  memo = record { ary = []; shift = 2; mask = 0 };
  heap = empty_heap;
}

-- Back from the end of an instruction at 60 to the instruction 1, at 40.
jump-displacement_example :
    (o : ℕ) × (displacement (0 ∷ 40 ∷ []) 60 1 ≡ some o) × ((jump machine o).pc ≡ 1040)
jump-displacement_example =
    jump-displacement (0 ∷ 40 ∷ []) 1000 60 1 40 machine refl refl (omega arith) (omega arith)
      (omega arith) (omega arith)

-- Label 0; Byte 'a'; Ret
abbrev code : List ℕ
code = 127 ∷ 0 ∷ 0 ∷ 10 ∷ 97 ∷ 6 ∷ []

load_all-IsLoaded_example :
    (load_all 6 true 0 (mozvm_loader_init 0 no_constants 4) (stream code)
      ≡ load_all 10 true 0 (mozvm_loader_init 0 no_constants 4) (stream code))
    × Each
        (Finished (inst_starts 6 0 (mozvm_loader_init 0 no_constants 4) (stream code)))
        (load_all 10 true 0 (mozvm_loader_init 0 no_constants 4) (stream code))
unfolding file_ops load_one peek8 record_start mozvm_loader_load_inst read8 skip opcode_of
    load_known load_case load_operands load_jump read16 load_byte mark_prod mozvm_loader_init
    mozvm_loader_write_opcode mozvm_loader_write8 mozvm_loader_write_addr mozvm_loader_write32
load_all-IsLoaded_example = load_all-IsLoaded 0 4 no_constants code 10 (omega arith) refl

-- The set of the byte 33.
abbrev words : List ℕ
words = 0 ∷ 2 ∷ 0 ∷ 0 ∷ 0 ∷ 0 ∷ 0 ∷ 0 ∷ []

abbrev set_bytes : List ℕ
set_bytes = repeated 7 (0 ∷ []) ++ 2 ∷ repeated 24 (0 ∷ [])

load_words-bitset_get_example :
    (s : Bitset) × (load_words 8 0 bitset_init (stream set_bytes)
      ≡ some (s, record { pos = 32; end_pos = 32; bytes = set_bytes }))
    × IsValid s
    × ((i : ℕ) → i < 256 → bitset_get s i ≡ some (in_words words i))
unfolding read32s read32 read16 read8 skip
load_words-bitset_get_example =
    load_words-bitset_get (stream set_bytes) (record { pos = 32; end_pos = 32; bytes = set_bytes })
      words refl

read32-value_example :
    (read8 (stream (1 ∷ 2 ∷ 3 ∷ 4 ∷ [])) ≡ some (1, skip (stream (1 ∷ 2 ∷ 3 ∷ 4 ∷ [])) 1))
    × (read16 (stream (1 ∷ 2 ∷ 3 ∷ 4 ∷ [])) ≡ some (258, skip (stream (1 ∷ 2 ∷ 3 ∷ 4 ∷ [])) 2))
    × (read24 (stream (1 ∷ 2 ∷ 3 ∷ 4 ∷ [])) ≡ some (66051, skip (stream (1 ∷ 2 ∷ 3 ∷ 4 ∷ [])) 3))
    × (read32 (stream (1 ∷ 2 ∷ 3 ∷ 4 ∷ [])) ≡ some (16909060, skip (stream (1 ∷ 2 ∷ 3 ∷ 4 ∷ [])) 4))
read32-value_example =
    read32-value (stream (1 ∷ 2 ∷ 3 ∷ 4 ∷ [])) 1 2 3 4 [] (omega arith) (omega arith) (omega arith)
      (omega arith) refl

-- A shell script.
mozvm_loader_load_syntax-header_example :
    mozvm_loader_load_syntax size_of 10 10 1000 0 true (35 ∷ 33 ∷ 47 ∷ 98 ∷ []) ≡ (
      if 35 == 78 && 33 == 69 && 47 == 90
      then load_body size_of 10 10 1000 0 true (behind_header (35 ∷ 33 ∷ 47 ∷ 98 ∷ []))
      else some LoadResult.not_bytecode)
mozvm_loader_load_syntax-header_example =
    mozvm_loader_load_syntax-header size_of 10 10 1000 0 true 35 33 47 98 []

moz_runtime_init-IsReady_example :
    (vm : Vm) × (v : Vm) × (moz_runtime_init 4 empty_heap ≡ some vm)
    × (moz_runtime_parse_init 1000 100 (moz_runtime_set_source 100 vm) ≡ some v)
    × IsReady 1000 100 v
moz_runtime_init-IsReady_example =
    moz_runtime_init-IsReady 4 1000 100 empty_heap (omega arith) (omega arith)

-- A small table with the instruction 2 for every byte, behind TblJump1 0.
abbrev table_loader : Loader
table_loader = record (loader (0 ∷ 2 ∷ 7 ∷ []) (55 ∷ 0 ∷ 0 ∷ [])) {
  consts = record no_constants { jumps1 = record { b0 = bitset_init; jumps = 2 ∷ 0 ∷ [] } ∷ [] };
}
