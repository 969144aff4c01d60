-- ===== src/Loader/First.antt =====
-- src/loader.c: the dispatch tables of First, whose entries and different targets are collected,
-- and the arrays of tables, which grow by VM_REALLOC.
use moz.Base.{
  ℕ, zero, suc, ◌+◌, ◌-◌, ◌*◌, ◌%◌, ◌^◌, Bool, true, false, ◌&&◌, Option, none, some, List, [], ◌∷◌,
  ◌++◌, ◌>>=◌, ◌==◌, leb, if◌then◌else◌, length, take, replicate,
}
use moz.Core.Jmptbl.{
  JumpTable1, JumpTable2, JumpTable3, jump_table1_init, jump_table2_init, jump_table3_init,
}
use moz.Loader.{
  InputStream, Constants, Loader, read24, mozvm_loader_write16, mozvm_loader_write_opcode,
}
use moz.Loader.Opcode.{Opcode, number}

-- The entries before `n` after a VM_REALLOC to more than `n`; `none` where one of them would not be
-- initialised.
abbrev pub kept {ℓ} : {A : Type ℓ} → ℕ → List A → Option (List A)
kept n old = if leb n (length old) then some (take n old) else none

-- The arrays with the new entry in its place.
unfoldable pub alloc_jump_table1 : ℕ → JumpTable1 → Constants → Option Constants
alloc_jump_table1 tbl_id t c = do
  old ← kept tbl_id c.jumps1
  some (record c { jumps1 = old ++ t ∷ [] })

unfoldable pub alloc_jump_table2 : ℕ → JumpTable2 → Constants → Option Constants
alloc_jump_table2 tbl_id t c = do
  old ← kept tbl_id c.jumps2
  some (record c { jumps2 = old ++ t ∷ [] })

unfoldable pub alloc_jump_table3 : ℕ → JumpTable3 → Constants → Option Constants
alloc_jump_table3 tbl_id t c = do
  old ← kept tbl_id c.jumps3
  some (record c { jumps3 = old ++ t ∷ [] })

-- MOZ_JMPTABLE_SIZE
abbrev pub jmptable_size : ℕ
jmptable_size = 256

unfoldable pub alloc_jump_table : ℕ → List ℕ → Constants → Option Constants
alloc_jump_table tbl_id table c = do
  old ← kept (jmptable_size * tbl_id) c.jumps
  some (record c { jumps = old ++ take jmptable_size table })

-- The search for table[i] among the targets.
unfoldable pub is_target : ℕ → List ℕ → Bool
is_target v [] = false
is_target v (t ∷ ts) = let rest = is_target v ts in if v == t then true else rest

unfoldable pub add_target : ℕ → List ℕ → List ℕ
add_target v ts = if is_target v ts then ts else ts ++ v ∷ []

-- for (i = 0; i < 257; i++), on the rounds that are left: the targets and the entries.
unfoldable pub read_entries : ℕ → List ℕ → InputStream → Option (List ℕ × List ℕ × InputStream)
read_entries zero target is = some (target, [], is)
read_entries (suc left) target is = do
  (v, is) ← read24 is
  (target, table, is) ← read_entries left (add_target v target) is
  some (target, v ∷ table, is)

-- `target` up to its entry `n`: it is an array of 257 zeros before.
unfoldable pub padded : ℕ → List ℕ → List ℕ
padded n target = target ++ replicate (n - length target) 0

-- The instruction that a table is dispatched by, behind its opcode.
unfoldable pub write_table : Opcode → ℕ → Loader → Loader
write_table op tbl_id l = mozvm_loader_write16 tbl_id (mozvm_loader_write_opcode (number op) l)

unfoldable pub load_table1 : List ℕ → List ℕ → Loader → Option Loader
load_table1 target table l = do
  t ← jump_table1_init (padded 2 target) table
  consts ← alloc_jump_table1 (l.jmptbl1_id % 2 ^ 16) t l.consts
  some (
      write_table Opcode.code_tbl_jump1 (l.jmptbl1_id % 2 ^ 16)
        (record l { consts = consts; jmptbl1_id = (l.jmptbl1_id + 1) % 2 ^ 32 }))

unfoldable pub load_table2 : List ℕ → List ℕ → Loader → Option Loader
load_table2 target table l = do
  t ← jump_table2_init (padded 4 target) table
  consts ← alloc_jump_table2 (l.jmptbl2_id % 2 ^ 16) t l.consts
  some (
      write_table Opcode.code_tbl_jump2 (l.jmptbl2_id % 2 ^ 16)
        (record l { consts = consts; jmptbl2_id = (l.jmptbl2_id + 1) % 2 ^ 32 }))

unfoldable pub load_table3 : List ℕ → List ℕ → Loader → Option Loader
load_table3 target table l = do
  t ← jump_table3_init (padded 8 target) table
  consts ← alloc_jump_table3 (l.jmptbl3_id % 2 ^ 16) t l.consts
  some (
      write_table Opcode.code_tbl_jump3 (l.jmptbl3_id % 2 ^ 16)
        (record l { consts = consts; jmptbl3_id = (l.jmptbl3_id + 1) % 2 ^ 32 }))

unfoldable pub load_table : List ℕ → Loader → Option Loader
load_table table l = do
  consts ← alloc_jump_table (l.jmptbl_id % 2 ^ 16) table l.consts
  some (
      write_table Opcode.code_first (l.jmptbl_id % 2 ^ 16)
        (record l { consts = consts; jmptbl_id = (l.jmptbl_id + 1) % 2 ^ 32 }))

-- The choice between the tables.
unfoldable pub build_table : Bool → List ℕ → List ℕ → Loader → Option Loader
build_table opt target table l =
    if opt && leb (length target) 1
    then load_table1 target table l
    else if opt && leb (length target) 4
    then load_table2 target table l
    else if opt && leb (length target) 8
    then load_table3 target table l
    else load_table table l

-- The case of First.
unfoldable pub load_first : Bool → Loader → InputStream → Option (Loader × InputStream)
load_first opt l is = do
  (target, table, is) ← read_entries 257 [] is
  l ← build_table opt target table l
  some (l, is)
