-- ===== src/Loader/Load.antt =====
-- src/loader.c: mozvm_loader_load, the pass that writes the instructions and the pass that turns
-- the numbers of instructions in jumps into offsets. `size` is mozvm1_opcode_size of the generated
-- vm_inst.h; the rounds bound the two loops.
use moz.Base.{
  ℕ, zero, suc, ◌+◌, ◌-◌, ◌*◌, ◌%◌, ◌^◌, Bool, Option, none, some, List, [], ◌∷◌, ◌++◌, ◌>>=◌, ◌==◌,
  ltb, leb, if◌then◌else◌, length, get_elem?, set,
}
use moz.Core.Buffer.{stored}
use moz.Loader.{InputStream, Loader, Production, peek8}
use moz.Loader.Bytes.{read_at, set_byte, write_at}
use moz.Loader.Opcode.{Opcode, number, opcode_of}
use moz.Loader.First.{jmptable_size}
use moz.Loader.Inst.{mozvm_loader_load_inst}

-- A change of L->R->C.prods[id].
abbrev pub with_prod : ℕ → (Production → Production) → Loader → Option Loader
with_prod id f l = do
  p ← get_elem? l.consts.prods id
  some (record l { consts = record l.consts { prods = set l.consts.prods id (f p) } })

-- L->table[i++] = ARRAY_size(L->buf), where the table has room.
unfoldable pub record_start : Loader → Option Loader
record_start l =
    if ltb (length l.table) l.room
    then some
        (record l { table = l.table ++ length l.buf ∷ []; inst_size = (l.inst_size + 1) % 2 ^ 32 })
    else none

-- The bounds of a production after one of its instructions.
unfoldable pub mark_prod : ℕ → ℕ → ℕ → ℕ → Loader → Option (ℕ × Loader)
mark_prod opcode start prod prod_id l =
    if opcode == number Opcode.code_label
    then (do
      l ← with_prod prod (λ p. record p { begin_at = some start; end_at = some (length l.buf) }) l
      some (prod, l))
    else (do
      l ← with_prod prod_id (λ p. record p { end_at = some (length l.buf) }) l
      some (prod_id, l))

-- One round of while (is->pos < is->end).
unfoldable pub load_one : Bool → ℕ → Loader → InputStream → Option (ℕ × Loader × InputStream)
load_one opt prod_id l is = do
  opcode ← peek8 is
  let start = length l.buf
  l ← record_start l
  (prod, l, is) ← mozvm_loader_load_inst opt l is
  (prod_id, l) ← mark_prod opcode start prod prod_id l
  some (prod_id, l, is)

unfoldable pub load_all : ℕ → Bool → ℕ → Loader → InputStream → Option (Loader × InputStream)
load_all zero opt prod_id l is = if ltb is.pos is.end_pos then none else some (l, is)
load_all (suc rounds) opt prod_id l is =
    let rest = load_one opt prod_id l is >>= λ (prod_id, l, is). load_all rounds opt prod_id l is in
    if ltb is.pos is.end_pos then rest else some (l, is)

-- table[x] - at, in 32 bits; an index that is a negative `int` is beyond every table.
unfoldable pub displacement : List ℕ → ℕ → ℕ → Option ℕ
displacement table at x = do
  start ← get_elem? table x
  some ((start + (2 ^ 32 - at % 2 ^ 32)) % 2 ^ 32)

-- The place of an operand that ends `back` bytes after its start, before the next instruction.
abbrev pub place : ℕ → ℕ → Option ℕ
place at back = if leb back at then some (at - back) else none

-- *ref = L->table[*ref] - (j + shift)
unfoldable pub relocate_addr : ℕ → ℕ → Loader → Option Loader
relocate_addr at back l = do
  i ← place at back
  x ← read_at 4 i l.buf
  offset ← displacement l.table at x
  buf ← write_at (stored 4 offset) i l.buf
  some (record l { buf = buf })

-- INT_MAX
abbrev pub int_max : ℕ
int_max = 2 ^ 31 - 1

-- An entry of a small table: 0 marks an entry that has no jump.
unfoldable pub short_jump : List ℕ → ℕ → ℕ → Option ℕ
short_jump table at x =
    if x == 0
    then some int_max
    else displacement table at x >>= λ offset. if offset == int_max then none else some offset

-- for (i = 0; i < n; i++) jumps[i] = f(jumps[i]), on the rounds that are left.
unfoldable pub for_entries : (ℕ → Option ℕ) → ℕ → ℕ → List ℕ → Option (List ℕ)
for_entries f zero i jumps = some jumps
for_entries f (suc left) i jumps = do
  x ← get_elem? jumps i
  y ← f x
  for_entries f left (i + 1) (set jumps i y)

module _ (size : ℕ → ℕ) where
  -- L0: Jump L3 becomes L0: Ret where L3 is a Ret and the two have one size.
  unfoldable pub jump_to_ret : ℕ → ℕ → Loader → Option Loader
  jump_to_ret j at l = do
    i ← place at 4
    x ← read_at 4 i l.buf
    start ← get_elem? l.table x
    opcode ← get_elem? l.buf start
    buf ← if opcode == number Opcode.code_ret then set_byte j opcode l.buf else some l.buf
    some (record l { buf = buf })

  abbrev pub same_size : Bool
  same_size = size (number Opcode.code_jump) == size (number Opcode.code_ret)

  unfoldable pub relocate_jump : ℕ → ℕ → Loader → Option Loader
  relocate_jump j at l = do
    l ← if same_size then jump_to_ret j at l else some l
    relocate_addr at 4 l

  unfoldable pub relocate_call : ℕ → Loader → Option Loader
  relocate_call at l = do l ← relocate_addr at 8 l; relocate_addr at 4 l

  unfoldable pub relocate_first : ℕ → Loader → Option Loader
  relocate_first at l = do
    i ← place at 2
    tbl_id ← read_at 2 i l.buf
    jumps ←
        for_entries (displacement l.table at) jmptable_size (jmptable_size * tbl_id) l.consts.jumps
    some (record l { consts = record l.consts { jumps = jumps } })

  unfoldable pub relocate_table1 : ℕ → Loader → Option Loader
  relocate_table1 at l = do
    i ← place at 2
    tbl_id ← read_at 2 i l.buf
    t ← get_elem? l.consts.jumps1 tbl_id
    jumps ← for_entries (short_jump l.table at) 2 0 t.jumps
    let tables = set l.consts.jumps1 tbl_id (record t { jumps = jumps })
    some (record l { consts = record l.consts { jumps1 = tables } })

  unfoldable pub relocate_table2 : ℕ → Loader → Option Loader
  relocate_table2 at l = do
    i ← place at 2
    tbl_id ← read_at 2 i l.buf
    t ← get_elem? l.consts.jumps2 tbl_id
    jumps ← for_entries (short_jump l.table at) 4 0 t.jumps
    let tables = set l.consts.jumps2 tbl_id (record t { jumps = jumps })
    some (record l { consts = record l.consts { jumps2 = tables } })

  unfoldable pub relocate_table3 : ℕ → Loader → Option Loader
  relocate_table3 at l = do
    i ← place at 2
    tbl_id ← read_at 2 i l.buf
    t ← get_elem? l.consts.jumps3 tbl_id
    jumps ← for_entries (short_jump l.table at) 8 0 t.jumps
    let tables = set l.consts.jumps3 tbl_id (record t { jumps = jumps })
    some (record l { consts = record l.consts { jumps3 = tables } })

  -- The switch; `at` is the address of the next instruction.
  unfoldable pub relocate_case : Option Opcode → ℕ → ℕ → Loader → Option Loader
  relocate_case (some Opcode.code_jump) j at l = relocate_jump j at l
  relocate_case (some Opcode.code_call) j at l = relocate_call at l
  relocate_case (some Opcode.code_alt) j at l = relocate_addr at 4 l
  relocate_case (some Opcode.code_lookup) j at l = relocate_addr at 4 l
  relocate_case (some Opcode.code_tlookup) j at l = relocate_addr at 4 l
  relocate_case (some Opcode.code_first) j at l = relocate_first at l
  relocate_case (some Opcode.code_tbl_jump1) j at l = relocate_table1 at l
  relocate_case (some Opcode.code_tbl_jump2) j at l = relocate_table2 at l
  relocate_case (some Opcode.code_tbl_jump3) j at l = relocate_table3 at l
  relocate_case _ j at l = some l

  -- One round of while (j < ARRAY_size(L->buf)).
  unfoldable pub relocate_one : ℕ → Loader → Option (ℕ × Loader)
  relocate_one j l = do
    opcode ← get_elem? l.buf j
    let at = (j + size opcode) % 2 ^ 32
    l ← relocate_case (opcode_of opcode) j at l
    some (at, l)

  unfoldable pub relocate_all : ℕ → ℕ → Loader → Option Loader
  relocate_all zero j l = if ltb j (length l.buf) then none else some l
  relocate_all (suc rounds) j l =
      let rest = relocate_one j l >>= λ (j, l). relocate_all rounds j l in
      if ltb j (length l.buf) then rest else some l

  unfoldable pub mozvm_loader_load :
      ℕ → ℕ → Bool → Loader → InputStream → Option (Loader × InputStream)
  mozvm_loader_load rounds1 rounds2 opt l is = do
    (l, is) ← load_all rounds1 opt 0 l is
    l ← relocate_all rounds2 0 l
    some (l, is)
