-- ===== src/Loader/Dispatch.antt =====
-- src/loader.c: the table that First is loaded into, against the entries of the file.
use moz.Base.{
  ℕ, ◌+◌, ◌*◌, ◌^◌, ◌≤◌, ◌<◌, Option, none, some, List, ◌++◌, ◌≡◌, ◌>>=◌, length, get_elem?, get_or,
}
use moz.Core.Buffer.{stored}
use moz.Core.Jmptbl.{jump_table1_jump, jump_table2_jump, jump_table3_jump}
use moz.Loader.{Constants, Loader}
use moz.Loader.Opcode.{Opcode, number}
use moz.Loader.Targets.{IsIn}

module _ (table : List ℕ) (enough : 256 ≤ length table) where
  -- The targets hold every entry that a byte can select.
  Covers : List ℕ → Type 0
  Covers ts = (ch : ℕ) → ch < 256 → IsIn (get_or table ch 0) ts

-- The jump of a byte by the instruction that is written, as the machine's handlers look it up.
abbrev pub jump_of : Constants → Opcode → ℕ → ℕ → Option ℕ
jump_of c Opcode.code_tbl_jump1 id ch = get_elem? c.jumps1 id >>= λ t. jump_table1_jump t ch
jump_of c Opcode.code_tbl_jump2 id ch = get_elem? c.jumps2 id >>= λ t. jump_table2_jump t ch
jump_of c Opcode.code_tbl_jump3 id ch = get_elem? c.jumps3 id >>= λ t. jump_table3_jump t ch
jump_of c Opcode.code_first id ch = get_elem? c.jumps (256 * id + ch)
jump_of c _ id ch = none

-- The numbers of tables are those that are handed out, and another table has a 16-bit index.
pub record TablesFit (l : Loader) : Type 0 where
  pub tables1 : length l.consts.jumps1 ≡ l.jmptbl1_id
  pub tables2 : length l.consts.jumps2 ≡ l.jmptbl2_id
  pub tables3 : length l.consts.jumps3 ≡ l.jmptbl3_id
  pub tables : length l.consts.jumps ≡ 256 * l.jmptbl_id
  pub room1 : l.jmptbl1_id < 2 ^ 16
  pub room2 : l.jmptbl2_id < 2 ^ 16
  pub room3 : l.jmptbl3_id < 2 ^ 16
  pub room : l.jmptbl_id < 2 ^ 16

-- An instruction that is written with a table that agrees with the entries.
pub record Dispatches (l : Loader) (table : List ℕ) (l' : Loader) : Type 0 where
  pub op : Opcode
  pub id : ℕ
  pub written : l'.buf ≡ l.buf ++ stored 1 (number op) ++ stored 2 id
  pub jumps : (ch : ℕ) → ch < 256 → jump_of l'.consts op id ch ≡ get_elem? table ch

Built : Loader → List ℕ → Option Loader → Type 0
Built l table o = (l' : Loader) × (o ≡ some l') × Dispatches l table l'
