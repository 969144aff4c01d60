-- ===== src/Loader/Tables.antt =====
-- src/loader.c: the tables of jumps in the second pass of mozvm_loader_load.
use moz.Base.{ℕ, ◌+◌, ◌<◌, ◌≢◌, some, List, ◌%◌, ◌^◌, ◌⊎◌, ◌≡◌, get_elem?}
use moz.Loader.{Loader}
use moz.Loader.Opcode.{Opcode}
use moz.Loader.Dispatch.{jump_of}
use moz.Loader.Replaced.{Replaced}

-- The instructions that jump by a table, and what becomes of its entries.
pub data HasTable : Opcode → Type 0 where
  table_first : HasTable Opcode.code_first
  table_1 : HasTable Opcode.code_tbl_jump1
  table_2 : HasTable Opcode.code_tbl_jump2
  table_3 : HasTable Opcode.code_tbl_jump3

-- A jump of `o` bytes from `at`, in 32 bits, leads to the start of the instruction `x`.
pub record LeadsTo (table : List ℕ) (at x o : ℕ) : Type 0 where
  pub start : ℕ
  pub found : get_elem? table x ≡ some start
  pub lands : (at + o) % 2 ^ 32 ≡ start % 2 ^ 32

-- A small table marks the number 0 by INT_MAX, and nothing else.
abbrev pub LeadsShort : List ℕ → ℕ → ℕ → ℕ → Type 0
LeadsShort table at x o =
    ((x ≡ 0) × (o ≡ 2147483647)) ⊎ ((x ≢ 0) × (o ≢ 2147483647) × LeadsTo table at x o)

abbrev pub Leads : Opcode → List ℕ → ℕ → ℕ → ℕ → Type 0
Leads Opcode.code_first table at x o = LeadsTo table at x o
Leads _ table at x o = LeadsShort table at x o

-- Every byte that had a number has a jump that leads to the instruction of that number.
abbrev pub Jumps : Opcode → ℕ → ℕ → Loader → Loader → Type 0
Jumps op id at l l' =
    (ch x : ℕ)
    → ch < 256
    → jump_of l.consts op id ch ≡ some x
    → (o : ℕ) × (jump_of l'.consts op id ch ≡ some o) × Leads op l.table at x o
