-- ===== src/Libnez/Symtable.antt =====
-- src/libnez/symtable.h and symtable.c: the table of symbols that a grammar defines while it
-- parses. The list holds the array from its last entry to its first, so `ARRAY_last` is the head
-- and a loop from `ARRAY_last` down to entry 0 is a recursion on the list.
-- `mem` is the read-only memory that tokens point into; NULL is 0; a table name is its address.
pub mod Scope
pub mod Visible
use moz.Base.{
  ℕ, ◌+◌, ◌-◌, ◌%◌, ◌^◌, Bool, true, false, not, Option, none, some, List, [], ◌∷◌, ◌==◌, ◌&&◌,
  if◌then◌else◌, length, drop,
}
use moz.Libnez.Token.{Token, token_copy, token_equal}
use moz.Libnez.Khash.{fnv1a}

pub record Entry : Type 0 where
  pub state : ℕ
  pub hash : ℕ
  pub tag : ℕ
  pub sym : Token

pub record Symtable : Type 0 where
  pub state : ℕ
  pub table : List Entry

unfoldable pub symtable_init : Symtable
symtable_init = record { state = 0; table = [] }

-- `if (t) token_copy(&entry.sym, t)`: with no token `entry.sym` keeps what the stack slot of the
-- local variable held, here `junk`.
pub pushed_sym : Token → Option Token → Token
pushed_sym junk none = junk
pushed_sym junk (some t) = token_copy t

pub symtable_push : Token → Symtable → ℕ → ℕ → Option Token → Symtable
symtable_push junk tbl tag hash t = record {
  state = (tbl.state + 1) % 2 ^ 32;
  table = record { state = tbl.state; hash = hash; tag = tag; sym = pushed_sym junk t } ∷ tbl.table;
}

pub symtable_add_symbol_mask : Token → Symtable → ℕ → Symtable
symtable_add_symbol_mask junk tbl table_name = symtable_push junk tbl table_name 0 none

abbrev pub is_null : Token → Bool
is_null t = t.s == 0

-- if (cur->tag == tableName) return cur->sym.s != NULL
pub has_loop : List Entry → ℕ → Bool
has_loop [] table_name = false
has_loop (cur ∷ rest) table_name =
    if cur.tag == table_name then not (is_null cur.sym) else has_loop rest table_name

pub symtable_has_symbol : Symtable → ℕ → Bool
symtable_has_symbol tbl table_name = has_loop tbl.table table_name

-- The token that the loop copies into `*t`; `none` is the result 0, which leaves `*t` alone.
pub get_loop : List Entry → ℕ → Option Token
get_loop [] table_name = none
get_loop (cur ∷ rest) table_name =
    if cur.tag == table_name && not (is_null cur.sym)
    then some (token_copy cur.sym)
    else get_loop rest table_name

pub symtable_get_symbol : Symtable → ℕ → Option Token
symtable_get_symbol tbl table_name = get_loop tbl.table table_name

module _ (mem : ℕ → ℕ) where
  pub symtable_add_symbol : Token → Symtable → ℕ → Token → Symtable
  symtable_add_symbol junk tbl table_name captured =
      symtable_push junk tbl table_name (fnv1a mem captured.s captured.len) (some captured)

  pub contains_loop : List Entry → ℕ → ℕ → Token → Bool
  contains_loop [] table_name hash t = false
  contains_loop (cur ∷ rest) table_name hash t =
      let later = contains_loop rest table_name hash t in
      if cur.tag == table_name
      then (if is_null cur.sym
          then false
          else if hash == cur.hash && token_equal mem t cur.sym
          then true
          else later)
      else later

  pub symtable_contains : Symtable → ℕ → Token → Bool
  symtable_contains tbl table_name t = contains_loop tbl.table table_name (fnv1a mem t.s t.len) t

unfoldable pub symtable_savepoint : Symtable → ℕ
symtable_savepoint tbl = length tbl.table

-- ARRAY_size(tbl->table) = saved: the entries from `saved` on are dropped.
-- `saved` is the size at an earlier savepoint and no larger than the size now; a larger one would
-- bring stale entries of the array back, and leaves the list alone here.
pub symtable_rollback : Symtable → ℕ → Symtable
symtable_rollback tbl saved = record tbl { table = drop (length tbl.table - saved) tbl.table }
