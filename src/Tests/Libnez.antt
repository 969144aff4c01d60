-- ===== src/Tests/Libnez.antt =====
-- Tests of src/libnez: tokens, hashes, the table of symbols and the memo table.
use moz.Base.{
  ℕ, ◌≡◌, refl, not, Option, none, some, List, [], ◌∷◌, arith, if◌then◌else◌, ◌==◌, replicate,
}
use moz.Libnez.Token.{Token}
use moz.Libnez.Symtable.{
  Symtable, is_null, symtable_init, symtable_add_symbol, symtable_add_symbol_mask,
  symtable_has_symbol, symtable_get_symbol, symtable_contains, symtable_savepoint,
  symtable_rollback,
}
use moz.Libnez.Symtable.Scope.{add, mask, apply_all, rollback-savepoint}
use moz.Libnez.Symtable.Visible.{
  visible, defined, first, some_equal, Hashed, get_symbol-defined, contains-visible,
  add_symbol-visible, add_symbol_mask-visible, has_symbol-mask,
}
use moz.Libnez.Memo.{Memo, MemoEntry, hash_of, memo_get, memo_entry_failed, empty_entry}
use moz.Libnez.Memo.Key.{IsKey}
use moz.Libnez.Memo.Sound.{Record, success, failure, record_in, replay, Agrees}
use moz.Libnez.Memo.Init.{empty-Agrees}
use moz.Libnez.Memo.Lookup.{IsAnswer, memo_get-latest, memo_get-failure}

-- The text "abab" at address 100.
abbrev mem : ℕ → ℕ
mem a =
    if a == 100
    then 97
    else if a == 101
    then 98
    else if a == 102
    then 97
    else if a == 103
    then 98
    else 0

abbrev junk : Token
junk = record { s = 0; len = 0 }

abbrev head_token : Token
head_token = record { s = 100; len = 2 }

abbrev tail_token : Token
tail_token = record { s = 102; len = 2 }

abbrev one_symbol : Symtable
one_symbol = symtable_add_symbol mem junk symtable_init 7 head_token

empty-Hashed : Hashed mem symtable_init.table
unfolding symtable_init
empty-Hashed = tt

one-Hashed : Hashed mem one_symbol.table
one-Hashed =
    (add_symbol-visible mem junk symtable_init 7 8 head_token (omega arith) (omega arith)
      empty-Hashed).0

rollback-savepoint_example :
    let closed =
      symtable_rollback
        (apply_all mem one_symbol (mask junk 7 ∷ add junk 7 tail_token ∷ []))
        (symtable_savepoint one_symbol) in
    (closed.table ≡ one_symbol.table)
    × (symtable_has_symbol closed 7 ≡ symtable_has_symbol one_symbol 7)
    × (symtable_get_symbol closed 7 ≡ symtable_get_symbol one_symbol 7)
    × (symtable_contains mem closed 7 head_token ≡ symtable_contains mem one_symbol 7 head_token)
rollback-savepoint_example =
    rollback-savepoint mem (mask junk 7 ∷ add junk 7 tail_token ∷ []) one_symbol 7 head_token

get_symbol-defined_example : symtable_get_symbol one_symbol 7 ≡ first (defined one_symbol.table 7)
get_symbol-defined_example = get_symbol-defined one_symbol 7

contains-visible_example :
    symtable_contains mem one_symbol 7 tail_token
    ≡ some_equal mem tail_token (visible one_symbol.table 7)
contains-visible_example = contains-visible mem one_symbol 7 tail_token one-Hashed

add_symbol-visible_example :
    Hashed mem (symtable_add_symbol mem junk one_symbol 7 tail_token).table
    × (visible (symtable_add_symbol mem junk one_symbol 7 tail_token).table 7
        ≡ tail_token ∷ visible one_symbol.table 7)
    × (visible (symtable_add_symbol mem junk one_symbol 7 tail_token).table 8
        ≡ visible one_symbol.table 8)
add_symbol-visible_example =
    add_symbol-visible mem junk one_symbol 7 8 tail_token (omega arith) (omega arith) one-Hashed

add_symbol_mask-visible_example :
    Hashed mem (symtable_add_symbol_mask junk one_symbol 7).table
    × (visible (symtable_add_symbol_mask junk one_symbol 7).table 7 ≡ [])
    × (visible (symtable_add_symbol_mask junk one_symbol 7).table 8 ≡ visible one_symbol.table 8)
add_symbol_mask-visible_example =
    add_symbol_mask-visible mem junk one_symbol 7 8 refl (omega arith) one-Hashed

has_symbol-mask_example :
    symtable_has_symbol (symtable_add_symbol_mask head_token symtable_init 7) 7
    ≡ not (is_null head_token)
has_symbol-mask_example = has_symbol-mask head_token symtable_init 7

-- An empty table of two slots for memo points below 8.
abbrev table : Memo
table = record { ary = replicate 2 empty_entry; shift = 3; mask = 1 }

table-Agrees : Agrees 3 1 [] table
table-Agrees = empty-Agrees 2 3 1 (omega arith)

key : IsKey 3 1000 5
key = record { not_null = omega arith; fits = omega arith; small = omega arith }

other-IsKey : IsKey 3 1001 4
other-IsKey = record { not_null = omega arith; fits = omega arith; small = omega arith }

abbrev records : List Record
records = failure 1001 4 ∷ success 1000 5 0 3 1 ∷ []

memo_get-latest_example :
    (m : Memo) × (replay records table ≡ some m)
    × ((out : Option MemoEntry) × (memo_get m 1000 5 1 ≡ some out) × IsAnswer records 1000 5 1 out)
memo_get-latest_example =
    memo_get-latest table records 1000 5 1 table-Agrees (other-IsKey, (key, tt)) key

memo_get-failure_example :
    (m' : Memo) × (record_in (failure 1001 4) table ≡ some m')
    × (memo_get m' 1001 4 2
        ≡ some (
            if empty_entry.state == 2
            then some (record {
              hash = hash_of table.shift 1001 4;
              result = memo_entry_failed;
              consumed = 0;
              state = 0;
            })
            else none))
unfolding hash_of
memo_get-failure_example = memo_get-failure table 1001 4 2 refl (omega arith)
