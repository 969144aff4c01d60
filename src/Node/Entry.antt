-- ===== src/Node/Entry.antt =====
-- The union `entry` of src/node/node.h: a small array in place, or an `ARRAY(NodePtr)`. Both keep
-- their size in the same word, and the code tells them apart by that size.
pub mod Laws
use moz.Base.{
  ℕ, ◌+◌, Option, none, some, List, [], ◌∷◌, ◌++◌, ◌==◌, ltb, if◌then◌else◌, length, get_elem?, set,
  replicate, ◌<◌, ◌>>=◌,
}

pub data NodeEntry : Type 0 where
  raw : ℕ → ℕ → ℕ → NodeEntry
  array : List ℕ → NodeEntry

-- MOZVM_SMALL_ARRAY_LIMIT
abbrev pub small_array_limit : ℕ
small_array_limit = 2

unfoldable pub entry_length : NodeEntry → ℕ
entry_length (raw size e0 e1) = size
entry_length (array xs) = length xs

-- `none` is an access through the wrong arm of the union.
abbrev pub as_array : NodeEntry → Option (List ℕ)
as_array (raw size e0 e1) = none
as_array (array xs) = some xs

abbrev pub as_raw : NodeEntry → Option (ℕ × ℕ)
as_raw (raw size e0 e1) = some (e0, e1)
as_raw (array xs) = none

-- What `Node_new` leaves in the entry.
unfoldable pub entry_new : ℕ → NodeEntry
entry_new elm_size =
    if ltb small_array_limit elm_size then array (replicate elm_size 0) else raw elm_size 0 0

-- Node_get
unfoldable pub entry_get : NodeEntry → ℕ → Option ℕ
entry_get e index =
    let large = as_array e >>= λ xs. get_elem? xs index in
    let small = as_raw e >>= λ (e0, e1). some (if index == 0 then e0 else e1) in
    if ltb index (entry_length e)
    then (if ltb small_array_limit (entry_length e) then large else small)
    else some 0

-- The stores of Node_append.
unfoldable pub entry_append : NodeEntry → ℕ → Option NodeEntry
entry_append e n =
    let large = as_array e >>= λ xs. some (array (xs ++ n ∷ [])) in
    let move = as_raw e >>= λ (e0, e1). some (array (e0 ∷ e1 ∷ n ∷ [])) in
    let second = as_raw e >>= λ (e0, e1). some (raw (entry_length e + 1) e0 n) in
    let only = as_raw e >>= λ (e0, e1). some (raw (entry_length e + 1) n e1) in
    if ltb small_array_limit (entry_length e)
    then large
    else if entry_length e == 2
    then move
    else if entry_length e == 1
    then second
    else only

-- The last stores of Node_set.
unfoldable pub entry_store : NodeEntry → ℕ → ℕ → Option NodeEntry
entry_store e index n =
    let large = as_array e >>= λ xs. some (array (set xs index n)) in
    let small = as_raw e >>= λ (e0, e1).
    some (if index == 0 then raw (entry_length e) n e1 else raw (entry_length e) e0 n) in
    if ltb small_array_limit (entry_length e) then large else small
