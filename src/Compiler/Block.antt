-- ===== src/Compiler/Block.antt =====
-- src/compiler/block.c: the graph of basic blocks, with the operations of src/core/karray.h on
-- arrays of pointers. A pointer is an address, a graph a function from the addresses of blocks.
-- `none` is a failed assertion or a read out of range.
use moz.Base.{
  ℕ, suc, ◌+◌, ◌-◌, ◌%◌, ◌^◌, Bool, true, false, Option, none, some, List, [], ◌∷◌, ◌++◌, ◌>>=◌,
  ◌==◌, if◌then◌else◌, length, get_elem?, take, drop,
}
use Prim.Native.Nat.{bit_and, bit_or}

pub record Block : Type 0 where
  pub id : ℕ
  pub type : ℕ
  pub insts : List ℕ
  pub preds : List ℕ
  pub succs : List ℕ

abbrev pub Graph : Type 0
Graph = ℕ → Block

-- The comparison of ARRAY_add_once with the elements in turn.
unfoldable pub contains : ℕ → List ℕ → Bool
contains v [] = false
contains v (x ∷ xs) = let rest = contains v xs in if v == x then true else rest

-- ARRAY_add_once, where the array has room or grows. The arrays of block_new have the capacity 0,
-- from which the growth computes LOG2(1), undefined in C; Core/Karray has it as `none`.
unfoldable pub add_once : ℕ → List ℕ → List ℕ
add_once v xs = if contains v xs then xs else xs ++ v ∷ []

-- The first element that is equal goes.
unfoldable pub removed : ℕ → List ℕ → List ℕ
removed v [] = []
removed v (x ∷ xs) = let rest = removed v xs in if v == x then xs else x ∷ rest

-- assert(a->size > 0)
unfoldable pub remove_element : ℕ → List ℕ → Option (List ℕ)
remove_element v [] = none
remove_element v (x ∷ xs) = some (removed v (x ∷ xs))

-- The position of an element; `none` is -1.
unfoldable pub index_in : ℕ → List ℕ → Option ℕ
index_in v [] = none
index_in v (x ∷ xs) =
    let rest = index_in v xs >>= λ i. some (suc i) in if v == x then some 0 else rest

unfoldable pub block_set_type : ℕ → Block → Block
block_set_type type bb = record bb { type = bit_or bb.type type }

unfoldable pub block_is : ℕ → Block → Bool
block_is type bb = bit_and bb.type type == type

-- The new block of the id `max_block_id`, and the next id.
unfoldable pub block_new : ℕ → ℕ → Block × ℕ
block_new max_block_id type = (
  block_set_type type (record { id = max_block_id; type = 0; insts = []; preds = []; succs = [] }),
  (max_block_id + 1) % 2 ^ 32,
)

unfoldable pub block_size : Block → ℕ
block_size bb = length bb.insts

-- Two writes after each other, of the successors of one block and the predecessors of the other,
-- which may be the same block.
abbrev pub set_block : ℕ → Block → Graph → Graph
set_block p b g q = if q == p then b else g q

unfoldable pub block_link : ℕ → ℕ → Graph → Graph
block_link pred succ g =
    let g1 : Graph = set_block pred (record (g pred) { succs = add_once succ (g pred).succs }) g in
    set_block succ (record (g1 succ) { preds = add_once pred (g1 succ).preds }) g1

unfoldable pub block_unlink : ℕ → ℕ → Graph → Option Graph
block_unlink pred succ g = do
  succs ← remove_element succ (g pred).succs
  let g1 : Graph = set_block pred (record (g pred) { succs = succs }) g
  preds ← remove_element pred (g1 succ).preds
  some (set_block succ (record (g1 succ) { preds = preds }) g1)

-- The part of block_append that is about the block.
unfoldable pub block_append : ℕ → Block → Block
block_append inst bb = record bb { insts = bb.insts ++ inst ∷ [] }

unfoldable pub block_remove : ℕ → Block → Option Block
block_remove inst bb = do insts ← remove_element inst bb.insts; some (record bb { insts = insts })

unfoldable pub block_insert_before : ℕ → ℕ → Block → Option Block
block_insert_before target inst bb = do
  i ← index_in target bb.insts
  some (record bb { insts = take i bb.insts ++ inst ∷ drop i bb.insts })

-- `none` is NULL.
unfoldable pub block_get_last : Block → Option ℕ
block_get_last bb = if block_size bb == 0 then none else get_elem? bb.insts (block_size bb - 1)
