-- ===== src/Node/Heap.antt =====
-- src/node/node.c: allocation from pages and a free list, reference counts, and the operations of
-- a node. Objects of a page are numbered; page 0's header has the number 0, which is NULL's.
pub mod Alloc
use moz.Base.{
  ℕ, zero, suc, ◌+◌, ◌-◌, Bool, true, false, Option, none, some, List, [], ◌∷◌, ◌++◌, ◌==◌, ltb,
  if◌then◌else◌, ◌>>=◌, not,
}
use moz.Node.Entry.{
  NodeEntry, entry_length, entry_new, entry_get, entry_append, entry_store, small_array_limit,
}

-- `labelId` is kept beside the node: `Node_new` does not set it, so it outlives a reuse.
pub record Node : Type 0 where
  pub refc : ℕ
  pub tag : ℕ
  pub pos : ℕ
  pub value : ℕ
  pub len : ℕ
  pub entry : NodeEntry

-- A cell is `none` while its object is on the free list or in no page yet; `fresh` is the number
-- of the first object of the next page.
pub record Heap : Type 0 where
  pub cells : ℕ → Option Node
  pub label_id : ℕ → ℕ
  pub free_list : List ℕ
  pub free_object_count : ℕ
  pub fresh : ℕ

abbrev pub update {ℓ} : {A : Type ℓ} → (ℕ → A) → ℕ → A → ℕ → A
update f a v b = if a == b then v else f b

abbrev pub put : Heap → ℕ → Node → Heap
put h a n = record h { cells = update h.cells a (some n) }

-- PAGE_OBJECT_SIZE, for 8 * 4096 bytes a page and 64 bytes a node
abbrev pub page_object_size : ℕ
page_object_size = 511

-- The objects of a page, linked in order.
pub page_nodes : ℕ → ℕ → List ℕ
page_nodes zero first = []
page_nodes (suc n) first = first ∷ page_nodes n (first + 1)

-- assert(free_object_count == 0)
pub alloc_page : Heap → Option Heap
alloc_page h =
    if h.free_object_count == 0
    then some (record h {
      free_list = page_nodes page_object_size h.fresh ++ h.free_list;
      free_object_count = h.free_object_count + page_object_size;
      fresh = h.fresh + page_object_size + 1;
    })
    else none

pub NodeManager_init : Option Heap
NodeManager_init = alloc_page (record {
  cells = λ a. none;
  label_id = λ a. 0;
  free_list = [];
  free_object_count = 0;
  fresh = 1;
})

unfoldable pub pop_free : Heap → List ℕ → Option (ℕ × Heap)
pop_free h [] = none
pop_free h (o ∷ rest) =
    some (o, record h { free_list = rest; free_object_count = h.free_object_count - 1 })

abbrev pub is_empty : List ℕ → Bool
is_empty [] = true
is_empty (x ∷ xs) = false

unfoldable pub node_alloc : Heap → Option (ℕ × Heap)
node_alloc h = do h ← if is_empty h.free_list then alloc_page h else some h; pop_free h h.free_list

abbrev pub freed : Heap → ℕ → Heap
freed h o = record h {
  cells = update h.cells o none;
  free_list = o ∷ h.free_list;
  free_object_count = h.free_object_count + 1;
}

-- assert(o->__refc == 0)
pub node_free : Heap → ℕ → Option Heap
node_free h o = do n ← h.cells o; if n.refc == 0 then some (freed h o) else none

unfoldable pub Node_new : Heap → ℕ → ℕ → ℕ → ℕ → ℕ → Option (ℕ × Heap)
Node_new h tag str len elm_size value = do
  (o, h) ← node_alloc h
  some (
    o,
    put h o (record {
      refc = 0;
      tag = tag;
      pos = str;
      value = value;
      len = len;
      entry = entry_new elm_size;
    }),
  )

-- NODE_GC_RETAIN
unfoldable pub retain : Heap → ℕ → Option Heap
retain h o = do n ← h.cells o; some (put h o (record n { refc = n.refc + 1 }))

-- if (o) NODE_GC_RETAIN(o)
unfoldable pub retain_if : Heap → ℕ → Option Heap
retain_if h o = let retained = retain h o in if o == 0 then some h else retained

-- The loop of Node_sweep over the children from `i` on; `release` is NODE_GC_RELEASE.
pub sweep_children : (Heap → ℕ → Option Heap) → ℕ → ℕ → NodeEntry → Heap → Option Heap
sweep_children release zero i e h = some h
sweep_children release (suc left) i e h = do
  node ← entry_get e i
  let released = release h node
  h ← if node == 0 then some h else released
  sweep_children release left (i + 1) e h

-- assert(o->__refc == 0), the children, and then the node itself
pub Node_sweep : (Heap → ℕ → Option Heap) → Heap → ℕ → Option Heap
Node_sweep release h o = do
  n ← h.cells o
  let swept = sweep_children release (entry_length n.entry) 0 n.entry h
  h ← if n.refc == 0 then swept else none
  node_free h o

-- NODE_GC_RELEASE with Node_sweep; the fuel bounds the depth of nested sweeps.
unfoldable pub release : ℕ → Heap → ℕ → Option Heap
release zero h o = none
release (suc fuel) h o = do
  n ← h.cells o
  let h' = put h o (record n { refc = n.refc - 1 })
  let swept = Node_sweep (release fuel) h' o
  if n.refc == 0 then none else if n.refc - 1 == 0 then swept else some h'

unfoldable pub Node_length : Heap → ℕ → Option ℕ
Node_length h o = do n ← h.cells o; some (entry_length n.entry)

unfoldable pub Node_get : Heap → ℕ → ℕ → Option ℕ
Node_get h o index = do n ← h.cells o; entry_get n.entry index

unfoldable pub Node_append : Heap → ℕ → ℕ → Option Heap
Node_append h o n = do
  h ← retain_if h n
  node ← h.cells o
  e ← entry_append node.entry n
  some (put h o (record node { entry = e }))

-- while (index >= Node_length(o)) Node_append(o, NULL), on the rounds that are left
unfoldable pub fill : ℕ → Heap → ℕ → Option Heap
fill zero h o = some h
fill (suc left) h o = Node_append h o 0 >>= λ h'. fill left h' o

-- assert(o != n); a child that is replaced is released.
unfoldable pub Node_set : ℕ → Heap → ℕ → ℕ → ℕ → ℕ → Option Heap
Node_set fuel h o index label n = do
  v ← if o == n then none else Node_get h o index
  h ← retain h n
  let released = release fuel h v
  h ← if v == 0 then some h else released
  let h = record h { label_id = update h.label_id n label }
  len ← Node_length h o
  h ← fill (index + 1 - len) h o
  node ← h.cells o
  e ← entry_store node.entry index n
  some (put h o (record node { entry = e }))
