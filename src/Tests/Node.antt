-- ===== src/Tests/Node.antt =====
-- Tests of src/node.
use moz.Base.{
  ℕ, ◌<◌, ◌≡◌, ◌++◌, refl, none, some, [], ◌∷◌, arith, if◌then◌else◌, ◌==◌, get_or, set, replicate,
}
use moz.Node.Entry.{NodeEntry, raw, entry_new, entry_get, entry_append, entry_store, entry_length}
use moz.Node.Entry.Laws
use moz.Node.Entry.Laws.{entry_children, entry_refines_list}
use moz.Node.Heap.{Heap, Node, Node_new, node_free}
use moz.Node.Heap.Alloc.{IsValid, Node_new-fresh, node_free-IsValid}

entry_refines_list_example :
    Laws.IsValid (entry_new 3)
    × (entry_children (entry_new 3) ≡ replicate 3 0)
    × (entry_get (raw 2 7 8) 1 ≡ some (get_or (entry_children (raw 2 7 8)) 1 0))
    × ((e' : NodeEntry) × (entry_append (raw 2 7 8) 9 ≡ some e')
        × Laws.IsValid e'
        × (entry_children e' ≡ entry_children (raw 2 7 8) ++ 9 ∷ []))
    × ((e' : NodeEntry) × (entry_store (raw 2 7 8) 0 9 ≡ some e')
        × Laws.IsValid e'
        × (entry_children e' ≡ set (entry_children (raw 2 7 8)) 0 9))
unfolding entry_length
entry_refines_list_example = entry_refines_list (raw 2 7 8) 0 9 3 (omega arith) (omega arith) 1

-- A heap with one page, one object of it in use.
abbrev one_node : Node
one_node = record { refc = 0; tag = 0; pos = 0; value = 0; len = 0; entry = raw 0 0 0 }

abbrev heap : Heap
heap = record {
  cells = λ a. if a == 1 then some one_node else none;
  label_id = λ a. 0;
  free_list = 2 ∷ 3 ∷ [];
  free_object_count = 2;
  fresh = 4;
}

heap-IsValid : IsValid heap
heap-IsValid = record {
  counted = refl;
  unused = ((refl, omega arith, omega arith), ((refl, omega arith, omega arith), tt));
  once = ((omega arith, tt), (tt, tt));
  beyond = λ a h. ground arith;
  null = refl;
  pages = omega arith;
}

Node_new-fresh_example :
    (o : ℕ) × (h' : Heap) × (Node_new heap 5 6 7 3 0 ≡ some (o, h'))
    × IsValid h'
    × (0 < o)
    × (heap.cells o ≡ none)
    × ((b : ℕ)
        → h'.cells b ≡ (
            if o == b
            then some
                (record { refc = 0; tag = 5; pos = 6; value = 0; len = 7; entry = entry_new 3 })
            else heap.cells b))
Node_new-fresh_example = Node_new-fresh heap 5 6 7 3 0 heap-IsValid

node_free-IsValid_example :
    (h' : Heap) × (node_free heap 1 ≡ some h')
    × IsValid h'
    × ((b : ℕ) → h'.cells b ≡ (if 1 == b then none else heap.cells b))
node_free-IsValid_example = node_free-IsValid heap 1 heap-IsValid refl refl
