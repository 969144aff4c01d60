-- ===== src/Tests/Ast.antt =====
-- Tests of src/libnez/ast.c: the trees of two logs, with the counts of their nodes.
use moz.Base.{ℕ, Option, none, some, [], ◌∷◌, ◌>>=◌, ◌≡◌, refl}
use moz.Node.Entry.{entry_append, entry_get, entry_length, entry_new, entry_store, raw}
use moz.Node.Heap.{
  Heap, Node, Node_append, Node_get, Node_length, Node_new, Node_set, fill, node_alloc, pop_free,
  release, retain, retain_if,
}
use moz.Libnez.Ast.{
  AstMachine, AstMachine_init, ast_log, ast_log_capture, ast_log_new, ast_log_pop, ast_log_push,
  ast_log_swap, ast_log_tag, ast_rollback_tx, release_links,
}
use moz.Libnez.Ast.Build.{
  ast_create_node, ast_get_parsed_node, construct_left, create_round, create_rounds, first_new,
  link_children,
}

abbrev heap : Heap
heap = record {
  cells = λ a. none;
  label_id = λ a. 0;
  free_list = 1 ∷ 2 ∷ 3 ∷ [];
  free_object_count = 3;
  fresh = 512;
}

abbrev leaf : (pos len tag : ℕ) → Node
leaf pos len tag = record {
  refc = 1;
  tag = tag;
  pos = pos;
  value = 0;
  len = len;
  entry = raw 0 0 0;
}

abbrev parent : (pos len tag : ℕ) → Node
parent pos len tag = record {
  refc = 1;
  tag = tag;
  pos = pos;
  value = 0;
  len = len;
  entry = raw 1 1 0;
}

-- The node of a log, with the first two objects of the heap.
abbrev tree : AstMachine → Option (ℕ × (Option Node × Option Node))
tree ast = ast_get_parsed_node 50 9 ast heap >>= λ (o, (_, h)). some (o, (h.cells 1, h.cells 2))

abbrev child_log : AstMachine
child_log =
    ast_log_tag
      (ast_log_capture
        (ast_log_pop
          (ast_log_tag
            (ast_log_capture
              (ast_log_new (ast_log_push (ast_log_new (AstMachine_init 100) 100)) 101) 103)
            7)
          4)
        105)
      9

-- A tree between push and pop is a child.
child_tree : tree child_log ≡ some (2, (some (leaf 101 2 7), some (parent 100 5 9)))
unfolding ast_get_parsed_node ast_create_node construct_left create_round create_rounds first_new
    link_children AstMachine_init ast_log ast_log_capture ast_log_new ast_log_pop ast_log_push
    ast_log_tag ast_rollback_tx release_links Node_append Node_get Node_length Node_new Node_set
    fill node_alloc pop_free release retain retain_if entry_append entry_get entry_length entry_new
    entry_store
child_tree = refl

abbrev fold_log : AstMachine
fold_log =
    ast_log_tag
      (ast_log_capture
        (ast_log_swap (ast_log_tag (ast_log_capture (ast_log_new (AstMachine_init 100) 100) 103) 7)
          100 4)
        105)
      9

-- A left fold makes what was built so far the first child.
fold_tree : tree fold_log ≡ some (2, (some (leaf 100 3 7), some (parent 100 5 9)))
unfolding ast_get_parsed_node ast_create_node construct_left create_round create_rounds first_new
    link_children AstMachine_init ast_log ast_log_capture ast_log_new ast_log_swap ast_log_tag
    ast_rollback_tx release_links Node_append Node_get Node_length Node_new Node_set fill node_alloc
    pop_free release retain retain_if entry_append entry_get entry_length entry_new entry_store
fold_tree = refl
