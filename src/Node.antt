-- ===== src/Node.antt =====
-- src/node/node.h and node.c with MOZVM_MEMORY_USE_RCGC, MOZVM_NODE_USE_MEMPOOL and
-- MOZVM_USE_FREE_LIST, and the macros of src/core/reference_count.h.
-- A node is named by a number; 0 is NULL. `none` is a failed assertion or an access through NULL
-- or through a node that was freed.
pub mod Entry
pub mod Heap
