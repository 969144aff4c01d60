-- ===== src/Libnez/Ast.antt =====
-- src/libnez/ast.h and ast.c, without AST_DEBUG and AST_LOG_UNBOX: the log of tree operations and
-- the construction of nodes from it. The list holds the array `logs` from its first entry on;
-- a pointer into the array is an index. `fuel` is that of the release of nodes.
pub mod Build
pub mod Rollback
use moz.Base.{
  ℕ, zero, suc, ◌+◌, ◌-◌, ◌%◌, ◌^◌, Bool, true, false, Option, none, some, List, [], ◌∷◌, ◌++◌,
  ◌==◌, leb, ltb, if◌then◌else◌, length, take, drop, ◌>>=◌,
}
use moz.Node.Heap.{Heap, retain_if, release}

pub data AstLogType : Type 0 where
  type_tag type_pop type_replace type_push type_left_fold type_new type_link type_capture :
      AstLogType

-- `e` is the word of the union `val`/`ref`, `i` that of the union `tag`/`labelId`/`pos`.
pub record AstLog : Type 0 where
  pub type : AstLogType
  pub shift : ℕ
  pub e : ℕ
  pub i : ℕ

pub record AstMachine : Type 0 where
  pub logs : List AstLog
  pub last_linked : ℕ
  pub parsed : ℕ
  pub source : ℕ

abbrev pub is_link : AstLogType → Bool
is_link type_link = true
is_link t = false

abbrev pub is_new : AstLogType → Bool
is_new type_new = true
is_new t = false

unfoldable pub AstMachine_init : ℕ → AstMachine
AstMachine_init source = record { logs = []; last_linked = 0; parsed = 0; source = source }

unfoldable pub ast_save_tx : AstMachine → ℕ
ast_save_tx ast = length ast.logs

unfoldable pub ast_log : AstMachine → AstLogType → ℕ → ℕ → AstMachine
ast_log ast type pos val = record ast {
  logs = ast.logs ++ record { type = type; shift = 0; e = val; i = pos } ∷ [];
}

unfoldable pub ast_log_new : AstMachine → ℕ → AstMachine
ast_log_new ast pos = ast_log ast type_new pos 0

unfoldable pub ast_log_capture : AstMachine → ℕ → AstMachine
ast_log_capture ast pos = ast_log ast type_capture pos 0

unfoldable pub ast_log_tag : AstMachine → ℕ → AstMachine
ast_log_tag ast tag = ast_log ast type_tag tag 0

pub ast_log_replace : AstMachine → ℕ → AstMachine
ast_log_replace ast str = ast_log ast type_replace str 0

unfoldable pub ast_log_swap : AstMachine → ℕ → ℕ → AstMachine
ast_log_swap ast pos label_id = ast_log ast type_left_fold pos label_id

unfoldable pub ast_log_push : AstMachine → AstMachine
ast_log_push ast = ast_log ast type_push 0 0

unfoldable pub ast_log_pop : AstMachine → ℕ → AstMachine
ast_log_pop ast label_id = ast_log ast type_pop label_id 0

unfoldable pub ast_log_link : AstMachine → Heap → ℕ → ℕ → Option (AstMachine × Heap)
ast_log_link ast h label_id node = do
  h ← retain_if h node
  some (record (ast_log ast type_link label_id node) { last_linked = node }, h)

-- The loop of ast_rollback_tx over the entries that are dropped.
unfoldable pub release_links : ℕ → List AstLog → Heap → Option Heap
release_links fuel [] h = some h
release_links fuel (cur ∷ rest) h = do
  let released = release fuel h cur.e
  h ← if is_link cur.type then (if cur.e == 0 then some h else released) else some h
  release_links fuel rest h

-- A size that is larger than that of the log brings stale entries of the array back: `none`.
unfoldable pub ast_rollback_tx : ℕ → AstMachine → Heap → ℕ → Option (AstMachine × Heap)
ast_rollback_tx fuel ast h tx = do
  h ← release_links fuel (drop tx ast.logs) h
  if leb tx (length ast.logs) then some (record ast { logs = take tx ast.logs }, h) else none
