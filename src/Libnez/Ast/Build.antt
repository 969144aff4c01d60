-- ===== src/Libnez/Ast/Build.antt =====
-- src/libnez/ast.c: constructLeft, ast_create_node, ast_commit_tx and ast_get_parsed_node.
use moz.Base.{
  ℕ, zero, suc, ◌+◌, ◌-◌, ◌%◌, ◌^◌, not, Option, none, some, List, [], ◌∷◌, ◌==◌, leb,
  if◌then◌else◌, length, get_elem?, set, ◌>>=◌,
}
use moz.Node.Heap.{Heap, Node_new, Node_set, retain}
use moz.Libnez.Ast.{
  AstLog, AstLogType, AstMachine, is_link, is_new, ast_rollback_tx, ast_log_link, type_tag,
  type_pop, type_replace, type_push, type_left_fold, type_new, type_link, type_capture,
}

-- What the loops of ast.c change: the log entries and the nodes.
pub record Work : Type 0 where
  pub logs : List AstLog
  pub heap : Heap

-- The local variables of ast_create_node.
pub record Locals : Type 0 where
  pub head : ℕ
  pub spos : ℕ
  pub epos : ℕ
  pub tag : ℕ
  pub value : ℕ
  pub obj_size : ℕ

-- The loop of constructLeft: `n` children are set, the rounds left bound `tail + 1 - cur`. A NULL
-- child is a failed assertion.
unfoldable pub link_children : ℕ → ℕ → List AstLog → ℕ → ℕ → ℕ → ℕ → Heap → Option Heap
link_children fuel zero logs newnode n cur tail h = some h
link_children fuel (suc left) logs newnode n cur tail h =
    let link = (do
      log ← get_elem? logs cur
      let set_child = if log.e == 0 then none else Node_set fuel h newnode n log.i log.e
      let linked =
          set_child >>= link_children fuel left logs newnode (n + 1) (cur + log.shift + 1) tail
      let other = link_children fuel left logs newnode n (cur + 1) tail h
      if is_link log.type then linked else other) in
    if leb cur tail then link else some h

unfoldable pub construct_left : ℕ → Work → ℕ → ℕ → Locals → Option (ℕ × Heap)
construct_left fuel w cur tail l = do
  (newnode, h) ←
      Node_new w.heap l.tag l.spos ((l.epos + 2 ^ 64 - l.spos) % 2 ^ 32) l.obj_size l.value
  let linked = do
    h ← link_children fuel (tail + 1 - cur) w.logs newnode 0 cur tail h
    some (newnode, h)
  if l.obj_size == 0 then some (newnode, h) else linked

abbrev locals_at : ℕ → ℕ → Locals
locals_at cur pos = record { head = cur; spos = pos; epos = pos; tag = 0; value = 0; obj_size = 0 }

abbrev finish : ℕ × Heap → List AstLog → ℕ × Work
finish (node, h) logs = (node, record { logs = logs; heap = h })

-- One round of the loop of ast_create_node at the entry `log`, number `cur`. `rounds` runs the loop
-- from an entry on, `nested` is the call of ast_create_node for the entries after a push.
unfoldable pub create_round :
    (rounds : Work → ℕ → Locals → Option (ℕ × Work))
    → (nested : Work → ℕ → ℕ → Option (ℕ × Work)) → ℕ
    → Option ℕ
    → Work
    → ℕ
    → AstLog
    → AstLogType
    → Locals
    → Option (ℕ × Work)
create_round rounds nested fuel pushed w cur log type_new l =
    rounds w (cur + 1) (locals_at cur log.i)
create_round rounds nested fuel pushed w cur log type_capture l =
    rounds w (cur + 1) (record l { epos = log.i })
create_round rounds nested fuel pushed w cur log type_tag l =
    rounds w (cur + 1) (record l { tag = log.i })
create_round rounds nested fuel pushed w cur log type_replace l =
    rounds w (cur + 1) (record l { value = log.i })
create_round rounds nested fuel pushed w cur log type_left_fold l = do
  (tmp, h) ← construct_left fuel w l.head cur l
  h ← retain h tmp
  let folded = record log { type = type_link; e = tmp; i = log.e }
  rounds (record { logs = set w.logs cur folded; heap = h }) (cur + 1)
      (record l { head = cur; spos = log.i; tag = 0; value = 0; obj_size = 1 })
create_round rounds nested fuel none w cur log type_pop l = none
create_round rounds nested fuel (some pushed) w cur log type_pop l = do
  (tmp, h) ← construct_left fuel w l.head cur l
  h ← retain h tmp
  p ← get_elem? w.logs pushed
  let linked = record p { type = type_link; shift = cur - pushed; e = tmp; i = log.i }
  some (tmp, record { logs = set w.logs pushed linked; heap = h })
create_round rounds nested fuel pushed w cur log type_push l = do
  (_, w) ← nested w (cur + 1) cur
  log ← get_elem? w.logs cur
  let next = rounds w (cur + log.shift + 1) (record l { obj_size = l.obj_size + 1 })
  if is_link log.type then next else none
create_round rounds nested fuel pushed w cur log type_link l =
    rounds w (cur + log.shift + 1) (record l { obj_size = l.obj_size + 1 })

-- The loop of ast_create_node from the entry `cur` on: `rounds` bounds the rounds of the loop and of
-- the calls in it, `fuel` the releases. `none` is a failed assertion or a read past the array.
unfoldable pub create_rounds : ℕ → ℕ → Option ℕ → ℕ → Work → ℕ → Locals → Option (ℕ × Work)
create_rounds zero fuel pushed tail w cur l = none
create_rounds (suc rounds) fuel pushed tail w cur l = do
  let nested : Work → ℕ → ℕ → Option (ℕ × Work) = λ w first parent. do
    log ← get_elem? w.logs first
    create_rounds rounds fuel (some parent) tail w first (locals_at first log.i)
  let last = do built ← construct_left fuel w l.head tail l; some (finish built w.logs)
  let one = do
    log ← get_elem? w.logs cur
    create_round (create_rounds rounds fuel pushed tail) nested fuel pushed w cur log log.type l
  if leb cur tail then one else last

unfoldable pub ast_create_node : ℕ → ℕ → Work → ℕ → Option ℕ → Option (ℕ × Work)
ast_create_node rounds fuel w cur pushed = do
  log ← get_elem? w.logs cur
  create_rounds rounds fuel pushed (length w.logs - 1) w cur (locals_at cur log.i)

pub ast_commit_tx : ℕ → ℕ → AstMachine → Heap → ℕ → ℕ → Option (AstMachine × Heap)
ast_commit_tx rounds fuel ast h label_id tx = do
  (node, w) ← ast_create_node rounds fuel (record { logs = ast.logs; heap = h }) tx none
  (ast, h) ← ast_rollback_tx fuel (record ast { logs = w.logs }) w.heap tx
  if node == 0 then some (ast, h) else ast_log_link ast h label_id node

-- The first entry of the given list, of number `cur`, that is a new.
unfoldable pub first_new : List AstLog → ℕ → Option ℕ
first_new [] cur = none
first_new (log ∷ logs) cur = if is_new log.type then some cur else first_new logs (cur + 1)

-- The node of the whole input. Where no entry is a new, the C retains a NULL node: `none`.
unfoldable pub ast_get_parsed_node : ℕ → ℕ → AstMachine → Heap → Option (ℕ × (AstMachine × Heap))
ast_get_parsed_node rounds fuel ast h = do
  let build = do
    cur ← first_new ast.logs 0
    (parsed, w) ← ast_create_node rounds fuel (record { logs = ast.logs; heap = h }) cur none
    (ast, h) ← ast_rollback_tx fuel (record ast { logs = w.logs }) w.heap 0
    h ← retain h parsed
    some (parsed, (record ast { parsed = parsed }, h))
  if not (ast.parsed == 0)
      then some (ast.parsed, (ast, h))
      else (if length ast.logs == 0 then some (0, (ast, h)) else build)
