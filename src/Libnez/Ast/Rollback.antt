-- ===== src/Libnez/Ast/Rollback.antt =====
-- src/libnez/ast.c: the rollback of the log and the reference counts of the linked nodes.
use moz.Base.{
  ℕ, suc, ◌+◌, ◌-◌, ◌<◌, true, false, Option, none, some, List, [], ◌∷◌, ◌++◌, ◌==◌, if◌then◌else◌,
  ◌>>=◌, ◌≡◌, refl, ap, sym, ◌∙◌, arith, leb, length, map, Bool-cases, Option-cases, inl, inr,
}
use moz.Base.Lists.{length-append, take-append_length, drop-append_length}
use mathlib.Core.Path.{fun_ext, ap₂}
use mathlib.Core.List.{append_assoc, append-nil}
use moz.Node.Heap.{Heap, Node, retain, retain_if, release, put}
use moz.Libnez.Ast.{
  AstLog, AstMachine, ast_save_tx, ast_log, ast_log_new, ast_log_capture, ast_log_tag,
  ast_log_replace, ast_log_swap, ast_log_push, ast_log_pop, ast_log_link, release_links,
  ast_rollback_tx, type_tag, type_pop, type_replace, type_push, type_left_fold, type_new, type_link,
  type_capture,
}

-- A call that logs a tree operation, with its arguments.
pub data Op : Type 0 where
  new : ℕ → Op
  capture : ℕ → Op
  tag : ℕ → Op
  replace : ℕ → Op
  swap : ℕ → ℕ → Op
  push : Op
  pop : ℕ → Op
  link : ℕ → ℕ → Op

abbrev pub apply : Op → AstMachine → Heap → Option (AstMachine × Heap)
apply (new pos) ast h = some (ast_log_new ast pos, h)
apply (capture pos) ast h = some (ast_log_capture ast pos, h)
apply (tag t) ast h = some (ast_log_tag ast t, h)
apply (replace s) ast h = some (ast_log_replace ast s, h)
apply (swap pos label) ast h = some (ast_log_swap ast pos label, h)
apply push ast h = some (ast_log_push ast, h)
apply (pop label) ast h = some (ast_log_pop ast label, h)
apply (link label node) ast h = ast_log_link ast h label node

unfoldable pub apply_all : List Op → AstMachine × Heap → Option (AstMachine × Heap)
apply_all [] s = some s
apply_all (op ∷ ops) (ast, h) = apply op ast h >>= apply_all ops

-- The node that was linked last, when `last` was so before.
abbrev pub last_of : List Op → ℕ → ℕ
last_of [] last = last
last_of (link label node ∷ ops) last = last_of ops node
last_of (op ∷ ops) last = last_of ops last

abbrev pub IsLive : Option Node → Type 0
IsLive none = ⊥
IsLive (some n) = 0 < n.refc

-- A node that is linked is NULL or in use already.
abbrev pub IsHeld : Heap → Op → Type 0
IsHeld h (link label node) = (node == 0) ≡ false → IsLive (h.cells node)
IsHeld h op = Unit

abbrev pub AllHeld : Heap → List Op → Type 0
AllHeld h [] = Unit
AllHeld h (op ∷ ops) = IsHeld h op × AllHeld h ops

entry_of : Op → AstLog
entry_of (new pos) = record { type = type_new; shift = 0; e = 0; i = pos }
entry_of (capture pos) = record { type = type_capture; shift = 0; e = 0; i = pos }
entry_of (tag t) = record { type = type_tag; shift = 0; e = 0; i = t }
entry_of (replace s) = record { type = type_replace; shift = 0; e = 0; i = s }
entry_of (swap pos label) = record { type = type_left_fold; shift = 0; e = label; i = pos }
entry_of push = record { type = type_push; shift = 0; e = 0; i = 0 }
entry_of (pop label) = record { type = type_pop; shift = 0; e = 0; i = label }
entry_of (link label node) = record { type = type_link; shift = 0; e = node; i = label }

one_at : ℕ → ℕ → ℕ
one_at node a = if node == 0 then 0 else if node == a then 1 else 0

-- The references to the node `a` that an operation holds.
owed_by : Op → ℕ → ℕ
owed_by (link label node) a = one_at node a
owed_by op a = 0

owed : List Op → ℕ → ℕ
owed [] a = 0
owed (op ∷ ops) a = owed_by op a + owed ops a

bump : ℕ → Option Node → Option Node
bump k none = none
bump k (some n) = some (record n { refc = n.refc + k })

more : (ℕ → ℕ) → Heap → Heap
more f h = record h { cells = λ a. bump (f a) (h.cells a) }

bump-bump : (j k : ℕ) (c : Option Node) → bump k (bump j c) ≡ bump (j + k) c
unfolding bump
bump-bump j k none = refl
bump-bump j k (some n) = let e : n.refc + j + k ≡ n.refc + (j + k) = omega arith in rw e refl

bump_zero : (c : Option Node) → bump 0 c ≡ c
unfolding bump
bump_zero none = refl
bump_zero (some n) = let e : n.refc + 0 ≡ n.refc = omega arith in rw e refl

cells_ext :
    (h : Heap) {f g : ℕ → Option Node}
    → ((a : ℕ) → f a ≡ g a)
    → record h { cells = f } ≡ record h { cells = g }
cells_ext h e = ap (λ c. record h { cells = c }) (fun_ext e)

more_zero : (h : Heap) → more (λ a. 0) h ≡ h
unfolding more
more_zero h = cells_ext h (λ a. bump_zero (h.cells a))

bump_add : (f k : ℕ) (c : Option Node) → k ≡ 0 → bump f c ≡ bump (f + k) c
bump_add f k c e = let q : f + k ≡ f = omega arith in rw q refl

-- Where a cell is written, a heap with more references has others.
put-more :
    (f g : ℕ → ℕ) (h : Heap) (node : ℕ) (n' : Node)
    → some n' ≡ bump (g node) (h.cells node)
    → ((a : ℕ) → (node == a) ≡ false → f a ≡ g a)
    → put (more f h) node n' ≡ more g h
unfolding more
put-more f g h node n' at' other = cells_ext h (λ a. elim (Bool-cases (node == a)) [
  | inl q ↦ let e : node ≡ a = ground arith in rw (q, ← e) at'
  | inr q ↦ rw (q, other a q) refl
])

one_at-null : (node a : ℕ) → (node == 0) ≡ true → one_at node a ≡ 0
unfolding one_at
one_at-null node a z = rw z

one_at_self : (node : ℕ) → (node == 0) ≡ false → one_at node node ≡ 1
unfolding one_at
one_at_self node z = let t : (node == node) ≡ true = ground arith in rw (z, t)

one_at-other : (node a : ℕ) → (node == a) ≡ false → one_at node a ≡ 0
unfolding one_at
one_at-other node a q = ground arith

more-one :
    (f : ℕ → ℕ) (h : Heap) (node : ℕ) (n : Node)
    → h.cells node ≡ some n
    → (node == 0) ≡ false
    → put (more f h) node (record n { refc = n.refc + f node + 1 })
      ≡ more (λ a. f a + one_at node a) h
unfolding bump
more-one f h node n e z =
    put-more f (λ a. f a + one_at node a) h node (record n { refc = n.refc + f node + 1 })
      (let q : n.refc + f node + 1 ≡ n.refc + (f node + 1) = omega arith in
        rw (e, one_at_self node z, q) refl)
      (λ a q. omega (arith, one_at-other node a q))

-- A retain is one more reference.
retain-more :
    (f : ℕ → ℕ) (h : Heap) (node : ℕ)
    → ((node == 0) ≡ false → IsLive (h.cells node))
    → retain_if (more f h) node ≡ some (more (λ a. f a + one_at node a) h)
unfolding retain_if retain more bump
retain-more f h node live = elim (Bool-cases (node == 0)) [
  | inl z ↦ rw z (
      ap some
        (cells_ext h (λ a. bump_add (f a) (one_at node a) (h.cells a) (one_at-null node a z))))
  | inr z ↦ elim (Option-cases (h.cells node)) [
    | inl e ↦ absurd (rw e at (live z))
    | inr (n, e) ↦ rw (z, e) (ap some (more-one f h node n e z))
  ]
]

-- A release is one less.
release-more :
    (fuel : ℕ) (f : ℕ → ℕ) (h : Heap) (node : ℕ)
    → (node == 0) ≡ false
    → IsLive (h.cells node)
    → release (suc fuel) (more (λ a. one_at node a + f a) h) node ≡ some (more f h)
unfolding release more bump
release-more fuel f h node z live = elim (Option-cases (h.cells node)) [
  | inl e ↦ absurd (rw e at live)
  | inr (n, e) ↦
      let pos : 0 < n.refc = rw e at live in
      let c : (n.refc + (one_at node node + f node) == 0) ≡ false =
        ground (arith, one_at_self node z) in
      let d : (n.refc + (one_at node node + f node) - 1 == 0) ≡ false =
        ground (arith, one_at_self node z) in
      let q : n.refc + (one_at node node + f node) - 1 ≡ n.refc + f node =
        omega (arith, one_at_self node z) in
      rw (e, c, d, q)
        (ap some (
          put-more (λ a. one_at node a + f a) f h node (record n { refc = n.refc + f node })
            (rw e refl) (λ a q. omega (arith, one_at-other node a q))))
]

more_ext : (f g : ℕ → ℕ) (h : Heap) → ((a : ℕ) → f a ≡ g a) → more f h ≡ more g h
more_ext f g h e = ap (λ f. more f h) (fun_ext e)

-- The rollback gives back what the operations hold.
release-owed :
    (fuel : ℕ) (h : Heap) (ops : List Op)
    → AllHeld h ops
    → release_links (suc fuel) (map entry_of ops) (more (owed ops) h) ≡ some h
unfolding release_links owed owed_by entry_of
release-owed fuel h [] w = ap some (more_zero h)
release-owed fuel h (link label node ∷ ops) (live, w) = elim (Bool-cases (node == 0)) [
  | inl z ↦
      rw
        (
          z,
          more_ext (λ a. one_at node a + owed ops a) (owed ops) h
              (λ a. omega (arith, one_at-null node a z)),
        )
        (release-owed fuel h ops w)
  | inr z ↦ rw (z, release-more fuel (owed ops) h node z (live z)) (release-owed fuel h ops w)
]
release-owed fuel h (op ∷ ops) (_, w) =
    rw (more_ext (λ a. 0 + owed ops a) (owed ops) h (λ a. omega arith)) (release-owed fuel h ops w)

abbrev after : AstMachine → List Op → AstMachine
after ast ops = record ast {
  logs = ast.logs ++ map entry_of ops;
  last_linked = last_of ops ast.last_linked;
}

after-step :
    (ast : AstMachine) (op : Op) (ops : List Op)
    → after (after ast (op ∷ [])) ops ≡ after ast (op ∷ ops)
after-step ast op ops =
    ap₂ (λ logs last. record ast { logs = logs; last_linked = last })
      (append_assoc ast.logs (entry_of op ∷ []) (map entry_of ops)) (last-step op)
  where
    last-step :
        (op : Op)
        → last_of ops (last_of (op ∷ []) ast.last_linked) ≡ last_of (op ∷ ops) ast.last_linked
    last-step (link label node) = refl
    last-step op = refl

apply-eq :
    (f : ℕ → ℕ) (ast : AstMachine) (h : Heap) (op : Op)
    → IsHeld h op
    → apply op ast (more f h) ≡ some (after ast (op ∷ []), more (λ a. f a + owed_by op a) h)
unfolding owed_by ast_log_new ast_log_capture ast_log_tag ast_log_replace ast_log_swap ast_log_push
    ast_log_pop ast_log_link ast_log entry_of
apply-eq f ast h (link label node) live = rw (retain-more f h node live) refl
apply-eq f ast h op _ = rw (more_ext (λ a. f a + 0) f h (λ a. omega arith)) refl

apply_all-eq :
    (f : ℕ → ℕ) (ast : AstMachine) (h : Heap) (ops : List Op)
    → AllHeld h ops
    → apply_all ops (ast, more f h) ≡ some (after ast ops, more (λ a. f a + owed ops a) h)
unfolding apply_all owed
apply_all-eq f ast h [] w =
    rw (append-nil ast.logs, more_ext (λ a. f a + 0) f h (λ a. omega arith)) refl
apply_all-eq f ast h (op ∷ ops) (held, w) = rw (apply-eq f ast h op held) (
    apply_all-eq (λ a. f a + owed_by op a) (after ast (op ∷ [])) h ops w
    ∙ ap₂ (λ x y. some (x, y)) (after-step ast op ops)
        (more_ext (λ a. f a + owed_by op a + owed ops a) (λ a. f a + (owed_by op a + owed ops a)) h
          (λ a. omega arith)))

-- Any sequence of log calls, whose linked nodes are NULL or in use, succeeds, and a rollback to the
-- savepoint that was taken before it then succeeds and restores the log and every node, reference
-- counts included; only `last_linked` keeps its new value.
pub ast_rollback_tx-ast_save_tx :
    (fuel : ℕ) (ast : AstMachine) (h : Heap) (ops : List Op)
    → AllHeld h ops
    → (apply_all ops (ast, h) >>= λ (ast', h').
        ast_rollback_tx (suc fuel) ast' h' (ast_save_tx ast))
      ≡ some (record ast { last_linked = last_of ops ast.last_linked }, h)
unfolding ast_rollback_tx ast_save_tx
ast_rollback_tx-ast_save_tx fuel ast h ops w =
    let grown : apply_all ops (ast, h) ≡ some (after ast ops, more (owed ops) h) =
      ap (λ x. apply_all ops (ast, x)) (sym (more_zero h))
      ∙ apply_all-eq (λ a. 0) ast h ops w
      ∙ ap (λ x. some (after ast ops, x))
          (more_ext (λ a. 0 + owed ops a) (owed ops) h (λ a. omega arith)) in
    let size : length (ast.logs ++ map entry_of ops) ≡ length ast.logs + length (map entry_of ops) =
      length-append ast.logs (map entry_of ops) in
    let room : leb (length ast.logs) (length (ast.logs ++ map entry_of ops)) ≡ true =
      ground arith in
    rw
      (
        grown,
        room,
        drop-append_length ast.logs (map entry_of ops),
        take-append_length ast.logs (map entry_of ops),
        release-owed fuel h ops w,
      )
      refl
