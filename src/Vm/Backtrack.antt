-- ===== src/Vm/Backtrack.antt =====
-- src/vm1/mozvm1.c: FAIL_IMPL against the state that a choice point saved.
use moz.Base.{
  ℕ, suc, ◌+◌, ◌<◌, ◌≤◌, true, Option, none, some, List, ltb, ◌≡◌, refl, ap, sym, ◌∙◌, arith,
  Bool-cases, inl, inr,
}
use moz.Node.Heap.{Heap}
use moz.Libnez.Ast.{AstMachine, ast_rollback_tx}
use moz.Libnez.Symtable.Scope
use moz.Libnez.Ast.Rollback.{Op, apply_all, AllHeld, last_of, ast_rollback_tx-ast_save_tx}
use moz.Libnez.Symtable.{symtable_rollback}
use moz.Libnez.Symtable.Scope.{Change, rollback-savepoint}
use moz.Vm.State.{
  Frame, Runtime, Vm, push_frame, peek_frame, pop_frame, drop_frame, do_fail, framed, frame_now,
  stack_size, fp_fp, fp_pos, fp_next, fp_ast, fp_symtbl, fp_max, backtrack, moved, sext32,
}
use moz.Vm.Step.{do_alt}

abbrev pub pushed : Vm → Frame → Vm
pushed vm f = record vm { stack = framed vm f; fp = vm.sp; sp = vm.sp + fp_max }

from_some : Vm → Option Vm → Vm
from_some d none = d
from_some d (some v) = v

-- A frame that was pushed had room.
pub push_frame-inv :
    (vm v : Vm) (f : Frame)
    → push_frame vm f ≡ some v
    → (vm.sp + fp_symtbl < stack_size) × (pushed vm f ≡ v)
unfolding push_frame from_some
push_frame-inv vm v f e = elim (Bool-cases (ltb (vm.sp + fp_symtbl) stack_size)) [
  | inl t ↦ (ground arith, ap (from_some v) (rw t at e))
  | inr t ↦ let bad : none ≡ some v = rw t at e in absurd cc
]

-- What the five words of a frame at `base` hold.
pub record IsFrame (stack : ℕ → ℕ) (base prev : ℕ) (f : Frame) : Type 0 where
  pub prev_word : stack (base + fp_fp) ≡ prev
  pub pos_word : stack (base + fp_pos) ≡ f.pos
  pub next_word : stack (base + fp_next) ≡ f.next
  pub ast_word : stack (base + fp_ast) ≡ f.ast
  pub symtbl_word : stack (base + fp_symtbl) ≡ f.symtbl

pub framed-IsFrame : (vm : Vm) (f : Frame) → IsFrame (framed vm f) vm.sp vm.fp f
framed-IsFrame vm f = record {
  prev_word = ground arith;
  pos_word = ground arith;
  next_word = ground arith;
  ast_word = ground arith;
  symtbl_word = ground arith;
}

-- A frame is popped as it was pushed.
pub pop_frame-eq :
    (w : Vm) (base prev : ℕ) (f : Frame)
    → w.fp ≡ base
    → base + fp_symtbl < stack_size
    → IsFrame w.stack base prev f
    → pop_frame w ≡ some (f, record w { sp = base; fp = prev })
unfolding pop_frame peek_frame drop_frame
pop_frame-eq w base prev f at' room words =
    let a : ltb (base + fp_symtbl) stack_size ≡ true = ground arith in
    let b : ltb base stack_size ≡ true = ground arith in
    rw
      (
        at', a, b, words.prev_word, words.pos_word, words.next_word, words.ast_word,
        words.symtbl_word,
      )
      refl

-- What code that runs behind a choice point may do before it fails: `v` is the state right after the
-- choice point that was made in `vm`, `w` the state that fails. It keeps the frame on top and its
-- words, logs tree operations, defines or masks symbols, and does not move back.
pub record Kept (r : Runtime) (vm v w : Vm) (ops : List Op) (changes : List Change) : Type 0 where
  pub on_top : w.fp ≡ v.fp
  pub same_words : (i : ℕ) → i < fp_max → w.stack (v.fp + i) ≡ v.stack (v.fp + i)
  pub logged : apply_all ops (vm.ast, vm.heap) ≡ some (w.ast, w.heap)
  pub symbols : w.tbl ≡ Scope.apply_all r.mem vm.tbl changes
  pub ahead : vm.pos ≤ w.pos

-- The state `out` continues at `next` as `vm` was: input position, stack, tree log, nodes, symbols.
pub record IsRestored (vm : Vm) (next : ℕ) (out : Vm) : Type 0 where
  pub pc : out.pc ≡ next
  pub pos : out.pos ≡ vm.pos
  pub sp : out.sp ≡ vm.sp
  pub fp : out.fp ≡ vm.fp
  pub logs : out.ast.logs ≡ vm.ast.logs
  pub heap : out.heap ≡ vm.heap
  pub table : out.tbl.table ≡ vm.tbl.table

IsFrame-kept :
    (s t : ℕ → ℕ) (base prev : ℕ) (f : Frame)
    → ((i : ℕ) → i < fp_max → t (base + i) ≡ s (base + i))
    → IsFrame s base prev f
    → IsFrame t base prev f
IsFrame-kept s t base prev f same words = record {
  prev_word = same fp_fp (omega arith) ∙ words.prev_word;
  pos_word = same fp_pos (omega arith) ∙ words.pos_word;
  next_word = same fp_next (omega arith) ∙ words.next_word;
  ast_word = same fp_ast (omega arith) ∙ words.ast_word;
  symtbl_word = same fp_symtbl (omega arith) ∙ words.symtbl_word;
}

backtrack-pos : (p : ℕ) (w : Vm) → p ≤ w.pos → (backtrack p w).pos ≡ p
backtrack-pos p w le = elim (Bool-cases (ltb p w.pos)) [
  | inl t ↦ rw t refl
  | inr t ↦ rw t (let e : w.pos ≡ p = ground arith in e)
]

-- The failure of a state whose top frame is `f`.
fails-to : Runtime → Vm → Frame → ℕ → ℕ → AstMachine → Heap → Vm
fails-to r w f base prev ast heap = record (backtrack f.pos w) {
  sp = base;
  fp = prev;
  ast = ast;
  heap = heap;
  tbl = symtable_rollback w.tbl f.symtbl;
  pc = f.next;
}

do_fail-eq :
    (r : Runtime) (w : Vm) (f : Frame) (base prev : ℕ) (ast : AstMachine) (heap : Heap)
    → pop_frame w ≡ some (f, record w { sp = base; fp = prev })
    → ast_rollback_tx r.fuel w.ast w.heap f.ast ≡ some (ast, heap)
    → do_fail r w ≡ some (fails-to r w f base prev ast heap)
unfolding do_fail fails-to
do_fail-eq r w f base prev ast heap e1 e2 = elim (Bool-cases (ltb f.pos w.pos)) [
  | inl t ↦ rw (e1, t, e2) refl
  | inr t ↦ rw (e1, t, e2) refl
]

pub fails-IsRestored :
    (r : Runtime) (fuel : ℕ) (vm v w : Vm) (next base prev : ℕ) (ops : List Op)
    (changes : List Change)
    → r.fuel ≡ suc fuel
    → AllHeld vm.heap ops
    → Kept r vm v w ops changes
    → base + fp_symtbl < stack_size
    → v.fp ≡ base
    → IsFrame v.stack base prev (frame_now vm next)
    → (out : Vm) × (do_fail r w ≡ some out)
      × IsRestored (record vm { sp = base; fp = prev }) next out
unfolding fails-to
fails-IsRestored r fuel vm v w next base prev ops changes fueled held k room top words =
    let f : Frame = frame_now vm next in
    let ast : AstMachine = record vm.ast { last_linked = last_of ops vm.ast.last_linked } in
    let same : (i : ℕ) → i < fp_max → w.stack (base + i) ≡ v.stack (base + i) =
      λ i lt. rw (← top) (k.same_words i lt) in
    let popped =
      pop_frame-eq w base prev f (k.on_top ∙ top) room
        (IsFrame-kept v.stack w.stack base prev f same words) in
    let undone : ast_rollback_tx r.fuel w.ast w.heap f.ast ≡ some (ast, vm.heap) =
      rw fueled (rw k.logged at (ast_rollback_tx-ast_save_tx fuel vm.ast vm.heap ops held)) in
    let closed = rollback-savepoint r.mem changes vm.tbl 0 r.junk in
    (
      fails-to r w f base prev ast vm.heap,
      do_fail-eq r w f base prev ast vm.heap popped undone,
      record {
        pc = refl;
        pos = backtrack-pos vm.pos w k.ahead;
        sp = refl;
        fp = refl;
        logs = refl;
        heap = refl;
        table = rw k.symbols closed.0;
      },
    )

-- Ordered choice backtracks: when Alt succeeds in a state, whatever tree operations, on nodes that
-- are NULL or in use, and symbol definitions follow while its frame stays on top, a failure then
-- succeeds, and continues at Alt's jump with the position, SP, FP, tree log, nodes and symbols of
-- before the Alt.
pub do_fail-do_alt :
    (r : Runtime) (fuel : ℕ) (vm v w : Vm) (failjump : ℕ) (ops : List Op) (changes : List Change)
    → r.fuel ≡ suc fuel
    → do_alt failjump vm ≡ some v
    → AllHeld vm.heap ops
    → Kept r vm v w ops changes
    → (out : Vm) × (do_fail r w ≡ some out) × IsRestored vm (moved vm.pc (sext32 failjump)) out
unfolding do_alt
do_fail-do_alt r fuel vm v w failjump ops changes fueled alt held k =
    let next : ℕ = moved vm.pc (sext32 failjump) in
    let f : Frame = frame_now vm next in
    let (room, e) = push_frame-inv vm v f alt in
    fails-IsRestored r fuel vm v w next vm.sp vm.fp ops changes fueled held k room
      (ap (λ (x : Vm). x.fp) (sym e)) (rw (← e) (framed-IsFrame vm f))
