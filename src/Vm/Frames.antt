-- ===== src/Vm/Frames.antt =====
-- src/vm1/instruction.def: the stack of the machine over Alt and Succ, Skip, Call and Ret, Pos and
-- Back.
use moz.Base.{
  ℕ, suc, ◌+◌, ◌-◌, ◌<◌, true, false, some, List, ◌==◌, ltb, ◌≡◌, refl, ap, sym, ◌∙◌, arith,
}
use moz.Libnez.Ast.Rollback.{AllHeld, Op}
use moz.Libnez.Symtable.Scope.{Change}
use moz.Vm.Backtrack.{IsFrame, IsRestored, Kept, fails-IsRestored, framed-IsFrame, push_frame-inv}
use moz.Vm.State.{
  Frame, Runtime, Vm, do_fail, drop_frame, fp_fp, fp_pos, fp_symtbl, frame_now, moved, peek_frame,
  pop, push, sext32, stack_size,
}
use moz.Node.Heap.{update}
use moz.Vm.Step.{do_alt, do_back, do_call, do_pos, do_ret, do_skip, refreshed}

-- The stack below SP is as in `vm`.
abbrev pub SameBelow : Vm → Vm → Type 0
SameBelow vm out = (i : ℕ) → i < vm.sp → out.stack i ≡ vm.stack i

-- After Alt, Succ drops the frame of the Alt from any state in which that frame is on top and its
-- first word is untouched: SP and FP are those of before the Alt again, and nothing else changes.
pub drop_frame-do_alt :
    (vm v w : Vm) (failjump : ℕ)
    → do_alt failjump vm ≡ some v
    → w.fp ≡ v.fp
    → w.stack v.fp ≡ v.stack v.fp
    → drop_frame w ≡ some (record w { sp = vm.sp; fp = vm.fp })
unfolding do_alt drop_frame
drop_frame-do_alt vm v w failjump alt on_top same =
    let f : Frame = frame_now vm (moved vm.pc (sext32 failjump)) in
    let (room, e) = push_frame-inv vm v f alt in
    let at' : v.fp ≡ vm.sp = ap (λ (x : Vm). x.fp) (sym e) in
    let zero_off : vm.sp + fp_fp ≡ vm.sp = omega arith in
    let prev : v.stack (vm.sp + fp_fp) ≡ vm.fp = rw (← e) (framed-IsFrame vm f).prev_word in
    let word : w.stack (vm.sp + fp_fp) ≡ vm.fp =
      rw zero_off (rw at' at same ∙ rw zero_off at prev) in
    let a : ltb vm.sp stack_size ≡ true = ground arith in rw (on_top, at', a, word) refl

-- The writes of Skip make the frame of the state.
refreshed-IsFrame :
    (vm : Vm) (prev : ℕ) (f : Frame)
    → IsFrame vm.stack vm.fp prev f
    → IsFrame (refreshed vm) vm.fp prev (frame_now vm f.next)
refreshed-IsFrame vm prev f words = record {
  prev_word = let h = words.prev_word in ground arith;
  pos_word = ground arith;
  next_word = let h = words.next_word in ground arith;
  ast_word = ground arith;
  symtbl_word = ground arith;
}

-- A round of a repetition commits: where the position has moved since the frame on top was written,
-- Skip succeeds. When after it log calls on nodes that are NULL or in use at the Skip, symbol
-- definitions and masks follow, and nothing else changes the log and the symbols, the frame and its
-- words are left on top and the position does not go before that of the Skip, then a failure pops
-- the frame and goes to its jump with the position, log, nodes and symbols of the Skip.
pub do_fail-do_skip :
    (r : Runtime) (fuel : ℕ) (vm : Vm) (prev : ℕ) (f : Frame) (ops : List Op)
    (changes : List Change) (w : Vm)
    → r.fuel ≡ suc fuel
    → vm.fp + fp_symtbl < stack_size
    → IsFrame vm.stack vm.fp prev f
    → (f.pos == vm.pos) ≡ false
    → AllHeld vm.heap ops
    → Kept r vm (record vm { stack = refreshed vm }) w ops changes
    → (do_skip r vm ≡ some (record vm { stack = refreshed vm }))
      × ((out : Vm) × (do_fail r w ≡ some out)
          × IsRestored (record vm { sp = vm.fp; fp = prev }) f.next out)
unfolding do_skip peek_frame
do_fail-do_skip r fuel vm prev f ops changes w fueled room words moved_on held k =
    let a : ltb (vm.fp + fp_symtbl) stack_size ≡ true = ground arith in
    (
      rw (a, words.pos_word, moved_on) refl,
      fails-IsRestored r fuel vm (record vm { stack = refreshed vm }) w f.next vm.fp prev ops
          changes fueled held k room refl (refreshed-IsFrame vm prev f words),
    )

-- A round that consumes nothing ends the repetition: where the position has not moved, Skip fails.
pub do_skip-stuck :
    (r : Runtime) (vm : Vm) (prev : ℕ) (f : Frame)
    → vm.fp + fp_symtbl < stack_size
    → IsFrame vm.stack vm.fp prev f
    → f.pos ≡ vm.pos
    → do_skip r vm ≡ do_fail r vm
unfolding do_skip peek_frame
do_skip-stuck r vm prev f room words same =
    let a : ltb (vm.fp + fp_symtbl) stack_size ≡ true = ground arith in
    let b : (vm.stack (vm.fp + fp_pos) == vm.pos) ≡ true = let e = words.pos_word in ground arith in
    rw (a, b) refl

push-eq :
    (vm : Vm) (x : ℕ)
    → vm.sp < stack_size
    → push vm x ≡ some (record vm { stack = update vm.stack vm.sp x; sp = vm.sp + 1 })
unfolding push
push-eq vm x room = let a : ltb vm.sp stack_size ≡ true = ground arith in rw a refl

pub pop-pushed :
    (w : Vm) (n x : ℕ) → w.sp ≡ n + 1 → w.stack n ≡ x → pop w ≡ some (x, record w { sp = n })
unfolding pop
pop-pushed w n x at' word =
    let a : (n + 1 == 0) ≡ false = ground arith in
    let b : n + 1 - 1 ≡ n = omega arith in rw (at', a, b, word) refl

-- Where the stack has room, Call goes to its jump, and Ret, in any later state with SP and the
-- return word as Call left them, continues at Call's `next` with the SP of before the Call, all
-- the rest as the called code left it.
pub do_ret-do_call :
    (vm w : Vm) (next offset : ℕ)
    → vm.sp < stack_size
    → w.sp ≡ vm.sp + 1
    → w.stack vm.sp ≡ moved vm.pc (sext32 next)
    → ((v : Vm) × (do_call next offset vm ≡ some v)
        × (v.pc ≡ moved vm.pc (sext32 offset))
        × (v.sp ≡ vm.sp + 1)
        × (v.stack vm.sp ≡ moved vm.pc (sext32 next))
        × SameBelow vm v)
      × (do_ret w ≡ some (record w { sp = vm.sp; pc = moved vm.pc (sext32 next) }))
unfolding do_call do_ret
do_ret-do_call vm w next offset room at' word = (
  (
    record vm {
      stack = update vm.stack vm.sp (moved vm.pc (sext32 next));
      sp = vm.sp + 1;
      pc = moved vm.pc (sext32 offset);
    },
    rw (push-eq vm (moved vm.pc (sext32 next)) room) refl,
    refl,
    refl,
    (let t : (vm.sp == vm.sp) ≡ true = ground arith in rw t refl),
    λ i lt. (let t : (vm.sp == i) ≡ false = ground arith in rw t refl),
  ),
  rw (pop-pushed w vm.sp (moved vm.pc (sext32 next)) at' word) refl,
)

-- The syntactic predicate: where the stack has room, Pos saves the position, and Back, in any later
-- state with SP and the saved word as Pos left them, returns to it and to the SP of before the Pos.
pub do_back-do_pos :
    (vm w : Vm)
    → vm.sp < stack_size
    → w.sp ≡ vm.sp + 1
    → w.stack vm.sp ≡ vm.pos
    → ((v : Vm) × (do_pos vm ≡ some v)
        × (v.sp ≡ vm.sp + 1)
        × (v.stack vm.sp ≡ vm.pos)
        × SameBelow vm v)
      × (do_back w ≡ some (record w { sp = vm.sp; pos = vm.pos }))
unfolding do_pos do_back
do_back-do_pos vm w room at' word = (
  (
    record vm { stack = update vm.stack vm.sp vm.pos; sp = vm.sp + 1 },
    push-eq vm vm.pos room,
    refl,
    (let t : (vm.sp == vm.sp) ≡ true = ground arith in rw t refl),
    λ i lt. (let t : (vm.sp == i) ≡ false = ground arith in rw t refl),
  ),
  rw (pop-pushed w vm.sp vm.pos at' word) refl,
)
