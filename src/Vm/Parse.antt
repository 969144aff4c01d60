-- ===== src/Vm/Parse.antt =====
-- src/vm1/mozvm1.c: how a parse that moz_runtime_parse_init has set up ends.
use moz.Base.{
  ℕ, ◌+◌, ◌<◌, true, Option, none, some, ◌==◌, ltb, ◌≡◌, refl, ap, sym, ◌∙◌, arith, Bool-cases,
  Option-cases, inl, inr,
}
use moz.Node.Heap.{update}
use moz.Vm.Backtrack.{push_frame-inv, pushed}
use moz.Vm.Frames.{pop-pushed}
use moz.Vm.State.{Runtime, Vm, fp_max, frame_now, push, push_frame, stack_size}
use moz.Vm.Inst.{Inst}
use moz.Vm.Step.{
  do_ret, exited, at_input, exec, moz_runtime_parse, moz_runtime_parse_init, running, step,
}

abbrev pushed_word : Vm → ℕ → Vm
pushed_word vm x = record vm { stack = update vm.stack vm.sp x; sp = vm.sp + 1 }

from_some : Vm → Option Vm → Vm
from_some d none = d
from_some d (some v) = v

push-inv : (vm v : Vm) (x : ℕ) → push vm x ≡ some v → (vm.sp < stack_size) × (pushed_word vm x ≡ v)
unfolding push from_some
push-inv vm v x e = elim (Bool-cases (ltb vm.sp stack_size)) [
  | inl t ↦ (ground arith, ap (from_some v) (rw t at e))
  | inr t ↦ let bad : none ≡ some v = rw t at e in absurd cc
]

-- The state after the pushes of moz_runtime_parse_init: a frame of the start, and the return address
-- above it.
abbrev started : ℕ → Vm → Vm
started base vm = pushed_word (pushed vm (frame_now vm (base + 2))) base

parse_init-inv :
    (base str : ℕ) (vm v : Vm)
    → moz_runtime_parse_init base str vm ≡ some v
    → (vm.sp + fp_max < stack_size) × (started base (at_input str vm) ≡ v)
unfolding moz_runtime_parse_init
parse_init-inv base str vm v e =
    let vm0 : Vm = at_input str vm in
    elim (Option-cases (push_frame vm0 (frame_now vm0 (base + 2)))) [
      | inl n ↦ let bad : none ≡ some v = rw n at e in absurd cc
      | inr (u, s) ↦
          let (room, q) = push_frame-inv vm0 u (frame_now vm0 (base + 2)) s in
          let (room', q') = push-inv u v base (rw s at e) in
          let at' : u.sp ≡ vm.sp + fp_max = ap (λ (x : Vm). x.sp) (sym q) in
          (omega arith, ap (λ u. pushed_word u base) q ∙ q')
    ]

module _ (r : Runtime) (fetch : ℕ → Option (Inst × ℕ)) where
  step-ret :
      (w out : Vm) (dummy pc : ℕ)
      → fetch w.pc ≡ some (Inst.op_ret dummy, pc)
      → do_ret (record w { pc = pc }) ≡ some out
      → step r fetch w ≡ some (running out)
  unfolding step exec
  step-ret w out dummy pc code e = rw (code, e) refl

  exits :
      (w out : Vm) (pc status : ℕ)
      → step r fetch w ≡ some (running out)
      → fetch out.pc ≡ some (Inst.op_exit status, pc)
      → moz_runtime_parse r fetch 2 w ≡ some (exited status (record out { pc = pc }))
  unfolding moz_runtime_parse step
  exits w out pc status e code = rw (e, code) refl

  -- The return of the start production ends the parse: when `bytecode_base` starts with Exit 0 and
  -- moz_runtime_parse_init succeeded, then a Ret with SP and the return word as it left them makes
  -- the parse return 0, with the position, tree log, nodes and symbols that the code has reached.
  pub moz_runtime_parse-success :
      (base str dummy pc exit_pc : ℕ) (vm v w : Vm)
      → moz_runtime_parse_init base str vm ≡ some v
      → w.sp ≡ v.sp
      → w.stack (vm.sp + fp_max) ≡ v.stack (vm.sp + fp_max)
      → fetch w.pc ≡ some (Inst.op_ret dummy, pc)
      → fetch base ≡ some (Inst.op_exit 0, exit_pc)
      → moz_runtime_parse r fetch 2 w
        ≡ some (exited 0 (record w { sp = vm.sp + fp_max; pc = exit_pc }))
  unfolding do_ret
  moz_runtime_parse-success base str dummy pc exit_pc vm v w init at' same code exit_code =
      let (room, e) = parse_init-inv base str vm v init in
      let top : w.sp ≡ vm.sp + fp_max + 1 = at' ∙ ap (λ (x : Vm). x.sp) (sym e) in
      let t : (vm.sp + fp_max == vm.sp + fp_max) ≡ true = ground arith in
      let word : w.stack (vm.sp + fp_max) ≡ base =
        same ∙ ap (λ (x : Vm). x.stack (vm.sp + fp_max)) (sym e) ∙ rw t refl in
      exits w (record w { sp = vm.sp + fp_max; pc = base }) exit_pc 0
        (step-ret w (record w { sp = vm.sp + fp_max; pc = base }) dummy pc code
          (rw (pop-pushed (record w { pc = pc }) (vm.sp + fp_max) base top word) refl))
        exit_code
