-- ===== src/Vm/Memoize.antt =====
-- src/vm1/instruction.def: Lookup after Memo.
use moz.Base.{ℕ, ◌+◌, ◌^◌, ◌<◌, ◌≤◌, true, some, ◌==◌, ◌≡◌, refl, arith, get_elem?, length, set}
use moz.Base.Lists.{get_elem?-set_self}
use moz.Base.Bits.{bit_and-le_right}
use moz.Libnez.Memo.{
  Memo, MemoEntry, held, hash_of, index_of, memo_elastic_set, memo_get, memo_set, release_if,
}
use moz.Vm.State.{Frame, Runtime, Vm, fp_symtbl, jump, stack_size}
use moz.Node.Heap.{retain_if}
use moz.Vm.Backtrack.{IsFrame, pop_frame-eq}
use moz.Vm.Table.{consumed_since, do_lookup, do_memo, looked_up}

-- The table after Memo.
abbrev recorded : Vm → ℕ → ℕ → ℕ → Memo
recorded vm start memo_id state = record vm.memo {
  ary = set vm.memo.ary (index_of vm.memo start memo_id) (record {
    hash = hash_of vm.memo.shift start memo_id;
    result = 0;
    consumed = consumed_since vm start;
    state = state;
  });
}

memo_set-eq :
    (fuel : ℕ) (vm : Vm) (start memo_id state : ℕ) (old : MemoEntry)
    → get_elem? vm.memo.ary (index_of vm.memo start memo_id) ≡ some old
    → held old ≡ 0
    → memo_set fuel vm.heap vm.memo start memo_id 0 (consumed_since vm start) state
      ≡ some (vm.heap, recorded vm start memo_id state)
unfolding memo_set memo_elastic_set release_if retain_if
memo_set-eq fuel vm start memo_id state old at' free = rw (at', free) refl

-- Memo and Lookup agree: where the top frame saved `start`, at or up to 2^32 bytes before the
-- position, the slot holds no node and the table is not too short, Memo succeeds, drops the frame and
-- keeps the position; and in any later state with that table and `start` as position, Lookup with
-- the same memo point and state moves to the position that Memo saw and jumps.
pub do_lookup-do_memo :
    (r : Runtime) (vm w : Vm) (prev state memo_id skip : ℕ) (f : Frame) (old : MemoEntry)
    → vm.fp + fp_symtbl < stack_size
    → IsFrame vm.stack vm.fp prev f
    → f.pos ≤ vm.pos
    → vm.pos < f.pos + 2 ^ 32
    → get_elem? vm.memo.ary (index_of vm.memo f.pos memo_id) ≡ some old
    → held old ≡ 0
    → vm.memo.mask < length vm.memo.ary
    → w.pos ≡ f.pos
    → w.memo ≡ recorded vm f.pos memo_id state
    → (do_memo r state memo_id vm
        ≡ some (record vm { sp = vm.fp; fp = prev; memo = recorded vm f.pos memo_id state }))
      × (do_lookup r state memo_id skip w ≡ some (jump (record w { pos = vm.pos }) skip))
unfolding do_memo do_lookup memo_get looked_up
do_lookup-do_memo r vm w prev state memo_id skip f old room words ahead near at' free fits here
      table =
    let popped = pop_frame-eq vm vm.fp prev f refl room words in
    let a : (hash_of vm.memo.shift f.pos memo_id == hash_of vm.memo.shift f.pos memo_id) ≡ true =
      ground arith in
    let b : (state == state) ≡ true = ground arith in
    let i : ℕ = index_of vm.memo f.pos memo_id in
    let le : i ≤ vm.memo.mask =
      bit_and-le_right vm.memo.mask (hash_of vm.memo.shift f.pos memo_id) vm.memo.mask
        (omega arith) in
    let hit =
      get_elem?-set_self vm.memo.ary i
        (record {
          hash = hash_of vm.memo.shift f.pos memo_id;
          result = 0;
          consumed = consumed_since vm f.pos;
          state = state;
        })
        (omega (arith, le)) in
    let back : f.pos + consumed_since vm f.pos ≡ vm.pos = omega arith in
    (
      rw (popped, memo_set-eq r.fuel vm f.pos memo_id state old at' free) refl,
      rw (table, here, hit, a, b, back) refl,
    )
