-- ===== src/Core/Jmptbl.antt =====
-- src/jmptbl.h: dispatch tables of two, four and eight targets over one, two and three bitsets.
-- An `int` target is its 32-bit pattern.
pub mod Loop
pub mod Dispatch
use moz.Base.{
  ℕ, zero, suc, ◌+◌, ◌*◌, Bool, true, false, Option, none, some, List, ◌>>=◌, ◌==◌, if◌then◌else◌,
  get_elem?,
}
use moz.Core.Bitset.{Bitset, bitset_init, bitset_set, bitset_get}

pub record JumpTable1 : Type 0 where
  pub b0 : Bitset
  pub jumps : List ℕ

pub record JumpTable2 : Type 0 where
  pub b0 : Bitset
  pub b1 : Bitset
  pub jumps : List ℕ

pub record JumpTable3 : Type 0 where
  pub b0 : Bitset
  pub b1 : Bitset
  pub b2 : Bitset
  pub jumps : List ℕ

-- `bitset_set(set, i)` under the conditions of the blocks that name this set, in their order.
abbrev pub set_if : Bool → ℕ → Bitset → Option Bitset
set_if c i s = if c then bitset_set s i else some s

-- for (; i < 256; i++) body, with the rounds that are left.
pub for_bytes {ℓ} : {T : Type ℓ} → (ℕ → T → Option T) → ℕ → ℕ → T → Option T
for_bytes body zero i t = some t
for_bytes body (suc left) i t = body i t >>= for_bytes body left (i + 1)

pub body1 : List ℕ → ℕ → JumpTable1 → Option JumpTable1
body1 jumps i t = do
  v ← get_elem? jumps i
  t1 ← get_elem? t.jumps 1
  b0 ← set_if (t1 == v) i t.b0
  some (record t { b0 = b0 })

pub jump_table1_init : List ℕ → List ℕ → Option JumpTable1
jump_table1_init targets jumps =
    for_bytes (body1 jumps) 256 0 (record { b0 = bitset_init; jumps = targets })

pub body2 : List ℕ → ℕ → JumpTable2 → Option JumpTable2
body2 jumps i t = do
  v ← get_elem? jumps i
  t1 ← get_elem? t.jumps 1
  t2 ← get_elem? t.jumps 2
  t3 ← get_elem? t.jumps 3
  b1 ← set_if (t3 == v) i t.b1
  b0 ← set_if (t3 == v) i t.b0
  b1 ← set_if (t2 == v) i b1
  b0 ← set_if (t1 == v) i b0
  some (record t { b0 = b0; b1 = b1 })

pub jump_table2_init : List ℕ → List ℕ → Option JumpTable2
jump_table2_init targets jumps =
    for_bytes (body2 jumps) 256 0 (record { b0 = bitset_init; b1 = bitset_init; jumps = targets })

pub body3 : List ℕ → ℕ → JumpTable3 → Option JumpTable3
body3 jumps i t = do
  v ← get_elem? jumps i
  t1 ← get_elem? t.jumps 1
  t2 ← get_elem? t.jumps 2
  t3 ← get_elem? t.jumps 3
  t4 ← get_elem? t.jumps 4
  t5 ← get_elem? t.jumps 5
  t6 ← get_elem? t.jumps 6
  t7 ← get_elem? t.jumps 7
  b2 ← set_if (t7 == v) i t.b2
  b1 ← set_if (t7 == v) i t.b1
  b0 ← set_if (t7 == v) i t.b0
  b2 ← set_if (t6 == v) i b2
  b1 ← set_if (t6 == v) i b1
  b2 ← set_if (t5 == v) i b2
  b0 ← set_if (t5 == v) i b0
  b2 ← set_if (t4 == v) i b2
  b1 ← set_if (t3 == v) i b1
  b0 ← set_if (t3 == v) i b0
  b1 ← set_if (t2 == v) i b1
  b0 ← set_if (t1 == v) i b0
  some (record t { b0 = b0; b1 = b1; b2 = b2 })

pub jump_table3_init : List ℕ → List ℕ → Option JumpTable3
jump_table3_init targets jumps =
    for_bytes (body3 jumps) 256 0
      (record { b0 = bitset_init; b1 = bitset_init; b2 = bitset_init; jumps = targets })

-- The `int` that `bitset_get` returns.
abbrev pub to_int : Bool → ℕ
to_int b = if b then 1 else 0

unfoldable pub jump_table1_jump : JumpTable1 → ℕ → Option ℕ
jump_table1_jump t ch = do idx0 ← bitset_get t.b0 ch; get_elem? t.jumps (to_int idx0)

-- `idx1 << 1 | idx0`: the operands have no bit in common.
unfoldable pub jump_table2_jump : JumpTable2 → ℕ → Option ℕ
jump_table2_jump t ch = do
  idx0 ← bitset_get t.b0 ch
  idx1 ← bitset_get t.b1 ch
  get_elem? t.jumps (to_int idx1 * 2 + to_int idx0)

unfoldable pub jump_table3_jump : JumpTable3 → ℕ → Option ℕ
jump_table3_jump t ch = do
  idx0 ← bitset_get t.b0 ch
  idx1 ← bitset_get t.b1 ch
  idx2 ← bitset_get t.b2 ch
  get_elem? t.jumps (to_int idx2 * 4 + to_int idx1 * 2 + to_int idx0)
