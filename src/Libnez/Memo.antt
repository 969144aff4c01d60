-- ===== src/Libnez/Memo.antt =====
-- src/libnez/memo.h and memo.c with MOZVM_MEMO_TYPE_ELASTIC: the table of parse results.
-- A position is an address; `uintptr_t` has 64 bits and `unsigned` 32. `none` is undefined
-- behaviour of C.
pub mod Key
pub mod Sound
pub mod Lookup
pub mod Init
use Prim.Native.Nat.{bit_and, bit_or}
use moz.Base.{
  ℕ, zero, suc, ◌+◌, ◌-◌, ◌*◌, ◌/◌, ◌%◌, ◌^◌, Bool, true, false, not, Option, none, some, List, ◌≡◌,
  ◌==◌, ltb, ◌&&◌, if◌then◌else◌, get_elem?, set, replicate, ◌>>=◌,
}
use moz.Core.Karray.{log2}
use moz.Node.Heap.{Heap, retain_if, release}

-- `result` is the word of the union of `result` and `failed`.
pub record MemoEntry : Type 0 where
  pub hash : ℕ
  pub result : ℕ
  pub consumed : ℕ
  pub state : ℕ

-- ULONG_MAX
abbrev pub memo_entry_failed : ℕ
memo_entry_failed = 2 ^ 64 - 1

pub record Memo : Type 0 where
  pub ary : List MemoEntry
  pub shift : ℕ
  pub mask : ℕ

abbrev pub empty_entry : MemoEntry
empty_entry = record { hash = 0; result = 0; consumed = 0; state = 0 }

-- MOZ_MEMO_DEFAULT_WINDOW_SIZE
abbrev pub memo_window : ℕ
memo_window = 32

-- `1 << LOG2(n)` is an `int`.
pub memo_init : ℕ → ℕ → Option Memo
memo_init w n = do
  l ← log2 n
  let len = w * 2 ^ l % 2 ^ 32
  if ltb l 31
      then some (record {
        ary = replicate len empty_entry;
        mask = (len + 2 ^ 32 - 1) % 2 ^ 32;
        shift = l + 1;
      })
      else none

-- ((uintptr_t)pos << m->shift) | memoId, from the shift of the table
unfoldable pub hash_of : ℕ → ℕ → ℕ → ℕ
hash_of shift pos memo_id = bit_or (pos * 2 ^ shift % 2 ^ 64) memo_id

-- hash & m->mask
abbrev pub index_of : Memo → ℕ → ℕ → ℕ
index_of m pos memo_id = bit_and (hash_of m.shift pos memo_id) m.mask

-- if (e->result && e->failed != MEMO_ENTRY_FAILED): the node to release, or 0
unfoldable pub held : MemoEntry → ℕ
held e = if not (e.result == 0) && not (e.result == memo_entry_failed) then e.result else 0

-- The node that `memo_elastic_set` releases, and the table that it leaves.
unfoldable pub memo_elastic_set : Memo → ℕ → ℕ → ℕ → ℕ → ℕ → Option (ℕ × Memo)
memo_elastic_set m pos memo_id result consumed state = do
  e ← get_elem? m.ary (index_of m pos memo_id)
  some (
    held e,
    record m {
      ary = set m.ary (index_of m pos memo_id) (record {
        hash = hash_of m.shift pos memo_id;
        result = result;
        consumed = consumed;
        state = state;
      });
    },
  )

-- `consumed` and `state` stay as they were.
pub memo_elastic_fail : Memo → ℕ → ℕ → Option (ℕ × Memo)
memo_elastic_fail m pos memo_id = do
  e ← get_elem? m.ary (index_of m pos memo_id)
  some (
    held e,
    record m {
      ary =
          set m.ary (index_of m pos memo_id)
            (record e { hash = hash_of m.shift pos memo_id; result = memo_entry_failed });
    },
  )

-- The inner option is the pointer that C returns, `none` for NULL.
unfoldable pub memo_get : Memo → ℕ → ℕ → ℕ → Option (Option MemoEntry)
memo_get m pos memo_id state = do
  e ← get_elem? m.ary (index_of m pos memo_id)
  some (if e.hash == hash_of m.shift pos memo_id && e.state == state then some e else none)

-- NODE_GC_RELEASE unless there is nothing to release; `fuel` is that of `release`.
unfoldable pub release_if : ℕ → Heap → ℕ → Option Heap
release_if fuel h o = let released = release fuel h o in if o == 0 then some h else released

unfoldable pub memo_set : ℕ → Heap → Memo → ℕ → ℕ → ℕ → ℕ → ℕ → Option (Heap × Memo)
memo_set fuel h m pos memo_id result consumed state = do
  h ← retain_if h result
  (old, m) ← memo_elastic_set m pos memo_id result consumed state
  h ← release_if fuel h old
  some (h, m)

pub memo_fail : ℕ → Heap → Memo → ℕ → ℕ → Option (Heap × Memo)
memo_fail fuel h m pos memo_id = do
  (old, m) ← memo_elastic_fail m pos memo_id
  h ← release_if fuel h old
  some (h, m)

-- The releases of memo_dispose, entry by entry.
pub memo_dispose : ℕ → Heap → List MemoEntry → Option Heap
memo_dispose fuel h List.[] = some h
memo_dispose fuel h (List.◌∷◌ e es) = release_if fuel h (held e) >>= λ h'. memo_dispose fuel h' es
