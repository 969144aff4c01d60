-- ===== src/Libnez/Memo/Sound.antt =====
-- src/libnez/memo.c: the table against the history of what was recorded.
use Prim.Native.Nat.{bit_and}
use moz.Base.{
  ℕ, ◌<◌, ◌≡◌, ◌≢◌, true, ◌==◌, ◌&&◌, if◌then◌else◌, Option, none, some, List, [], ◌∷◌, length,
  get_elem?, get_or, set, arith, ap, ◌∙◌, sym, refl, ◌>>=◌, Bool-cases, inl, inr,
}
use moz.Base.Lists.{length-set, get_elem?-set_self, get_elem?-set_ne, get_elem?-eq-get_or}
use mathlib.Core.Path.{subst}
use native.Mathlib.Decide.{ℕ_discrete}
use moz.Base.Bits.{bit_and-le_right}
use moz.Libnez.Memo.{
  Memo, MemoEntry, hash_of, index_of, memo_elastic_set, memo_elastic_fail, memo_entry_failed,
  empty_entry,
}
use moz.Libnez.Memo.Key.{IsKey, hash_of-injective}

-- A call that records a result.
pub data Record : Type 0 where
  success : ℕ → ℕ → ℕ → ℕ → ℕ → Record
  failure : ℕ → ℕ → Record

abbrev pub pos_of : Record → ℕ
pos_of (success pos memo_id result consumed state) = pos
pos_of (failure pos memo_id) = pos

abbrev pub id_of : Record → ℕ
id_of (success pos memo_id result consumed state) = memo_id
id_of (failure pos memo_id) = memo_id

-- The table's part of memo_set and memo_fail.
pub record_in : Record → Memo → Option Memo
record_in (success pos memo_id result consumed state) m = do
  (old, m') ← memo_elastic_set m pos memo_id result consumed state
  some m'
record_in (failure pos memo_id) m = do (old, m') ← memo_elastic_fail m pos memo_id; some m'

-- The records of a history, whose last one stands first.
unfoldable pub replay : List Record → Memo → Option Memo
replay [] m = some m
replay (r ∷ history) m = replay history m >>= record_in r

-- The last record of a position and a memo point.
abbrev pub latest : List Record → ℕ → ℕ → Option Record
latest [] pos memo_id = none
latest (r ∷ history) pos memo_id =
    if pos_of r == pos && id_of r == memo_id then some r else latest history pos memo_id

-- The entry says what the record said. A failure's state and length are not recorded.
abbrev pub Matches : Option Record → MemoEntry → Type 0
Matches none e = ⊥
Matches (some (success pos memo_id result consumed state)) e =
    (e.result ≡ result) × (e.consumed ≡ consumed) × (e.state ≡ state)
Matches (some (failure pos memo_id)) e = e.result ≡ memo_entry_failed

abbrev pub AllKeys : ℕ → List Record → Type 0
AllKeys shift [] = Unit
AllKeys shift (r ∷ history) = IsKey shift (pos_of r) (id_of r) × AllKeys shift history

-- What an entry with the hash of a key says is that key's last record.
pub record Agrees (shift mask : ℕ) (history : List Record) (m : Memo) : Type 0 where
  pub same_shift : m.shift ≡ shift
  pub same_mask : m.mask ≡ mask
  pub room : mask < length m.ary
  pub says :
      (pos memo_id : ℕ) (e : MemoEntry)
      → IsKey shift pos memo_id
      → get_elem? m.ary (bit_and (hash_of shift pos memo_id) mask) ≡ some e
      → e.hash ≡ hash_of shift pos memo_id
      → Matches (latest history pos memo_id) e

pub index-lt : (hash mask n : ℕ) → mask < n → bit_and hash mask < n
index-lt hash mask n h = omega (arith, bit_and-le_right mask hash mask (omega arith))

-- What a record writes into its slot.
abbrev pub written : ℕ → Record → MemoEntry → MemoEntry
written shift (success pos memo_id result consumed state) e = record {
  hash = hash_of shift pos memo_id;
  result = result;
  consumed = consumed;
  state = state;
}
written shift (failure pos memo_id) e = record e {
  hash = hash_of shift pos memo_id;
  result = memo_entry_failed;
}

hash-written :
    (shift : ℕ) (r : Record) (e : MemoEntry)
    → (written shift r e).hash ≡ hash_of shift (pos_of r) (id_of r)
hash-written shift (success pos memo_id result consumed state) e = refl
hash-written shift (failure pos memo_id) e = refl

Matches-written : (shift : ℕ) (r : Record) (e : MemoEntry) → Matches (some r) (written shift r e)
Matches-written shift (success pos memo_id result consumed state) e = (refl, refl, refl)
Matches-written shift (failure pos memo_id) e = refl

pub record_in-eq :
    (r : Record) (m : Memo) (e : MemoEntry)
    → get_elem? m.ary (index_of m (pos_of r) (id_of r)) ≡ some e
    → record_in r m
      ≡ some (record m { ary = set m.ary (index_of m (pos_of r) (id_of r)) (written m.shift r e) })
unfolding record_in memo_elastic_set memo_elastic_fail
record_in-eq (success pos memo_id result consumed state) m e q = rw q refl
record_in-eq (failure pos memo_id) m e q = rw q refl

pub latest_self :
    (r : Record) (history : List Record) (pos memo_id : ℕ)
    → pos_of r ≡ pos
    → id_of r ≡ memo_id
    → latest (r ∷ history) pos memo_id ≡ some r
latest_self r history pos memo_id p q =
    let a : (pos_of r == pos) ≡ true = ground arith in
    let b : (id_of r == memo_id) ≡ true = ground arith in rw (a, b) refl

latest-other :
    (shift : ℕ) (r : Record) (history : List Record) (pos memo_id : ℕ)
    → hash_of shift (pos_of r) (id_of r) ≢ hash_of shift pos memo_id
    → latest (r ∷ history) pos memo_id ≡ latest history pos memo_id
latest-other shift r history pos memo_id ne = elim (Bool-cases (pos_of r == pos)) [
  | inl a ↦ elim (Bool-cases (id_of r == memo_id)) [
    | inl b ↦
        let p : pos_of r ≡ pos = ground arith in
        let q : id_of r ≡ memo_id = ground arith in
        absurd (ne (ap (λ x. hash_of shift x (id_of r)) p ∙ ap (hash_of shift pos) q))
    | inr b ↦ rw (a, b) refl
  ]
  | inr a ↦ rw a refl
]

says-record_in :
    (shift mask : ℕ) (history : List Record) (m : Memo) (r : Record) (old : MemoEntry)
    → Agrees shift mask history m
    → IsKey shift (pos_of r) (id_of r)
    → (pos memo_id : ℕ) (e : MemoEntry) → IsKey shift pos memo_id
    → get_elem?
        (set m.ary (bit_and (hash_of shift (pos_of r) (id_of r)) mask) (written shift r old))
        (bit_and (hash_of shift pos memo_id) mask)
      ≡ some e
    → e.hash ≡ hash_of shift pos memo_id
    → Matches (latest (r ∷ history) pos memo_id) e
says-record_in shift mask history m r old w kr pos memo_id e k at' hash =
    elim (ℕ_discrete (hash_of shift (pos_of r) (id_of r)) (hash_of shift pos memo_id)) [
      | yes same ↦
          let (p, q) = hash_of-injective kr k same in
          let i : bit_and (hash_of shift (pos_of r) (id_of r)) mask
              ≡ bit_and (hash_of shift pos memo_id) mask =
            ap (λ x. bit_and x mask) same in
          let s : get_elem?
                (set m.ary (bit_and (hash_of shift pos memo_id) mask) (written shift r old))
                (bit_and (hash_of shift pos memo_id) mask)
              ≡ some (written shift r old) =
            get_elem?-set_self m.ary (bit_and (hash_of shift pos memo_id) mask)
              (written shift r old) (index-lt (hash_of shift pos memo_id) mask _ w.room) in
          let a : some (written shift r old) ≡ some e = sym s ∙ (rw i at at') in
          let b : written shift r old ≡ e = cc a in
          rw (latest_self r history pos memo_id p q)
            (subst (Matches (some r)) b (Matches-written shift r old))
      | no other ↦
          rw (latest-other shift r history pos memo_id other)
            (elim (ℕ_discrete (bit_and (hash_of shift (pos_of r) (id_of r)) mask)
              (bit_and (hash_of shift pos memo_id) mask)) [
                | yes i ↦
                    let s : get_elem?
                          (set m.ary (bit_and (hash_of shift pos memo_id) mask)
                            (written shift r old))
                          (bit_and (hash_of shift pos memo_id) mask)
                        ≡ some (written shift r old) =
                      get_elem?-set_self m.ary (bit_and (hash_of shift pos memo_id) mask)
                        (written shift r old)
                        (index-lt (hash_of shift pos memo_id) mask _ w.room) in
                    let a : some (written shift r old) ≡ some e = sym s ∙ (rw i at at') in
                    let b : written shift r old ≡ e = cc a in
                    absurd (other (sym (hash-written shift r old) ∙ ap (λ x. x.hash) b ∙ hash))
                | no i ↦
                    w.says pos memo_id e k
                      (sym (get_elem?-set_ne m.ary _ _ (written shift r old) i) ∙ at') hash
              ])
    ]

pub record_in-Agrees :
    (shift mask : ℕ) (history : List Record) (m : Memo) (r : Record)
    → Agrees shift mask history m
    → IsKey shift (pos_of r) (id_of r)
    → (m' : Memo) × (record_in r m ≡ some m') × Agrees shift mask (r ∷ history) m'
record_in-Agrees shift mask history m r w k =
    let i : ℕ = bit_and (hash_of shift (pos_of r) (id_of r)) mask in
    let old : MemoEntry = get_or m.ary i empty_entry in
    let g : get_elem? m.ary i ≡ some old =
      get_elem?-eq-get_or m.ary i empty_entry
        (index-lt (hash_of shift (pos_of r) (id_of r)) mask _ w.room) in
    (
      record { ary = set m.ary i (written shift r old); shift = shift; mask = mask },
      ap (record_in r) (λ j. record { ary = m.ary; shift = w.same_shift j; mask = w.same_mask j })
          ∙ record_in-eq r (record { ary = m.ary; shift = shift; mask = mask }) old g,
      record {
        same_shift = refl;
        same_mask = refl;
        room = omega (arith, w.room, length-set m.ary i (written shift r old));
        says = says-record_in shift mask history m r old w k;
      },
    )
