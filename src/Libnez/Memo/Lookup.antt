-- ===== src/Libnez/Memo/Lookup.antt =====
-- src/libnez/memo.c: what `memo_get` answers after any history of records.
use Prim.Native.Nat.{bit_and}
use moz.Base.{
  ℕ, ◌<◌, ◌≡◌, true, ◌==◌, ◌&&◌, if◌then◌else◌, Option, none, some, List, [], ◌∷◌, get_elem?,
  get_or, set, arith, ap, ◌∙◌, refl, Bool-cases, inl, inr, ==_iff, length,
}
use moz.Base.Lists.{get_elem?-eq-get_or, get_elem?-set_self}
use moz.Libnez.Memo.{Memo, MemoEntry, hash_of, index_of, memo_get, memo_entry_failed, empty_entry}
use moz.Libnez.Memo.Key.{IsKey}
use moz.Libnez.Memo.Sound.{
  Record, success, failure, replay, record_in, latest, Matches, AllKeys, Agrees, record_in-Agrees,
  record_in-eq, index-lt, written,
}

-- A hit has the state that was asked for and says what the key's last record said; a miss says
-- nothing.
abbrev pub IsAnswer : List Record → ℕ → ℕ → ℕ → Option MemoEntry → Type 0
IsAnswer history pos memo_id state none = Unit
IsAnswer history pos memo_id state (some e) =
    Matches (latest history pos memo_id) e × (e.state ≡ state)

replay-Agrees :
    (shift mask : ℕ) (history : List Record) (m₀ : Memo)
    → Agrees shift mask [] m₀
    → AllKeys shift history
    → (m : Memo) × (replay history m₀ ≡ some m) × Agrees shift mask history m
unfolding replay
replay-Agrees shift mask [] m₀ w ks = (m₀, refl, w)
replay-Agrees shift mask (r ∷ history) m₀ w (k, ks) =
    let (m₁, e₁, w₁) = replay-Agrees shift mask history m₀ w ks in
    let (m₂, e₂, w₂) = record_in-Agrees shift mask history m₁ r w₁ k in (m₂, rw e₁ e₂, w₂)

found :
    (shift mask : ℕ) (history : List Record) (m : Memo)
    → Agrees shift mask history m
    → (pos memo_id state : ℕ) (e : MemoEntry) → IsKey shift pos memo_id
    → get_elem? m.ary (bit_and (hash_of shift pos memo_id) mask) ≡ some e
    → IsAnswer history pos memo_id state
        (if e.hash == hash_of shift pos memo_id && e.state == state then some e else none)
found shift mask history m w pos memo_id state e k at' =
    elim (Bool-cases (e.hash == hash_of shift pos memo_id)) [
      | inl a ↦ elim (Bool-cases (e.state == state)) [
        | inl b ↦ rw (a, b) (w.says pos memo_id e k at' ((==_iff _ _).0 a), (==_iff _ _).0 b)
        | inr b ↦ rw (a, b) tt
      ]
      | inr a ↦ rw a tt
    ]

memo_get-eq :
    (m : Memo) (pos memo_id state : ℕ) (e : MemoEntry)
    → get_elem? m.ary (bit_and (hash_of m.shift pos memo_id) m.mask) ≡ some e
    → memo_get m pos memo_id state
      ≡ some (if e.hash == hash_of m.shift pos memo_id && e.state == state then some e else none)
unfolding memo_get
memo_get-eq m pos memo_id state e at' = rw at' refl

slot_eq :
    (shift mask : ℕ) (history : List Record) (m : Memo)
    → Agrees shift mask history m
    → (pos memo_id : ℕ)
    → get_elem? m.ary (bit_and (hash_of shift pos memo_id) mask)
      ≡ some (get_or m.ary (bit_and (hash_of shift pos memo_id) mask) empty_entry)
slot_eq shift mask history m w pos memo_id =
    get_elem?-eq-get_or m.ary (bit_and (hash_of shift pos memo_id) mask) empty_entry
      (index-lt (hash_of shift pos memo_id) mask _ w.room)

answer :
    (shift mask : ℕ) (history : List Record) (m : Memo)
    → Agrees shift mask history m
    → (pos memo_id state : ℕ) → IsKey shift pos memo_id
    → (out : Option MemoEntry) × (memo_get m pos memo_id state ≡ some out)
      × IsAnswer history pos memo_id state out
answer shift mask history m w pos memo_id state k =
    let e : MemoEntry = get_or m.ary (bit_and (hash_of shift pos memo_id) mask) empty_entry in
    let at' = slot_eq shift mask history m w pos memo_id in
    (
      if e.hash == hash_of shift pos memo_id && e.state == state then some e else none,
      ap (λ x. memo_get x pos memo_id state)
            (λ j. record { ary = m.ary; shift = w.same_shift j; mask = w.same_mask j })
          ∙ memo_get-eq (record { ary = m.ary; shift = shift; mask = mask }) pos memo_id state e
              at',
      found shift mask history m w pos memo_id state e k at',
    )

-- From an empty table any history of records succeeds, and then `memo_get` succeeds on every key:
-- a hit has the state that was asked for and says what the last record of exactly that position
-- and memo point said, whatever else was recorded in the same slot.
pub memo_get-latest :
    (m₀ : Memo) (history : List Record) (pos memo_id state : ℕ)
    → Agrees m₀.shift m₀.mask [] m₀
    → AllKeys m₀.shift history
    → IsKey m₀.shift pos memo_id
    → (m : Memo) × (replay history m₀ ≡ some m)
      × ((out : Option MemoEntry) × (memo_get m pos memo_id state ≡ some out)
          × IsAnswer history pos memo_id state out)
memo_get-latest m₀ history pos memo_id state w ks k =
    let (m, e, w') = replay-Agrees m₀.shift m₀.mask history m₀ w ks in
    (m, e, answer m₀.shift m₀.mask history m w' pos memo_id state k)

-- Right after a record of a success `memo_get` with its state hits, with its result and length.
memo_get-success :
    (m : Memo) (pos memo_id result consumed state : ℕ)
    → m.mask < length m.ary
    → (m' : Memo) × (record_in (success pos memo_id result consumed state) m ≡ some m')
      × (memo_get m' pos memo_id state
          ≡ some (
              some (record {
                hash = hash_of m.shift pos memo_id;
                result = result;
                consumed = consumed;
                state = state;
              })))
memo_get-success m pos memo_id result consumed state room =
    let i : ℕ = bit_and (hash_of m.shift pos memo_id) m.mask in
    let lt = index-lt (hash_of m.shift pos memo_id) m.mask _ room in
    let old : MemoEntry = get_or m.ary i empty_entry in
    let new : MemoEntry = written m.shift (success pos memo_id result consumed state) old in
    let m' : Memo = record m { ary = set m.ary i new } in
    let a : (hash_of m.shift pos memo_id == hash_of m.shift pos memo_id) ≡ true = ground arith in
    let b : (state == state) ≡ true = ground arith in
    (
      m',
      record_in-eq (success pos memo_id result consumed state) m old
          (get_elem?-eq-get_or m.ary i empty_entry lt),
      memo_get-eq m' pos memo_id state new (get_elem?-set_self m.ary i new lt) ∙ rw (a, b) refl,
    )

-- Right after a record of a failure `memo_get` hits exactly when it asks for the state that the slot
-- already held, which is the state of whatever was recorded there before.
pub memo_get-failure :
    (m : Memo) (pos memo_id state : ℕ) {old : MemoEntry}
    → get_elem? m.ary (index_of m pos memo_id) ≡ some old
    → m.mask < length m.ary
    → (m' : Memo) × (record_in (failure pos memo_id) m ≡ some m')
      × (memo_get m' pos memo_id state
          ≡ some (
              if old.state == state
              then some
                  (record old { hash = hash_of m.shift pos memo_id; result = memo_entry_failed })
              else none))
memo_get-failure m pos memo_id state {old} at' room =
    let i : ℕ = bit_and (hash_of m.shift pos memo_id) m.mask in
    let lt = index-lt (hash_of m.shift pos memo_id) m.mask _ room in
    let new : MemoEntry = written m.shift (failure pos memo_id) old in
    let m' : Memo = record m { ary = set m.ary i new } in
    let a : (hash_of m.shift pos memo_id == hash_of m.shift pos memo_id) ≡ true = ground arith in
    (
      m',
      record_in-eq (failure pos memo_id) m old at',
      memo_get-eq m' pos memo_id state new (get_elem?-set_self m.ary i new lt) ∙ rw a refl,
    )
