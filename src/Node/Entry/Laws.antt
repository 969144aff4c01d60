-- ===== src/Node/Entry/Laws.antt =====
-- src/node/node.c: the union against a list of children.
use moz.Base.{
  ℕ, zero, suc, ◌<◌, ◌≤◌, some, List, [], ◌∷◌, ◌++◌, ltb, length, get_or, set, true, false,
  replicate, ◌≡◌, refl, arith,
}
use moz.Base.Lists.{length-append, length-replicate, get_elem?-eq-get_or, length-set}
use native.Mathlib.Decide.{dec_lt}
use moz.Node.Entry.{
  NodeEntry, raw, array, entry_length, entry_new, entry_get, entry_append, entry_store,
}

-- The children that the union stands for.
pub entry_children : NodeEntry → List ℕ
entry_children (raw zero e0 e1) = []
entry_children (raw (suc zero) e0 e1) = e0 ∷ []
entry_children (raw (suc (suc n)) e0 e1) = e0 ∷ e1 ∷ []
entry_children (array xs) = xs

-- The arm in use agrees with the size that both arms share.
abbrev pub IsValid : NodeEntry → Type 0
IsValid (raw size e0 e1) = size ≤ 2
IsValid (array xs) = 2 < length xs

pub length-entry_children : (e : NodeEntry) → IsValid e → length (entry_children e) ≡ entry_length e
unfolding entry_children entry_length
length-entry_children (raw zero e0 e1) v = refl
length-entry_children (raw (suc zero) e0 e1) v = refl
length-entry_children (raw (suc (suc n)) e0 e1) v = omega arith
length-entry_children (array xs) v = refl

get_or_beyond : (xs : List ℕ) (i : ℕ) → length xs ≤ i → get_or xs i 0 ≡ 0
get_or_beyond [] i h = refl
get_or_beyond (x ∷ xs) zero h = absurd (omega arith)
get_or_beyond (x ∷ xs) (suc i) h = get_or_beyond xs i (omega arith)

new-IsValid : (k : ℕ) → IsValid (entry_new k)
unfolding entry_new
new-IsValid zero = omega arith
new-IsValid (suc zero) = omega arith
new-IsValid (suc (suc zero)) = omega arith
new-IsValid (suc (suc (suc k))) =
    let e : ltb 2 (suc (suc (suc k))) ≡ true = ground arith in
    rw e (omega (arith, length-replicate {A = ℕ} k 0))

new_children : (k : ℕ) → entry_children (entry_new k) ≡ replicate k 0
unfolding entry_new entry_children
new_children zero = refl
new_children (suc zero) = refl
new_children (suc (suc zero)) = refl
new_children (suc (suc (suc k))) =
    let e : ltb 2 (suc (suc (suc k))) ≡ true = ground arith in rw e refl

get_lem :
    (e : NodeEntry) → IsValid e → (j : ℕ) → entry_get e j ≡ some (get_or (entry_children e) j 0)
unfolding entry_get entry_children entry_length
get_lem (raw zero e0 e1) v zero = refl
get_lem (raw zero e0 e1) v (suc j) = ground arith
get_lem (raw (suc zero) e0 e1) v zero = refl
get_lem (raw (suc zero) e0 e1) v (suc j) = ground arith
get_lem (raw (suc (suc zero)) e0 e1) v zero = refl
get_lem (raw (suc (suc zero)) e0 e1) v (suc zero) = refl
get_lem (raw (suc (suc zero)) e0 e1) v (suc (suc j)) = ground arith
get_lem (raw (suc (suc (suc n))) e0 e1) v j = absurd (omega arith)
get_lem (array xs) v j = elim (dec_lt j (length xs)) [
  | yes p ↦
      let a : ltb j (length xs) ≡ true = ground arith in
      let b : ltb 2 (length xs) ≡ true = ground arith in rw (a, b) (get_elem?-eq-get_or xs j 0 p)
  | no p ↦
      let a : ltb j (length xs) ≡ false = ground arith in
      rw (a, get_or_beyond xs j (omega arith)) refl
]

append_lem :
    (e : NodeEntry)
    → IsValid e
    → (n : ℕ)
    → (e' : NodeEntry) × (entry_append e n ≡ some e')
      × IsValid e'
      × (entry_children e' ≡ entry_children e ++ n ∷ [])
unfolding entry_append entry_children entry_length
append_lem (raw zero e0 e1) v n = (raw 1 n e1, refl, omega arith, refl)
append_lem (raw (suc zero) e0 e1) v n = (raw 2 e0 n, refl, omega arith, refl)
append_lem (raw (suc (suc zero)) e0 e1) v n = (array (e0 ∷ e1 ∷ n ∷ []), refl, omega arith, refl)
append_lem (raw (suc (suc (suc k))) e0 e1) v n = absurd (omega arith)
append_lem (array xs) v n =
    let b : ltb 2 (length xs) ≡ true = ground arith in
    (array (xs ++ n ∷ []), rw b refl, omega (arith, length-append xs (n ∷ [])), refl)

store_lem :
    (e : NodeEntry)
    → IsValid e
    → (index n : ℕ) → index < entry_length e
    → (e' : NodeEntry) × (entry_store e index n ≡ some e')
      × IsValid e'
      × (entry_children e' ≡ set (entry_children e) index n)
unfolding entry_store entry_children entry_length
store_lem (raw zero e0 e1) v index n h = absurd (omega arith)
store_lem (raw (suc zero) e0 e1) v zero n h = (raw 1 n e1, refl, omega arith, refl)
store_lem (raw (suc zero) e0 e1) v (suc i) n h = absurd (omega arith)
store_lem (raw (suc (suc zero)) e0 e1) v zero n h = (raw 2 n e1, refl, omega arith, refl)
store_lem (raw (suc (suc zero)) e0 e1) v (suc zero) n h = (raw 2 e0 n, refl, omega arith, refl)
store_lem (raw (suc (suc zero)) e0 e1) v (suc (suc i)) n h = absurd (omega arith)
store_lem (raw (suc (suc (suc k))) e0 e1) v index n h = absurd (omega arith)
store_lem (array xs) v index n h =
    let b : ltb 2 (length xs) ≡ true = ground arith in
    (array (set xs index n), rw b refl, omega (arith, length-set xs index n), refl)

-- A new entry has `elm_size` NULL children. On a valid entry `Node_get` reads the child at an index
-- and NULL beyond the last; `Node_append` adds a child at the end and `Node_set` replaces one in
-- range, both giving a valid entry.
pub entry_refines_list :
    (e : NodeEntry) (index n elm_size : ℕ)
    → IsValid e
    → index < entry_length e
    → (j : ℕ)
    → IsValid (entry_new elm_size)
      × (entry_children (entry_new elm_size) ≡ replicate elm_size 0)
      × (entry_get e j ≡ some (get_or (entry_children e) j 0))
      × ((e' : NodeEntry) × (entry_append e n ≡ some e')
          × IsValid e'
          × (entry_children e' ≡ entry_children e ++ n ∷ []))
      × ((e' : NodeEntry) × (entry_store e index n ≡ some e')
          × IsValid e'
          × (entry_children e' ≡ set (entry_children e) index n))
entry_refines_list e index n elm_size v h j = (
  new-IsValid elm_size,
  new_children elm_size,
  get_lem e v j,
  append_lem e v n,
  store_lem e v index n h,
)
