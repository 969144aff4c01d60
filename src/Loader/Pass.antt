-- ===== src/Loader/Pass.antt =====
-- src/loader.c: the first pass of mozvm_loader_load, for the optimising loader.
use moz.Base.{
  ℕ, zero, suc, ◌<◌, true, ltb, ◌==◌, some, List, [], ◌∷◌, ◌++◌, ◌≡◌, refl, sym, ap, ◌∙◌, ◌⊎◌,
  Bool-cases, inl, inr, length, get_elem?, arith,
}
use mathlib.Core.List.{append_assoc}
use moz.Loader.{InputStream, Loader, Production, peek8}
use moz.Loader.Opcode.{Opcode, number}
use moz.Loader.Layout.{IsWhole, IsWhole-append}
use moz.Loader.Emits.{Each, Each-bind, then_any}
use moz.Loader.Whole.{IsFileByte, mozvm_loader_load_inst-IsWhole}
use moz.Loader.Inst.{mozvm_loader_load_inst}
use moz.Loader.Load.{load_one, mark_prod, record_start, with_prod}

-- An address of the buffer at which an instruction starts, or the end.
pub record IsStart (buf : List ℕ) (s : ℕ) : Type 0 where
  pub before : List ℕ
  pub behind : List ℕ
  pub split : buf ≡ before ++ behind
  pub at : length before ≡ s
  pub whole_before : IsWhole before
  pub whole_behind : IsWhole behind

-- Whole instructions, and a table of instructions whose entries are all starts.
pub record IsLoaded (buf table : List ℕ) : Type 0 where
  pub whole : IsWhole buf
  pub starts : (i s : ℕ) → get_elem? table i ≡ some s → IsStart buf s

IsStart-append :
    {buf : List ℕ} {s : ℕ} (code : List ℕ) → IsWhole code → IsStart buf s → IsStart (buf ++ code) s
IsStart-append code w p = record {
  before = p.before;
  behind = p.behind ++ code;
  split = ap (λ t. t ++ code) p.split ∙ append_assoc p.before p.behind code;
  at = p.at;
  whole_before = p.whole_before;
  whole_behind = IsWhole-append p.behind code p.whole_behind w;
}

get_elem?-append_last :
    (xs : List ℕ) (x i s : ℕ)
    → get_elem? (xs ++ x ∷ []) i ≡ some s
    → (get_elem? xs i ≡ some s) ⊎ (s ≡ x)
get_elem?-append_last [] x zero s e = inr (ground arith)
get_elem?-append_last [] x (suc i) s e = absurd cc
get_elem?-append_last (y ∷ xs) x zero s e = inl e
get_elem?-append_last (y ∷ xs) x (suc i) s e = get_elem?-append_last xs x i s e

-- An instruction is recorded and its code appended.
IsLoaded-grown :
    {buf table : List ℕ} (code : List ℕ)
    → IsWhole code
    → IsLoaded buf table
    → IsLoaded (buf ++ code) (table ++ length buf ∷ [])
IsLoaded-grown {buf} {table} code w p = record {
  whole = IsWhole-append buf code p.whole w;
  starts = λ i s e. elim (get_elem?-append_last table (length buf) i s e) [
    | inl old ↦ IsStart-append code w (p.starts i s old)
    | inr new ↦ record {
      before = buf;
      behind = code;
      split = refl;
      at = sym new;
      whole_before = p.whole;
      whole_behind = w;
    }
  ];
}

-- What a loader keeps but for its constants and its counter.
record Keeps (l l' : Loader) : Type 0 where
  buf : l'.buf ≡ l.buf
  table : l'.table ≡ l.table

with_prod-Keeps :
    (id : ℕ) (f : Production → Production) (l : Loader) → Each (Keeps l) (with_prod id f l)
with_prod-Keeps id f l =
    then_any (get_elem? l.consts.prods id) _
      λ p. Each.each_some (record { buf = refl; table = refl })

abbrev Marked : Loader → ℕ × Loader → Type 0
Marked l (prod_id, l') = Keeps l l'

mark_prod-Keeps :
    (opcode start prod prod_id : ℕ) (l : Loader)
    → Each (Marked l) (mark_prod opcode start prod prod_id l)
unfolding mark_prod
mark_prod-Keeps opcode start prod prod_id l =
    elim (Bool-cases (opcode == number Opcode.code_label)) [
      | inl e ↦
          rw e (Each-bind (with_prod prod _ l) _ (with_prod-Keeps prod _ l) λ _ k. Each.each_some k)
      | inr e ↦ rw e (
          Each-bind (with_prod prod_id _ l) _ (with_prod-Keeps prod_id _ l) λ _ k. Each.each_some k)
    ]

record Recorded (l l' : Loader) : Type 0 where
  buf : l'.buf ≡ l.buf
  table : l'.table ≡ l.table ++ length l.buf ∷ []

record_start-Recorded : (l : Loader) → Each (Recorded l) (record_start l)
unfolding record_start
record_start-Recorded l = elim (Bool-cases (ltb (length l.table) l.room)) [
  | inl e ↦ rw e (Each.each_some (record { buf = refl; table = refl }))
  | inr e ↦ rw e Each.each_none
]

-- One round from the loader `l0`: the invariant again, a stream that has moved on, and a table with
-- one entry more, the length of the buffer before the round.
abbrev pub Round : Loader → InputStream → ℕ × Loader × InputStream → Type 0
Round l0 is (prod_id, l, is') =
    IsLoaded l.buf l.table
    × (is.pos < is'.pos)
    × (is'.end_pos ≡ is.end_pos)
    × (l.table ≡ l0.table ++ length l0.buf ∷ [])

pub load_one-Round :
    (prod_id : ℕ) (l : Loader) (is : InputStream) (byte : ℕ)
    → get_elem? is.bytes is.pos ≡ some byte
    → IsFileByte byte
    → IsLoaded l.buf l.table
    → Each (Round l is) (load_one true prod_id l is)
unfolding load_one
load_one-Round prod_id l is byte e file inv = then_any (peek8 is) _ λ opcode.
    Each-bind (record_start l) _ (record_start-Recorded l) λ l1 r.
      Each-bind (mozvm_loader_load_inst true l1 is) _
        (mozvm_loader_load_inst-IsWhole l1 is byte e file)
        λ (prod, l2, is1) (w, on).
          Each-bind (mark_prod opcode (length l.buf) prod prod_id l2) _
            (mark_prod-Keeps opcode (length l.buf) prod prod_id l2)
            λ (prod_id1, l3) k.
              let buf : l3.buf ≡ l.buf ++ w.code =
                k.buf ∙ w.appended.buf ∙ ap (λ t. t ++ w.code) r.buf in
              let table : l3.table ≡ l.table ++ length l.buf ∷ [] =
                k.table ∙ w.appended.table ∙ r.table in
              Each.each_some
                (rw (buf, table) (IsLoaded-grown w.code w.whole inv), on, w.follows.same_end, table)
