-- ===== src/Libnez/Symtable/Scope.antt =====
-- src/libnez/symtable.c: savepoint and rollback.
use moz.Base.{ℕ, ◌-◌, List, [], ◌∷◌, length, ◌≡◌, refl, arith, ap, ◌++◌, ◌∙◌, sym}
use moz.Base.Lists.{length-append, drop-append_length}
use moz.Libnez.Token.{Token}
use moz.Libnez.Khash.{fnv1a}
use moz.Libnez.Symtable.{
  Entry, Symtable, symtable_push, symtable_add_symbol, symtable_add_symbol_mask, symtable_savepoint,
  symtable_rollback, symtable_contains, symtable_get_symbol, symtable_has_symbol, has_loop,
  get_loop, contains_loop,
}
use mathlib.Core.List.{append_assoc}

-- A call that changes the table while a scope is open, its arguments and the junk included.
pub data Change : Type 0 where
  add : Token → ℕ → Token → Change
  mask : Token → ℕ → Change

module _ (mem : ℕ → ℕ) where
  pub apply : Symtable → Change → Symtable
  apply tbl (add junk table_name t) = symtable_add_symbol mem junk tbl table_name t
  apply tbl (mask junk table_name) = symtable_add_symbol_mask junk tbl table_name

  pub apply_all : Symtable → List Change → Symtable
  apply_all tbl [] = tbl
  apply_all tbl (c ∷ cs) = apply_all (apply tbl c) cs

  -- The changes only stack entries on top of the old ones.
  grown :
      (cs : List Change) (tbl : Symtable)
      → (new : List Entry) × ((apply_all tbl cs).table ≡ new ++ tbl.table)
  unfolding apply_all apply symtable_add_symbol symtable_add_symbol_mask symtable_push
  grown [] tbl = ([], refl)
  grown (add junk n t ∷ cs) tbl =
      let (new, e) = grown cs (apply tbl (add junk n t)) in
      (new ++ _ ∷ [], e ∙ sym (append_assoc new _ _))
  grown (mask junk n ∷ cs) tbl =
      let (new, e) = grown cs (apply tbl (mask junk n)) in
      (new ++ _ ∷ [], e ∙ sym (append_assoc new _ _))

  restored :
      (cs : List Change) (tbl : Symtable)
      → (symtable_rollback (apply_all tbl cs) (symtable_savepoint tbl)).table ≡ tbl.table
  unfolding symtable_rollback symtable_savepoint
  restored cs tbl =
      let (new, e) = grown cs tbl in
      let n : length (new ++ tbl.table) - length tbl.table ≡ length new =
        omega (arith, length-append new tbl.table) in
      rw (e, n) (drop-append_length new tbl.table)

  -- Whatever is added or masked after a savepoint, rolling back to it restores the entries, and
  -- with them the answer of every query; the counter of states is the one thing that may differ.
  pub rollback-savepoint :
      (cs : List Change) (tbl : Symtable) (table_name : ℕ) (t : Token)
      → let closed = symtable_rollback (apply_all tbl cs) (symtable_savepoint tbl) in
        (closed.table ≡ tbl.table)
        × (symtable_has_symbol closed table_name ≡ symtable_has_symbol tbl table_name)
        × (symtable_get_symbol closed table_name ≡ symtable_get_symbol tbl table_name)
        × (symtable_contains mem closed table_name t ≡ symtable_contains mem tbl table_name t)
  unfolding symtable_has_symbol symtable_get_symbol symtable_contains
  rollback-savepoint cs tbl table_name t =
      let e = restored cs tbl in
      (
        e,
        ap (λ es. has_loop es table_name) e,
        ap (λ es. get_loop es table_name) e,
        ap (λ es. contains_loop mem es table_name (fnv1a mem t.s t.len) t) e,
      )
