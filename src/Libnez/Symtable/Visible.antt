-- ===== src/Libnez/Symtable/Visible.antt =====
-- src/libnez/symtable.c: what the three queries answer, against the symbols in view.
use moz.Base.{
  ℕ, Bool, true, false, not, Option, none, some, List, [], ◌∷◌, ◌==◌, ◌&&◌, ◌||◌, ◌≡◌, ◌≢◌, refl,
  arith, if◌then◌else◌, Bool-cases, inl, inr,
}
use moz.Libnez.Token.{Token, token_copy, token_equal}
use moz.Libnez.Token.Laws.{token_equal_iff, text}
use moz.Libnez.Khash.{fnv1a}
use moz.Libnez.Khash.Laws.{fnv1a-text}
use moz.Libnez.Symtable.{
  Entry, Symtable, is_null, symtable_push, symtable_add_symbol, symtable_add_symbol_mask,
  symtable_has_symbol, symtable_get_symbol, symtable_contains, has_loop, get_loop, contains_loop,
  pushed_sym,
}

-- The symbols of a table name that no mask hides, the latest first.
abbrev pub visible : List Entry → ℕ → List Token
visible [] n = []
visible (e ∷ es) n =
    if e.tag == n then (if is_null e.sym then [] else e.sym ∷ visible es n) else visible es n

-- All symbols of a table name, hidden or not.
abbrev pub defined : List Entry → ℕ → List Token
defined [] n = []
defined (e ∷ es) n =
    if e.tag == n
    then (if is_null e.sym then defined es n else e.sym ∷ defined es n)
    else defined es n

abbrev pub is_empty : List Token → Bool
is_empty [] = true
is_empty (t ∷ ts) = false

abbrev pub first : List Token → Option Token
first [] = none
first (t ∷ ts) = some t

abbrev pub some_equal : (ℕ → ℕ) → Token → List Token → Bool
some_equal mem t [] = false
some_equal mem t (u ∷ us) = token_equal mem t u || some_equal mem t us

has_loop-visible : (es : List Entry) (n : ℕ) → has_loop es n ≡ not (is_empty (visible es n))
unfolding has_loop
has_loop-visible [] n = refl
has_loop-visible (e ∷ es) n = ground (arith, has_loop-visible es n)

-- `symtable_has_symbol` answers whether a symbol of that name is in view.
has_symbol-visible :
    (tbl : Symtable) (n : ℕ) → symtable_has_symbol tbl n ≡ not (is_empty (visible tbl.table n))
unfolding symtable_has_symbol
has_symbol-visible tbl n = has_loop-visible tbl.table n

get_loop-defined : (es : List Entry) (n : ℕ) → get_loop es n ≡ first (defined es n)
unfolding get_loop token_copy
get_loop-defined [] n = refl
get_loop-defined (e ∷ es) n = ground (arith, get_loop-defined es n)

-- `symtable_get_symbol` returns the latest symbol of that name, and looks through masks: it
-- returns a symbol that a mask hides from the other two queries.
pub get_symbol-defined :
    (tbl : Symtable) (n : ℕ) → symtable_get_symbol tbl n ≡ first (defined tbl.table n)
unfolding symtable_get_symbol
get_symbol-defined tbl n = get_loop-defined tbl.table n

module _ (mem : ℕ → ℕ) where
  -- Every entry with a symbol holds the hash of its text.
  abbrev pub Hashed : List Entry → Type 0
  Hashed [] = Unit
  Hashed (e ∷ es) = (e.sym.s ≢ 0 → e.hash ≡ fnv1a mem e.sym.s e.sym.len) × Hashed es

  -- Equal texts have equal hashes, so comparing hashes first loses nothing.
  hash_guard :
      (t u : Token)
      → (fnv1a mem t.s t.len == fnv1a mem u.s u.len && token_equal mem t u) ≡ token_equal mem t u
  hash_guard t u = elim (Bool-cases (token_equal mem t u)) [
    | inl e ↦
        let b : text mem t ≡ text mem u = (token_equal_iff mem t u).0 e in
        let h : fnv1a mem t.s t.len ≡ fnv1a mem u.s u.len = fnv1a-text mem t u b in ground arith
    | inr e ↦ rw e (ground arith)
  ]

  contains_loop-visible :
      (es : List Entry) (n : ℕ) (t : Token)
      → Hashed es
      → contains_loop mem es n (fnv1a mem t.s t.len) t ≡ some_equal mem t (visible es n)
  unfolding contains_loop
  contains_loop-visible [] n t h = refl
  contains_loop-visible (e ∷ es) n t (h, hs) =
      ground (arith, contains_loop-visible es n t hs, hash_guard t e.sym)

  -- In a table whose hashes are right `symtable_contains` answers whether a symbol in view has the
  -- text of the token.
  pub contains-visible :
      (tbl : Symtable) (n : ℕ) (t : Token)
      → Hashed tbl.table
      → symtable_contains mem tbl n t ≡ some_equal mem t (visible tbl.table n)
  unfolding symtable_contains
  contains-visible tbl n t h = contains_loop-visible tbl.table n t h

  -- Adding a symbol that is not at NULL keeps the hashes right, puts the symbol in front of those
  -- in view under its name, and leaves every other name's symbols as they were.
  pub add_symbol-visible :
      (junk : Token) (tbl : Symtable) (n m : ℕ) (t : Token)
      → t.s ≢ 0
      → n ≢ m
      → Hashed tbl.table
      → Hashed (symtable_add_symbol mem junk tbl n t).table
        × (visible (symtable_add_symbol mem junk tbl n t).table n ≡ t ∷ visible tbl.table n)
        × (visible (symtable_add_symbol mem junk tbl n t).table m ≡ visible tbl.table m)
  unfolding symtable_add_symbol symtable_push pushed_sym token_copy
  add_symbol-visible junk tbl n m t p q h = ((λ _. refl, h), ground arith, ground arith)

  -- A mask hides the symbols of its name and of no other, and keeps the hashes right, provided the
  -- stack slot of the token that it leaves unset holds NULL.
  pub add_symbol_mask-visible :
      (junk : Token) (tbl : Symtable) (n m : ℕ)
      → junk.s ≡ 0
      → n ≢ m
      → Hashed tbl.table
      → Hashed (symtable_add_symbol_mask junk tbl n).table
        × (visible (symtable_add_symbol_mask junk tbl n).table n ≡ [])
        × (visible (symtable_add_symbol_mask junk tbl n).table m ≡ visible tbl.table m)
  unfolding symtable_add_symbol_mask symtable_push pushed_sym
  add_symbol_mask-visible junk tbl n m p q h =
      ((λ ne. absurd (ne p), h), ground arith, ground arith)

-- After a mask, whether a symbol of the name exists is what the stack slot of the unset token held,
-- whatever the table was.
pub has_symbol-mask :
    (junk : Token) (tbl : Symtable) (n : ℕ)
    → symtable_has_symbol (symtable_add_symbol_mask junk tbl n) n ≡ not (is_null junk)
unfolding symtable_has_symbol has_loop symtable_add_symbol_mask symtable_push pushed_sym
has_symbol-mask junk tbl n = ground arith
