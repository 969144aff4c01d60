-- ===== src/Loader/Rounds.antt =====
-- src/loader.c: the loop of the first pass of mozvm_loader_load, for the optimising loader.
use Prim.Native.Nat.{bit_and}
use moz.Base.{
  ℕ, zero, suc, ◌+◌, ◌≤◌, Bool, true, false, ◌&&◌, ltb, if◌then◌else◌, Option, none, some, List, [],
  ◌∷◌, ◌++◌, ◌∙◌, ◌≡◌, refl, sym, ap, ◌>>=◌, Bool-cases, Option-cases, inl, inr, length, get_elem?,
  arith,
}
use mathlib.Core.List.{append_assoc, append-nil}
use moz.Loader.{Constants, InputStream, Loader, mozvm_loader_init, peek8}
use moz.Loader.Opcode.{Opcode, opcode_of}
use moz.Loader.Layout.{IsWhole, is_file_op}
use moz.Loader.Emits.{Each}
use moz.Loader.Pass.{IsLoaded, Round, load_one-Round}
use moz.Loader.Load.{load_all, load_one}

abbrev is_file : Option Opcode → Bool
is_file none = false
is_file (some op) = is_file_op op

abbrev pub is_file_byte : Option ℕ → Bool
is_file_byte none = true
is_file_byte (some byte) = is_file (opcode_of (bit_and byte 127))

-- A test of the result, if there is one.
abbrev every : (ℕ × Loader × InputStream → Bool) → Option (ℕ × Loader × InputStream) → Bool
every f none = true
every f (some r) = f r

-- Every opcode that the pass reads, in so many rounds, is one of a file.
unfoldable pub file_ops : ℕ → ℕ → Loader → InputStream → Bool
file_ops zero prod_id l is = true
file_ops (suc rounds) prod_id l is =
    let rest =
      every (λ (prod_id, l, is). file_ops rounds prod_id l is) (load_one true prod_id l is) in
    if ltb is.pos is.end_pos then (is_file_byte (peek8 is) && rest) else true

is_file-IsFileByte :
    (o : Option Opcode) → is_file o ≡ true → (op : Opcode) × (o ≡ some op) × (is_file_op op ≡ true)
is_file-IsFileByte none h = absurd cc
is_file-IsFileByte (some op) h = (op, refl, h)

both : (a b : Bool) → (a && b) ≡ true → (a ≡ true) × (b ≡ true)
both true b h = (refl, h)
both false b h = absurd cc

abbrev starts_of : (ℕ × Loader × InputStream → List ℕ) → Option (ℕ × Loader × InputStream) → List ℕ
starts_of f none = []
starts_of f (some r) = f r

-- Where the code of each instruction that the pass reads begins, in so many rounds: the length of the
-- buffer before it is loaded.
unfoldable pub inst_starts : ℕ → ℕ → Loader → InputStream → List ℕ
inst_starts zero prod_id l is = []
inst_starts (suc rounds) prod_id l is =
    let rest =
      starts_of (λ (prod_id, l, is). inst_starts rounds prod_id l is)
        (load_one true prod_id l is) in
    if ltb is.pos is.end_pos then length l.buf ∷ rest else []

abbrev Next : ℕ → Loader → InputStream → ℕ × Loader × InputStream → Type 0
Next rounds l0 is (prod_id, l, is') =
    Round l0 is (prod_id, l, is') × (file_ops rounds prod_id l is' ≡ true)

Each-every :
    (rounds : ℕ) (l0 : Loader) (is : InputStream) (o : Option (ℕ × Loader × InputStream))
    → Each (Round l0 is) o
    → every (λ (prod_id, l, is). file_ops rounds prod_id l is) o ≡ true
    → Each (Next rounds l0 is) o
Each-every rounds l0 is none e h = Each.each_none
Each-every rounds l0 is (some r) (Each.each_some e) h = Each.each_some (e, h)

load_one-none :
    (prod_id : ℕ) (l : Loader) (is : InputStream)
    → get_elem? is.bytes is.pos ≡ none
    → Each (Round l is) (load_one true prod_id l is)
unfolding load_one peek8
load_one-none prod_id l is e = rw e Each.each_none

-- Whole instructions, and a table that is `table`, of starts.
abbrev pub Finished : List ℕ → Loader × InputStream → Type 0
Finished table (l, is) = IsLoaded l.buf l.table × (l.table ≡ table)

opened :
    (prod_id rounds : ℕ) (l : Loader) (is : InputStream)
    → ltb is.pos is.end_pos ≡ true
    → file_ops (suc rounds) prod_id l is ≡ true
    → (is_file_byte (peek8 is)
        && every (λ (prod_id, l, is). file_ops rounds prod_id l is) (load_one true prod_id l is))
      ≡ true
unfolding file_ops
opened prod_id rounds l is more ops = rw more at ops

-- A round of the loop on opcodes of a file.
load_one-Next :
    (rounds prod_id : ℕ) (l : Loader) (is : InputStream)
    → ltb is.pos is.end_pos ≡ true
    → file_ops (suc rounds) prod_id l is ≡ true
    → IsLoaded l.buf l.table
    → Each (Next rounds l is) (load_one true prod_id l is)
unfolding file_ops peek8
load_one-Next rounds prod_id l is more ops inv =
    let (file, rest) = both (is_file_byte (peek8 is)) _ (opened prod_id rounds l is more ops) in
    Each-every rounds l is (load_one true prod_id l is)
      (elim (Option-cases (get_elem? is.bytes is.pos)) [
        | inl e ↦ load_one-none prod_id l is e
        | inr (byte, e) ↦
            load_one-Round prod_id l is byte e (is_file-IsFileByte _ (rw e at file)) inv
      ])
      rest

-- The table of the rounds that follow goes on behind the entry of the first.
after_round :
    (rounds : ℕ) (l : Loader) (is : InputStream) (o : Option (ℕ × Loader × InputStream))
    → Each (Next rounds l is) o
    → ((r : ℕ × Loader × InputStream)
        → Next rounds l is r
        → Each
            (Finished (r.1.table ++ inst_starts rounds (r.0) (r.1) (r.2)))
            (load_all rounds true (r.0) (r.1) (r.2)))
    → Each
        (Finished (
          l.table
          ++ length l.buf ∷ starts_of (λ (prod_id, l, is). inst_starts rounds prod_id l is) o))
        (o >>= λ (prod_id, l, is). load_all rounds true prod_id l is)
after_round rounds l is none e h = Each.each_none
after_round rounds l is (some (prod_id, l1, is1)) (Each.each_some next) h =
    let ((_, _, _, table), _) = next in
    let later : List ℕ = inst_starts rounds prod_id l1 is1 in
    let joined : l1.table ++ later ≡ l.table ++ length l.buf ∷ later =
      ap (λ t. t ++ later) table ∙ append_assoc l.table (length l.buf ∷ []) later in
    rw joined at (h (prod_id, l1, is1) next)

load_all-Finished :
    (rounds prod_id : ℕ) (l : Loader) (is : InputStream)
    → file_ops rounds prod_id l is ≡ true
    → IsLoaded l.buf l.table
    → Each
        (Finished (l.table ++ inst_starts rounds prod_id l is))
        (load_all rounds true prod_id l is)
unfolding load_all inst_starts
load_all-Finished zero prod_id l is ops inv = elim (Bool-cases (ltb is.pos is.end_pos)) [
  | inl e ↦ rw e Each.each_none
  | inr e ↦ rw e (Each.each_some (inv, sym (append-nil l.table)))
]
load_all-Finished (suc rounds) prod_id l is ops inv = elim (Bool-cases (ltb is.pos is.end_pos)) [
  | inr e ↦ rw e (Each.each_some (inv, sym (append-nil l.table)))
  | inl e ↦ rw e (
      after_round rounds l is (load_one true prod_id l is)
        (load_one-Next rounds prod_id l is e ops inv)
        λ (prod_id', l', is') ((inv', _, _, _), ops').
          load_all-Finished rounds prod_id' l' is' ops' inv')
]

same-rounds :
    (m n : ℕ) (l0 : Loader) (is : InputStream)
    → ((prod_id : ℕ) (l : Loader) (is' : InputStream)
        → Next m l0 is (prod_id, l, is')
        → load_all m true prod_id l is' ≡ load_all n true prod_id l is')
    → (o : Option (ℕ × Loader × InputStream)) → Each (Next m l0 is) o
    → (o >>= λ (prod_id, l, is). load_all m true prod_id l is)
      ≡ (o >>= λ (prod_id, l, is). load_all n true prod_id l is)
same-rounds m n l0 is h none e = refl
same-rounds m n l0 is h (some (prod_id, l, is')) (Each.each_some e) = h prod_id l is' e

-- As many rounds as there are bytes are enough: more give the same result.
load_all-enough :
    (m n prod_id : ℕ) (l : Loader) (is : InputStream)
    → is.end_pos ≤ is.pos + m
    → m ≤ n
    → file_ops m prod_id l is ≡ true
    → IsLoaded l.buf l.table
    → load_all m true prod_id l is ≡ load_all n true prod_id l is
unfolding load_all
load_all-enough zero zero prod_id l is h1 h2 ops inv = refl
load_all-enough zero (suc n) prod_id l is h1 h2 ops inv =
    let e : ltb is.pos is.end_pos ≡ false = ground arith in rw e refl
load_all-enough (suc m) zero prod_id l is h1 h2 ops inv = absurd (omega arith)
load_all-enough (suc m) (suc n) prod_id l is h1 h2 ops inv =
    elim (Bool-cases (ltb is.pos is.end_pos)) [
      | inr e ↦ rw e refl
      | inl e ↦ rw e (
          same-rounds m n l is
            (λ prod_id' l' is' ((inv', on, last, _), ops').
              load_all-enough m n prod_id' l' is' (omega arith) (omega arith) ops' inv')
            (load_one true prod_id l is) (load_one-Next m prod_id l is e ops inv))
    ]

-- A stream at the start of an array.
abbrev pub stream : List ℕ → InputStream
stream bytes = record { pos = 0; end_pos = length bytes; bytes = bytes }

-- On byte code whose opcodes are those of a file, the first pass of the optimising loader, from a
-- new loader, gives the same result for every number of rounds from the number of bytes on. A result
-- has whole instructions in its buffer, and its table holds, for each instruction of the byte code
-- in turn, the length of the buffer before that instruction was loaded, which is an address where
-- an instruction of the buffer starts, or the end.
pub load_all-IsLoaded :
    (counted inst_size : ℕ) (consts : Constants) (bytes : List ℕ) (rounds : ℕ)
    → length bytes ≤ rounds
    → file_ops (length bytes) 0 (mozvm_loader_init counted consts inst_size) (stream bytes) ≡ true
    → (load_all (length bytes) true 0 (mozvm_loader_init counted consts inst_size) (stream bytes)
        ≡ load_all rounds true 0 (mozvm_loader_init counted consts inst_size) (stream bytes))
      × Each
          (Finished (
            inst_starts
              (length bytes)
              0
              (mozvm_loader_init counted consts inst_size)
              (stream bytes)))
          (load_all rounds true 0 (mozvm_loader_init counted consts inst_size) (stream bytes))
unfolding mozvm_loader_init
load_all-IsLoaded counted inst_size consts bytes rounds h ops =
    let l : Loader = mozvm_loader_init counted consts inst_size in
    let inv : IsLoaded [] [] = record { whole = IsWhole.whole_nil; starts = λ i s e. absurd cc } in
    let same = load_all-enough (length bytes) rounds 0 l (stream bytes) (omega arith) h ops inv in
    (same, rw (← same) (load_all-Finished (length bytes) 0 l (stream bytes) ops inv))
