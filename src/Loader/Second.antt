-- ===== src/Loader/Second.antt =====
-- src/loader.c: a round of the second pass of mozvm_loader_load.
use moz.Base.{
  ℕ, zero, suc, ◌+◌, ◌-◌, ◌%◌, ◌^◌, ◌≤◌, ◌<◌, some, List, [], ◌∷◌, ◌++◌, ◌≡◌, refl, sym, ap, ◌∙◌,
  ◌>>=◌, length, get_elem?, take, drop, arith,
}
use moz.Base.Lists.{length-append, length-take, drop-append_length}
use mathlib.Core.List.{append-nil}
use moz.Loader.{Loader}
use moz.Loader.Opcode.{Opcode, number, opcode_of}
use moz.Loader.Layout.{IsSize, IsWhole, IsWhole-append, bytes_of, inst_bytes, size_of}
use moz.Loader.Emits.{Each, Each-bind}
use moz.Loader.Rewrites.{Rewrites, relocate_case-Rewrites}
use moz.Loader.Load.{relocate_case, relocate_one}

-- The whole instructions before and from an address on.
pub record SplitAt (j : ℕ) (buf : List ℕ) : Type 0 where
  pub low : j ≤ length buf
  pub before : IsWhole (take j buf)
  pub behind : IsWhole (drop j buf)

pub length-drop : (xs : List ℕ) (n : ℕ) → length (drop n xs) ≡ length xs - n
length-drop xs zero = omega arith
length-drop [] (suc n) = omega arith
length-drop (x ∷ xs) (suc n) = omega (arith, length-drop xs n)

-- An instruction at the start of whole code.
record First (code : List ℕ) : Type 0 where
  op : Opcode
  operands : List ℕ
  rest : List ℕ
  is : code ≡ number op ∷ operands ++ rest
  size : suc (length operands) ≡ inst_bytes op
  whole : IsWhole rest

first : (code : List ℕ) → IsWhole code → 1 ≤ length code → First code
first _ IsWhole.whole_nil h = absurd (omega arith)
first _ (IsWhole.whole_inst op operands rest e w) h = record {
  op = op;
  operands = operands;
  rest = rest;
  is = refl;
  size = e;
  whole = w;
}

pub drop-first :
    (xs : List ℕ) (j b : ℕ) (ops rest : List ℕ)
    → drop j xs ≡ b ∷ ops ++ rest
    → (get_elem? xs j ≡ some b) × (drop (j + suc (length ops)) xs ≡ rest)
drop-first [] zero b ops rest e = absurd cc
drop-first [] (suc j) b ops rest e = absurd cc
drop-first (x ∷ xs) zero b ops rest e =
    let p : x ≡ b = cc in
    let q : xs ≡ ops ++ rest = cc in
    let s : 0 + suc (length ops) ≡ suc (length ops) = omega arith in
    (ap some p, rw s (ap (drop (length ops)) q ∙ drop-append_length ops rest))
drop-first (x ∷ xs) (suc j) b ops rest e =
    let (p, q) = drop-first xs j b ops rest e in
    let s : suc j + suc (length ops) ≡ suc (j + suc (length ops)) = omega arith in (p, rw s q)

take-more :
    (xs : List ℕ) (j n b : ℕ)
    → get_elem? xs j ≡ some b
    → take (j + suc n) xs ≡ take j xs ++ b ∷ take n (drop (suc j) xs)
take-more [] j n b e = absurd cc
take-more (x ∷ xs) zero n b e =
    let p : x ≡ b = cc in
    let s : 0 + suc n ≡ suc n = omega arith in rw s (ap (λ y. y ∷ take n xs) p)
take-more (x ∷ xs) (suc j) n b e =
    let s : suc j + suc n ≡ suc (j + suc n) = omega arith in
    rw s (ap (λ t. x ∷ t) (take-more xs j n b e))

opcode_of-number : (op : Opcode) → opcode_of (number op) ≡ some op
unfolding opcode_of
opcode_of-number Opcode.code_nop = refl
opcode_of-number Opcode.code_fail = refl
opcode_of-number Opcode.code_alt = refl
opcode_of-number Opcode.code_succ = refl
opcode_of-number Opcode.code_jump = refl
opcode_of-number Opcode.code_call = refl
opcode_of-number Opcode.code_ret = refl
opcode_of-number Opcode.code_pos = refl
opcode_of-number Opcode.code_back = refl
opcode_of-number Opcode.code_skip = refl
opcode_of-number Opcode.code_byte = refl
opcode_of-number Opcode.code_any = refl
opcode_of-number Opcode.code_str = refl
opcode_of-number Opcode.code_set = refl
opcode_of-number Opcode.code_nbyte = refl
opcode_of-number Opcode.code_nany = refl
opcode_of-number Opcode.code_nstr = refl
opcode_of-number Opcode.code_nset = refl
opcode_of-number Opcode.code_obyte = refl
opcode_of-number Opcode.code_oany = refl
opcode_of-number Opcode.code_ostr = refl
opcode_of-number Opcode.code_oset = refl
opcode_of-number Opcode.code_rbyte = refl
opcode_of-number Opcode.code_rany = refl
opcode_of-number Opcode.code_rstr = refl
opcode_of-number Opcode.code_rset = refl
opcode_of-number Opcode.code_consume = refl
opcode_of-number Opcode.code_first = refl
opcode_of-number Opcode.code_lookup = refl
opcode_of-number Opcode.code_memo = refl
opcode_of-number Opcode.code_memo_fail = refl
opcode_of-number Opcode.code_tpush = refl
opcode_of-number Opcode.code_tpop = refl
opcode_of-number Opcode.code_tleft_fold = refl
opcode_of-number Opcode.code_tnew = refl
opcode_of-number Opcode.code_tcapture = refl
opcode_of-number Opcode.code_ttag = refl
opcode_of-number Opcode.code_treplace = refl
opcode_of-number Opcode.code_tstart = refl
opcode_of-number Opcode.code_tcommit = refl
opcode_of-number Opcode.code_tabort = refl
opcode_of-number Opcode.code_tlookup = refl
opcode_of-number Opcode.code_tmemo = refl
opcode_of-number Opcode.code_sopen = refl
opcode_of-number Opcode.code_sclose = refl
opcode_of-number Opcode.code_smask = refl
opcode_of-number Opcode.code_sdef = refl
opcode_of-number Opcode.code_sis_def = refl
opcode_of-number Opcode.code_sexists = refl
opcode_of-number Opcode.code_smatch = refl
opcode_of-number Opcode.code_sis = refl
opcode_of-number Opcode.code_sisa = refl
opcode_of-number Opcode.code_sdef_num = refl
opcode_of-number Opcode.code_scount = refl
opcode_of-number Opcode.code_exit = refl
opcode_of-number Opcode.code_tbl_jump1 = refl
opcode_of-number Opcode.code_tbl_jump2 = refl
opcode_of-number Opcode.code_tbl_jump3 = refl
opcode_of-number Opcode.code_label = refl

-- The function that looks opcodes up gives the sizes of the declarations.
pub size_of-IsSize : IsSize size_of
unfolding bytes_of
size_of-IsSize op = rw (opcode_of-number op) refl

-- Instructions up to the next address after the changes of one.
next-SplitAt :
    (op : Opcode) (j n : ℕ) (l l' : Loader)
    → suc n ≡ inst_bytes op
    → j + suc n ≤ length l.buf
    → IsWhole (take j l.buf)
    → IsWhole (drop (j + suc n) l.buf)
    → Rewrites op j (j + suc n) l l'
    → SplitAt (j + suc n) l'.buf
next-SplitAt op j n l l' size room before behind r =
    let w = r.changes.buf in
    let len : length (take n (drop (suc j) l'.buf)) ≡ n =
      length-take n (drop (suc j) l'.buf) ∙ omega (arith, length-drop l'.buf (suc j), w.size) in
    let operands : List ℕ = take n (drop (suc j) l'.buf) in
    let inst : IsWhole (number r.op' ∷ operands ++ []) =
      IsWhole.whole_inst r.op' operands [] (ap suc len ∙ size ∙ sym r.same_size)
        IsWhole.whole_nil in
    record {
      low = omega (arith, w.size);
      before =
          rw (take-more l'.buf j n (number r.op') r.opcode, w.before)
            (IsWhole-append (take j l.buf) (number r.op' ∷ operands) before
              (rw (append-nil operands) at inst));
      behind = rw w.behind behind;
    }

-- A round at an instruction that is known.
pub relocate_one-eq :
    (size : ℕ → ℕ) (j : ℕ) (l : Loader) (op : Opcode) (operands rest : List ℕ)
    → IsSize size
    → length l.buf < 2 ^ 31
    → drop j l.buf ≡ number op ∷ operands ++ rest
    → suc (length operands) ≡ inst_bytes op
    → relocate_one size j l ≡ (
        relocate_case size (some op) j (j + inst_bytes op) l >>= λ l'. some (j + inst_bytes op, l'))
unfolding relocate_one
relocate_one-eq size j l op operands rest sizes small is fits =
    let (here, _) = drop-first l.buf j (number op) operands rest is in
    let total : length (drop j l.buf) ≡ suc (length operands) + length rest =
      ap length is ∙ omega (arith, length-append operands rest) in
    let next : (j + inst_bytes op) % 2 ^ 32 ≡ j + inst_bytes op =
      omega (arith, length-drop l.buf j, total) in
    rw (here, opcode_of-number op, sizes op, next) refl

-- One round on a buffer of so many bytes.
abbrev pub Moved : ℕ → ℕ → Loader → ℕ × Loader → Type 0
Moved total j l (j', l') =
    SplitAt j' l'.buf × (j < j') × (length l'.buf ≡ total) × (l'.table ≡ l.table)

pub relocate_one-Moved :
    (size : ℕ → ℕ) (j : ℕ) (l : Loader)
    → IsSize size
    → SplitAt j l.buf
    → j < length l.buf
    → length l.buf < 2 ^ 31
    → Each (Moved (length l.buf) j l) (relocate_one size j l)
relocate_one-Moved size j l sizes at more small =
    let f = first (drop j l.buf) at.behind (omega (arith, length-drop l.buf j)) in
    let n : ℕ = length f.operands in
    let (here, rest) = drop-first l.buf j (number f.op) f.operands f.rest f.is in
    let total : length (drop j l.buf) ≡ suc n + length f.rest =
      ap length f.is ∙ omega (arith, length-append f.operands f.rest) in
    let room : j + suc n ≤ length l.buf = omega (arith, length-drop l.buf j, total) in
    rw (relocate_one-eq size j l f.op f.operands f.rest sizes small f.is f.size, ← f.size)
      (Each-bind (relocate_case size (some f.op) j (j + suc n) l) _
        (relocate_case-Rewrites size f.op j (j + suc n) l here (omega (arith, f.size)))
        λ l' r. Each.each_some (
          next-SplitAt f.op j n l l' f.size room at.before (rw rest f.whole) r,
          omega arith,
          r.changes.buf.size,
          r.changes.table,
        ))
