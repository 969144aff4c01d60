-- ===== src/Loader/Linked.antt =====
-- src/loader.c: the address operands after the second pass of mozvm_loader_load.
use moz.Base.{
  ℕ, zero, suc, ◌+◌, ◌-◌, ◌^◌, ◌≤◌, ◌<◌, true, false, ltb, Option, some, List, [], ◌∷◌, ◌++◌, ◌≡◌,
  refl, sym, ap, ◌∙◌, ◌>>=◌, length, take, drop, arith,
}
use moz.Base.Lists.{length-append}
use mathlib.Core.List.{append_assoc}
use moz.Loader.{Loader}
use moz.Loader.Opcode.{Opcode, number}
use moz.Loader.Layout.{IsSize, IsWhole, inst_bytes}
use moz.Loader.Emits.{Each, Each-both, Each-map}
use moz.Loader.Relocate.{take-take}
use moz.Loader.Rewrites.{relocate_case-Rewrites}
use moz.Loader.Links.{HasAddr, Links, after, back_of, before, relocate_case-Links}
use moz.Loader.Second.{drop-first, length-drop, relocate_one-eq}
use moz.Loader.Load.{relocate_all, relocate_case}

drop-more : (a b : List ℕ) (k n : ℕ) → drop k a ≡ drop k b → k ≤ n → drop n a ≡ drop n b
drop-more a b k n e h =
    let q : k + (n - k) ≡ n = omega arith in
    ap (λ m. drop m a) (sym q)
    ∙ drop-drop a k (n - k)
    ∙ ap (drop (n - k)) e
    ∙ sym (drop-drop b k (n - k))
    ∙ ap (λ m. drop m b) q
  where
    drop-nil : (n : ℕ) → drop {A = ℕ} n [] ≡ []
    drop-nil zero = refl
    drop-nil (suc n) = refl

    drop-drop : (xs : List ℕ) (m n : ℕ) → drop (m + n) xs ≡ drop n (drop m xs)
    drop-drop xs zero n = let q : 0 + n ≡ n = omega arith in ap (λ m. drop m xs) q
    drop-drop [] (suc m) n =
        let q : suc m + n ≡ suc (m + n) = omega arith in rw q (sym (drop-nil n))
    drop-drop (x ∷ xs) (suc m) n =
        let q : suc m + n ≡ suc (m + n) = omega arith in rw q (drop-drop xs m n)

addr-large :
    (op : Opcode) (addr : HasAddr op)
    → (4 ≤ back_of op addr) × (suc (back_of op addr) ≤ inst_bytes op)
unfolding inst_bytes
addr-large _ HasAddr.addr_return = omega arith
addr-large _ HasAddr.addr_alt = omega arith
addr-large _ HasAddr.addr_jump = omega arith
addr-large _ HasAddr.addr_call = omega arith
addr-large _ HasAddr.addr_lookup = omega arith
addr-large _ HasAddr.addr_tlookup = omega arith

-- An address with an instruction is one of the buffer.
inside : (xs : List ℕ) (k b : ℕ) (rest : List ℕ) → drop k xs ≡ b ∷ rest → ltb k (length xs) ≡ true
inside xs k b rest e =
    let q : length (drop k xs) ≡ suc (length rest) = ap length e in
    let h : k < length xs = omega (arith, length-drop xs k, q) in ground arith

outside : (xs : List ℕ) (k : ℕ) → drop k xs ≡ [] → ltb k (length xs) ≡ false
outside xs k e =
    let q : length (drop k xs) ≡ 0 = ap length e in
    let h : length xs ≤ k = omega (arith, length-drop xs k, q) in ground arith

module _ (size : ℕ → ℕ) (sizes : IsSize size) where
  then_rest :
      {P Q : Loader → Type 0} (rounds next : ℕ) {o : Option Loader}
      → Each Q o
      → ((l : Loader) → Q l → Each P (relocate_all size rounds next l))
      → Each P ((o >>= λ l. some (next, l)) >>= λ (next, l). relocate_all size rounds next l)
  then_rest rounds next Each.each_none h = Each.each_none
  then_rest rounds next (Each.each_some {a} q) h = h a q

  -- The loop at an instruction that is known: its round, and then the rest.
  at_inst :
      {P Q : Loader → Type 0} (rounds k : ℕ) (l : Loader) (op : Opcode) (operands rest : List ℕ)
      → suc (length operands) ≡ inst_bytes op
      → drop k l.buf ≡ number op ∷ operands ++ rest
      → length l.buf < 2 ^ 31
      → Each Q (relocate_case size (some op) k (k + inst_bytes op) l)
      → ((l1 : Loader) → Q l1 → Each P (relocate_all size rounds (k + inst_bytes op) l1))
      → Each P (relocate_all size (suc rounds) k l)
  unfolding relocate_all
  at_inst rounds k l op operands rest fits e small q h =
      rw
        (
          inside l.buf k (number op) (operands ++ rest) e,
          relocate_one-eq size k l op operands rest sizes small e fits,
        )
        (then_rest rounds (k + inst_bytes op) q h)

  out_of_rounds :
      {P : Loader → Type 0} (k : ℕ) (l : Loader) (b : ℕ) (rest : List ℕ)
      → drop k l.buf ≡ b ∷ rest
      → Each P (relocate_all size zero k l)
  unfolding relocate_all
  out_of_rounds k l b rest e = rw (inside l.buf k b rest e) Each.each_none

  -- Later rounds keep what lies before.
  abbrev Before : ℕ → Loader → Loader → Type 0
  Before k l l' = take k l'.buf ≡ take k l.buf

  all_done :
      (rounds k : ℕ) (l : Loader)
      → drop k l.buf ≡ []
      → Each (Before k l) (relocate_all size rounds k l)
  unfolding relocate_all
  all_done zero k l e = rw (outside l.buf k e) (Each.each_some refl)
  all_done (suc rounds) k l e = rw (outside l.buf k e) (Each.each_some refl)

  shorter : (k m : ℕ) (a b : List ℕ) → k ≤ m → take m a ≡ take m b → take k a ≡ take k b
  shorter k m a b h e = sym (take-take a k m h) ∙ ap (take k) e ∙ take-take b k m h

  relocate_all-Before :
      (rounds k : ℕ) (l : Loader) (code : List ℕ)
      → IsWhole code
      → drop k l.buf ≡ code
      → length l.buf < 2 ^ 31
      → Each (Before k l) (relocate_all size rounds k l)
  relocate_all-Before rounds k l _ IsWhole.whole_nil e small = all_done rounds k l e
  relocate_all-Before zero k l _ (IsWhole.whole_inst op operands rest fits w) e small =
      out_of_rounds k l (number op) (operands ++ rest) e
  relocate_all-Before (suc rounds) k l _ (IsWhole.whole_inst op operands rest fits w) e small =
      let (here, next) = drop-first l.buf k (number op) operands rest e in
      at_inst rounds k l op operands rest fits e small
        (relocate_case-Rewrites size op k (k + inst_bytes op) l here (omega arith))
        λ l1 r.
          Each-map
            (relocate_all-Before rounds (k + inst_bytes op) l1 rest w
              (r.changes.buf.behind ∙ rw fits at next) (omega (arith, r.changes.buf.size)))
            λ l2 b.
              shorter k (k + inst_bytes op) l2.buf l1.buf (omega arith) b ∙ r.changes.buf.before

  module _ (op : Opcode) (addr : HasAddr op) where
    large : (4 ≤ back_of op addr) × (suc (back_of op addr) ≤ inst_bytes op)
    large = addr-large op addr

    -- From an instruction on, with whole instructions between it and the one with the address.
    relocate_all-Links :
        (rounds k : ℕ) (l : Loader) (mid operands rest : List ℕ)
        → IsWhole mid
        → drop k l.buf ≡ mid ++ (number op ∷ operands ++ rest)
        → suc (length operands) ≡ inst_bytes op
        → IsWhole rest
        → length l.buf < 2 ^ 31
        → Each
            (Links (back_of op addr) (k + length mid + inst_bytes op) l)
            (relocate_all size rounds k l)
    relocate_all-Links zero k l _ operands rest IsWhole.whole_nil e fits w small =
        out_of_rounds k l (number op) (operands ++ rest) e
    relocate_all-Links zero k l _ operands rest (IsWhole.whole_inst op1 ops1 mid f1 w1) e fits w
          small =
        out_of_rounds k l (number op1) _ e
    relocate_all-Links (suc rounds) k l _ operands rest IsWhole.whole_nil e fits w small =
        let (here, next) = drop-first l.buf k (number op) operands rest e in
        let q : k + 0 + inst_bytes op ≡ k + inst_bytes op = omega arith in
        rw q (
          at_inst rounds k l op operands rest fits e small
            (Each-both (relocate_case-Rewrites size op k (k + inst_bytes op) l here (omega arith))
              (relocate_case-Links size op k l addr here))
            λ l1 (r, links).
              Each-map
                (relocate_all-Before rounds (k + inst_bytes op) l1 rest w
                  (r.changes.buf.behind ∙ rw fits at next) (omega (arith, r.changes.buf.size)))
                λ l2 b.
                  before (back_of op addr) (k + inst_bytes op) (k + inst_bytes op) l l1 l2 b
                    (omega (arith, large)) links)
    relocate_all-Links (suc rounds) k l _ operands rest (IsWhole.whole_inst op1 ops1 mid f1 w1) e
          fits w small =
        let tail : List ℕ = mid ++ (number op ∷ operands ++ rest) in
        let e1 : drop k l.buf ≡ number op1 ∷ ops1 ++ tail =
          e ∙ ap (λ t. number op1 ∷ t) (append_assoc ops1 mid (number op ∷ operands ++ rest)) in
        let (here, next) = drop-first l.buf k (number op1) ops1 tail e1 in
        let q : k + length (number op1 ∷ ops1 ++ mid) + inst_bytes op
            ≡ k + inst_bytes op1 + length mid + inst_bytes op =
          omega (arith, length-append ops1 mid, f1) in
        rw q (
          at_inst rounds k l op1 ops1 tail f1 e1 small
            (relocate_case-Rewrites size op1 k (k + inst_bytes op1) l here (omega arith))
            λ l1 r.
              Each-map
                (relocate_all-Links rounds (k + inst_bytes op1) l1 mid operands rest w1
                  (r.changes.buf.behind ∙ rw f1 at next) fits w (omega (arith, r.changes.buf.size)))
                λ l2 links.
                  after (back_of op addr) (k + inst_bytes op1 + length mid + inst_bytes op) l l1 l2
                    (drop-more l1.buf l.buf (k + inst_bytes op1)
                      (k + inst_bytes op1 + length mid + inst_bytes op - back_of op addr)
                      r.changes.buf.behind (omega (arith, large)))
                    r.changes.table links)

-- The second pass links the code: on a buffer of whole instructions smaller than 2 GB, with the
-- sizes of the declarations, every result has, for each Alt, Jump, Call, Lookup and TLookup of the
-- buffer, a last operand that is the offset, from the end of the instruction, of the instruction
-- whose number the operand was before the pass; the return address of a Call, its operand before
-- that, is such an offset too.
pub relocate_all-Linked :
    (size : ℕ → ℕ) (l : Loader) (rounds : ℕ) (prefix operands rest : List ℕ) (op : Opcode)
    → IsSize size
    → (addr : HasAddr op) → l.buf ≡ prefix ++ (number op ∷ operands ++ rest)
    → IsWhole prefix
    → suc (length operands) ≡ inst_bytes op
    → IsWhole rest
    → length l.buf < 2 ^ 31
    → Each
        (Links (back_of op addr) (length prefix + inst_bytes op) l)
        (relocate_all size rounds 0 l)
relocate_all-Linked size l rounds prefix operands rest op sizes addr e w fits w' small =
    let q : 0 + length prefix + inst_bytes op ≡ length prefix + inst_bytes op = omega arith in
    rw (← q)
      (relocate_all-Links size sizes op addr rounds 0 l prefix operands rest w e fits w' small)
