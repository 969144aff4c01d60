-- ===== src/Loader/Links.antt =====
-- src/loader.c: the address operands of one instruction in the second pass of mozvm_loader_load.
use moz.Base.{
  ℕ, zero, suc, ◌+◌, ◌-◌, ◌*◌, ◌/◌, ◌%◌, ◌^◌, ◌≤◌, ◌<◌, true, leb, Option, none, some, List, [],
  ◌∷◌, ◌≡◌, refl, sym, ap, ◌∙◌, Bool-cases, inl, inr, length, get_elem?, take, drop, arith,
}
use moz.Core.Buffer.{stored}
use moz.Loader.{Loader}
use moz.Loader.Opcode.{Opcode, number}
use moz.Loader.Layout.{inst_bytes}
use moz.Loader.Emits.{Each, Each-bind, Each-both, Each-map, then_any}
use moz.Loader.Bytes.{read_at, set_byte, write_at}
use moz.Loader.Relocate.{relocate_addr-Changes, write_at-Within}
use moz.Loader.Rewrites.{jump_to_ret-Rewrites, set_byte-at, same-before}
use moz.Loader.Load.{
  displacement, jump_to_ret, relocate_addr, relocate_call, relocate_case, relocate_jump, same_size,
}

-- Equal rests of buffers have equal reads.
read_at-drop : (n i : ℕ) (a b : List ℕ) → drop i a ≡ drop i b → read_at n i a ≡ read_at n i b
unfolding read_at
read_at-drop zero i a b e = refl
read_at-drop (suc n) i a b e = rw (at_head i a b e, read_at-drop n (i + 1) a b (tails i a b e)) refl
  where
    head : List ℕ → Option ℕ
    head xs = get_elem? xs 0

    head-drop : (i : ℕ) (xs : List ℕ) → get_elem? xs i ≡ head (drop i xs)
    head-drop zero xs = refl
    head-drop (suc i) [] = refl
    head-drop (suc i) (x ∷ xs) = head-drop i xs

    at_head : (i : ℕ) (a b : List ℕ) → drop i a ≡ drop i b → get_elem? a i ≡ get_elem? b i
    at_head i a b e = head-drop i a ∙ ap head e ∙ sym (head-drop i b)

    tail-drop : (i : ℕ) (xs : List ℕ) → drop (i + 1) xs ≡ drop 1 (drop i xs)
    tail-drop zero xs = refl
    tail-drop (suc i) [] = let q : suc i + 1 ≡ suc (i + 1) = omega arith in rw q refl
    tail-drop (suc i) (x ∷ xs) =
        let q : suc i + 1 ≡ suc (i + 1) = omega arith in rw q (tail-drop i xs)

    tails : (i : ℕ) (a b : List ℕ) → drop i a ≡ drop i b → drop (i + 1) a ≡ drop (i + 1) b
    tails i a b e = tail-drop i a ∙ ap (drop 1) e ∙ sym (tail-drop i b)

-- Equal starts of buffers have equal reads.
pub read_at-take :
    (n i low : ℕ) (a b : List ℕ)
    → take low a ≡ take low b
    → i + n ≤ low
    → read_at n i a ≡ read_at n i b
unfolding read_at
read_at-take zero i low a b e h = refl
read_at-take (suc n) i low a b e h =
    rw (same-before i low a b e (omega arith), read_at-take n (i + 1) low a b e (omega arith)) refl

unstored : ℕ → ℕ → ℕ
unstored zero v = 0
unstored (suc n) v = v % 256 + 256 * unstored n (v / 256)

unstored4 : (v : ℕ) → v < 2 ^ 32 → unstored 4 v ≡ v
unfolding unstored
unstored4 v h = omega arith

-- A read gives what was written.
read_at-write_at :
    (n i v : ℕ) (buf : List ℕ)
    → Each (λ buf'. read_at n i buf' ≡ some (unstored n v)) (write_at (stored n v) i buf)
unfolding read_at write_at stored unstored
read_at-write_at zero i v buf = Each.each_some refl
read_at-write_at (suc n) i v buf =
    Each-bind (set_byte i (v % 256) buf) _ (set_byte-at i (v % 256) buf) λ buf1 here.
      Each-map
        (Each-both
          (write_at-Within (i + 1) (i + 1 + length (stored n (v / 256))) (stored n (v / 256))
            (i + 1) buf1 (omega arith) (omega arith))
          (read_at-write_at n (i + 1) (v / 256) buf1))
        λ buf2 (w, rest).
          let first : get_elem? buf2 i ≡ some (v % 256) =
            same-before i (i + 1) buf2 buf1 w.before (omega arith) ∙ here in
          rw (first, rest) refl

-- An address operand, `back` bytes before `at`, that is the offset from `at` of the instruction whose
-- number it was.
pub record Links (back at : ℕ) (l l' : Loader) : Type 0 where
  pub x : ℕ
  pub offset : ℕ
  pub old : read_at 4 (at - back) l.buf ≡ some x
  pub found : displacement l.table at x ≡ some offset
  pub new : read_at 4 (at - back) l'.buf ≡ some offset

pub Each-self : {A : Type 0} (o : Option A) → Each (λ a. o ≡ some a) o
Each-self none = Each.each_none
Each-self (some a) = Each.each_some refl

displacement-lt : (table : List ℕ) (at x : ℕ) → Each (λ o. o < 2 ^ 32) (displacement table at x)
unfolding displacement
displacement-lt table at x = then_any (get_elem? table x) _ λ start. Each.each_some (omega arith)

relocate_addr-Links :
    (back at : ℕ) (l : Loader) → back ≤ at → Each (Links back at l) (relocate_addr at back l)
unfolding relocate_addr
relocate_addr-Links back at l h =
    let e : leb back at ≡ true = ground arith in
    rw e (
      Each-bind (read_at 4 (at - back) l.buf) _ (Each-self (read_at 4 (at - back) l.buf)) λ x old.
        Each-bind (displacement l.table at x) _
          (Each-both (Each-self (displacement l.table at x)) (displacement-lt l.table at x))
          λ o (found, small).
            Each-bind (write_at (stored 4 o) (at - back) l.buf) _
              (read_at-write_at 4 (at - back) o l.buf)
              λ buf new. Each.each_some (record {
                x = x;
                offset = o;
                old = old;
                found = found;
                new = new ∙ ap some (unstored4 o small);
              }))

-- Changes before the operand, and then the operand.
pub after :
    (back at : ℕ) (l l1 l2 : Loader)
    → drop (at - back) l1.buf ≡ drop (at - back) l.buf
    → l1.table ≡ l.table
    → Links back at l1 l2
    → Links back at l l2
after back at l l1 l2 e t k = record {
  x = k.x;
  offset = k.offset;
  old = sym (read_at-drop 4 (at - back) l1.buf l.buf e) ∙ k.old;
  found = ap (λ table. displacement table at k.x) (sym t) ∙ k.found;
  new = k.new;
}

-- The operand, and then changes behind it.
pub before :
    (back at low : ℕ) (l l1 l2 : Loader)
    → take low l2.buf ≡ take low l1.buf
    → at - back + 4 ≤ low
    → Links back at l l1
    → Links back at l l2
before back at low l l1 l2 e h k = record {
  x = k.x;
  offset = k.offset;
  old = k.old;
  found = k.found;
  new = read_at-take 4 (at - back) low l2.buf l1.buf e h ∙ k.new;
}

-- The operands that are addresses: the last one of an instruction, and the one before it of a Call,
-- which is the return address.
pub data HasAddr : Opcode → Type 0 where
  addr_alt : HasAddr Opcode.code_alt
  addr_jump : HasAddr Opcode.code_jump
  addr_call : HasAddr Opcode.code_call
  addr_return : HasAddr Opcode.code_call
  addr_lookup : HasAddr Opcode.code_lookup
  addr_tlookup : HasAddr Opcode.code_tlookup

-- How many bytes before the next instruction an operand starts.
abbrev pub back_of : (op : Opcode) → HasAddr op → ℕ
back_of _ HasAddr.addr_return = 8
back_of _ HasAddr.addr_alt = 4
back_of _ HasAddr.addr_jump = 4
back_of _ HasAddr.addr_call = 4
back_of _ HasAddr.addr_lookup = 4
back_of _ HasAddr.addr_tlookup = 4

module _ (size : ℕ → ℕ) where
  relocate_jump-Links :
      (j : ℕ) (l : Loader)
      → get_elem? l.buf j ≡ some (number Opcode.code_jump)
      → Each (Links 4 (j + 5) l) (relocate_jump size j (j + 5) l)
  unfolding relocate_jump
  relocate_jump-Links j l e = elim (Bool-cases (same_size size)) [
    | inl same ↦ rw same (
        Each-bind (jump_to_ret size j (j + 5) l) _
          (jump_to_ret-Rewrites size j (j + 5) (j + 1) l e (omega arith))
          λ l1 r. Each-map (relocate_addr-Links 4 (j + 5) l1 (omega arith)) λ l2 k.
            let q : j + 1 ≡ j + 5 - 4 = omega arith in
            after 4 (j + 5) l l1 l2 (rw q at r.changes.buf.behind) r.changes.table k)
    | inr other ↦ rw other (relocate_addr-Links 4 (j + 5) l (omega arith))
  ]

  relocate_call-Links :
      (j : ℕ) (l : Loader) → Each (Links 4 (j + 9) l) (relocate_call size (j + 9) l)
  unfolding relocate_call
  relocate_call-Links j l =
      Each-bind (relocate_addr (j + 9) 8 l) _
        (relocate_addr-Changes j (j + 9 - 4) (j + 9) 8 l (omega arith) (omega arith))
        λ l1 c.
          Each-map (relocate_addr-Links 4 (j + 9) l1 (omega arith))
            λ l2 k. after 4 (j + 9) l l1 l2 c.buf.behind c.table k

  relocate_call-Links_return :
      (j : ℕ) (l : Loader) → Each (Links 8 (j + 9) l) (relocate_call size (j + 9) l)
  unfolding relocate_call
  relocate_call-Links_return j l =
      Each-bind (relocate_addr (j + 9) 8 l) _ (relocate_addr-Links 8 (j + 9) l (omega arith))
        λ l1 k.
          Each-map (relocate_addr-Changes (j + 5) (j + 9) (j + 9) 4 l1 (omega arith) (omega arith))
            λ l2 c. before 8 (j + 9) (j + 5) l l1 l2 c.buf.before (omega arith) k

  pub relocate_case-Links :
      (op : Opcode) (j : ℕ) (l : Loader)
      → (addr : HasAddr op) → get_elem? l.buf j ≡ some (number op)
      → Each
          (Links (back_of op addr) (j + inst_bytes op) l)
          (relocate_case size (some op) j (j + inst_bytes op) l)
  unfolding relocate_case inst_bytes
  relocate_case-Links _ j l HasAddr.addr_alt e = relocate_addr-Links 4 (j + 5) l (omega arith)
  relocate_case-Links _ j l HasAddr.addr_jump e = relocate_jump-Links j l e
  relocate_case-Links _ j l HasAddr.addr_call e = relocate_call-Links j l
  relocate_case-Links _ j l HasAddr.addr_return e = relocate_call-Links_return j l
  relocate_case-Links _ j l HasAddr.addr_lookup e = relocate_addr-Links 4 (j + 8) l (omega arith)
  relocate_case-Links _ j l HasAddr.addr_tlookup e = relocate_addr-Links 4 (j + 10) l (omega arith)
