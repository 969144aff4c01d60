-- ===== src/Vm/Bytes.antt =====
-- src/vm1/instruction.def: the matches of a byte, a string and a set, with their negations and
-- their optional forms.
use moz.Base.{
  ℕ, ◌<◌, ◌≤◌, Bool, true, false, ◌&&◌, Option, none, some, ◌==◌, ltb, if◌then◌else◌, ◌≡◌, refl,
  arith, get_elem?, ◌⊎◌, inl, inr,
}
use moz.Core.Bitset.{Bitset, bitset_get}
use moz.Core.Bitset.Laws.{IsValid, bitset_get-beyond}
use moz.Libnez.Token.{Token}
use moz.Vm.State.{Runtime, Vm, char_value, consume_n, current, do_fail}
use moz.Vm.Match.{
  consume_if, do_byte, do_nbyte, do_nset, do_nstr, do_obyte, do_oset, do_ostr, do_set, do_str,
  fail_if, starts_with,
}

-- The results of a match of `n` bytes, of its negation and of its optional form, when the test holds
-- and when it does not.
abbrev pub AgreeOn : Runtime → Vm → Bool → ℕ → Option Vm → Option Vm → Option Vm → Type 0
AgreeOn r vm test n match not_match optional =
    ((test ≡ true)
      × (match ≡ some (consume_n vm n))
      × (not_match ≡ do_fail r vm)
      × (optional ≡ some (consume_n vm n)))
    ⊎ ((test ≡ false) × (match ≡ do_fail r vm) × (not_match ≡ some vm) × (optional ≡ some vm))

agree :
    (r : Runtime) (vm : Vm) (test : Bool) (n : ℕ)
    → AgreeOn r vm test n
        (consume_if r vm test n)
        (fail_if r vm test)
        (some (if test then consume_n vm n else vm))
agree r vm true n = inl (refl, refl, refl, refl)
agree r vm false n = inr (refl, refl, refl, refl)

-- Byte, NByte and OByte make one test: either the next byte is an ASCII byte equal to the operand,
-- and Byte and OByte consume it and NByte fails, or Byte fails and the two others do nothing. A
-- byte from 128 on is never matched.
pub do_byte-AgreeOn :
    (r : Runtime) (ch : ℕ) (vm : Vm)
    → r.mem vm.pos < 256
    → ch < 256
    → AgreeOn r vm
        (ltb (r.mem vm.pos) 128 && (r.mem vm.pos == ch))
        1
        (do_byte r ch vm)
        (do_nbyte r ch vm)
        (do_obyte r ch vm)
unfolding do_byte do_nbyte do_obyte
do_byte-AgreeOn r ch vm byte operand =
    let e : (current r vm == ch) ≡ (ltb (r.mem vm.pos) 128 && (r.mem vm.pos == ch)) =
      ground arith in
    rw e (agree r vm (ltb (r.mem vm.pos) 128 && (r.mem vm.pos == ch)) 1)

-- Str, NStr and OStr of a known string make one test: either the string stands at the position, and
-- Str and OStr consume its length and NStr fails, or Str fails and the two others do nothing.
pub do_str-AgreeOn :
    (r : Runtime) (str_id : ℕ) (str : Token) (vm : Vm)
    → get_elem? r.strs str_id ≡ some str
    → AgreeOn r vm
        (starts_with r vm.pos str)
        str.len
        (do_str r str_id vm)
        (do_nstr r str_id vm)
        (do_ostr r str_id vm)
unfolding do_str do_nstr do_ostr
do_str-AgreeOn r str_id str vm at' = rw at' (agree r vm (starts_with r vm.pos str) str.len)

-- Set, NSet and OSet of a known set make one test at an ASCII byte: either it is in the set, and Set and OSet consume it and NSet fails, or Set fails and the two others do nothing.
do_set-AgreeOn :
    (r : Runtime) (set_id : ℕ) (s : Bitset) (found : Bool) (vm : Vm)
    → get_elem? r.sets set_id ≡ some s
    → r.mem vm.pos < 128
    → bitset_get s (r.mem vm.pos) ≡ some found
    → AgreeOn r vm found 1 (do_set r set_id vm) (do_nset r set_id vm) (do_oset r set_id vm)
unfolding do_set do_nset do_oset
do_set-AgreeOn r set_id s found vm at' ascii member =
    let e : char_value (r.mem vm.pos) ≡ r.mem vm.pos = ground arith in
    rw (at', e, member) (agree r vm found 1)

-- At a byte from 128 on, Set, NSet and OSet of a valid set all read beyond the set.
pub do_set-beyond :
    (r : Runtime) (set_id : ℕ) (s : Bitset) (vm : Vm)
    → get_elem? r.sets set_id ≡ some s
    → IsValid s
    → 128 ≤ r.mem vm.pos
    → r.mem vm.pos < 256
    → (do_set r set_id vm ≡ none) × (do_nset r set_id vm ≡ none) × (do_oset r set_id vm ≡ none)
unfolding do_set do_nset do_oset
do_set-beyond r set_id s vm at' v high byte =
    let e = bitset_get-beyond v (current r vm) (ground arith) in
    (rw (at', e) refl, rw (at', e) refl, rw (at', e) refl)
