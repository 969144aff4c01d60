-- ===== src/Vm/Scan.antt =====
-- src/vm1/instruction.def: the loops of RByte, RSet and RStr.
use moz.Base.{
  ℕ, zero, suc, ◌+◌, ◌*◌, ◌<◌, ◌≤◌, Bool, true, false, Option, some, ◌==◌, ltb, ◌&&◌, ◌≡◌, refl, ap,
  ◌∙◌, arith, get_elem?,
}
use moz.Core.Bitset.{Bitset, bitset_get}
use moz.Libnez.Token.{Token}
use moz.Vm.State.{Runtime, Vm, char_value, consume_n, current}
use moz.Vm.Match.{do_rbyte, do_rset, do_rstr, scan_while, starts_with}

round_zero : (vm : Vm) (n : ℕ) → consume_n vm (0 * n) ≡ vm
round_zero vm n = let e : vm.pos + 0 * n ≡ vm.pos = omega arith in ap (λ p. record vm { pos = p }) e

round_suc : (vm : Vm) (n i : ℕ) → consume_n (consume_n vm n) (i * n) ≡ consume_n vm (suc i * n)
round_suc vm n i =
    let e : vm.pos + n + i * n ≡ vm.pos + suc i * n = omega arith in
    ap (λ p. record vm { pos = p }) e

-- A loop whose test holds for `k` rounds and then fails ends behind those.
scan_while-eq :
    (test : Vm → Option Bool) (n k left : ℕ) (vm : Vm)
    → ((i : ℕ) → i < k → test (consume_n vm (i * n)) ≡ some true)
    → test (consume_n vm (k * n)) ≡ some false
    → k < left
    → scan_while left test n vm ≡ some (consume_n vm (k * n))
unfolding scan_while
scan_while-eq test n k zero vm more stop lt = absurd (omega arith)
scan_while-eq test n zero (suc left) vm more stop lt =
    let e : test vm ≡ some false = rw (round_zero vm n) at stop in rw (e, round_zero vm n) refl
scan_while-eq test n (suc k) (suc left) vm more stop lt =
    let first : test vm ≡ some true = rw (round_zero vm n) at (more 0 (omega arith)) in
    let rest =
      scan_while-eq test n k left (consume_n vm n)
        (λ i l. rw (round_suc vm n i) (more (suc i) (omega arith))) (rw (round_suc vm n k) stop)
        (omega arith) in
    rw first (rest ∙ ap some (round_suc vm n k))

times_one : (vm : Vm) (k : ℕ) → consume_n vm (k * 1) ≡ consume_n vm k
times_one vm k =
    let e : vm.pos + k * 1 ≡ vm.pos + k = omega arith in ap (λ p. record vm { pos = p }) e

ascii_value : (c : ℕ) → c < 128 → char_value c ≡ c
ascii_value c lt = ground arith

one : (vm : Vm) (i : ℕ) → vm.pos + i * 1 ≡ vm.pos + i
one vm i = omega arith

-- The byte at `p` is the operand `ch`, and ASCII: a `char` from 128 on is negative, and no operand is.
abbrev pub is_byte : Runtime → ℕ → ℕ → Bool
is_byte r ch p = ltb ch 128 && (r.mem p == ch)

-- RByte consumes the longest run of its byte, where a byte from 128 on has none: when the operand is
-- ASCII and stands there `k` times, or `k` is 0, and then another byte follows or the operand is not
-- ASCII, fuel beyond `k` rounds makes it end exactly behind the `k` bytes.
pub do_rbyte-longest :
    (r : Runtime) (ch k : ℕ) (vm : Vm)
    → ch < 256
    → ((i : ℕ) → i < k → is_byte r ch (vm.pos + i) ≡ true)
    → is_byte r ch (vm.pos + k) ≡ false
    → r.mem (vm.pos + k) < 256
    → k < r.scan
    → do_rbyte r ch vm ≡ some (consume_n vm k)
unfolding do_rbyte
do_rbyte-longest r ch k vm operand run other byte lt =
    scan_while-eq (λ v. some (current r v == ch)) 1 k r.scan vm
      (λ i l. let e = run i l in let p = one vm i in ground arith)
      (let e = other in let p = one vm k in ground arith) lt
    ∙ ap some (times_one vm k)

-- RSet consumes the longest run of bytes of its set: where `k` ASCII bytes are in the set and then an
-- ASCII byte is not, fuel beyond `k` rounds makes it end exactly behind the run.
pub do_rset-longest :
    (r : Runtime) (set_id k : ℕ) (s : Bitset) (vm : Vm)
    → get_elem? r.sets set_id ≡ some s
    → ((i : ℕ) → i ≤ k → r.mem (vm.pos + i) < 128)
    → ((i : ℕ) → i < k → bitset_get s (r.mem (vm.pos + i)) ≡ some true)
    → bitset_get s (r.mem (vm.pos + k)) ≡ some false
    → k < r.scan
    → do_rset r set_id vm ≡ some (consume_n vm k)
unfolding do_rset
do_rset-longest r set_id k s vm at' ascii run other lt = rw at' (
    scan_while-eq (λ v. bitset_get s (current r v)) 1 k r.scan vm
      (λ i l. rw (one vm i, ascii_value _ (ascii i (omega arith))) (run i l))
      (rw (one vm k, ascii_value _ (ascii k (omega arith))) other) lt
    ∙ ap some (times_one vm k))

-- RStr consumes its string as often as it stands there: where `k` copies of the string follow each
-- other and then none, fuel beyond `k` rounds makes it end exactly behind the last copy.
pub do_rstr-longest :
    (r : Runtime) (str_id k : ℕ) (str : Token) (vm : Vm)
    → get_elem? r.strs str_id ≡ some str
    → ((i : ℕ) → i < k → starts_with r (vm.pos + i * str.len) str ≡ true)
    → starts_with r (vm.pos + k * str.len) str ≡ false
    → k < r.scan
    → do_rstr r str_id vm ≡ some (consume_n vm (k * str.len))
unfolding do_rstr
do_rstr-longest r str_id k str vm at' run other lt = rw at' (
    scan_while-eq (λ v. some (starts_with r v.pos str)) str.len k r.scan vm
      (λ i l. ap some (run i l)) (ap some other) lt)
