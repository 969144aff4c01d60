-- ===== src/Libnez/Memo/Key.antt =====
-- src/libnez/memo.c: the hashes of positions and memo points.
use native.Mathlib.Decide.{dec_lt}
use moz.Base.{ℕ, ◌+◌, ◌*◌, ◌%◌, ◌^◌, ◌<◌, ◌≤◌, ◌≡◌, arith, ap, ◌∙◌, sym}
use moz.Base.Bits.{bit_or-shifted}
use moz.Libnez.Memo.{hash_of}

-- A position that is not NULL and loses no bit by the shift, and a memo point below the window.
pub record IsKey (shift pos memo_id : ℕ) : Type 0 where
  pub not_null : 0 < pos
  pub fits : pos * 2 ^ shift < 2 ^ 64
  pub small : memo_id < 2 ^ shift

pub hash_of-eq :
    {shift pos memo_id : ℕ}
    → IsKey shift pos memo_id
    → hash_of shift pos memo_id ≡ pos * 2 ^ shift + memo_id
unfolding hash_of
hash_of-eq {shift} {pos} {memo_id} k =
    let e : pos * 2 ^ shift % 2 ^ 64 ≡ pos * 2 ^ shift = omega (arith, k.fits) in
    rw e (bit_or-shifted shift pos memo_id k.small)

quotient_unique : (t p q i j : ℕ) → i < t → j < t → p * t + i ≡ q * t + j → p ≤ q
quotient_unique t p q i j hi hj e = elim (dec_lt q p) [
  | yes lt ↦ absurd (grind arith)
  | no ge ↦ omega arith
]

-- Two keys with the same hash are the same position and the same memo point.
pub hash_of-injective :
    {shift p q i j : ℕ}
    → IsKey shift p i
    → IsKey shift q j
    → hash_of shift p i ≡ hash_of shift q j
    → (p ≡ q) × (i ≡ j)
hash_of-injective {shift} {p} {q} {i} {j} kp kq e =
    let s : p * 2 ^ shift + i ≡ q * 2 ^ shift + j = sym (hash_of-eq kp) ∙ e ∙ hash_of-eq kq in
    let a : p ≤ q = quotient_unique (2 ^ shift) p q i j kp.small kq.small s in
    let b : q ≤ p = quotient_unique (2 ^ shift) q p j i kq.small kp.small (sym s) in
    let c : p ≡ q = omega arith in (c, omega (arith, s, ap (λ t. t * 2 ^ shift) c))
