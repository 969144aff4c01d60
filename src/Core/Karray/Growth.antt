-- ===== src/Core/Karray/Growth.antt =====
-- src/core/karray.h: the growth of the capacity.
use native.Mathlib.Nat.{pow-suc}
use moz.Base.Bits.{pow_mono}
use moz.Base.{
  ℕ, zero, suc, ◌+◌, ◌-◌, ◌*◌, ◌/◌, ◌%◌, ◌^◌, ◌<◌, ◌≤◌, ◌≡◌, true, false, some, ◌==◌, ltb, leb,
  arith, refl, Bool-cases, inl, inr,
}
use moz.Core.Karray.{array_ensure_size, Array, bit_length, grow, grown, log2}

pub bit_length_bounds :
    (w x k : ℕ) → x < 2 ^ w → x < 2 ^ k → (x < 2 ^ bit_length w x) × (bit_length w x ≤ k)
unfolding bit_length
bit_length_bounds zero x k h p = (h, omega arith)
bit_length_bounds (suc w) zero k h p = (omega arith, omega arith)
bit_length_bounds (suc w) (suc x) zero h p = absurd (omega arith)
bit_length_bounds (suc w) (suc x) (suc k) h p =
    let ih =
      bit_length_bounds w (suc x / 2) k (omega (arith, pow-suc 2 w)) (omega (arith, pow-suc 2 k)) in
    let e : (suc x == 0) ≡ false = ground arith in
    rw e (omega (arith, ih.0, pow-suc 2 (bit_length w (suc x / 2))), omega (arith, ih.1))

bit_length-zero : (w : ℕ) → bit_length w 0 ≡ 0
unfolding bit_length
bit_length-zero zero = refl
bit_length-zero (suc w) = refl

bit_length-le : (w x : ℕ) → 0 < x → x < 2 ^ w → 2 ^ bit_length w x ≤ 2 * x
unfolding bit_length
bit_length-le zero x pos lt = absurd (omega arith)
bit_length-le (suc w) zero pos lt = absurd (omega arith)
bit_length-le (suc w) (suc zero) pos lt = rw (bit_length-zero w) (omega arith)
bit_length-le (suc w) (suc (suc x)) pos lt =
    let e : (suc (suc x) == 0) ≡ false = ground arith in
    let ih = bit_length-le w (suc (suc x) / 2) (omega arith) (omega (arith, pow-suc 2 w)) in
    rw e (omega (arith, ih, pow-suc 2 (bit_length w (suc (suc x) / 2))))

-- From a capacity that is not 0 the new one is more than twice and at most four times the old one.
grown-eq :
    (c : ℕ) → 0 < c → c < 2 ^ 29 → (c' : ℕ) × (grown c ≡ some c') × (2 * c < c') × (c' ≤ 4 * c)
unfolding grown log2
grown-eq c pos lt =
    let l : ℕ = bit_length 64 (2 * c) in
    let (b, d) = bit_length_bounds 64 (2 * c) 30 (omega arith) (omega arith) in
    let t₁ : ((c * 2 + 1) % 2 ^ 32 == 1) ≡ false = ground arith in
    let t₂ : ((c * 2 + 1) % 2 ^ 32 + 2 ^ 32 - 1) % 2 ^ 32 ≡ 2 * c = omega arith in
    let t₃ : ltb l 31 ≡ true = ground arith in
    (
      2 ^ l,
      rw (t₁, t₂, t₃) refl,
      b,
      omega (arith, bit_length-le 64 (2 * c) (omega arith) (omega arith)),
    )

scaled : (p a b : ℕ) → a ≤ b → p * a ≤ p * b
scaled zero a b h = omega arith
scaled (suc p) a b h = omega (arith, scaled p a b h)

doubled : (k c c' needed : ℕ) → needed ≤ 2 ^ suc k * c → 2 * c < c' → needed ≤ 2 ^ k * c'
doubled k c c' needed h lt =
    let p : ℕ = 2 ^ k in
    let e : 2 ^ suc k * c ≡ p * (2 * c) = rw (pow-suc 2 k) (omega arith) in
    omega (arith, e, scaled p (2 * c) c' (omega arith))

grow-enough :
    (k needed c : ℕ)
    → 0 < c
    → needed ≤ 2 ^ k * c
    → needed ≤ 2 ^ 29
    → (c' : ℕ) × (grow (suc k) needed c ≡ some c') × (needed ≤ c') × (c ≤ c')
unfolding grow
grow-enough zero needed c pos h room =
    let t : leb needed c ≡ true = ground arith in rw t (c, refl, omega arith, omega arith)
grow-enough (suc k) needed c pos h room = elim (Bool-cases (leb needed c)) [
  | inl t ↦ rw t (c, refl, ground arith, omega arith)
  | inr t ↦
      let (c₁, e, more, _) = grown-eq c pos (ground arith) in
      let (c₂, e₂, enough, kept) =
        grow-enough k needed c₁ (omega arith) (doubled k c c₁ needed h more) room in
      rw (t, e) (c₂, e₂, enough, omega arith)
]

-- From a capacity that is not 0, and up to 2^29 elements, the loop of ensureSize ends after at most
-- 30 rounds: it succeeds with at least the room that was asked for, never less than before, and
-- the number of elements unchanged.
pub array_ensure_size-room :
    (a : Array) (size rounds : ℕ)
    → 0 < a.capacity
    → a.size + size ≤ 2 ^ 29
    → 29 ≤ rounds
    → (a' : Array) × (array_ensure_size (suc rounds) a size ≡ some a')
      × (a'.size ≡ a.size)
      × (a.size + size ≤ a'.capacity)
      × (a.capacity ≤ a'.capacity)
unfolding array_ensure_size
array_ensure_size-room a size rounds pos room many =
    let big = pow_mono 29 rounds many in
    let wide = scaled (2 ^ rounds) 1 a.capacity (omega arith) in
    let (c, e, enough, kept) =
      grow-enough rounds (a.size + size) a.capacity pos (omega arith) room in
    (record a { capacity = c }, rw e refl, refl, enough, kept)
