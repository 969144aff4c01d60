-- ===== src/Base/Bits.antt =====
-- The single bits of a number, and what `|`, `&`, `^` and shifts do to them.
use Prim.Native.Nat.{
  ℕ, zero, suc, ◌+◌, ◌-◌, ◌*◌, ◌/◌, ◌%◌, ◌^◌, ◌≤◌, ◌<◌, min, max, digits, bit_and, bit_or,
  bit_and-bitwise, bit_or-bitwise,
}
use mathlib.Core.Path.{◌≡◌, refl, ap, ◌∙◌}
use mathlib.Core.Logic.{◌≢◌}
use native.Mathlib.Nat.{le_refl, pow-suc, one-le-pow}
use native.Mathlib.Omega.{arith}

-- Both operations mean a recursion on binary digits with fuel; more fuel than the number of digits
-- changes nothing.
module _ (low : ℕ → ℕ) (op : ℕ → ℕ → ℕ) where
  one_more : (n x y : ℕ) → x ≤ n → digits low op (suc n) x y ≡ digits low op n x y
  one_more (suc n) (suc x) y h = rw (one_more n (suc x / 2) (y / 2) (omega arith))
  one_more (suc n) zero y h = refl
  one_more zero (suc x) y h = absurd (omega arith)
  one_more zero zero y h = refl

  spare : (k x y : ℕ) → digits low op (k + x) x y ≡ digits low op x x y
  spare zero x y = let e : 0 + x ≡ x = omega arith in rw e refl
  spare (suc k) x y =
      let e : suc k + x ≡ suc (k + x) = omega arith in
      rw e (one_more (k + x) x y (omega arith) ∙ spare k x y)

  lowest_digit :
      (x y : ℕ)
      → digits low op (suc x) (suc x) y
        ≡ op (suc x % 2) (y % 2) + 2 * digits low op (suc x / 2) (suc x / 2) (y / 2)
  lowest_digit x y =
      let h : ℕ = suc x / 2 in
      let e : x - h + h ≡ x = omega arith in
      let enough : digits low op x h (y / 2) ≡ digits low op h h (y / 2) =
        rw e at (spare (x - h) h (y / 2)) in
      omega (arith, enough)

pub or_by_digit : (x y : ℕ) → bit_or x y ≡ max (x % 2) (y % 2) + 2 * bit_or (x / 2) (y / 2)
or_by_digit zero y = simp bit_or-bitwise (omega arith)
or_by_digit (suc x) y = simp bit_or-bitwise (lowest_digit (λ t. t) max x y)

pub and_by_digit : (x y : ℕ) → bit_and x y ≡ min (x % 2) (y % 2) + 2 * bit_and (x / 2) (y / 2)
and_by_digit zero y = simp bit_and-bitwise (omega arith)
and_by_digit (suc x) y = simp bit_and-bitwise (lowest_digit (λ t. 0) min x y)

-- The bit `k` of `x`, by halving `k` times.
abbrev pub bit : ℕ → ℕ → ℕ
bit zero x = x % 2
bit (suc k) x = bit k (x / 2)

pub bit-lt_two : (k x : ℕ) → bit k x < 2
bit-lt_two zero x = omega arith
bit-lt_two (suc k) x = bit-lt_two k (x / 2)

pub bit-zero : (k : ℕ) → bit k 0 ≡ 0
bit-zero zero = refl
bit-zero (suc k) = bit-zero k

pub bit-or : (k a b : ℕ) → bit k (bit_or a b) ≡ max (bit k a) (bit k b)
bit-or zero a b = omega (arith, or_by_digit a b)
bit-or (suc k) a b =
    let e : bit_or a b / 2 ≡ bit_or (a / 2) (b / 2) = omega (arith, or_by_digit a b) in
    rw e (bit-or k (a / 2) (b / 2))

pub bit-and : (k a b : ℕ) → bit k (bit_and a b) ≡ min (bit k a) (bit k b)
bit-and zero a b = omega (arith, and_by_digit a b)
bit-and (suc k) a b =
    let e : bit_and a b / 2 ≡ bit_and (a / 2) (b / 2) = omega (arith, and_by_digit a b) in
    rw e (bit-and k (a / 2) (b / 2))

pub bit-pow_self : (k : ℕ) → bit k (2 ^ k) ≡ 1
bit-pow_self zero = refl
bit-pow_self (suc k) =
    let e : 2 ^ suc k / 2 ≡ 2 ^ k = omega (arith, pow-suc 2 k) in rw e (bit-pow_self k)

pub bit-pow_ne : (k j : ℕ) → k ≢ j → bit k (2 ^ j) ≡ 0
bit-pow_ne zero zero h = absurd (h refl)
bit-pow_ne zero (suc j) h = omega (arith, pow-suc 2 j)
bit-pow_ne (suc k) zero h = bit-zero k
bit-pow_ne (suc k) (suc j) h =
    let e : 2 ^ suc j / 2 ≡ 2 ^ j = omega (arith, pow-suc 2 j) in
    rw e (bit-pow_ne k j (λ p. h (ap suc p)))

-- `~x` on a word of `w` bits.
pub bit-complement : (w k x : ℕ) → x < 2 ^ w → k < w → bit k (2 ^ w - 1 - x) ≡ 1 - bit k x
bit-complement zero k x h lt = absurd (omega arith)
bit-complement (suc w) zero x h lt = omega (arith, pow-suc 2 w)
bit-complement (suc w) (suc k) x h lt =
    let e : (2 ^ suc w - 1 - x) / 2 ≡ 2 ^ w - 1 - x / 2 = omega (arith, pow-suc 2 w) in
    rw e (bit-complement w k (x / 2) (omega (arith, pow-suc 2 w)) (omega arith))

-- A number is its bits.
pub bits_ext : (w a b : ℕ) → a < 2 ^ w → b < 2 ^ w → ((k : ℕ) → k < w → bit k a ≡ bit k b) → a ≡ b
bits_ext zero a b p q h = omega arith
bits_ext (suc w) a b p q h = omega (
  arith,
  h 0 (omega arith),
  bits_ext w (a / 2) (b / 2) (omega (arith, pow-suc 2 w)) (omega (arith, pow-suc 2 w))
      (λ k lt. h (suc k) (omega arith)),
)

pub bit_or-lt : (w a b : ℕ) → a < 2 ^ w → b < 2 ^ w → bit_or a b < 2 ^ w
bit_or-lt zero a b p q =
    let ea : a ≡ 0 = omega arith in let eb : b ≡ 0 = omega arith in rw (ea, eb) (omega arith)
bit_or-lt (suc w) a b p q = omega (
  arith,
  pow-suc 2 w,
  or_by_digit a b,
  bit_or-lt w (a / 2) (b / 2) (omega (arith, pow-suc 2 w)) (omega (arith, pow-suc 2 w)),
)

pub bit_and-le : (n a b : ℕ) → a ≤ n → bit_and a b ≤ a
bit_and-le zero a b p = let ea : a ≡ 0 = omega arith in rw ea (omega (arith, bit_and-bitwise 0 b))
bit_and-le (suc n) zero b p = omega (arith, bit_and-bitwise 0 b)
bit_and-le (suc n) (suc a) b p =
    omega (arith, and_by_digit (suc a) b, bit_and-le n (suc a / 2) (b / 2) (omega arith))

nothing_common : (bound y : ℕ) → y ≤ bound → bit_and y 0 ≡ 0
nothing_common bound zero le = refl
nothing_common zero (suc y) le = absurd (omega arith)
nothing_common (suc bound) (suc y) le =
    let half = nothing_common bound (suc y / 2) (omega arith) in
    omega (arith, half, and_by_digit (suc y) 0)

-- `x & (1 << k)` is zero exactly when bit `k` is.
pub bit_and-pow : (k a : ℕ) → bit_and a (2 ^ k) ≡ bit k a * 2 ^ k
bit_and-pow zero a = omega (arith, and_by_digit a 1, nothing_common (a / 2) (a / 2) (le_refl _))
bit_and-pow (suc k) a =
    let e : 2 ^ suc k / 2 ≡ 2 ^ k = omega (arith, pow-suc 2 k) in
    let m : 2 ^ suc k % 2 ≡ 0 = omega (arith, pow-suc 2 k) in
    let ih : bit_and (a / 2) (2 ^ suc k / 2) ≡ bit k (a / 2) * 2 ^ k =
      rw e (bit_and-pow k (a / 2)) in
    omega
      (arith, and_by_digit a (2 ^ suc k), ih, m, ap (λ (t : ℕ). bit k (a / 2) * t) (pow-suc 2 k))

bit_or-zero_fuel : (n a : ℕ) → a ≤ n → bit_or a 0 ≡ a
bit_or-zero_fuel n zero h = refl
bit_or-zero_fuel zero (suc a) h = absurd (omega arith)
bit_or-zero_fuel (suc n) (suc a) h =
    omega (arith, or_by_digit (suc a) 0, bit_or-zero_fuel n (suc a / 2) (omega arith))

-- `(p << k) | r` is a sum when `r` fits in `k` bits.
pub bit_or-shifted : (k p r : ℕ) → r < 2 ^ k → bit_or (p * 2 ^ k) r ≡ p * 2 ^ k + r
bit_or-shifted zero p r h =
    let e : r ≡ 0 = omega arith in
    let q : p * 2 ^ 0 ≡ p = omega arith in rw (e, q, bit_or-zero_fuel p p (le_refl _)) (omega arith)
bit_or-shifted (suc k) p r h =
    let m : p * 2 ^ suc k ≡ 2 * (p * 2 ^ k) = omega (arith, ap (λ (t : ℕ). p * t) (pow-suc 2 k)) in
    let d : p * 2 ^ suc k / 2 ≡ p * 2 ^ k = omega arith in
    let ih : bit_or (p * 2 ^ suc k / 2) (r / 2) ≡ p * 2 ^ k + r / 2 =
      rw d (bit_or-shifted k p (r / 2) (omega (arith, pow-suc 2 k))) in
    omega (arith, or_by_digit (p * 2 ^ suc k) r, ih)

pub bit_and-le_right : (n a b : ℕ) → b ≤ n → bit_and a b ≤ b
bit_and-le_right zero a b p =
    let eb : b ≡ 0 = omega arith in rw eb (omega (arith, nothing_common a a (le_refl _)))
bit_and-le_right (suc n) a zero p = omega (arith, nothing_common a a (le_refl _))
bit_and-le_right (suc n) a (suc b) p =
    omega (arith, and_by_digit a (suc b), bit_and-le_right n (a / 2) (suc b / 2) (omega arith))

pub pow_mono : (k w : ℕ) → k ≤ w → 2 ^ k ≤ 2 ^ w
pow_mono zero w h = one-le-pow w 2 (omega arith)
pow_mono (suc k) zero h = absurd (omega arith)
pow_mono (suc k) (suc w) h = omega (arith, pow-suc 2 w, pow-suc 2 k, pow_mono k w (omega arith))
