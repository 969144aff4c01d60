-- ===== src/Loader/BigEndian.antt =====
-- src/loader.c: the integers of a byte code file.
use Prim.Native.Nat.{bit_or}
use moz.Base.{ℕ, ◌+◌, ◌*◌, ◌%◌, ◌^◌, ◌<◌, some, List, ◌∷◌, ◌≡◌, refl, sym, ap, ◌∙◌, arith, drop}
use moz.Base.Bits.{bit_or-shifted}
use moz.Core.Buffer.RoundTrip.{drop-next}
use moz.Loader.{InputStream, read16, read24, read32, read8, skip}

at_next :
    (is : InputStream) (x : ℕ) (rest : List ℕ)
    → drop is.pos is.bytes ≡ x ∷ rest
    → (read8 is ≡ some (x, skip is 1)) × (drop (skip is 1).pos (skip is 1).bytes ≡ rest)
unfolding read8 skip
at_next is x rest e = let (a, b) = drop-next is.bytes is.pos x rest e in (rw a refl, b)

skip-skip : (is : InputStream) (m n : ℕ) → skip (skip is m) n ≡ skip is (m + n)
unfolding skip
skip-skip is m n =
    let q : is.pos + m + n ≡ is.pos + (m + n) = omega arith in ap (λ p. record is { pos = p }) q

at_next16 :
    (is : InputStream) (a b : ℕ) (rest : List ℕ)
    → a < 256
    → b < 256
    → drop is.pos is.bytes ≡ a ∷ b ∷ rest
    → (read16 is ≡ some (a * 2 ^ 8 + b, skip is 2))
      × (drop (skip is 2).pos (skip is 2).bytes ≡ rest)
unfolding read16
at_next16 is a b rest h1 h2 e =
    let (r1, e1) = at_next is a (b ∷ rest) e in
    let (r2, e2) = at_next (skip is 1) b rest e1 in
    let s : skip (skip is 1) 1 ≡ skip is 2 = skip-skip is 1 1 in
    let v : bit_or (a * 2 ^ 8) b % 2 ^ 16 ≡ a * 2 ^ 8 + b =
      omega (arith, bit_or-shifted 8 a b h2) in
    (rw (r1, r2, s, v) refl, ap (λ (is : InputStream). drop is.pos is.bytes) (sym s) ∙ e2)

at_next24 :
    (is : InputStream) (a b c : ℕ) (rest : List ℕ)
    → a < 256
    → b < 256
    → c < 256
    → drop is.pos is.bytes ≡ a ∷ b ∷ c ∷ rest
    → read24 is ≡ some (a * 2 ^ 16 + b * 2 ^ 8 + c, skip is 3)
unfolding read24
at_next24 is a b c rest h1 h2 h3 e =
    let (r1, e1) = at_next is a (b ∷ c ∷ rest) e in
    let (r2, e2) = at_next (skip is 1) b (c ∷ rest) e1 in
    let (r3, e3) = at_next (skip (skip is 1) 1) c rest e2 in
    let s : skip (skip (skip is 1) 1) 1 ≡ skip is 3 =
      ap (λ is. skip is 1) (skip-skip is 1 1) ∙ skip-skip is 2 1 in
    let high : bit_or (a * 2 ^ 16) (b * 2 ^ 8) ≡ (a * 2 ^ 8 + b) * 2 ^ 8 =
      bit_or-shifted 16 a (b * 2 ^ 8) (omega arith) ∙ omega arith in
    let v : bit_or (bit_or (a * 2 ^ 16) (b * 2 ^ 8)) c % 2 ^ 32 ≡ a * 2 ^ 16 + b * 2 ^ 8 + c =
      ap (λ x. bit_or x c % 2 ^ 32) high ∙ omega (arith, bit_or-shifted 8 (a * 2 ^ 8 + b) c h3) in
    rw (r1, r2, r3, s, v) refl

at_next32 :
    (is : InputStream) (a b c d : ℕ) (rest : List ℕ)
    → a < 256
    → b < 256
    → c < 256
    → d < 256
    → drop is.pos is.bytes ≡ a ∷ b ∷ c ∷ d ∷ rest
    → read32 is ≡ some (a * 2 ^ 24 + b * 2 ^ 16 + c * 2 ^ 8 + d, skip is 4)
unfolding read32
at_next32 is a b c d rest h1 h2 h3 h4 e =
    let (r1, e1) = at_next16 is a b (c ∷ d ∷ rest) h1 h2 e in
    let (r2, e2) = at_next16 (skip is 2) c d rest h3 h4 e1 in
    let s : skip (skip is 2) 2 ≡ skip is 4 = skip-skip is 2 2 in
    let m : (a * 2 ^ 8 + b) * 2 ^ 16 % 2 ^ 32 ≡ (a * 2 ^ 8 + b) * 2 ^ 16 = omega arith in
    let v : bit_or ((a * 2 ^ 8 + b) * 2 ^ 16) (c * 2 ^ 8 + d)
        ≡ a * 2 ^ 24 + b * 2 ^ 16 + c * 2 ^ 8 + d =
      bit_or-shifted 16 (a * 2 ^ 8 + b) (c * 2 ^ 8 + d) (omega arith) ∙ omega arith in
    rw (r1, r2, s, m, v) refl

-- Where four bytes are left of a stream, the reads of 8, 16, 24 and 32 bits succeed, give the
-- values of the next bytes with the highest first, and skip as many bytes.
pub read32-value :
    (is : InputStream) (a b c d : ℕ) (rest : List ℕ)
    → a < 256
    → b < 256
    → c < 256
    → d < 256
    → drop is.pos is.bytes ≡ a ∷ b ∷ c ∷ d ∷ rest
    → (read8 is ≡ some (a, skip is 1))
      × (read16 is ≡ some (a * 2 ^ 8 + b, skip is 2))
      × (read24 is ≡ some (a * 2 ^ 16 + b * 2 ^ 8 + c, skip is 3))
      × (read32 is ≡ some (a * 2 ^ 24 + b * 2 ^ 16 + c * 2 ^ 8 + d, skip is 4))
read32-value is a b c d rest h1 h2 h3 h4 e = (
  (at_next is a (b ∷ c ∷ d ∷ rest) e).0,
  (at_next16 is a b (c ∷ d ∷ rest) h1 h2 e).0,
  at_next24 is a b c (d ∷ rest) h1 h2 h3 e,
  at_next32 is a b c d rest h1 h2 h3 h4 e,
)
