-- ===== src/Libnez/Khash/Laws.antt =====
-- src/libnez/khash.h: the unrolled loop against the plain one.
use Prim.Native.Nat.{bit_xor}
use moz.Base.{ℕ, zero, suc, ◌+◌, ◌*◌, ◌%◌, ◌^◌, ◌≡◌, refl, arith, ap, sym, ◌∙◌}
use moz.Libnez.Khash.{fnv1a_string, fnv1a_groups, fnv1a}
use moz.Libnez.Token.{Token}
use moz.Libnez.Token.Laws.{bytes_at, text, length_of_bytes}

module _ (mem : ℕ → ℕ) where
  fnv1a_groups-eq :
      (str len hash : ℕ) → fnv1a_groups mem str len hash ≡ fnv1a_string mem str len hash
  unfolding fnv1a_groups fnv1a_string
  fnv1a_groups-eq str zero hash = refl
  fnv1a_groups-eq str (suc zero) hash = refl
  fnv1a_groups-eq str (suc (suc zero)) hash = refl
  fnv1a_groups-eq str (suc (suc (suc zero))) hash = refl
  fnv1a_groups-eq str (suc (suc (suc (suc len)))) hash =
      let a : str + 1 + 1 + 1 + 1 ≡ str + 4 = omega arith in
      fnv1a_groups-eq (str + 4) len (fnv1a_string mem str 4 hash)
      ∙ ap (λ t. fnv1a_string mem t len (fnv1a_string mem str 4 hash)) (sym a)

  fnv1a_string-bytes :
      (n s1 s2 hash : ℕ)
      → bytes_at mem s1 n ≡ bytes_at mem s2 n
      → fnv1a_string mem s1 n hash ≡ fnv1a_string mem s2 n hash
  unfolding fnv1a_string
  fnv1a_string-bytes zero s1 s2 hash e = refl
  fnv1a_string-bytes (suc n) s1 s2 hash e =
      let b : mem s1 ≡ mem s2 = cc in
      rw b
        (fnv1a_string-bytes n (s1 + 1) (s2 + 1) (bit_xor (mem s2) hash * 0x01000193 % 2 ^ 32) (cc))

  -- Taking the bytes in groups of four gives the hash of the plain loop over all of them.
  fnv1a-eq-fnv1a_string : (p len : ℕ) → fnv1a mem p len ≡ fnv1a_string mem p len 0x811c9dc5
  unfolding fnv1a
  fnv1a-eq-fnv1a_string p len = fnv1a_groups-eq p len 0x811c9dc5

  -- Two tokens with the same text have the same hash, wherever they point.
  pub fnv1a-text :
      (t u : Token) → text mem t ≡ text mem u → fnv1a mem t.s t.len ≡ fnv1a mem u.s u.len
  fnv1a-text t u e =
      let l : t.len ≡ u.len = length_of_bytes mem t.len u.len t.s u.s e in
      fnv1a-eq-fnv1a_string t.s t.len
      ∙ fnv1a_string-bytes t.len t.s u.s 0x811c9dc5 (e ∙ ap (bytes_at mem u.s) (sym l))
      ∙ ap (λ n. fnv1a_string mem u.s n 0x811c9dc5) l
      ∙ sym (fnv1a-eq-fnv1a_string u.s u.len)
