-- ===== src/Libnez/Token/Laws.antt =====
-- src/libnez/token.h: tokens against the bytes that they point to.
use moz.Base.{
  ℕ, zero, suc, ◌+◌, ◌-◌, ◌^◌, ◌<◌, ◌≤◌, true, List, [], ◌∷◌, ◌≡◌, ◌↔◌, refl, arith, ap, sym, ◌∙◌,
}
use moz.Libnez.Token.{Token, token_init, token_equal, same_bytes}

module _ (mem : ℕ → ℕ) where
  -- The `n` bytes from `s` on.
  abbrev pub bytes_at : ℕ → ℕ → List ℕ
  bytes_at s zero = []
  bytes_at s (suc n) = mem s ∷ bytes_at (s + 1) n

  abbrev pub text : Token → List ℕ
  text t = bytes_at t.s t.len

  pub same_bytes_iff :
      (n s1 s2 : ℕ) → (same_bytes mem n s1 s2 ≡ true) ↔ (bytes_at s1 n ≡ bytes_at s2 n)
  unfolding same_bytes
  same_bytes_iff zero s1 s2 = (λ h. refl, λ h. refl)
  same_bytes_iff (suc n) s1 s2 = (
    λ h. ground (arith, same_bytes_iff n (s1 + 1) (s2 + 1)),
    λ h. ground (arith, same_bytes_iff n (s1 + 1) (s2 + 1)),
  )

  pub length_of_bytes : (n m s1 s2 : ℕ) → bytes_at s1 n ≡ bytes_at s2 m → n ≡ m
  length_of_bytes zero zero s1 s2 e = refl
  length_of_bytes zero (suc m) s1 s2 e = cc
  length_of_bytes (suc n) zero s1 s2 e = cc
  length_of_bytes (suc n) (suc m) s1 s2 e = ap suc (length_of_bytes n m (s1 + 1) (s2 + 1) (cc))

  -- `token_equal` answers true exactly when the two tokens hold the same bytes, wherever they
  -- point.
  pub token_equal_iff : (t1 t2 : Token) → (token_equal mem t1 t2 ≡ true) ↔ (text t1 ≡ text t2)
  unfolding token_equal
  token_equal_iff t1 t2 = (
    λ h.
        let l : t1.len ≡ t2.len = ground arith in
        let e : same_bytes mem t1.len t1.s t2.s ≡ true = ground arith in
        (same_bytes_iff t1.len t1.s t2.s).0 e ∙ ap (bytes_at t2.s) l,
    λ h.
        let l : t1.len ≡ t2.len = length_of_bytes t1.len t2.len t1.s t2.s h in
        let e : same_bytes mem t1.len t1.s t2.s ≡ true =
          (same_bytes_iff t1.len t1.s t2.s).1 (h ∙ ap (bytes_at t2.s) (sym l)) in
        ground arith,
  )

-- A token taken from a stretch of less than 4 GiB has that stretch's start and length.
pub token_init_lem :
    (s e : ℕ) → s ≤ e → e < 2 ^ 64 → e - s < 2 ^ 32 → token_init s e ≡ record { s = s; len = e - s }
unfolding token_init
token_init_lem s e h b l = ground arith
