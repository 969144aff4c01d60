-- ===== src/Loader/Header.antt =====
-- src/loader.c: the checks at the start of a byte code file.
use moz.Base.{
  ℕ, Bool, true, ◌&&◌, some, List, ◌∷◌, ◌≡◌, refl, ◌==◌, leb, if◌then◌else◌, Bool-cases, inl, inr,
  length, arith,
}
use moz.Loader.{InputStream, read8, skip}
use moz.Loader.Syntax.{
  LoadResult, check_file_type, check_version, load_body, mozvm_loader_load_syntax,
}

-- The stream behind the four bytes of the header.
abbrev pub behind_header : List ℕ → InputStream
behind_header memory = record { pos = 4; end_pos = length memory; bytes = memory }

-- A file of four bytes or more is rejected as no byte code exactly when it does not start with
-- "NEZ", whatever follows; otherwise, with every fourth byte, loading goes on behind the header, so
-- a version is never refused.
pub mozvm_loader_load_syntax-header :
    (size : ℕ → ℕ) (rounds1 rounds2 inst counted : ℕ) (opt : Bool) (a b c v : ℕ) (rest : List ℕ)
    → mozvm_loader_load_syntax size rounds1 rounds2 inst counted opt (a ∷ b ∷ c ∷ v ∷ rest) ≡ (
        if a == 78 && b == 69 && c == 90
        then load_body size rounds1 rounds2 inst counted opt (behind_header (a ∷ b ∷ c ∷ v ∷ rest))
        else some LoadResult.not_bytecode)
unfolding mozvm_loader_load_syntax check_file_type check_version read8 skip
mozvm_loader_load_syntax-header size rounds1 rounds2 inst counted opt a b c v rest =
    let any : leb 0 v ≡ true = ground arith in
    elim (Bool-cases (a == 78)) [
      | inr p ↦ rw p refl
      | inl p ↦ elim (Bool-cases (b == 69)) [
        | inr q ↦ rw (p, q) refl
        | inl q ↦ elim (Bool-cases (c == 90)) [
          | inr r ↦ rw (p, q, r) refl
          | inl r ↦ rw (p, q, r, any) refl
        ]
      ]
    ]
