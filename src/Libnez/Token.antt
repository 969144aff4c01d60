-- ===== src/Libnez/Token.antt =====
-- src/libnez/token.h: a token is a stretch of read-only bytes, given by its address and length.
-- `mem` gives the byte at an address; address 0 is NULL.
pub mod Laws
use moz.Base.{ℕ, zero, suc, ◌+◌, ◌-◌, ◌%◌, ◌^◌, Bool, true, false, ◌==◌, if◌then◌else◌}

pub record Token : Type 0 where
  pub s : ℕ
  pub len : ℕ

-- `len` is an `unsigned`, so the difference of the two addresses is cut to 32 bits.
pub token_init : ℕ → ℕ → Token
token_init s e = record { s = s; len = (e + 2 ^ 64 - s) % 2 ^ 32 }

unfoldable pub token_copy : Token → Token
token_copy t2 = record { s = t2.s; len = t2.len }

pub token_length : Token → ℕ
token_length t = t.len

module _ (mem : ℕ → ℕ) where
  -- while (s1 < e1) if (*s1++ != *s2++) return 0, with the rounds that are left
  unfoldable pub same_bytes : ℕ → ℕ → ℕ → Bool
  same_bytes zero s1 s2 = true
  same_bytes (suc left) s1 s2 =
      let rest = same_bytes left (s1 + 1) (s2 + 1) in if mem s1 == mem s2 then rest else false

  pub token_equal : Token → Token → Bool
  token_equal t1 t2 = if t1.len == t2.len then same_bytes t1.len t1.s t2.s else false

  pub token_equal_string : Token → ℕ → Bool
  token_equal_string t s = same_bytes t.len t.s s
