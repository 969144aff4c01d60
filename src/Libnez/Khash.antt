-- ===== src/Libnez/Khash.antt =====
-- src/libnez/khash.h with KHASH_USE_FNV1A, as symtable.c includes it.
pub mod Laws
use Prim.Native.Nat.{bit_xor}
use moz.Base.{ℕ, zero, suc, ◌+◌, ◌*◌, ◌%◌, ◌^◌}

module _ (mem : ℕ → ℕ) where
  -- while (s < e) hash = (*s++ ^ hash) * 0x01000193, on 32 bits, with the rounds that are left
  pub fnv1a_string : ℕ → ℕ → ℕ → ℕ
  fnv1a_string s zero hash = hash
  fnv1a_string s (suc len) hash =
      fnv1a_string (s + 1) len (bit_xor (mem s) hash * 0x01000193 % 2 ^ 32)

  -- while (len >= UNROLL) { hash = fnv1a_string(str, UNROLL, hash); str += UNROLL; len -= UNROLL; }
  -- and then the bytes that are left.
  pub fnv1a_groups : ℕ → ℕ → ℕ → ℕ
  fnv1a_groups str (suc (suc (suc (suc len)))) hash =
      fnv1a_groups (str + 4) len (fnv1a_string str 4 hash)
  fnv1a_groups str len hash = fnv1a_string str len hash

  pub fnv1a : ℕ → ℕ → ℕ
  fnv1a p len = fnv1a_groups p len 0x811c9dc5
