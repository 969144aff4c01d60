-- ===== src/Core/Karray.antt =====
-- src/core/karray.h: the size and the capacity of a growing array; an `unsigned` has 32 bits, an
-- `int` too. `none` is undefined behaviour of C.
pub mod Growth
use moz.Base.{
  ℕ, zero, suc, ◌+◌, ◌-◌, ◌*◌, ◌/◌, ◌%◌, ◌^◌, Bool, Option, none, some, ◌==◌, ltb, leb,
  if◌then◌else◌, ◌>>=◌,
}

pub record Array : Type 0 where
  pub size : ℕ
  pub capacity : ℕ

pub array_init : ℕ → Array
array_init initsize = record { size = 0; capacity = initsize % 2 ^ 32 }

-- The number of binary digits of a word of `w` bits: `w - __builtin_clz`.
pub bit_length : ℕ → ℕ → ℕ
bit_length zero x = 0
bit_length (suc w) x = let rest = bit_length w (x / 2) in if x == 0 then 0 else suc rest

-- LOG2(N) of src/core/karray.h on an `unsigned`; `__builtin_clzl(0)` is undefined.
unfoldable pub log2 : ℕ → Option ℕ
log2 n = if n == 1 then none else some (bit_length 64 ((n + 2 ^ 32 - 1) % 2 ^ 32))

-- 1 << LOG2(capacity * 2 + 1), whose shift is one of an `int`
pub grown : ℕ → Option ℕ
grown capacity = do
  shift ← log2 ((capacity * 2 + 1) % 2 ^ 32)
  if ltb shift 31 then some (2 ^ shift) else none

-- while (a->size + size > a->capacity), on the rounds that are left
pub grow : ℕ → ℕ → ℕ → Option ℕ
grow zero needed capacity = none
grow (suc rounds) needed capacity =
    let next = grown capacity >>= grow rounds needed in
    if leb needed capacity then some capacity else next

pub array_ensure_size : ℕ → Array → ℕ → Option Array
array_ensure_size rounds a size = do
  capacity ← grow rounds (a.size + size) a.capacity
  some (record a { capacity = capacity })
