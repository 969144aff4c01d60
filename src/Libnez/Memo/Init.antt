-- ===== src/Libnez/Memo/Init.antt =====
-- src/libnez/memo.c: memo_init, for the window of 32 positions that the runtime asks for.
use Prim.Native.Nat.{bit_and}
use native.Mathlib.Nat.{pow-suc, one-le-pow, mul_comm}
use native.Mathlib.Numerals.{add-one}
use moz.Base.Bits.{pow_mono}
use moz.Base.{
  ℕ, zero, suc, ◌+◌, ◌-◌, ◌*◌, ◌%◌, ◌^◌, ◌<◌, ◌≤◌, ◌≡◌, true, false, ◌==◌, ltb, some, [], length,
  get_elem?, arith, ap, ◌∙◌, sym, refl, replicate,
}
use moz.Base.Lists.{length-replicate}
use moz.Core.Karray.{log2, bit_length}
use moz.Core.Karray.Growth.{bit_length_bounds}
use moz.Libnez.Memo.{Memo, MemoEntry, hash_of, memo_init, empty_entry}
use moz.Libnez.Memo.Key.{hash_of-eq}
use moz.Libnez.Memo.Sound.{Agrees}

get_elem?-replicate :
    (n i : ℕ) (e : MemoEntry) → get_elem? (replicate n empty_entry) i ≡ some e → e.hash ≡ 0
get_elem?-replicate zero i e h = cc
get_elem?-replicate (suc n) zero e h = let p : empty_entry ≡ e = cc in sym (ap (λ x. x.hash) p)
get_elem?-replicate (suc n) (suc i) e h = get_elem?-replicate n i e h

positive : (a b : ℕ) → 0 < a → 0 < b → 1 ≤ a * b
positive a b p q = grind arith

-- A table of empty entries holds nothing: no key has the hash 0.
pub empty-Agrees :
    (n shift mask : ℕ)
    → mask < n
    → Agrees shift mask [] (record { ary = replicate n empty_entry; shift = shift; mask = mask })
empty-Agrees n shift mask h = record {
  same_shift = refl;
  same_mask = refl;
  room = omega (arith, length-replicate n empty_entry);
  says = λ pos memo_id e k at' hash.
      let z : e.hash ≡ 0 = get_elem?-replicate n (bit_and (hash_of shift pos memo_id) mask) e at' in
      let g : 1 ≤ pos * 2 ^ shift =
        positive pos (2 ^ shift) k.not_null (one-le-pow shift 2 (omega arith)) in
      absurd (omega (arith, hash_of-eq k, z, hash, g));
}

-- For 2 to 65,536 memo points `memo_init` succeeds: every memo point fits below the shift, which is
-- at most 17, and the mask is the last index of the empty table.
pub memo_init_lem :
    (n : ℕ)
    → 1 < n
    → n ≤ 2 ^ 16
    → (m : Memo) × (memo_init 32 n ≡ some m)
      × (n ≤ 2 ^ m.shift)
      × (m.shift ≤ 17)
      × (length m.ary ≡ m.mask + 1)
      × Agrees m.shift m.mask [] m
unfolding memo_init log2
memo_init_lem n lo hi =
    let l : ℕ = bit_length 64 (n - 1) in
    let (b, c) = bit_length_bounds 64 (n - 1) 16 (omega arith) (omega arith) in
    let q : 2 ^ l ≤ 2 ^ 16 = pow_mono l 16 c in
    let one : 1 ≤ 2 ^ l = one-le-pow l 2 (omega arith) in
    let t₁ : (n == 1) ≡ false = ground arith in
    let t₂ : (n + 2 ^ 32 - 1) % 2 ^ 32 ≡ n - 1 = omega arith in
    let t₃ : ltb l 31 ≡ true = ground arith in
    let t₄ : 32 * 2 ^ l % 2 ^ 32 ≡ 32 * 2 ^ l = omega arith in
    let t₅ : (32 * 2 ^ l + 2 ^ 32 - 1) % 2 ^ 32 ≡ 32 * 2 ^ l - 1 = omega arith in
    let d : 2 ^ (l + 1) ≡ 2 * 2 ^ l = rw add-one (pow-suc 2 l ∙ mul_comm (2 ^ l) 2) in
    (
      record { ary = replicate (32 * 2 ^ l) empty_entry; shift = l + 1; mask = 32 * 2 ^ l - 1 },
      rw (t₁, t₂, t₃, t₄, t₅) refl,
      omega (arith, d),
      omega arith,
      omega (arith, length-replicate (32 * 2 ^ l) empty_entry),
      empty-Agrees (32 * 2 ^ l) (l + 1) (32 * 2 ^ l - 1) (omega arith),
    )
