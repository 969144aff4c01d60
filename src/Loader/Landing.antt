-- ===== src/Loader/Landing.antt =====
-- src/loader.c and src/vm1/mozvm1.c: where the machine goes by an offset of the loader.
use moz.Base.{
  ℕ, ◌+◌, ◌-◌, ◌%◌, ◌^◌, ◌<◌, ◌≤◌, true, false, some, List, ◌≡◌, refl, sym, ap, ◌∙◌, ltb, get_elem?,
  Bool-cases, inl, inr, arith,
}
use moz.Vm.State.{Vm, jump, moved, sext32}
use moz.Loader.Load.{displacement}

forth : (base at s : ℕ) → at ≤ s → s < 2 ^ 31 → (s + (2 ^ 32 - at % 2 ^ 32)) % 2 ^ 32 ≡ s - at
forth base at s h lt = omega arith

back : (at s : ℕ) → s < at → at < 2 ^ 31 → (s + (2 ^ 32 - at % 2 ^ 32)) % 2 ^ 32 ≡ 2 ^ 32 - (at - s)
back at s h lt = omega arith

moved-back :
    (base at s : ℕ)
    → s < at
    → at < 2 ^ 31
    → base + at < 2 ^ 64
    → moved (base + at) (2 ^ 32 - (at - s) + (2 ^ 64 - 2 ^ 32)) ≡ base + s
moved-back base at s h lt room = omega arith

moved-landing :
    (base at s o : ℕ)
    → (s + (2 ^ 32 - at % 2 ^ 32)) % 2 ^ 32 ≡ o
    → at < 2 ^ 31
    → s < 2 ^ 31
    → base + at < 2 ^ 64
    → base + s < 2 ^ 64
    → moved (base + at) (sext32 o) ≡ base + s
moved-landing base at s o e h1 h2 r1 r2 = elim (Bool-cases (ltb s at)) [
  | inl lt ↦
      let q : o ≡ 2 ^ 32 - (at - s) = sym e ∙ back at s (ground arith) h1 in
      let big : ltb (2 ^ 32 - (at - s)) (2 ^ 31) ≡ false = ground arith in
      rw (q, big) (moved-back base at s (ground arith) h1 r1)
  | inr ge ↦
      let q : o ≡ s - at = sym e ∙ forth base at s (ground arith) h2 in
      let small : ltb (s - at) (2 ^ 31) ≡ true = ground arith in
      let le : at ≤ s = ground arith in rw (q, small) (omega arith)
]

-- A jump lands on the instruction that the file names: from behind an instruction that ends at
-- `at`, in code that is loaded at `base`, the machine's jump by the offset that the loader writes
-- for the instruction numbered `x` sets the program counter to the start that the first pass
-- recorded for `x`. The code is smaller than 2 GB and lies in the address space.
pub jump-displacement :
    (table : List ℕ) (base at x s : ℕ) (vm : Vm)
    → get_elem? table x ≡ some s
    → vm.pc ≡ base + at
    → at < 2 ^ 31
    → s < 2 ^ 31
    → base + at < 2 ^ 64
    → base + s < 2 ^ 64
    → (o : ℕ) × (displacement table at x ≡ some o) × ((jump vm o).pc ≡ base + s)
unfolding displacement
jump-displacement table base at x s vm e here h1 h2 r1 r2 =
    let o : ℕ = (s + (2 ^ 32 - at % 2 ^ 32)) % 2 ^ 32 in
    (o, rw e refl, ap (λ pc. moved pc (sext32 o)) here ∙ moved-landing base at s o refl h1 h2 r1 r2)
