-- ===== src/Loader/Targets.antt =====
-- src/loader.c: the targets that First collects from its entries.
use moz.Base.{
  ℕ, zero, suc, ◌-◌, ◌≤◌, ◌<◌, true, false, Option, some, List, [], ◌∷◌, ◌++◌, ◌≡◌, ◌≢◌, refl, sym,
  ap, ◌∙◌, ◌>>=◌, ◌==◌, ltb, ◌⊎◌, inl, inr, Bool-cases, Option-cases, length, get_elem?, get_or,
  replicate, arith,
}
use moz.Base.Lists.{length-append, length-replicate, get_elem?-eq-get_or}
use moz.Core.Jmptbl.Dispatch.{OnlyLastRepeats}
use moz.Loader.{InputStream, read24}
use moz.Loader.Emits.{Each, Each-bind, then_any}
use moz.Loader.First.{add_target, is_target, padded, read_entries}

abbrev pub IsIn : ℕ → List ℕ → Type 0
IsIn v ts = (k : ℕ) × (get_elem? ts k ≡ some v)

-- No value stands twice in a list.
abbrev pub AllDiffer : List ℕ → Type 0
AllDiffer ts = (i j v : ℕ) → i < j → get_elem? ts i ≡ some v → get_elem? ts j ≢ some v

get_elem?-append_left :
    (xs ys : List ℕ) (i v : ℕ) → get_elem? xs i ≡ some v → get_elem? (xs ++ ys) i ≡ some v
get_elem?-append_left [] ys i v e = absurd cc
get_elem?-append_left (x ∷ xs) ys zero v e = e
get_elem?-append_left (x ∷ xs) ys (suc i) v e = get_elem?-append_left xs ys i v e

get_elem?-append_end : (xs : List ℕ) (v : ℕ) → get_elem? (xs ++ v ∷ []) (length xs) ≡ some v
get_elem?-append_end [] v = refl
get_elem?-append_end (x ∷ xs) v = get_elem?-append_end xs v

is_target-IsIn : (v : ℕ) (ts : List ℕ) → is_target v ts ≡ true → IsIn v ts
unfolding is_target
is_target-IsIn v [] h = absurd cc
is_target-IsIn v (t ∷ ts) h = elim (Bool-cases (v == t)) [
  | inl e ↦ let p : t ≡ v = ground arith in (0, ap some p)
  | inr e ↦ let (k, at) = is_target-IsIn v ts (rw e at h) in (suc k, at)
]

is_target_complete : (v : ℕ) (ts : List ℕ) (k : ℕ) → get_elem? ts k ≡ some v → is_target v ts ≡ true
unfolding is_target
is_target_complete v [] k e = absurd cc
is_target_complete v (t ∷ ts) zero e =
    let p : t ≡ v = ground arith in let q : (v == t) ≡ true = ground arith in rw q refl
is_target_complete v (t ∷ ts) (suc k) e = elim (Bool-cases (v == t)) [
  | inl q ↦ rw q refl
  | inr q ↦ rw q (is_target_complete v ts k e)
]

add_target-IsIn : (v : ℕ) (ts : List ℕ) → IsIn v (add_target v ts)
unfolding add_target
add_target-IsIn v ts = elim (Bool-cases (is_target v ts)) [
  | inl e ↦ rw e (is_target-IsIn v ts e)
  | inr e ↦ rw e (length ts, get_elem?-append_end ts v)
]

add_target-keeps : (v w : ℕ) (ts : List ℕ) → IsIn w ts → IsIn w (add_target v ts)
unfolding add_target
add_target-keeps v w ts (k, at) = elim (Bool-cases (is_target v ts)) [
  | inl e ↦ rw e (k, at)
  | inr e ↦ rw e (k, get_elem?-append_left ts (v ∷ []) k w at)
]

append_last-cases :
    (ts : List ℕ) (v k w : ℕ)
    → get_elem? (ts ++ v ∷ []) k ≡ some w
    → (get_elem? ts k ≡ some w) ⊎ ((k ≡ length ts) × (w ≡ v))
append_last-cases [] v zero w e = inr (refl, ground arith)
append_last-cases [] v (suc k) w e = absurd cc
append_last-cases (t ∷ ts) v zero w e = inl e
append_last-cases (t ∷ ts) v (suc k) w e = elim (append_last-cases ts v k w e) [
  | inl at ↦ inl at
  | inr (p, q) ↦ inr (ap suc p, q)
]

bound : (ts : List ℕ) (k w : ℕ) → get_elem? ts k ≡ some w → k < length ts
bound [] k w e = absurd cc
bound (t ∷ ts) zero w e = omega arith
bound (t ∷ ts) (suc k) w e = let h = bound ts k w e in omega arith

append-AllDiffer :
    (ts : List ℕ) (v : ℕ) → is_target v ts ≡ false → AllDiffer ts → AllDiffer (ts ++ v ∷ [])
append-AllDiffer ts v out d i j w h e1 e2 = elim (append_last-cases ts v j w e2) [
  | inl b ↦ elim (append_last-cases ts v i w e1) [
    | inl a ↦ d i j w h a b
    | inr (p, q) ↦ let c : j < length ts = bound ts j w b in absurd (omega arith)
  ]
  | inr (p, q) ↦ elim (append_last-cases ts v i w e1) [
    | inl a ↦ let c : is_target v ts ≡ true = is_target_complete v ts i (a ∙ ap some q) in absurd cc
    | inr (p', q') ↦ absurd (omega arith)
  ]
]

add_target-AllDiffer : (v : ℕ) (ts : List ℕ) → AllDiffer ts → AllDiffer (add_target v ts)
unfolding add_target
add_target-AllDiffer v ts d = elim (Bool-cases (is_target v ts)) [
  | inl e ↦ rw e d
  | inr e ↦ rw e (append-AllDiffer ts v e d)
]

-- The entries alone.
unfoldable pub read24s : ℕ → InputStream → Option (List ℕ × InputStream)
read24s zero is = some ([], is)
read24s (suc left) is = do (v, is) ← read24 is; (vs, is) ← read24s left is; some (v ∷ vs, is)

pub length-read24s : (n : ℕ) (is : InputStream) → Each (λ (vs, is'). length vs ≡ n) (read24s n is)
unfolding read24s
length-read24s zero is = Each.each_some refl
length-read24s (suc n) is = then_any (read24 is) _ λ (v, is1).
    Each-bind (read24s n is1) _ (length-read24s n is1) λ (vs, is2) e. Each.each_some (ap suc e)

-- The targets differ, and they are the old ones and the entries.
pub record Collects (old table target : List ℕ) : Type 0 where
  pub differ : AllDiffer target
  pub keeps : (w : ℕ) → IsIn w old → IsIn w target
  pub covers : (k w : ℕ) → get_elem? table k ≡ some w → IsIn w target

Collects-cons :
    (old table target : List ℕ) (v : ℕ)
    → Collects (add_target v old) table target
    → Collects old (v ∷ table) target
Collects-cons old table target v c = record {
  differ = c.differ;
  keeps = λ w h. c.keeps w (add_target-keeps v w old h);
  covers = covers;
}
  where
    covers : (k w : ℕ) → get_elem? (v ∷ table) k ≡ some w → IsIn w target
    covers zero w e = let p : v ≡ w = ground arith in rw (← p) (c.keeps v (add_target-IsIn v old))
    covers (suc k) w e = c.covers k w e

-- What the collecting loop does with entries that can be read.
abbrev pub ReadsAs : ℕ → List ℕ → InputStream → List ℕ × InputStream → Type 0
ReadsAs n old is (table, is') =
    (target : List ℕ) × (read_entries n old is ≡ some (target, table, is'))
    × Collects old table target

pub read_entries-Collects :
    (n : ℕ) (old : List ℕ) (is : InputStream)
    → AllDiffer old
    → Each (ReadsAs n old is) (read24s n is)
unfolding read_entries read24s
read_entries-Collects zero old is d =
    Each.each_some (old, refl, record { differ = d; keeps = λ w h. h; covers = λ k w e. absurd cc })
read_entries-Collects (suc n) old is d = elim (Option-cases (read24 is)) [
  | inl e ↦ rw e Each.each_none
  | inr ((v, is1), e) ↦ rw e (
      Each-bind (read24s n is1) _
        (read_entries-Collects n (add_target v old) is1 (add_target-AllDiffer v old d))
        λ (table, is2) (target, same, c).
          Each.each_some (target, rw (e, same) refl, Collects-cons old table target v c))
]

get_or-padded : (ts : List ℕ) (n i : ℕ) → get_or (ts ++ replicate n 0) i 0 ≡ get_or ts i 0
get_or-padded [] zero i = refl
get_or-padded [] (suc n) zero = refl
get_or-padded [] (suc n) (suc i) = get_or-padded [] n i
get_or-padded (t ∷ ts) n zero = refl
get_or-padded (t ∷ ts) n (suc i) = get_or-padded ts n i

get_or-beyond : (ts : List ℕ) (i : ℕ) → length ts ≤ i → get_or ts i 0 ≡ 0
get_or-beyond [] i h = refl
get_or-beyond (t ∷ ts) zero h = absurd (omega arith)
get_or-beyond (t ∷ ts) (suc i) h = get_or-beyond ts i (omega arith)

-- Different targets, padded with 0, are such as the tables of Core.Jmptbl are built from.
pub padded-OnlyLastRepeats :
    (ts : List ℕ) (n last : ℕ) → AllDiffer ts → OnlyLastRepeats (padded n ts) last
unfolding padded
padded-OnlyLastRepeats ts n last d i j h1 h2 e =
    let pad = get_or-padded ts (n - length ts) in
    elim (Bool-cases (ltb j (length ts))) [
      | inl inside ↦
          let at_i = get_elem?-eq-get_or ts i 0 (ground arith) in
          let at_j = get_elem?-eq-get_or ts j 0 (ground arith) in
          let same : get_or ts i 0 ≡ get_or ts j 0 = sym (pad i) ∙ e ∙ pad j in
          absurd (d i j (get_or ts j 0) h1 (at_i ∙ ap some same) at_j)
      | inr outside ↦
          pad j
          ∙ get_or-beyond ts j (ground arith)
          ∙ sym (get_or-beyond ts last (ground arith))
          ∙ sym (pad last)
    ]

pub length-padded : (ts : List ℕ) (n : ℕ) → length ts ≤ n → length (padded n ts) ≡ n
unfolding padded
length-padded ts n h =
    let zero_at : ℕ = 0 in
    length-append ts (replicate (n - length ts) zero_at)
    ∙ omega (arith, length-replicate (n - length ts) zero_at)

pub padded-IsIn : (ts : List ℕ) (n v : ℕ) → IsIn v ts → IsIn v (padded n ts)
unfolding padded
padded-IsIn ts n v (k, at) = (k, get_elem?-append_left ts (replicate (n - length ts) 0) k v at)
