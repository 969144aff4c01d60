-- ===== src/Compiler/Edges.antt =====
-- src/compiler/block.c: the edges of the graph of blocks.
use moz.Base.{
  ℕ, Bool, true, false, not, ◌&&◌, ◌||◌, some, List, [], ◌∷◌, ◌++◌, ◌≡◌, refl, sym, ap, ◌∙◌, ◌==◌,
  Bool-cases, inl, inr, if◌then◌else◌, arith,
}
use moz.Compiler.Block.{
  Graph, add_once, block_link, block_unlink, contains, remove_element, removed, set_block,
}

unfoldable pub is_distinct : List ℕ → Bool
is_distinct [] = true
is_distinct (x ∷ xs) = let rest = is_distinct xs in if contains x xs then false else rest

contains-append : (w v : ℕ) (xs : List ℕ) → contains w (xs ++ v ∷ []) ≡ (w == v || contains w xs)
unfolding contains
contains-append w v [] = ground arith
contains-append w v (x ∷ xs) = let ih = contains-append w v xs in ground arith

contains-add_once : (w v : ℕ) (xs : List ℕ) → contains w (add_once v xs) ≡ (w == v || contains w xs)
unfolding add_once
contains-add_once w v xs = elim (Bool-cases (contains v xs)) [
  | inl e ↦ rw e (held (w == v) refl e)
  | inr e ↦ rw e (contains-append w v xs)
]
  where
    held : (b : Bool) → (w == v) ≡ b → contains v xs ≡ true → contains w xs ≡ (b || contains w xs)
    held true q e = let p : w ≡ v = ground arith in rw p e
    held false q e = refl

is_distinct-append :
    (v : ℕ) (xs : List ℕ)
    → contains v xs ≡ false
    → is_distinct xs ≡ true
    → is_distinct (xs ++ v ∷ []) ≡ true
unfolding is_distinct contains
is_distinct-append v [] e d = refl
is_distinct-append v (x ∷ xs) e d =
    let c = contains-append x v xs in let ih = is_distinct-append v xs in ground arith

is_distinct-add_once :
    (v : ℕ) (xs : List ℕ) → is_distinct xs ≡ true → is_distinct (add_once v xs) ≡ true
unfolding add_once
is_distinct-add_once v xs d = elim (Bool-cases (contains v xs)) [
  | inl e ↦ rw e d
  | inr e ↦ rw e (is_distinct-append v xs e d)
]

contains-removed :
    (w v : ℕ) (xs : List ℕ)
    → is_distinct xs ≡ true
    → contains w (removed v xs) ≡ (not (w == v) && contains w xs)
unfolding contains removed is_distinct
contains-removed w v [] d = ground arith
contains-removed w v (x ∷ xs) d = let ih = contains-removed w v xs in ground arith

is_distinct-removed :
    (v : ℕ) (xs : List ℕ) → is_distinct xs ≡ true → is_distinct (removed v xs) ≡ true
unfolding contains removed is_distinct
is_distinct-removed v [] d = refl
is_distinct-removed v (x ∷ xs) d =
    let ih = is_distinct-removed v xs in let c = contains-removed x v xs in ground arith

remove_element-eq :
    (v : ℕ) (xs : List ℕ) → contains v xs ≡ true → remove_element v xs ≡ some (removed v xs)
unfolding contains remove_element
remove_element-eq v [] e = absurd cc
remove_element-eq v (x ∷ xs) e = refl

abbrev pub has_succ : Graph → ℕ → ℕ → Bool
has_succ g a b = contains b (g a).succs

abbrev pub has_pred : Graph → ℕ → ℕ → Bool
has_pred g a b = contains a (g b).preds

-- Successors and predecessors mirror each other, each edge once.
pub record IsLinked (g : Graph) : Type 0 where
  pub mirror : (a b : ℕ) → has_succ g a b ≡ has_pred g a b
  pub succs_once : (a : ℕ) → is_distinct (g a).succs ≡ true
  pub preds_once : (b : ℕ) → is_distinct (g b).preds ≡ true

-- A graph after the successors of `p` and the predecessors of `s` have been written.
abbrev with_succs : ℕ → List ℕ → Graph → Graph
with_succs p x g = set_block p (record (g p) { succs = x }) g

abbrev with_preds : ℕ → List ℕ → Graph → Graph
with_preds s y g = set_block s (record (g s) { preds = y }) g

succs-with_succs :
    (p a : ℕ) (x : List ℕ) (g : Graph)
    → (with_succs p x g a).succs ≡ (if a == p then x else (g a).succs)
succs-with_succs p a x g = elim (Bool-cases (a == p)) [ inl e ↦ rw e refl | inr e ↦ rw e refl ]

preds-with_succs : (p a : ℕ) (x : List ℕ) (g : Graph) → (with_succs p x g a).preds ≡ (g a).preds
preds-with_succs p a x g = elim (Bool-cases (a == p)) [
  | inl e ↦ let q : a ≡ p = ground arith in rw e (ap (λ a. (g a).preds) (sym q))
  | inr e ↦ rw e refl
]

preds-with_preds :
    (s a : ℕ) (y : List ℕ) (g : Graph)
    → (with_preds s y g a).preds ≡ (if a == s then y else (g a).preds)
preds-with_preds s a y g = elim (Bool-cases (a == s)) [ inl e ↦ rw e refl | inr e ↦ rw e refl ]

succs-with_preds : (s a : ℕ) (y : List ℕ) (g : Graph) → (with_preds s y g a).succs ≡ (g a).succs
succs-with_preds s a y g = elim (Bool-cases (a == s)) [
  | inl e ↦ let q : a ≡ s = ground arith in rw e (ap (λ a. (g a).succs) (sym q))
  | inr e ↦ rw e refl
]

module _ (p s : ℕ) (g : Graph) (x y : List ℕ) where
  abbrev edited : Graph
  edited = with_preds s y (with_succs p x g)

  succs-edited : (a : ℕ) → (edited a).succs ≡ (if a == p then x else (g a).succs)
  succs-edited a = succs-with_preds s a y (with_succs p x g) ∙ succs-with_succs p a x g

  preds-edited : (b : ℕ) → (edited b).preds ≡ (if b == s then y else (g b).preds)
  preds-edited b =
      preds-with_preds s b y (with_succs p x g)
      ∙ ap (λ t. if b == s then y else t) (preds-with_succs p b x g)

  succ-edited :
      (now : Bool)
      → ((b : ℕ) → contains b x ≡ (if b == s then now else has_succ g p b))
      → (a b : ℕ) → has_succ edited a b ≡ (if a == p && b == s then now else has_succ g a b)
  succ-edited now hx a b = elim (Bool-cases (a == p)) [
    | inl e ↦
        let q : p ≡ a = ground arith in
        ap (contains b) (succs-edited a)
        ∙ rw e (hx b ∙ ap (λ a. if b == s then now else has_succ g a b) q)
    | inr e ↦ ap (contains b) (succs-edited a) ∙ rw e refl
  ]

  pred-edited :
      (now : Bool)
      → ((a : ℕ) → contains a y ≡ (if a == p then now else has_pred g a s))
      → (a b : ℕ) → has_pred edited a b ≡ (if a == p && b == s then now else has_pred g a b)
  pred-edited now hy a b = elim (Bool-cases (b == s)) [
    | inl e ↦
        let q : s ≡ b = ground arith in
        ap (contains a) (preds-edited b)
        ∙ rw e (hy a ∙ ap (λ b. if a == p then now else has_pred g a b) q ∙ unit a b (a == p))
    | inr e ↦ ap (contains a) (preds-edited b) ∙ rw e (other a b (a == p))
  ]
    where
      unit :
          (a b : ℕ) (c : Bool)
          → (if c then now else has_pred g a b) ≡ (if c && true then now else has_pred g a b)
      unit a b true = refl
      unit a b false = refl

      other : (a b : ℕ) (c : Bool) → has_pred g a b ≡ (if c && false then now else has_pred g a b)
      other a b true = refl
      other a b false = refl

  once :
      (c : Bool) (v w : List ℕ)
      → is_distinct v ≡ true
      → is_distinct w ≡ true
      → is_distinct (if c then v else w) ≡ true
  once true v w d e = d
  once false v w d e = e

  -- The graph is linked when the new lists say the same of the edge and nothing new of others.
  edited-IsLinked :
      (now : Bool)
      → IsLinked g
      → ((b : ℕ) → contains b x ≡ (if b == s then now else has_succ g p b))
      → ((a : ℕ) → contains a y ≡ (if a == p then now else has_pred g a s))
      → is_distinct x ≡ true
      → is_distinct y ≡ true
      → IsLinked edited
        × ((a b : ℕ) → has_succ edited a b ≡ (if (a == p && b == s) then now else has_succ g a b))
  edited-IsLinked now l hx hy dx dy = (
    record {
      mirror = λ a b.
          succ-edited now hx a b
          ∙ ap (λ t. if a == p && b == s then now else t) (l.mirror a b)
          ∙ sym (pred-edited now hy a b);
      succs_once =
          λ a. ap is_distinct (succs-edited a) ∙ once (a == p) x (g a).succs dx (l.succs_once a);
      preds_once =
          λ b. ap is_distinct (preds-edited b) ∙ once (b == s) y (g b).preds dy (l.preds_once b);
    },
    succ-edited now hx,
  )

added :
    (b s : ℕ) (xs : List ℕ) → contains b (add_once s xs) ≡ (if b == s then true else contains b xs)
added b s xs = contains-add_once b s xs ∙ ground arith

taken :
    (b s : ℕ) (xs : List ℕ)
    → is_distinct xs ≡ true
    → contains b (removed s xs) ≡ (if b == s then false else contains b xs)
taken b s xs d = contains-removed b s xs d ∙ ground arith

-- block_link keeps the graph linked and adds one edge.
pub block_link-IsLinked :
    (p s : ℕ) (g : Graph)
    → IsLinked g
    → IsLinked (block_link p s g)
      × ((a b : ℕ)
          → has_succ (block_link p s g) a b ≡ (if a == p && b == s then true else has_succ g a b))
unfolding block_link
block_link-IsLinked p s g l =
    let x : List ℕ = add_once s (g p).succs in
    let q : (with_succs p x g s).preds ≡ (g s).preds = preds-with_succs p s x g in
    edited-IsLinked p s g x (add_once p (with_succs p x g s).preds) true l
      (λ b. added b s (g p).succs)
      (λ a. ap (λ t. contains a (add_once p t)) q ∙ added a p (g s).preds)
      (is_distinct-add_once s (g p).succs (l.succs_once p))
      (ap (λ t. is_distinct (add_once p t)) q ∙ is_distinct-add_once p (g s).preds (l.preds_once s))

-- block_unlink of an edge of a linked graph succeeds, keeps the graph linked, and takes away this
-- edge and no other.
pub block_unlink-IsLinked :
    (p s : ℕ) (g : Graph)
    → IsLinked g
    → has_succ g p s ≡ true
    → (g' : Graph) × (block_unlink p s g ≡ some g')
      × IsLinked g'
      × ((a b : ℕ) → has_succ g' a b ≡ (if a == p && b == s then false else has_succ g a b))
unfolding block_unlink
block_unlink-IsLinked p s g l e =
    let x : List ℕ = removed s (g p).succs in
    let q : (with_succs p x g s).preds ≡ (g s).preds = preds-with_succs p s x g in
    let back : contains p (with_succs p x g s).preds ≡ true =
      ap (contains p) q ∙ sym (l.mirror p s) ∙ e in
    let (l', edges) =
      edited-IsLinked p s g x (removed p (with_succs p x g s).preds) false l
        (λ b. taken b s (g p).succs (l.succs_once p))
        (λ a. ap (λ t. contains a (removed p t)) q ∙ taken a p (g s).preds (l.preds_once s))
        (is_distinct-removed s (g p).succs (l.succs_once p))
        (ap (λ t. is_distinct (removed p t)) q
          ∙ is_distinct-removed p (g s).preds (l.preds_once s)) in
    (
      edited p s g x (removed p (with_succs p x g s).preds),
      rw (remove_element-eq s (g p).succs e, remove_element-eq p (with_succs p x g s).preds back)
          refl,
      l',
      edges,
    )
