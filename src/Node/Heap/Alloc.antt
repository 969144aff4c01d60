-- ===== src/Node/Heap/Alloc.antt =====
-- src/node/node.c: the allocator, its free list and the objects in use.
use native.Mathlib.Decide.{dec_lt}
use moz.Base.{
  ℕ, zero, suc, ◌+◌, ◌-◌, ◌<◌, ◌≤◌, true, false, none, some, List, [], ◌∷◌, ◌++◌, ◌==◌, ◌≢◌, ◌≡◌,
  refl, arith, if◌then◌else◌, length, ap, sym, ◌∙◌, Bool-cases, inl, inr,
}
use mathlib.Core.List.{append-nil}
use moz.Node.Heap.{
  Heap, Node, alloc_page, node_alloc, node_free, page_nodes, page_object_size, pop_free, update,
  is_empty, put, Node_new, freed,
}
use moz.Node.Entry.{entry_new}

-- Every object of the list satisfies `P`.
abbrev pub All : (ℕ → Type 0) → List ℕ → Type 0
All P [] = Unit
All P (a ∷ as') = P a × All P as'

abbrev pub Distinct : List ℕ → Type 0
Distinct [] = Unit
Distinct (a ∷ as') = All (λ b. a ≢ b) as' × Distinct as'

-- The free list holds objects of known pages, each once, none of them in use, and the counter
-- counts it; no object beyond the pages is in use, nor is NULL.
pub record IsValid (h : Heap) : Type 0 where
  pub counted : h.free_object_count ≡ length h.free_list
  pub unused : All (λ a. (h.cells a ≡ none) × (0 < a) × (a < h.fresh)) h.free_list
  pub once : Distinct h.free_list
  pub beyond : (a : ℕ) → h.fresh ≤ a → h.cells a ≡ none
  pub null : h.cells 0 ≡ none
  pub pages : 0 < h.fresh

pub map_All : {P Q : ℕ → Type 0} (xs : List ℕ) → ((a : ℕ) → P a → Q a) → All P xs → All Q xs
map_All [] f h = tt
map_All (x ∷ xs) f (p, ps) = (f x p, map_All xs f ps)

page_nodes-All :
    (P : ℕ → Type 0) (n first : ℕ)
    → ((a : ℕ) → first ≤ a → a < first + n → P a)
    → All P (page_nodes n first)
unfolding page_nodes
page_nodes-All P zero first f = tt
page_nodes-All P (suc n) first f = (
  f first (omega arith) (omega arith),
  page_nodes-All P n (first + 1) (λ a l u. f a (omega arith) (omega arith)),
)

page_nodes-Distinct : (n first : ℕ) → Distinct (page_nodes n first)
unfolding page_nodes
page_nodes-Distinct zero first = tt
page_nodes-Distinct (suc n) first = (
  page_nodes-All (λ b. first ≢ b) n (first + 1) (λ a l u. omega arith),
  page_nodes-Distinct n (first + 1),
)

length-page_nodes : (n first : ℕ) → length (page_nodes n first) ≡ n
unfolding page_nodes
length-page_nodes zero first = refl
length-page_nodes (suc n) first = ap suc (length-page_nodes n (first + 1))

-- An empty free list gets the 511 objects of a new page.
alloc_page-IsValid :
    (h : Heap)
    → IsValid h
    → h.free_list ≡ []
    → (h' : Heap) × (alloc_page h ≡ some h')
      × IsValid h'
      × (h'.cells ≡ h.cells)
      × (h'.free_list ≡ page_nodes page_object_size h.fresh)
unfolding alloc_page
alloc_page-IsValid h v e =
    let c : h.free_object_count ≡ 0 = v.counted ∙ ap length e in
    let z : (h.free_object_count == 0) ≡ true = ground arith in
    let l : page_nodes page_object_size h.fresh ++ h.free_list
        ≡ page_nodes page_object_size h.fresh =
      ap (λ xs. page_nodes page_object_size h.fresh ++ xs) e ∙ append-nil _ in
    (
      record h {
        free_list = page_nodes page_object_size h.fresh ++ h.free_list;
        free_object_count = h.free_object_count + page_object_size;
        fresh = h.fresh + page_object_size + 1;
      },
      rw z refl,
      record {
        counted = rw l (omega (arith, length-page_nodes page_object_size h.fresh));
        unused = rw l (
            page_nodes-All _ page_object_size h.fresh
              (λ a p q. (v.beyond a p, omega (arith, v.pages), omega arith)));
        once = rw l (page_nodes-Distinct page_object_size h.fresh);
        beyond = λ a p. v.beyond a (omega arith);
        null = v.null;
        pages = omega arith;
      },
      refl,
      l,
    )

pop_free-IsValid :
    (h : Heap)
    → IsValid h
    → (o : ℕ) (rest : List ℕ) → h.free_list ≡ o ∷ rest
    → (h' : Heap) × (pop_free h h.free_list ≡ some (o, h'))
      × IsValid h'
      × (h'.cells ≡ h.cells)
      × (h.cells o ≡ none)
      × (0 < o)
      × (o < h'.fresh)
      × All (λ a. o ≢ a) h'.free_list
unfolding pop_free
pop_free-IsValid h v o rest e =
    let u : All (λ a. (h.cells a ≡ none) × (0 < a) × (a < h.fresh)) (o ∷ rest) = rw e at v.unused in
    let d : Distinct (o ∷ rest) = rw e at v.once in
    (
      record h { free_list = rest; free_object_count = h.free_object_count - 1 },
      rw e refl,
      record {
        counted = omega (arith, v.counted, ap length e);
        unused = u.1;
        once = d.1;
        beyond = v.beyond;
        null = v.null;
        pages = v.pages;
      },
      refl,
      u.0.0,
      u.0.1,
      u.0.2,
      d.0,
    )

page_nodes-suc : (n first : ℕ) → page_nodes (suc n) first ≡ first ∷ page_nodes n (first + 1)
unfolding page_nodes
page_nodes-suc n first = refl

update_ne {ℓ} : {A : Type ℓ} (f : ℕ → A) (a b : ℕ) (v : A) → a ≢ b → update f a v b ≡ f b
update_ne f a b v h = let e : (a == b) ≡ false = ground arith in rw e refl

-- A node put into an object that is not free.
put-IsValid :
    (h : Heap) (o : ℕ) (n : Node)
    → IsValid h
    → 0 < o
    → o < h.fresh
    → All (λ a. o ≢ a) h.free_list
    → IsValid (put h o n)
put-IsValid h o n v p f d = record {
  counted = v.counted;
  unused = unused h.free_list d v.unused;
  once = v.once;
  beyond = λ a q. update_ne h.cells o a (some n) (omega arith) ∙ v.beyond a q;
  null = update_ne h.cells o 0 (some n) (omega arith) ∙ v.null;
  pages = v.pages;
}
  where
    unused :
        (xs : List ℕ)
        → All (λ a. o ≢ a) xs
        → All (λ a. (h.cells a ≡ none) × (0 < a) × (a < h.fresh)) xs
        → All (λ a. (update h.cells o (some n) a ≡ none) × (0 < a) × (a < h.fresh)) xs
    unused [] d u = tt
    unused (x ∷ xs) (d, ds) ((c, q, r), us) =
        ((update_ne h.cells o x (some n) d ∙ c, q, r), unused xs ds us)

freed-IsValid : (h : Heap) (o : ℕ) {n : Node} → IsValid h → h.cells o ≡ some n → IsValid (freed h o)
freed-IsValid h o {n} v e = record {
  counted = omega (arith, v.counted);
  unused = ((self, positive, below), map_All h.free_list keep v.unused);
  once = (map_All h.free_list differs v.unused, v.once);
  beyond = λ a q. stays a (v.beyond a q);
  null = stays 0 v.null;
  pages = v.pages;
}
  where
    self : update h.cells o none o ≡ none
    self = let t : (o == o) ≡ true = ground arith in rw t refl

    positive : 0 < o
    positive = elim (Bool-cases (o == 0)) [
      | inl z ↦ let p : o ≡ 0 = ground arith in cc (v.null, ap h.cells p)
      | inr z ↦ ground arith
    ]

    below : o < h.fresh
    below = elim (dec_lt o h.fresh) [ yes p ↦ p | no p ↦ cc (v.beyond o (omega arith)) ]

    stays : (a : ℕ) → h.cells a ≡ none → update h.cells o none a ≡ none
    stays a q = elim (Bool-cases (o == a)) [ inl t ↦ rw t refl | inr t ↦ rw t q ]

    keep :
        (a : ℕ)
        → (h.cells a ≡ none) × (0 < a) × (a < h.fresh)
        → (update h.cells o none a ≡ none) × (0 < a) × (a < h.fresh)
    keep a (c, p, q) = (stays a c, p, q)

    differs : (a : ℕ) → (h.cells a ≡ none) × (0 < a) × (a < h.fresh) → o ≢ a
    differs a (c, p, q) = λ t. cc (ap h.cells t)

alloc_from_page :
    (h h₁ : Heap)
    → is_empty h.free_list ≡ true
    → alloc_page h ≡ some h₁
    → node_alloc h ≡ pop_free h₁ h₁.free_list
unfolding node_alloc
alloc_from_page h h₁ t e = rw (t, e) refl

node_alloc-IsValid :
    (h : Heap)
    → IsValid h
    → (o : ℕ) × (h' : Heap) × (node_alloc h ≡ some (o, h'))
      × IsValid h'
      × (h'.cells ≡ h.cells)
      × (h.cells o ≡ none)
      × (0 < o)
      × (o < h'.fresh)
      × All (λ a. o ≢ a) h'.free_list
unfolding node_alloc
node_alloc-IsValid h v = go h.free_list refl
  where
    go :
        (fs : List ℕ)
        → h.free_list ≡ fs
        → (o : ℕ) × (h' : Heap) × (node_alloc h ≡ some (o, h'))
          × IsValid h'
          × (h'.cells ≡ h.cells)
          × (h.cells o ≡ none)
          × (0 < o)
          × (o < h'.fresh)
          × All (λ a. o ≢ a) h'.free_list
    go [] e =
        let (h₁, e₁, v₁, c₁, l₁) = alloc_page-IsValid h v e in
        let (h₂, e₂, v₂, c₂, n₂, p₂, f₂, d₂) =
          pop_free-IsValid h₁ v₁ h.fresh (page_nodes 510 (h.fresh + 1))
            (l₁ ∙ page_nodes-suc 510 h.fresh) in
        let t : is_empty h.free_list ≡ true = ap is_empty e in
        (
          h.fresh,
          h₂,
          alloc_from_page h h₁ t e₁ ∙ e₂,
          v₂,
          c₂ ∙ c₁,
          ap (λ f. f h.fresh) (sym c₁) ∙ n₂,
          p₂,
          f₂,
          d₂,
        )
    go (o ∷ rest) e =
        let (h₂, e₂, v₂, c₂, n₂, p₂, f₂, d₂) = pop_free-IsValid h v o rest e in
        let t : is_empty h.free_list ≡ false = ap is_empty e in
        (o, h₂, rw t e₂, v₂, c₂, n₂, p₂, f₂, d₂)

-- `Node_new` always succeeds on a valid heap: it returns an object that was not in use, with a count
-- of 0 and the fields that it was given, leaves every other object alone, and keeps the heap valid.
pub Node_new-fresh :
    (h : Heap) (tag str len elm_size value : ℕ)
    → IsValid h
    → (o : ℕ) × (h' : Heap) × (Node_new h tag str len elm_size value ≡ some (o, h'))
      × IsValid h'
      × (0 < o)
      × (h.cells o ≡ none)
      × ((b : ℕ)
          → h'.cells b ≡ (
              if o == b
              then some (record {
                refc = 0;
                tag = tag;
                pos = str;
                value = value;
                len = len;
                entry = entry_new elm_size;
              })
              else h.cells b))
unfolding Node_new
Node_new-fresh h tag str len elm_size value v =
    let (o, h', e, v', c, n, p, f, d) = node_alloc-IsValid h v in
    let new : Node = record {
      refc = 0;
      tag = tag;
      pos = str;
      value = value;
      len = len;
      entry = entry_new elm_size;
    } in
    (
      o,
      put h' o new,
      rw e refl,
      put-IsValid h' o new v' p f d,
      p,
      n,
      λ b. ap (λ g. if o == b then some new else g b) c,
    )

-- `node_free` on an object in use with a count of 0 succeeds, takes exactly that object out of use,
-- and keeps the heap valid, so that the object can be handed out again once.
pub node_free-IsValid :
    (h : Heap) (o : ℕ) {n : Node}
    → IsValid h
    → h.cells o ≡ some n
    → n.refc ≡ 0
    → (h' : Heap) × (node_free h o ≡ some h')
      × IsValid h'
      × ((b : ℕ) → h'.cells b ≡ (if o == b then none else h.cells b))
unfolding node_free
node_free-IsValid h o {n} v e z =
    let t : (n.refc == 0) ≡ true = ground arith in
    (freed h o, rw (e, t) refl, freed-IsValid h o v e, λ b. refl)
