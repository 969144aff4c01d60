-- ===== src/Loader/Emits.antt =====
-- src/loader.c: what the reads and the writes of an instruction do to the stream and the buffer.
use moz.Base.{
  ℕ, ◌+◌, ltb, Option, none, some, List, [], ◌++◌, ◌≡◌, refl, sym, ap, ◌∙◌, ◌>>=◌, Bool-cases, inl,
  inr, length, get_elem?, arith,
}
use mathlib.Core.List.{append_assoc, append-nil}
use moz.Core.Buffer.{stored}
use moz.Loader.{
  InputStream, Loader, mozvm_loader_write16, mozvm_loader_write32, mozvm_loader_write8,
  mozvm_loader_write_addr, mozvm_loader_write_id, mozvm_loader_write_opcode, read16, read24, read32,
  read8, skip,
}
use moz.Loader.Inst.{checked}

-- A property of the result, if there is one.
pub data Each {ℓ} {A : Type ℓ} (P : A → Type 0) : Option A → Type ℓ where
  each_none : Each P none
  each_some : {a : A} → P a → Each P (some a)

pub Each-bind {ℓ κ} :
    {A : Type ℓ} {B : Type κ} {Q : A → Type 0} {P : B → Type 0} (o : Option A) (k : A → Option B)
    → Each Q o
    → ((a : A) → Q a → Each P (k a))
    → Each P (o >>= k)
Each-bind none k q h = Each.each_none
Each-bind (some a) k (Each.each_some q) h = h a q

pub Each-map {ℓ} :
    {A : Type ℓ} {P Q : A → Type 0} {o : Option A} → Each P o → ((a : A) → P a → Q a) → Each Q o
Each-map Each.each_none h = Each.each_none
Each-map (Each.each_some {a} p) h = Each.each_some (h a p)

pub Each-at {ℓ} : {A : Type ℓ} {P : A → Type 0} {o : Option A} {a : A} → Each P o → o ≡ some a → P a
Each-at Each.each_none e = absurd cc
Each-at {P = P} {a = a} (Each.each_some {a = b} p) e = let q : b ≡ a = cc in rw (← q) p

pub Each-both {ℓ} :
    {A : Type ℓ} {P Q : A → Type 0} {o : Option A} → Each P o → Each Q o → Each (λ a. P a × Q a) o
Each-both Each.each_none q = Each.each_none
Each-both (Each.each_some p) (Each.each_some q) = Each.each_some (p, q)

Each-any {ℓ} : {A : Type ℓ} (o : Option A) → Each (λ _. Unit) o
Each-any none = Each.each_none
Each-any (some a) = Each.each_some tt

-- A computation of which nothing is known.
pub then_any {ℓ κ} :
    {A : Type ℓ} {B : Type κ} {P : B → Type 0} (o : Option A) (k : A → Option B)
    → ((a : A) → Each P (k a))
    → Each P (o >>= k)
then_any o k h = Each-bind o k (Each-any o) (λ a _. h a)

-- A stream that has read `n` bytes more.
pub record Follows (n : ℕ) (from to : InputStream) : Type 0 where
  pub place : to.pos ≡ from.pos + n
  pub same_end : to.end_pos ≡ from.end_pos
  pub same_bytes : to.bytes ≡ from.bytes

abbrev pub Reads : ℕ → InputStream → ℕ × InputStream → Type 0
Reads n from to = Follows n from to.1

pub Follows-trans :
    {m n : ℕ} {a b c : InputStream} → Follows m a b → Follows n b c → Follows (m + n) a c
Follows-trans f g = record {
  place = omega (arith, f.place, g.place);
  same_end = g.same_end ∙ f.same_end;
  same_bytes = g.same_bytes ∙ f.same_bytes;
}

pub read8-Reads : (is : InputStream) → Each (Reads 1 is) (read8 is)
unfolding read8 skip
read8-Reads is =
    then_any (get_elem? is.bytes is.pos) _
      (λ byte. Each.each_some (record { place = refl; same_end = refl; same_bytes = refl }))

pub read16-Reads : (is : InputStream) → Each (Reads 2 is) (read16 is)
unfolding read16
read16-Reads is = Each-bind (read8 is) _ (read8-Reads is) λ (_, is1) f.
    Each-bind (read8 is1) _ (read8-Reads is1) λ (_, is2) g. Each.each_some (Follows-trans f g)

pub read24-Reads : (is : InputStream) → Each (Reads 3 is) (read24 is)
unfolding read24
read24-Reads is = Each-bind (read8 is) _ (read8-Reads is) λ (_, is1) f.
    Each-bind (read8 is1) _ (read8-Reads is1) λ (_, is2) g.
      Each-bind (read8 is2) _ (read8-Reads is2)
        λ (_, is3) h. Each.each_some (Follows-trans (Follows-trans f g) h)

pub read32-Reads : (is : InputStream) → Each (Reads 4 is) (read32 is)
unfolding read32
read32-Reads is = Each-bind (read16 is) _ (read16-Reads is) λ (_, is1) f.
    Each-bind (read16 is1) _ (read16-Reads is1) λ (_, is2) g. Each.each_some (Follows-trans f g)

-- A loader that has `code` behind the buffer and has kept the table of instructions.
pub record Appends (code : List ℕ) (from to : Loader) : Type 0 where
  pub buf : to.buf ≡ from.buf ++ code
  pub table : to.table ≡ from.table
  pub room : to.room ≡ from.room

pub Appends-refl : (l : Loader) → Appends [] l l
Appends-refl l = record { buf = sym (append-nil l.buf); table = refl; room = refl }

pub Appends-trans :
    {xs ys : List ℕ} {a b c : Loader} → Appends xs a b → Appends ys b c → Appends (xs ++ ys) a c
Appends-trans {xs} {ys} {a} {b} {c} p q = record {
  buf = q.buf ∙ ap (λ t. t ++ ys) p.buf ∙ append_assoc a.buf xs ys;
  table = q.table ∙ p.table;
  room = q.room ∙ p.room;
}

pub write8-Appends : (v : ℕ) (l : Loader) → Appends (stored 1 v) l (mozvm_loader_write8 v l)
unfolding mozvm_loader_write8
write8-Appends v l = record { buf = refl; table = refl; room = refl }

pub write16-Appends : (v : ℕ) (l : Loader) → Appends (stored 2 v) l (mozvm_loader_write16 v l)
unfolding mozvm_loader_write16
write16-Appends v l = record { buf = refl; table = refl; room = refl }

pub write_addr-Appends : (v : ℕ) (l : Loader) → Appends (stored 4 v) l (mozvm_loader_write_addr v l)
unfolding mozvm_loader_write_addr mozvm_loader_write32
write_addr-Appends v l = record { buf = refl; table = refl; room = refl }

pub write_id-Appends : (v : ℕ) (l : Loader) → Appends (stored 2 v) l (mozvm_loader_write_id v l)
unfolding mozvm_loader_write_id
write_id-Appends v l = write16-Appends v l

pub write_opcode-Appends :
    (v : ℕ) (l : Loader) → Appends (stored 1 v) l (mozvm_loader_write_opcode v l)
unfolding mozvm_loader_write_opcode
write_opcode-Appends v l = write8-Appends v l

-- `n` bytes more in the buffer, and a stream that has not gone back.
pub record Emits (n : ℕ) (l : Loader) (is : InputStream) (to : Loader × InputStream) : Type 0 where
  pub code : List ℕ
  pub size : length code ≡ n
  pub appended : Appends code l to.0
  pub read : ℕ
  pub follows : Follows read is to.1

pub emits :
    {xs : List ℕ} {l l' : Loader}
    → Appends xs l l'
    → (is : InputStream) → Emits (length xs) l is (l', is)
emits {xs} p is = record {
  code = xs;
  size = refl;
  appended = p;
  read = 0;
  follows = record { place = omega arith; same_end = refl; same_bytes = refl };
}

reading :
    {m n : ℕ} {l : Loader} {is is' : InputStream} {to : Loader × InputStream}
    → Follows m is is'
    → Emits n l is' to
    → Emits n l is to
reading {m} f e = record {
  code = e.code;
  size = e.size;
  appended = e.appended;
  read = m + e.read;
  follows = Follows-trans f e.follows;
}

Each-reading :
    {m n : ℕ} {l : Loader} {is is' : InputStream}
    → Follows m is is'
    → (o : Option (Loader × InputStream)) → Each (Emits n l is') o
    → Each (Emits n l is) o
Each-reading f none e = Each.each_none
Each-reading f (some to) (Each.each_some e) = Each.each_some (reading f e)

-- A handler that starts with a read.
pub then_read :
    {m n : ℕ} {l : Loader} {is : InputStream} {read : Option (ℕ × InputStream)}
    → Each (Reads m is) read
    → (k : ℕ × InputStream → Option (Loader × InputStream))
    → ((v : ℕ) (is' : InputStream) → Each (Emits n l is') (k (v, is')))
    → Each (Emits n l is) (read >>= k)
then_read {read = read} r k h =
    Each-bind read k r λ (v, is') f. Each-reading f (k (v, is')) (h v is')

pub then_checked {ℓ κ} :
    {A : Type ℓ} {B : Type κ} {P : B → Type 0} (id : ℕ) (entries : List A) (l : Loader)
    (k : Loader → Option B)
    → Each P (k l)
    → Each P (checked id entries l >>= k)
then_checked id entries l k h = elim (Bool-cases (ltb id (length entries))) [
  | inl e ↦ rw e h
  | inr e ↦ rw e Each.each_none
]
