-- ===== src/Compiler/Resolve.antt =====
-- src/compiler/linker.c: code that is written with labels and then resolved.
use moz.Base.{
  ℕ, zero, suc, ◌+◌, ◌^◌, ◌<◌, Option, none, some, List, [], ◌∷◌, ◌++◌, ◌≡◌, refl, sym, ap, ◌∙◌,
  ◌>>=◌, length, get_elem?, set, ltb, Bool-cases, Option-cases, inl, inr, true, arith,
}
use moz.Base.Lists.{length-append}
use mathlib.Core.List.{append_assoc, append-nil}
use moz.Core.Buffer.{moz_buffer_writer_write32, stored}
use moz.Loader.Bytes.{read_at, set_byte, write_at}
use moz.Compiler.Linker.{
  Linker, distance, mozlinker_add_label, mozlinker_init, mozlinker_resolve, resolve_label,
  resolve_labels,
}

-- A piece of code: bytes, or an address with the ids of its target and of its own instruction.
pub data Piece : Type 0 where
  code : List ℕ → Piece
  label : (target caller : ℕ) → Piece

-- The writer and the linker after the pieces.
unfoldable pub write_pieces : List Piece → Linker × List ℕ → Linker × List ℕ
write_pieces [] (linker, w) = (linker, w)
write_pieces (Piece.code bytes ∷ pieces) (linker, w) = write_pieces pieces (linker, w ++ bytes)
write_pieces (Piece.label target caller ∷ pieces) (linker, w) =
    write_pieces pieces (mozlinker_add_label linker w target caller)

-- The code with each address in the place of its label.
unfoldable pub linked : List ℕ → List ℕ → List Piece → Option (List ℕ)
linked heads tails [] = some []
linked heads tails (Piece.code bytes ∷ pieces) = do
  rest ← linked heads tails pieces
  some (bytes ++ rest)
linked heads tails (Piece.label target caller ∷ pieces) = do
  head ← get_elem? heads target
  tail ← get_elem? tails caller
  rest ← linked heads tails pieces
  some (stored 4 (distance head tail) ++ rest)

abbrev pub AllFit : List Piece → Type 0
AllFit [] = Unit
AllFit (Piece.code bytes ∷ pieces) = AllFit pieces
AllFit (Piece.label target caller ∷ pieces) = (caller < 2 ^ 32) × AllFit pieces

-- Reads and writes behind a first byte.
read_at-cons : (n i x : ℕ) (xs : List ℕ) → read_at n (suc i) (x ∷ xs) ≡ read_at n i xs
unfolding read_at
read_at-cons zero i x xs = refl
read_at-cons (suc n) i x xs =
    let q : suc i + 1 ≡ suc (i + 1) = omega arith in rw (q, read_at-cons n (i + 1) x xs) refl

read_at-behind : (n : ℕ) (xs ys : List ℕ) → read_at n (length xs) (xs ++ ys) ≡ read_at n 0 ys
read_at-behind n [] ys = refl
read_at-behind n (x ∷ xs) ys = read_at-cons n (length xs) x (xs ++ ys) ∙ read_at-behind n xs ys

read_at-stored : (c : ℕ) (rest : List ℕ) → c < 2 ^ 32 → read_at 4 0 (stored 4 c ++ rest) ≡ some c
unfolding read_at stored
read_at-stored c rest h = ap some (omega arith)

write_at-cons :
    (bytes : List ℕ) (i x : ℕ) (xs : List ℕ)
    → write_at bytes (suc i) (x ∷ xs) ≡ (write_at bytes i xs >>= λ ys. some (x ∷ ys))
unfolding write_at set_byte
write_at-cons [] i x xs = refl
write_at-cons (b ∷ bytes) i x xs =
    let q : suc i + 1 ≡ suc (i + 1) = omega arith in
    let same : ltb (suc i) (suc (length xs)) ≡ ltb i (length xs) = ground arith in
    elim (Bool-cases (ltb i (length xs))) [
      | inl e ↦ rw (same, e, q) (write_at-cons bytes (i + 1) x (set xs i b))
      | inr e ↦ rw (same, e) refl
    ]

write_at-behind :
    (bytes xs ys zs : List ℕ)
    → write_at bytes 0 ys ≡ some zs
    → write_at bytes (length xs) (xs ++ ys) ≡ some (xs ++ zs)
write_at-behind bytes [] ys zs e = e
write_at-behind bytes (x ∷ xs) ys zs e =
    rw (write_at-cons bytes (length xs) x (xs ++ ys), write_at-behind bytes xs ys zs e) refl

write_at-stored :
    (a b c d v : ℕ) (rest : List ℕ)
    → write_at (stored 4 v) 0 (a ∷ b ∷ c ∷ d ∷ rest) ≡ some (stored 4 v ++ rest)
unfolding write_at stored set_byte
write_at-stored a b c d v rest =
    let four : ℕ = suc (suc (suc (suc (length rest)))) in
    let t0 : ltb 0 four ≡ true = ground arith in
    let t1 : ltb 1 four ≡ true = ground arith in
    let t2 : ltb 2 four ≡ true = ground arith in
    let t3 : ltb 3 four ≡ true = ground arith in rw (t0, t1, t2, t3) refl

-- An address in the place of a label.
relabel :
    (w rest : List ℕ) (caller v : ℕ)
    → write_at (stored 4 v) (length w) (w ++ (stored 4 caller ++ rest))
      ≡ some (w ++ (stored 4 v ++ rest))
unfolding stored
relabel w rest caller v =
    write_at-behind (stored 4 v) w (stored 4 caller ++ rest) (stored 4 v ++ rest)
      (write_at-stored _ _ _ _ v rest)

-- The labels of pieces that follow `n` bytes, and their targets.
labels_of : ℕ → List Piece → List ℕ
labels_of n [] = []
labels_of n (Piece.code bytes ∷ pieces) = labels_of (n + length bytes) pieces
labels_of n (Piece.label target caller ∷ pieces) = n ∷ labels_of (n + 4) pieces

targets_of : List Piece → List ℕ
targets_of [] = []
targets_of (Piece.code bytes ∷ pieces) = targets_of pieces
targets_of (Piece.label target caller ∷ pieces) = target ∷ targets_of pieces

unlinked : List Piece → List ℕ
unlinked [] = []
unlinked (Piece.code bytes ∷ pieces) = bytes ++ unlinked pieces
unlinked (Piece.label target caller ∷ pieces) = stored 4 caller ++ unlinked pieces

written : List ℕ → List Piece → Linker → Linker × List ℕ
written w pieces linker = (
  record linker {
    labels = linker.labels ++ labels_of (length w) pieces;
    targets = linker.targets ++ targets_of pieces;
  },
  w ++ unlinked pieces,
)

write_pieces-eq :
    (pieces : List Piece) (linker : Linker) (w : List ℕ)
    → write_pieces pieces (linker, w) ≡ written w pieces linker
unfolding write_pieces written labels_of targets_of unlinked mozlinker_add_label
    moz_buffer_writer_write32 stored
write_pieces-eq [] linker w =
    rw (append-nil linker.labels, append-nil linker.targets, append-nil w) refl
write_pieces-eq (Piece.code bytes ∷ pieces) linker w =
    write_pieces-eq pieces linker (w ++ bytes)
    ∙ rw (length-append w bytes, append_assoc w bytes (unlinked pieces)) refl
write_pieces-eq (Piece.label target caller ∷ pieces) linker w =
    write_pieces-eq pieces _ (w ++ stored 4 caller)
    ∙ rw
        (
          length-append w (stored 4 caller),
          append_assoc w (stored 4 caller) (unlinked pieces),
          append_assoc linker.labels (length w ∷ []) (labels_of (length w + 4) pieces),
          append_assoc linker.targets (target ∷ []) (targets_of pieces),
        )
        refl

rejoin :
    (w bytes : List ℕ) (o : Option (List ℕ))
    → (o >>= λ rest. some (w ++ bytes ++ rest))
      ≡ ((o >>= λ rest. some (bytes ++ rest)) >>= λ rest. some (w ++ rest))
rejoin w bytes none = refl
rejoin w bytes (some rest) = ap some (append_assoc w bytes rest)

stored-length : (w : List ℕ) (v : ℕ) → length w + 4 ≡ length (w ++ stored 4 v)
unfolding stored
stored-length w v = sym (length-append w (stored 4 v))

-- Resolving the labels of pieces behind finished code.
resolve_labels-eq :
    (linker : Linker) (pieces : List Piece) (w : List ℕ)
    → AllFit pieces
    → resolve_labels linker (labels_of (length w) pieces) (targets_of pieces) (w ++ unlinked pieces)
      ≡ (linked linker.address_head linker.address_tail pieces >>= λ rest. some (w ++ rest))
unfolding resolve_labels resolve_label linked labels_of targets_of unlinked
resolve_labels-eq linker [] w fit = refl
resolve_labels-eq linker (Piece.code bytes ∷ pieces) w fit =
    let more = resolve_labels-eq linker pieces (w ++ bytes) fit in
    rw (← length-append w bytes, ← append_assoc w bytes (unlinked pieces))
      (more ∙ rejoin w bytes (linked linker.address_head linker.address_tail pieces))
resolve_labels-eq linker (Piece.label target caller ∷ pieces) w (small, fit) =
    let rest : List ℕ = unlinked pieces in
    let r : read_at 4 (length w) (w ++ (stored 4 caller ++ rest)) ≡ some caller =
      read_at-behind 4 w (stored 4 caller ++ rest) ∙ read_at-stored caller rest small in
    elim (Option-cases (get_elem? linker.address_head target)) [
      | inl e ↦ rw (r, e) refl
      | inr (head, e) ↦ elim (Option-cases (get_elem? linker.address_tail caller)) [
        | inl f ↦ rw (r, e, f) refl
        | inr (tail, f) ↦
            let v : ℕ = distance head tail in
            let len : length w + 4 ≡ length (w ++ stored 4 v) = stored-length w v in
            rw (r, e, f, relabel w rest caller v, len, ← append_assoc w (stored 4 v) rest)
              (resolve_labels-eq linker pieces (w ++ stored 4 v) fit
                ∙ rejoin w (stored 4 v) (linked linker.address_head linker.address_tail pieces))
      ]
    ]

same : (o : Option (List ℕ)) → (o >>= λ rest. some ([] ++ rest)) ≡ o
same none = refl
same (some rest) = refl

-- Resolving links the code: after code and labels have been written in any order, with the ids of
-- instructions below 2^32, mozlinker_resolve gives the same code with the distance, in 32 bits, from
-- the end of its own instruction to the start of its target in the place of each label, and fails
-- exactly when a label's target or own instruction has no address.
pub mozlinker_resolve-linked :
    (heads tails : List ℕ) (pieces : List Piece)
    → AllFit pieces
    → mozlinker_resolve
        (write_pieces pieces (mozlinker_init heads tails, [])).0
        (write_pieces pieces (mozlinker_init heads tails, [])).1
      ≡ linked heads tails pieces
unfolding mozlinker_resolve mozlinker_init written
mozlinker_resolve-linked heads tails pieces fit =
    rw (write_pieces-eq pieces (mozlinker_init heads tails) []) (
      resolve_labels-eq
        (record {
          address_head = heads;
          address_tail = tails;
          labels = labels_of 0 pieces;
          targets = targets_of pieces;
        })
        pieces [] fit
      ∙ same (linked heads tails pieces))
