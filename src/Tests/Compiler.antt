-- ===== src/Tests/Compiler.antt =====
-- src/compiler: labels and edges at concrete inputs.
use moz.Base.{ℕ, true, false, ◌&&◌, some, List, [], ◌∷◌, ◌≡◌, refl, ◌==◌, if◌then◌else◌, arith}
use moz.Core.Buffer.{stored}
use moz.Compiler.Linker.{mozlinker_init, mozlinker_resolve}
use moz.Compiler.Resolve.{Piece, linked, mozlinker_resolve-linked, write_pieces}
use moz.Compiler.Block.{Graph, add_once, block_link, block_unlink, contains}
use moz.Compiler.Edges.{IsLinked, block_link-IsLinked, block_unlink-IsLinked, has_succ, is_distinct}

-- A jump of the instruction 0 to the instruction 2, an instruction of one byte, and one.
abbrev pieces : List Piece
pieces = Piece.code (1 ∷ []) ∷ Piece.label 2 0 ∷ Piece.code (9 ∷ 9 ∷ []) ∷ []

abbrev heads : List ℕ
heads = 0 ∷ 5 ∷ 6 ∷ []

abbrev tails : List ℕ
tails = 5 ∷ 6 ∷ 7 ∷ []

linked_run : linked heads tails pieces ≡ some (1 ∷ 1 ∷ 0 ∷ 0 ∷ 0 ∷ 9 ∷ 9 ∷ [])
unfolding linked stored
linked_run = refl

mozlinker_resolve-linked_example :
    mozlinker_resolve
      (write_pieces pieces (mozlinker_init heads tails, [])).0
      (write_pieces pieces (mozlinker_init heads tails, [])).1
    ≡ linked heads tails pieces
mozlinker_resolve-linked_example = mozlinker_resolve-linked heads tails pieces (omega arith, tt)

abbrev empty : Graph
empty = λ a. record { id = a; type = 1; insts = []; preds = []; succs = [] }

empty-IsLinked : IsLinked empty
unfolding contains is_distinct
empty-IsLinked = record { mirror = λ a b. refl; succs_once = λ a. refl; preds_once = λ b. refl }

block_link-IsLinked_example :
    IsLinked (block_link 1 2 empty)
    × ((a b : ℕ)
        → has_succ (block_link 1 2 empty) a b
          ≡ (if a == 1 && b == 2 then true else has_succ empty a b))
block_link-IsLinked_example = block_link-IsLinked 1 2 empty empty-IsLinked

-- A loop of one block.
abbrev looping : Graph
looping = block_link 1 1 empty

looping-IsLinked : IsLinked looping
looping-IsLinked = (block_link-IsLinked 1 1 empty empty-IsLinked).0

block_unlink-IsLinked_example :
    (g' : Graph) × (block_unlink 1 1 looping ≡ some g')
    × IsLinked g'
    × ((a b : ℕ) → has_succ g' a b ≡ (if a == 1 && b == 1 then false else has_succ looping a b))
unfolding block_link add_once contains
block_unlink-IsLinked_example = block_unlink-IsLinked 1 1 looping looping-IsLinked refl
