-- ===== src/Compiler/Linker.antt =====
-- src/compiler/linker.c: the labels of the code that is being written, and their resolution. An
-- `int` is its 32-bit pattern, an address of an instruction its offset in the code.
use moz.Base.{
  ℕ, ◌+◌, ◌-◌, ◌%◌, ◌^◌, Option, none, some, List, [], ◌∷◌, ◌++◌, ◌>>=◌, length, get_elem?,
}
use moz.Core.Buffer.{moz_buffer_writer_write32, stored}
use moz.Loader.Bytes.{read_at, write_at}

-- mozlinker_t: where each instruction starts and ends, and the labels with their targets.
pub record Linker : Type 0 where
  pub address_head : List ℕ
  pub address_tail : List ℕ
  pub labels : List ℕ
  pub targets : List ℕ

unfoldable pub mozlinker_init : List ℕ → List ℕ → Linker
mozlinker_init address_head address_tail = record {
  address_head = address_head;
  address_tail = address_tail;
  labels = [];
  targets = [];
}

-- The target is given by the id of its first instruction. The place of the label holds the id of
-- the instruction that it belongs to.
unfoldable pub mozlinker_add_label : Linker → List ℕ → ℕ → ℕ → Linker × List ℕ
mozlinker_add_label linker w target callee_id = (
  record linker {
    labels = linker.labels ++ length w ∷ [];
    targets = linker.targets ++ target ∷ [];
  },
  moz_buffer_writer_write32 w callee_id,
)

-- callee_addr_head - caller_addr_tail, in 32 bits
abbrev pub distance : ℕ → ℕ → ℕ
distance head tail = (head + (2 ^ 32 - tail % 2 ^ 32)) % 2 ^ 32

unfoldable pub resolve_label : Linker → ℕ → ℕ → List ℕ → Option (List ℕ)
resolve_label linker label target code = do
  caller ← read_at 4 label code
  head ← get_elem? linker.address_head target
  tail ← get_elem? linker.address_tail caller
  write_at (stored 4 (distance head tail)) label code

-- The loop over the labels and their targets, which are equally many.
unfoldable pub resolve_labels : Linker → List ℕ → List ℕ → List ℕ → Option (List ℕ)
resolve_labels linker [] [] code = some code
resolve_labels linker (label ∷ labels) (target ∷ targets) code = do
  code ← resolve_label linker label target code
  resolve_labels linker labels targets code
resolve_labels linker [] (target ∷ targets) code = none
resolve_labels linker (label ∷ labels) [] code = none

unfoldable pub mozlinker_resolve : Linker → List ℕ → Option (List ℕ)
mozlinker_resolve linker code = resolve_labels linker linker.labels linker.targets code
