-- ===== src/Loader.antt =====
-- src/loader.c, src/loader.h and the constants of src/mozvm.h: the loader of byte code. The input
-- is the array that mozvm_loader_load_syntax copies; its integers are big-endian, the integers of
-- the loaded code are those of a little-endian target.
pub mod Opcode
pub mod Layout
pub mod Bytes
pub mod First
pub mod Inst
pub mod Load
pub mod Syntax
pub mod Emits
pub mod Size
pub mod Whole
pub mod Pass
pub mod Rounds
pub mod Targets
pub mod Dispatch
pub mod Landing
pub mod Relocate
pub mod Rewrites
pub mod Second
pub mod Loop
pub mod Links
pub mod Linked
pub mod Replaced
pub mod Tables
pub mod BigEndian
pub mod Sets
pub mod Header
use Prim.Native.Nat.{bit_or}
use moz.Base.{ℕ, ◌+◌, ◌*◌, ◌%◌, ◌^◌, Option, none, some, List, [], ◌++◌, ◌>>=◌, get_elem?}
use moz.Core.Bitset.{Bitset}
use moz.Core.Jmptbl.{JumpTable1, JumpTable2, JumpTable3}
use moz.Core.Buffer.{stored}

pub record InputStream : Type 0 where
  pub pos : ℕ
  pub end_pos : ℕ
  pub bytes : List ℕ

unfoldable pub skip : InputStream → ℕ → InputStream
skip is shift = record is { pos = is.pos + shift }

-- `*peek(is)`; `none` is a read beyond the array.
unfoldable pub peek8 : InputStream → Option ℕ
peek8 is = get_elem? is.bytes is.pos

unfoldable pub read8 : InputStream → Option (ℕ × InputStream)
read8 is = do byte ← get_elem? is.bytes is.pos; some (byte, skip is 1)

unfoldable pub read16 : InputStream → Option (ℕ × InputStream)
read16 is = do (d1, is) ← read8 is; (d2, is) ← read8 is; some (bit_or (d1 * 2 ^ 8) d2 % 2 ^ 16, is)

unfoldable pub read24 : InputStream → Option (ℕ × InputStream)
read24 is = do
  (d1, is) ← read8 is
  (d2, is) ← read8 is
  (d3, is) ← read8 is
  some (bit_or (bit_or (d1 * 2 ^ 16) (d2 * 2 ^ 8)) d3 % 2 ^ 32, is)

unfoldable pub read32 : InputStream → Option (ℕ × InputStream)
read32 is = do
  (d1, is) ← read16 is
  (d2, is) ← read16 is
  some (bit_or (d1 * 2 ^ 16 % 2 ^ 32) d2, is)

-- moz_production_t: a name, and the code of a production as indices of the buffer, which
-- mozvm_loader_freeze turns into addresses. `none` is a field that nothing has set.
pub record Production : Type 0 where
  pub begin_at : Option ℕ
  pub end_at : Option ℕ
  pub name : List ℕ

-- mozvm_constant_t; a list stands for an array together with its size.
pub record Constants : Type 0 where
  pub sets : List Bitset
  pub tags : List (List ℕ)
  pub strs : List (List ℕ)
  pub tables : List (List ℕ)
  pub jumps : List ℕ
  pub jumps1 : List JumpTable1
  pub jumps2 : List JumpTable2
  pub jumps3 : List JumpTable3
  pub prods : List Production
  pub inst_size : ℕ
  pub memo_size : ℕ

-- mozvm_loader_t: `room` is the number of entries that `table` is allocated with, `table` the
-- entries that are written.
pub record Loader : Type 0 where
  pub inst_size : ℕ
  pub jmptbl_id : ℕ
  pub jmptbl1_id : ℕ
  pub jmptbl2_id : ℕ
  pub jmptbl3_id : ℕ
  pub consts : Constants
  pub room : ℕ
  pub table : List ℕ
  pub buf : List ℕ

-- The counter of instructions is what it was before.
unfoldable pub mozvm_loader_init : ℕ → Constants → ℕ → Loader
mozvm_loader_init counted consts inst_size = record {
  inst_size = counted;
  jmptbl_id = 0;
  jmptbl1_id = 0;
  jmptbl2_id = 0;
  jmptbl3_id = 0;
  consts = consts;
  room = inst_size;
  table = [];
  buf = [];
}

unfoldable pub mozvm_loader_write8 : ℕ → Loader → Loader
mozvm_loader_write8 v l = record l { buf = l.buf ++ stored 1 v }

unfoldable pub mozvm_loader_write16 : ℕ → Loader → Loader
mozvm_loader_write16 v l = record l { buf = l.buf ++ stored 2 v }

unfoldable pub mozvm_loader_write32 : ℕ → Loader → Loader
mozvm_loader_write32 v l = record l { buf = l.buf ++ stored 4 v }

-- One byte without direct threading, four for an `int`, two for an index of a constant.
unfoldable pub mozvm_loader_write_opcode : ℕ → Loader → Loader
mozvm_loader_write_opcode op l = mozvm_loader_write8 op l

unfoldable pub mozvm_loader_write_addr : ℕ → Loader → Loader
mozvm_loader_write_addr addr l = mozvm_loader_write32 addr l

unfoldable pub mozvm_loader_write_id : ℕ → Loader → Loader
mozvm_loader_write_id id l = mozvm_loader_write16 id l
