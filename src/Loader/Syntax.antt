-- ===== src/Loader/Syntax.antt =====
-- src/loader.c: mozvm_loader_load_syntax2, the header and the constants of a byte code file, and
-- mozvm_loader_freeze.
use Prim.Native.Nat.{bit_and}
use moz.Base.{
  ℕ, zero, suc, ◌+◌, ◌*◌, ◌^◌, Bool, true, false, Option, none, some, List, [], ◌∷◌, ◌>>=◌, ◌==◌,
  leb, if◌then◌else◌, length, take, drop, map,
}
use moz.Core.Bitset.{Bitset, bitset_init, bitset_set}
use moz.Loader.{
  Constants, InputStream, Loader, Production, mozvm_loader_init, read16, read32, read8, skip,
}
use moz.Libnez.Memo.{memo_init, memo_window}
use moz.Loader.Load.{mozvm_loader_load}

-- read8(is) == c && rest
abbrev pub expect :
    ℕ → (InputStream → Option (Bool × InputStream)) → InputStream → Option (Bool × InputStream)
expect c rest is = do (byte, is) ← read8 is; if byte == c then rest is else some (false, is)

-- 'N', 'E', 'Z'
unfoldable pub check_file_type : InputStream → Option (Bool × InputStream)
check_file_type = expect 78 (expect 69 (expect 90 (λ is. some (true, is))))

-- MOZ_SUPPORTED_NEZ_VERSION is 0.
unfoldable pub check_version : InputStream → Option (Bool × InputStream)
check_version is = do (version, is) ← read8 is; some (leb 0 version, is)

-- pstring_alloc(peek(is), len)
unfoldable pub pstring_alloc : InputStream → ℕ → Option (List ℕ)
pstring_alloc is len =
    if leb (is.pos + len) (length is.bytes) then some (take len (drop is.pos is.bytes)) else none

-- A length, as many bytes, and one that is skipped.
unfoldable pub load_string : InputStream → Option (List ℕ × InputStream)
load_string is = do (len, is) ← read16 is; str ← pstring_alloc is len; some (str, skip is (len + 1))

-- The loops over the strings of one kind, on the rounds that are left.
pub load_strings : ℕ → InputStream → Option (List (List ℕ) × InputStream)
load_strings zero is = some ([], is)
load_strings (suc left) is = do
  (str, is) ← load_string is
  (strs, is) ← load_strings left is
  some (str ∷ strs, is)

-- for (k = 0; k < INT_BIT; k++): the bits of a word from `k` on, for the entry `j` of the input.
unfoldable pub load_bits : ℕ → ℕ → ℕ → ℕ → Bitset → Option Bitset
load_bits zero k v j s = some s
load_bits (suc left) k v j s = do
  s ← if bit_and v (2 ^ k) == 2 ^ k then bitset_set s (k + 32 * j) else some s
  load_bits left (k + 1) v j s

-- for (j = 0; j < 256/INT_BIT; j++)
unfoldable pub load_words : ℕ → ℕ → Bitset → InputStream → Option (Bitset × InputStream)
load_words zero j s is = some (s, is)
load_words (suc left) j s is = do
  (v, is) ← read32 is
  s ← load_bits 32 0 v j s
  load_words left (j + 1) s is

pub load_sets : ℕ → InputStream → Option (List Bitset × InputStream)
load_sets zero is = some ([], is)
load_sets (suc left) is = do
  (s, is) ← load_words 8 0 bitset_init is
  (sets, is) ← load_sets left is
  some (s ∷ sets, is)

abbrev pub unset_production : List ℕ → Production
unset_production name = record { begin_at = none; end_at = none; name = name }

-- The names of productions, the sets, the strings, the tags and the tables, each behind its number,
-- but for the productions' number, which is in the header.
unfoldable pub load_constants : ℕ → ℕ → ℕ → InputStream → Option (Constants × InputStream)
load_constants inst_size memo_size prod_size is = do
  (names, is) ← load_strings prod_size is
  (set_size, is) ← read16 is
  (sets, is) ← load_sets set_size is
  (str_size, is) ← read16 is
  (strs, is) ← load_strings str_size is
  (tag_size, is) ← read16 is
  (tags, is) ← load_strings tag_size is
  (table_size, is) ← read16 is
  (tables, is) ← load_strings table_size is
  let consts : Constants = record {
    sets = sets;
    tags = tags;
    strs = strs;
    tables = tables;
    jumps = [];
    jumps1 = [];
    jumps2 = [];
    jumps3 = [];
    prods = map unset_production names;
    inst_size = inst_size;
    memo_size = memo_size;
  }
  some (consts, is)

-- e->begin = inst + begin, e->end = inst + end
abbrev pub frozen : ℕ → Production → Production
frozen inst p = record p {
  begin_at = p.begin_at >>= λ b. some (inst + b);
  end_at = p.end_at >>= λ e. some (inst + e);
}

-- The code starts at the address `inst`; the table of instructions is freed.
unfoldable pub mozvm_loader_freeze : ℕ → Loader → Loader
mozvm_loader_freeze inst l = record l {
  consts = record l.consts { prods = map (frozen inst) l.consts.prods };
  room = 0;
  table = [];
}

-- exit(EXIT_FAILURE) with a message, or the loaded code.
pub data LoadResult : Type 0 where
  not_bytecode : LoadResult
  version_mismatch : LoadResult
  loaded : Loader → LoadResult

module _ (size : ℕ → ℕ) where
  -- Behind the checks; `counted` is the counter of instructions before.
  unfoldable pub load_body : ℕ → ℕ → ℕ → ℕ → Bool → InputStream → Option LoadResult
  load_body rounds1 rounds2 inst counted opt is = do
    (inst_size, is) ← read16 is
    (memo_size, is) ← read16 is
    (jmptbl_size, is) ← read16 is
    (prod_size, is) ← read16 is
    -- L->R = moz_runtime_init(memo_size), of which only the memo table can fail
    _ ← memo_init memo_window memo_size
    (consts, is) ← load_constants inst_size memo_size prod_size is
    (l, is) ←
        mozvm_loader_load size rounds1 rounds2 opt (mozvm_loader_init counted consts inst_size) is
    some (LoadResult.loaded (mozvm_loader_freeze inst l))

  -- mozvm_loader_load_syntax with its copy of the array.
  unfoldable pub mozvm_loader_load_syntax : ℕ → ℕ → ℕ → ℕ → Bool → List ℕ → Option LoadResult
  mozvm_loader_load_syntax rounds1 rounds2 inst counted opt memory = do
    (ok, is) ← check_file_type (record { pos = 0; end_pos = length memory; bytes = memory })
    (supported, is) ← if ok then check_version is else some (false, is)
    let body = load_body rounds1 rounds2 inst counted opt is
    if ok
        then (if supported then body else some LoadResult.version_mismatch)
        else some LoadResult.not_bytecode
