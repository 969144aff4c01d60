-- ===== src/Lib.antt =====
-- moz: a virtual machine for nez, a language of parsing expression grammars with trees, symbol
-- tables and memoization. A grammar is compiled to byte code; the machine of src/vm1 runs it on an
-- input, with the support of src/libnez, the nodes of src/node and the data structures of src/core.
--
-- The parts, and the files that model them:
--   * Vm: src/vm1. Vm/State has the registers and the stack (`Vm`), the constants of a run
--     (`Runtime`) and the macros PUSH, POP, PUSH_FRAME, POP_FRAME, PEEK_FRAME, DROP_FRAME and
--     FAIL_IMPL; Vm/Inst the instructions; Vm/Match, Vm/Tree, Vm/Symbol, Vm/Table and Vm/Step one
--     function do_x for each DEF(X) of src/vm1/instruction.def. Vm/Step also has the dispatch,
--     moz_runtime_parse_init and moz_runtime_parse. Vm/Backtrack, Frames, Parse, Scan, Bytes and
--     Memoize are about what the instructions do together.
--     Vm/Object is the run time object of src/runtime.c.
--   * Loader: src/loader.c. Loader has the stream of a byte code file (`InputStream`), the constants,
--     the loader's state and its writes; Loader/Opcode the opcodes of src/vm1/instruction.h;
--     Loader/First the tables of First; Loader/Inst mozvm_loader_load_inst, a case at a time;
--     Loader/Load the two passes of mozvm_loader_load, with Loader/Bytes for the writes inside the
--     buffer; Loader/Syntax the header, the constants and mozvm_loader_load_syntax. Loader/Layout has
--     the sizes that src/vm1/instruction.def declares. Emits, Size, Whole, Pass and Rounds are about
--     the first pass, Targets and Dispatch about First, Relocate, Rewrites, Second, Loop, Links,
--     Linked, Replaced, Tables and Landing about the second pass, BigEndian, Sets and Header about the file.
--   * Compiler: src/compiler. Compiler/Linker is linker.c, with Resolve about it; Compiler/Block is
--     block.c, with Edges about its graph of blocks.
--   * Libnez: src/libnez. Token (token.h), Khash (khash.h), Symtable (symtable.c), Memo (memo.c, the
--     elastic table), Ast (ast.c, the log of tree operations) with Ast/Build (the construction of
--     nodes from it). The modules below each are about it.
--   * Node: src/node/node.c. Node/Entry is the union of small and large arrays of children,
--     Node/Heap the pages, the free list, the reference counts and the operations of nodes.
--   * Core: Core/Bitset (src/core/bitset.h), Core/Buffer (src/core/buffer.h, on a little-endian
--     target), Core/Karray (the growth of arrays of src/core/karray.h) and Core/Jmptbl
--     (src/jmptbl.h).
--   * Base: shared names, lists over the native numbers, and bits. Tests: runs at concrete inputs.
--
-- The loader turns a byte code file into the code and the constants of the machine: its first pass
-- writes the instructions, with the numbers of instructions where an address belongs, and records
-- where each starts; its second pass turns the numbers into offsets, from the end of an instruction,
-- which the machine adds to its program counter.
--
-- The machine calls the operations of Libnez through the objects of its state; a choice point saves
-- the sizes of the tree log and of the symbol table, and a failure rolls both back. The log, the
-- memo table and the nodes share the reference counts of `Heap`.
--
-- How code becomes definitions: state is passed and returned; `Option` is the result of what C can
-- leave undefined or abort (a read or write out of range, a failed assertion, ABORT), and `none` is
-- that. Numbers are natural numbers with the wrap-around of C's types written out, addresses and
-- positions are numbers with 0 for NULL, and memory that nothing writes is a function from addresses
-- to bytes. A `char` is signed, as on x86. An allocation succeeds, and an array that grows on demand
-- is a list without a capacity, but in Core/Karray (so the undefined growth of the arrays of
-- block_new from the capacity 0 is not in Compiler/Block). The symbol table's list stands last entry first.
--
-- Fuel and bounds: the stack has MOZ_DEFAULT_STACK_SIZE words, as in the source, and a write beyond
-- it is `none`. `release` has fuel for the depth of nested sweeps; a release that leaves a positive
-- count needs 1. `scan` bounds the rounds of the loops of RByte, RSet and RStr, which need one more
-- than they consume. `rounds` bounds ast_create_node. The loops of the two passes of the loader have as
-- many rounds as there are bytes in the file or in the buffer, since a round takes a byte or more.
-- moz_runtime_parse takes the number of instructions that it runs. ast_rollback_tx is `none` for a
-- size beyond that of the log.
--
-- Parameters: decoding, as `fetch` from an address to the instruction and the address behind it,
-- and the sizes of instructions (`size`, mozvm1_opcode_size, of which IsSize says that it follows the
-- declarations of src/vm1/instruction.def), because vm_core.c and vm_inst.h are generated by the
-- build. The configuration is that of
-- src/mozvm_config.h: pointers as positions, reference counting, a memory pool for nodes, the
-- elastic memo table, jump tables, indirect threading, without JIT, SSE 4.2 and deactivation of memo
-- points.
--
-- Not modelled: the rest of the compiler, src/compiler/expression.c, compiler.c and module.c;
-- src/vm2, which is not linked; src/node/gc.c, which the configuration leaves out; src/node/md5.c,
-- a library's copy; printing, profiling, disposal, the command line tools.
pub mod Base
pub mod Core
pub mod Node
pub mod Libnez
pub mod Loader
pub mod Compiler
pub mod Vm
mod Tests
