-- ===== src/Compiler.antt =====
-- src/compiler: the compiler of grammars.
pub mod Linker
pub mod Resolve
pub mod Block
pub mod Edges
