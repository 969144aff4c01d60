-- ===== src/Libnez.antt =====
-- The runtime support of the virtual machine under src/libnez.
pub mod Token
pub mod Khash
pub mod Symtable
pub mod Memo
pub mod Ast
