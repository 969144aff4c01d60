-- ===== src/Core.antt =====
-- The data structures under src/core and src/jmptbl.h.
pub mod Bitset
pub mod Buffer
pub mod Jmptbl
pub mod Karray
