-- ===== src/Vm.antt =====
-- The virtual machine: src/vm1/mozvm1.c and the handlers of src/vm1/instruction.def.
pub mod State
pub mod Object
pub mod Inst
pub mod Match
pub mod Tree
pub mod Symbol
pub mod Table
pub mod Step
pub mod Backtrack
pub mod Frames
pub mod Parse
pub mod Scan
pub mod Bytes
pub mod Memoize
