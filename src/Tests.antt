-- ===== src/Tests.antt =====
-- Tests at concrete inputs, and the theorems of the other modules at inputs that meet their
-- hypotheses, one module for each part.
mod Ast
mod Core
mod Libnez
mod Node
mod Vm
mod Loader
mod Compiler
