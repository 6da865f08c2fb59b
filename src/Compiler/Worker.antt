-- ===== src/Compiler/Worker.antt =====
-- `CompilerWorker.run` of compiler/src/compiler.mjs, a module for each subject.
pub mod Defs
pub mod Order
pub mod Content
pub mod Live
