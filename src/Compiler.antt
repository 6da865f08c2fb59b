-- ===== src/Compiler.antt =====
-- compiler/src/compiler.mjs: the worker that compiles one job.
pub mod Job
pub mod Grants
pub mod Exec
pub mod Worker
pub mod Sample
mod Tests
