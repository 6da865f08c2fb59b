-- ===== src/Queue/Memory.antt =====
-- `MemoryCompilerJobQueue` of compiler/src/job-queue.mjs, a module for each subject.
pub mod Defs
pub mod Claim
pub mod First
pub mod Sent
pub mod Valid
pub mod History
pub mod Redelivery
pub mod Phase
mod Tests
