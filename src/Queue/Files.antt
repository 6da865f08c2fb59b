-- ===== src/Queue/Files.antt =====
-- `FilesystemCompilerJobQueue` of compiler/src/job-queue.mjs, a module for each subject.
pub mod Record
pub mod Disk
pub mod Defs
pub mod RoundTrip
pub mod Crash
pub mod Enqueue
mod Tests
