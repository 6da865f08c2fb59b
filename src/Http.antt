-- ===== src/Http.antt =====
-- compiler/src/http-worker.mjs: the HTTP and queue boundary of the compiler.
pub mod Envelope
pub mod Consume
pub mod Callbacks
pub mod Control
pub mod Process
mod Tests
