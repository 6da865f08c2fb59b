-- ===== src/Toolchains.antt =====
-- compiler/src/toolchain-catalog.mjs: the catalog of reviewed toolchains.
pub mod Canonical
mod Tests
