-- ===== src/Bundle.antt =====
-- compiler/src/bundle.mjs: what an input archive has to be before anything is built from it.
pub mod Path
pub mod Zip
pub mod Manifest
pub mod Mods
pub mod Check
mod Tests
