-- ===== src/Builder.antt =====
-- compiler/src/reviewed-builder.mjs: what a build is made of, and how its result is packed.
pub mod Path
pub mod Zstd
pub mod Tar
pub mod Plan
pub mod Content
pub mod Files
pub mod Remote
pub mod Catalog
pub mod Download
pub mod Build
mod Sample
mod Tests
