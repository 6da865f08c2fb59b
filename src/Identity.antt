-- ===== src/Identity.antt =====
-- compiler/src/service-identity.mjs: signed requests and the stores that refuse replays.
pub mod Request
pub mod Cache
pub mod Store
mod Tests
