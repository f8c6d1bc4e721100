-- ===== src/Core.antt =====
-- crates/pif-core: what the other crates share.
pub mod Ss58
mod Tests
