-- ===== src/Chain.antt =====
-- crates/pif-chain: the stages of the pipeline.
pub mod Fetch
pub mod Digest
pub mod Limiter
pub mod Reads
pub mod Start
pub mod Tiering
mod Tests
