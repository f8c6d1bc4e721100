-- ===== src/Identity.antt =====
-- crates/pif-identity: the identities of accounts, from the storage of a People chain.
pub mod Json
pub mod Judgement
pub mod Touched
mod Tests
