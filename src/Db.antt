-- ===== src/Db.antt =====
-- crates/pif-db: the Postgres tables that the pipeline keeps, as the queries of repo.rs use them.
pub mod Queue
pub mod Watermarks
mod Tests
