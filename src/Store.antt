-- ===== src/Store.antt =====
-- crates/pif-store: the local archive of blocks, metadata and storage reads.
pub mod Error
pub mod Hot
pub mod Layout
pub mod Segment
pub mod Reads
pub mod Sample
pub mod Scale
pub mod Segments
mod Tests
