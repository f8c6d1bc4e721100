-- ===== src/Store/Error.antt =====
-- crates/pif-store/src/error.rs: what can go wrong in the archive. The texts that a corrupt segment
-- is reported with are the constructors of `Reason`, without the values they print.
pub data Reason : Type 0 where
  too_short bad_magic exceeds_four_gib unreadable wrong_number wrong_length : Reason
  checksum_mismatch absurd_frame not_decompressed not_decoded wrong_key copy_mismatch : Reason

pub data StoreError : Type 0 where
  io : StoreError
  segment_corrupt : Reason → StoreError
  invalid_chain_id invalid_segment_size cold_path_is_hot_path no_cold_tier : StoreError
