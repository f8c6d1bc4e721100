-- ===== src/Lib.antt =====
-- A model of the Polkadot indexer framework: how raw blocks are fetched by several workers at once,
-- archived in segment files, and recorded in Postgres, so that a later digest can rely on them.
--
-- The parts, and how they interact. The fetch stage (crates/pif-chain/src/fetch.rs) queues a range of
-- blocks as chunks in a table (crates/pif-db/src/repo.rs), and one worker for each endpoint claims a
-- chunk under a lease, reads its blocks from the node, at the pace that the endpoint's limiter allows
-- (crates/pif-chain/src/limiter.rs), puts them into the store, syncs it, and then marks the chunk done
-- and moves the fetch watermark to the end of the unbroken run of finished chunks. The store
-- (crates/pif-store/src) keeps blocks in segments of a fixed number of blocks, each one a file of
-- checksummed frames and an index file beside it.
--
-- - Common: the names and lemmas that the parts share. Common.Map is the standard library's
--   `BTreeMap`, as a sorted association list; Common.Result is `Result`, with a panic as a third
--   outcome; Common.Int has the `i64` of the watermarks; Common.Bytes has little-endian numbers.
-- - Store.Error: crates/pif-store/src/error.rs. Store.Layout: layout.rs, the arithmetic of segments,
--   their file names, and the check of a chain id.
-- - Store.Segment: segment.rs. A file is its bytes and a position. Writer has `SegmentWriter::open`
--   (`open_writer`) and `append`; Reader has `SegmentReader::open` (`open_reader`), `refresh`,
--   `scan_from_cursor` (`scan`), `read` and `numbers`. Format says which log of numbered payloads a
--   pair of files stands for; Recovery, Reading, Scanning and Checks relate the operations to it.
-- - Store.Segments: segstore.rs, the segments of one chain on the hot tier and on the cold one, with the
--   open writer and reader: `put`, `get`, `has`, `with_reader` (`open_slot`), `locate`. Tiers has what
--   moves segments: `hot_segments`, `copy_to_cold` and `drop_hot`, and cold.rs. Contiguous has
--   `contiguous_end`, First `first_number` and the range that the status report calls
--   replayable, with First.Lowest on the segment that it starts in. Holding says what a hot segment
--   stands for, Getting what a segment shows on either tier.
-- - Store.Hot: hot.rs, `put_block` and `get_block` over the segments, and the metadata files of the
--   runtimes, in one directory of files by name. Store.Reads: cache.rs, the reads of a block and their
--   record in the segments. Store.Scale stands for parity-scale-codec.
-- - Db.Queue: the table `fetch_chunks` of migrations/0002_pipeline.sql and its queries in repo.rs, one
--   function for each, on the rows of one chain in the order of their key. Db.Watermarks: the row of
--   `pipeline_watermarks` and its queries, with the table's check.
-- - Chain.Fetch: the brake (`brake_ceiling`), the start of `backfill` (`queue_range`), and the loop of
--   `worker` in two parts, `claim_work` and `work_chunk`, between which other workers may run.
-- - Chain.Digest: the batches of digest.rs: the decode loop of `commit` (`decode_blocks`), its
--   transaction (`write_batch`), the inner loop of `run` and the loop of `replay_range` (`batches`), and
--   one turn of `run` (`digest_ready`). The archive with the decoder, and the handlers, are parameters.
-- - Chain.Tiering: the pass over one archive of tiering.rs (`tier_archive`), with its loop
--   (`tier_segments`) and one round of it (`archive_segment`, `delete_segment`), the rows of the table
--   `segments`, and in Pass the round over all archives (`pass`).
-- - Chain.Reads: crates/pif-chain/src/cache.rs, the reads of state that a digest makes, answered from the
--   archive first: `fetch`, `persist`. Session is a run of reads, Offline the replay of it.
-- - Chain.Start: crates/pif-chain/src/pipeline.rs, where a run starts (`resolve_start`, `digest_start`,
--   `rewind`), how a chain is identified (`resolve`), and `replay`.
-- - Chain.Limiter: limiter.rs, with times in nanoseconds.
--
-- Beside the stages stand Core.Ss58: crates/pif-core/src/ss58.rs, the text of addresses; and
-- Identity, of crates/pif-identity/src: Touched has `collect` of touched.rs, which says whose
-- storage the handler of identities reads again after a block; Judgement has `parse_judgements` of
-- model.rs and `best_judgement` of resolver.rs; Json the decoded values that these look into.
--
-- Parameters. The checksum of crc32fast is a function into 32 bits (Store.Segment.Format.Crc32).
-- The floating point numbers are a record of operations (Chain.Limiter.Float64), with laws where a
-- result needs them. Compression is a pair of functions of which one undoes the other
-- (Store.Segments.Zstd); so are the text encoding of addresses and its decoding (Core.Ss58.Base58),
-- beside a hash with digests of 64 bytes; and so are the SCALE coding of records (Store.Scale) and
-- the JSON coding of answers (Chain.Reads.JsonCodec). Hexadecimal and UTF-8 decoding are functions
-- (Identity.Touched.Texts). What a node answers to a read of state is given with each read, and may
-- change from one to the next. What the disks do with a copy or a removal is a record of functions
-- (Store.Segments.Tiers.Media). How far an attempt at a chunk
-- gets with each of its blocks is a function that every attempt brings along (Chain.Fetch.Attempt).
-- Which rows other transactions hold locked is a function too, and the time is an argument. What the
-- database answers to a tiering pass stands in the record Chain.Tiering.Tiering.
--
-- Bounds and fuel. A `u64` or `u32` is a natural number, with its wrap-around or its check written out
-- where the code has one. The scan of a segment gets the segment's length as fuel, and each round moves
-- on by at least a header's length; the loop that seeds chunks gets the number of blocks, and each
-- round moves on by at least one; the walk of `contiguous_end` gets the distance to 2^64, below which
-- every stored number lies, and each round moves on by at least one. Where a sum of `seed_chunks` is
-- too large for an `i64`, the seeding stops without a count, as in a build with overflow checks. The
-- store of the fetch stage is the tier on which a read finds each block (Chain.Fetch.Copy), in
-- which a put into a segment that is only cold hides its other blocks.
--
-- Not modelled: the loop around the tiering passes, the light client's loop, the sizes in the
-- status report, the rest of the identity crate, the configuration, decoding, and the command line
-- and API around them. Outside of tiering, errors of the operating system and of the database
-- connection are no branches of the model: such an error ends the call where it stands.
pub mod Common
pub mod Store
pub mod Db
pub mod Chain
pub mod Core
pub mod Identity
