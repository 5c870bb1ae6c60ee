-- ===== src/Lib.antt =====
-- A verification library for hamane-db, an embedded vector database: the storage engine of
-- crates/hamane-storage, over the types of crates/hamane-core, the exact search of
-- crates/hamane-index, and the reads of a collection of crates/hamane.
--
-- A write goes into the write-ahead log (wal.rs) and the memtable of its collection (memtable.rs).
-- A memtable that is large enough is set aside with its log (rotation), written as an immutable
-- segment (segment.rs), and named by the next manifest (manifest.rs); a compaction merges the
-- newest segments of a collection into one. Reads ask the active memtable, the one that is set
-- aside, and the segments, newest first. A restart reads the manifest and replays the newer logs.
-- All of this is the Store of store.rs, whose state stands behind one mutex.
--
-- The files, by the code that they are about:
--   Base: Booleans, lists, maps and sets as association lists, little-endian words, the error type
--     of crates/hamane-core/src/error.rs and its Result.
--   Core/Record: crates/hamane-core/src/record.rs. A String is the list of its UTF-8 bytes; an f32,
--     an f64 and an i64 are their bit patterns.
--   Format: crates/hamane-storage/src/format.rs. Reader is the `Reader` and the `put_` functions,
--     Utf8 the check of `String::from_utf8`, Frame the CRC frames, Meta metrics and metadata.
--   Wal: crates/hamane-storage/src/wal.rs. Record is `WalRecord` with encode and decode, File is
--     `WalWriter::append` and `WalReader::read_all` on the bytes of a file. Commit is `SyncPolicy`,
--     `WalWriter::sync` and `SyncToken::wait`, with the threads as a step relation.
--   Memtable, Segment, Manifest: the files of these names beside it. A segment is its rows in
--     order, each with the bytes of its metadata, and its sorted tombstones; `write` is
--     `SegmentWriter::write` together with the `Segment::open` that follows it.
--   Store/State: `StoreState`, `current_record`, `is_id_live`, `LiveView`. Store/Apply:
--     `apply_record`. Store/Api: the write methods, named as in the source, with `_op` where the
--     name is taken by a constructor. Store/Maintain: `rotate`, `maybe_flush` and `flush_pending`,
--     whose parts under the lock are functions of their own, so that other operations can stand
--     between them. Store/Compact: `compact_collection`, in the same way. Store/Follow:
--     `apply_wal_frames`, the feed of a follower. Store/Open: `load_state` with `scan_segments`, and
--     `open` (as `open_store`), `open_follower` and `switch_generation`.
--   Core/Filter, Core/Metric: crates/hamane-core/src/filter.rs, and `Metric` of metric.rs beside it.
--   Index/Flat: crates/hamane-index/src/flat.rs, the exact search.
--   Collection: `walk` and `count` of crates/hamane/src/collection.rs, whose merge keeps what is left
--     of each source in the place of a cursor and a heap entry. Collection/Api: `get`, `delete_batch`
--     (as `delete_records`), and `MetaUpdate::run` for one record. Collection/Search: of
--     `SegmentSearch`, `memtable_candidates` and `finalize`, and `segment` and `run_sequential` for
--     segments without indexes (Collection/Search/Plain).
--   Tests: the theorems at concrete inputs.
--
-- Conventions and bounds. Numbers are natural numbers; the words of the formats are cut with `% 2
-- ^ w` where they are written, and so are the next number of a collection (u32), the next number
-- of a string id (u64) and the count of unsynced writes (u32). The u64 counters that grow by one
-- with each generation, segment or log, and byte counts in memory, are taken not to overflow. The
-- binary search runs on fuel one above the number of rows, which `binary_search-eq-member` shows
-- to be enough; `read_frames` runs on fuel of the length of the file, and each frame takes at
-- least nine bytes of it, which `read_all-stops` shows to be enough for any file. The checksum
-- crate (crc32c) is a parameter, of which the theorems use at most that its value is a u32. `walk`
-- runs on fuel of the number of ids, of which each round takes one. The hardware's operations on
-- f64 are a parameter of filters, and those on f32, with the distance kernels that the processor
-- decides, of the exact search.
--
-- The state of a store keeps each log as the list of the records that `WalReader::read_all` finds
-- in the file; what it finds in the bytes is in Wal/File. A write appends to it and calls `sync`
-- under the policy of the options; the world has for each log the number of its last records that
-- no `sync_data` has put on the disk, and `crash` takes any of these away. A writer's wait for the
-- group commit is taken together with its `sync`, as one that ends with its records on the disk;
-- Wal/Commit has that wait as a step relation. What a start has read is taken to be on the disk. In
-- the group commit, `sync_data` that succeeds is taken to put on the disk all that was appended
-- before it was called.
--
-- The vectors of a collection are taken to have its dimension, which is checked before a write, so
-- that a row of a segment keeps its own vector although vectors.bin has one dimension for all;
-- Segment/Vectors has the bytes of that file.
--
-- Not modelled: calls of the file system are taken to succeed; an operation that fails has no
-- result state, although the code may have logged its record; the byte offsets inside the other
-- files of a segment, memory maps and indexes; threads, for which other threads' work appears as a
-- function of the world (`await`), as the freedom between the parts of a flush or a compaction,
-- and in the group commit as a step relation; the lock file; backup and replication; vector
-- arithmetic and quantisation, the search in segments with an index, the panic of a sort on keys
-- that do not compare, updates and deletions by filter, the server, the command line and the
-- Python binding.
pub mod Base
pub mod Core
pub mod Format
pub mod Wal
pub mod Memtable
pub mod Segment
pub mod Manifest
pub mod Store
pub mod Collection
pub mod Index
pub mod Tests
