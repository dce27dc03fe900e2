-- ===== src/Lib.antt =====
-- merutable: a log-structured table store whose data files are Parquet, in crates/merutable. A write
-- gets a sequence number, goes to a write-ahead log and then to a memtable; full memtables are sealed,
-- flushed to files of level 0, and compacted into deeper levels; a lookup asks the memtables, the row
-- cache and the files, newest first.
--
-- Paths below are from crates/merutable/src.
--
--   * Prelude: numbers, Boolean tests, lists, the errors of types/error.rs, the order of numbers, bit
--     operations as arithmetic, and signed integers.
--   * Bytes: byte strings, to_be_bytes and its kin, and the order of byte strings.
--   * Types: Sequence is types/sequence.rs, Value types/value.rs, Schema types/schema.rs, Level
--     types/level.rs, and Key types/key.rs: `encode`, `decode` and what they call.
--   * Wal: Batch is wal/batch.rs, Format wal/format.rs, Log wal/writer.rs and wal/reader.rs, and Manager
--     wal/manager.rs. A function that pushes onto a buffer or appends to a sink returns the bytes; one
--     that reads from a slice returns what is left of it. A directory is a list of numbered files, which
--     recovery may find in any order; creating a file that is there keeps its content, and whether the
--     removal of a file fails is an argument.
--   * Memtable: Skiplist is memtable/skiplist.rs, Table memtable/memtable.rs and memtable/iterator.rs,
--     and Manager memtable/manager.rs. SkipMap states what crossbeam_skiplist documents.
--   * Iceberg: Version is iceberg/version.rs, Snapshot iceberg/snapshot.rs, and Manifest the application
--     of a transaction and the version of iceberg/manifest.rs; the type of deletion vectors, the time and
--     the fresh uuid are parameters, and i64 wraps. DeletionVector is iceberg/deletion_vector.rs, over an
--     interface for the bitmaps of the package roaring: the blob, and the Puffin file around it.
--   * Parquet: Bloom is parquet/bloom.rs, over the hash xxh3_64 and the choice of the number of probes
--     (arithmetic of f64) as parameters, and KvIndex is parquet/kv_index.rs: building, loading with its
--     checks, iteration and search.
--   * Engine: Cache is engine/cache.rs, over an interface for the map of the package lru; Compaction is
--     engine/compaction/iterator.rs; Config is engine/config.rs; Picker is engine/compaction/picker.rs,
--     over an interface for f64, with the reservation of levels by jobs of engine/compaction/job.rs in
--     Picker/Jobs; Job is what a compaction job computes of its own (the files of the output level that
--     it pulls in, and where one output file ends); ReadPath is the point lookup of engine/read_path.rs,
--     over the reading of one file and the decoding of one row as parameters, from the entry that the
--     memtables give on, with the coordinates of a deletion vector in ReadPath/Vectors. Codec is
--     engine/codec.rs, over the formats of postcard and serde_json. WritePath is `apply_batch` of
--     engine/write_path.rs and, of `open` in engine/engine.rs, the recovery of the memtables from the log;
--     what a write waits for has happened, the lookup of the row before a delete is a parameter, and the
--     flush that a full memtable sets off is left out.
--
-- State is passed explicitly. What runs under a lock, or as one atomic operation, is one step; steps of
-- several threads interleave in Memtable/Manager/Runs, Engine/Cache/Fresh, Engine/WritePath/Writes and
-- Types/Sequence/Allocation. A panic of Rust and running out of a count of rounds are the value `panic`.
--
-- Counts of rounds: the writer of the log takes one round more than the payload has bytes, since each
-- round but one that only fills a block takes a byte; the reader takes one more than the source has
-- bytes, since each round passes a header, and recovery calls it once more than that for the records, since a
-- record takes a byte; a varint takes ten. The search of an index takes one round
-- more than there are restarts, since each round halves what is left, and its scan one more than the
-- entries have bytes. Machine integers wrap where the code wraps. The checksum of the log is a parameter
-- into u32; floats are their bit patterns, and the scores of the picker are of an interface.
--
-- Not modelled: scans, flush and the background loops in engine, the input loop and the commit of a
-- compaction job, the resolution of deletion vectors, the catalog and the stored forms of a manifest in iceberg, the
-- Parquet files themselves, the object stores, the replica, the mirror and the SQL adapters. They are
-- I/O, asynchronous glue or calls of other packages for the most part, and the parts of them with logic
-- of their own are not translated yet. Errors of file sinks, fsync, metrics and log output are left out, so that
-- what was appended to the log is in its file. A lookup is modelled without other threads, and the row
-- cache with them: Engine/Cache/Fresh/Steps says which readers its steps cover.
pub mod Prelude
pub mod Bytes
pub mod Types
pub mod Wal
pub mod Memtable
pub mod Engine
pub mod Iceberg
pub mod Parquet
