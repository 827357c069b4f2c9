-- ===== src/Lib.antt =====
-- rust-tsdb: a time-series database. Series are named by label sets; an index finds them by matchers;
-- each keeps the samples that are not on disk yet; a write-ahead log makes them survive a crash.
--
-- The parts, and the files that model them:
--   Model.antt           src/model.rs: labels, samples, time ranges, matchers
--   LabelSet.antt        src/model.rs: LabelSet (from_labels, get, insert_label, the iterator)
--   Series.antt          src/storage/series.rs: SeriesState (append, range, take_samples, ..)
--   Ids.antt             src/storage/index.rs: union_sorted, difference_sorted, intersect_in_place
--   Index.antt           src/storage/index.rs: Index (encode, resolve, candidates, ..)
--   Wal/Record.antt      src/storage/wal/record.rs and error.rs: header, record parts, errors
--   Wal/Codec.antt       src/storage/wal/codec.rs: RecordEncoder, Reader, decode
--   Wal/Replay.antt      src/storage/wal/replay.rs: Resolver, ReplaySink
--   Wal/Reader.antt      src/storage/wal/reader.rs: read_record, replay
--   Wal/Writer.antt      src/storage/wal/buffer.rs, lsn.rs, writer.rs: append, take, publish
--   Wal/Flusher.antt     src/storage/wal/flusher.rs: flush_loop, write_batch, rotate, as events
--   Wal/Flusher/Loop.antt  src/storage/wal/flusher.rs: the rounds of flush_loop, Cut; mod.rs: close
--   Wal/Waiting.antt     src/storage/wal/lsn.rs and writer.rs: wait, backlog_bytes
--   Wal/Flusher/Removal.antt  src/storage/wal/mod.rs: remove_through
--   Wal/Files.antt       src/storage/wal/segment.rs: file_name, parse_id, list
--   Segments.antt        src/storage/segment.rs: SegmentStore (flush, read), read_segment
--   Segments/Open.antt   src/storage/segment.rs: SegmentStore::open, index_segment
--   Db.antt              src/db.rs: Db and DbState (write, flush, query)
--   Db/Open.antt         src/db.rs: Db::open_with and the Replay sink
--   Api.antt             src/api.rs: write_json and read, of the decoded request
--   Api/Parameters.antt  the bounds and the matchers that a request asks for, by its parameters
--   Db/Memory.antt       the samples that all series together have in memory
--   Slice.antt           the bisections of Rust's slices, which model.rs and series.rs call
--   Prelude.antt         shared names, tests on numbers, lists, strings, and maps
--   Tests.antt           the theorems at concrete inputs
-- The children of a module hold its proofs.
--
-- How they interact: `Index.encode` gives a label set its series; a write appends the new series and the
-- samples to the log as one record (`append_with`); the flusher moves the buffer to the active file;
-- at the start `replay` reads the files and hands each record through the resolver to a sink. `flush`
-- cuts the log, moves the buffered samples of all series to a new segment of the store, and removes
-- the log's old files; `query` puts the segments' samples in front of the buffered ones.
--
-- Choices. A `String` is the list of its UTF-8 bytes, an `f64` its bit pattern, an id, a timestamp or a
-- position a number, with `% 2 ^ w` where the source adds or narrows. A `HashMap` is an association list,
-- and no theorem depends on the order in which it is iterated. The state behind the lock of a shared
-- series stands in the index's heap by the series' id. A log file is its bytes and its id.
-- The parameters: `crc32` is the checksum of crc32fast, with `IsU32` where its range matters; `utf8`
-- is `std::str::from_utf8`'s test; the sink of `replay` is the state and the two operations of the trait.
-- The bisection has the slice's length as fuel, `intersect_loop` the sum of the two lengths, `replay_file`
-- the number of the file's bytes and one more: each round halves, advances an index, or reads a byte.
--
-- Of the segment store `to_json` and `from_json` are serde_json, with `ReadsBack` for what it documents.
-- `Db.IsSound` says which segments are on disk; `stored` is all that the database has of a series. A
-- method of `Db` holds the lock on the state, so that it is one step; the log's own threads are the
-- events of Wal/Flusher.antt, and a cut is the events that end what the flusher has in hand.
-- `Db.History` runs sequences of writes and flushes; `held` is what stands under a label set, on disk and
-- in memory, and `accepted` are the samples that come later than all before them. `Db.Handshake` puts the
-- rounds of flush_loop that serve a cut beside the cut in one step; two rounds are fuel enough for both a
-- cut and a close: one for the batch in the buffer, and one that finds nothing.
-- `Db.Directory` says what `open` will find in the directory that a flush leaves, and `Db.Reopen` what it makes
-- of the files that it finds.
-- The faults of a flush are the argument `fault`: no fault, the temporary file cannot be opened, its
-- writing or renaming fails, the sync of the directory does, or, with the segment in place, the removal of
-- the log's old files fails after some of them are gone.
--
-- Not modelled: the routes and the JSON text of the HTTP interface (src/api.rs), start-up (src/main.rs),
-- failing reads of files, the lock file of the segment store, thread wake-ups, the
-- channel that wakes waiters, the sync loop, and src/storage/mem_table.rs, which no module declares. What a
-- failed open leaves on disk is not modelled either.
pub mod Prelude
pub mod Slice
pub mod Model
pub mod LabelSet
pub mod Series
pub mod Wal
pub mod Ids
pub mod Index
pub mod Segments
pub mod Db
pub mod Api
pub mod Tests
