-- ===== src/Db/Open.antt =====
-- src/db.rs: `Db::open_with`, and the sink that the log is replayed to. The log's files are those that
-- its listing gives, in the order of their ids; what a failed open leaves on disk is not part of it.
-- The two arguments for faults are those of the flush and of the removal after it.
use rust_tsdb.Prelude.{
  ℕ, ◌+◌, Bool, false, Option, none, some, List, [], ◌∷◌, ◌⊎◌, inl, inr, nat_beq, if◌then◌else◌,
}
use rust_tsdb.Prelude.Eq.{nat_eq}
use rust_tsdb.Prelude.HashMap.{HashMap}
use rust_tsdb.Model.{SeriesId, Sample}
use rust_tsdb.LabelSet.{LabelSet}
use rust_tsdb.Series
use rust_tsdb.Index
use rust_tsdb.Index.{Index}
use rust_tsdb.Segments.{Segment, Files, SegmentStore, StorageError, Fault}
use rust_tsdb.Segments.Open.{Opening, open_store}
use rust_tsdb.Wal.Record.{Bytes}
use rust_tsdb.Wal.Replay.{ReplaySink}
use rust_tsdb.Wal.Reader.{SegmentFile, Outcome, recovered, stopped, replay}
use rust_tsdb.Wal.Flusher.{WalConfig, Log, opened}
use rust_tsdb.Wal.Writer.{WalError}
use rust_tsdb.Db.{
  wal, DbState, DbError, Persistence, storage, invalid_buffer_size, wal_corrupt, state_of,
  with_state, append_samples, flush_state, remove_logs,
}

-- `restore_newest` of every series that is on disk.
unfoldable pub restore_all : HashMap SeriesId ℕ → Index → Index
restore_all [] ix = ix
restore_all ((id, newest) ∷ latest) ix = elim (Index.get ix id) [
  | none ↦ restore_all latest ix
  | some series ↦
      restore_all latest (with_state ix id (Series.restore_newest (state_of ix id) newest))
]

-- `Replay::series`
unfoldable pub replay_series : Index × ℕ → LabelSet → (Index × ℕ) × SeriesId
replay_series (ix, buffered) labels =
    let (jx, series) = Index.encode ix labels in ((jx, buffered), series.id)

-- `Replay::samples`
unfoldable pub replay_samples : Index × ℕ → SeriesId → List Sample → Index × ℕ
unfolding append_samples
replay_samples (ix, buffered) id samples = elim (Index.get ix id) [
  | none ↦ (ix, buffered)
  | some series ↦
      let r = append_samples samples (state_of ix id, buffered) in (with_state ix id r.0, r.1)
]

abbrev pub replay_sink : ReplaySink (Index × ℕ)
replay_sink = record { series = replay_series; samples = replay_samples }

module _ (crc32 : Bytes → ℕ) (utf8 : Bytes → Bool) (to_json : Segment → Bytes)
    (from_json : Bytes → Option Segment) (cfg : WalConfig) (fault removal : Fault) where
  abbrev pub on_removed : DbState → Persistence → Option WalError × Log → DbState ⊎ DbError
  on_removed st p (some e, log) = inr (wal e)
  on_removed st p (none, log) = inl (record st { persistence = some (record p { log = log }) })

  abbrev pub drop_replayed : ℕ → DbState → Option Persistence → DbState ⊎ DbError
  drop_replayed last st none = inl st
  drop_replayed last st (some p) =
      on_removed st p (remove_logs crc32 to_json cfg removal p.log last)

  abbrev pub remove_replayed : ℕ → Option DbError × DbState → DbState ⊎ DbError
  remove_replayed last (some e, st) = inr e
  remove_replayed last (none, st) = drop_replayed last st st.persistence

  -- A log that was there is flushed, and its files go.
  abbrev pub flush_replayed : Option ℕ → DbState → DbState ⊎ DbError
  flush_replayed none st = inl st
  flush_replayed (some last) st = remove_replayed last (flush_state crc32 to_json cfg fault st)

  abbrev pub next_file : Option ℕ → ℕ
  next_file none = 1
  next_file (some id) = id + 1

  abbrev pub on_recovered : ℕ → SegmentStore → Outcome (Index × ℕ) → DbState ⊎ DbError
  on_recovered max_buffer disk (stopped e) = inr (wal_corrupt e)
  on_recovered max_buffer disk (recovered report (ix, buffered) files) =
      flush_replayed report.last_segment (record {
        index = ix;
        persistence = some (record {
          disk = disk;
          log = record (opened (next_file report.last_segment)) { full = files };
        });
        buffered_samples = buffered;
        max_buffer_samples = max_buffer;
        failed = false;
        generation = 1;
      })

  abbrev pub on_opened :
      ℕ → List SegmentFile → (Opening × SegmentStore) ⊎ StorageError → DbState ⊎ DbError
  on_opened max_buffer logs (inr e) = inr (storage e)
  on_opened max_buffer logs (inl (o, disk)) =
      on_recovered max_buffer disk
        (replay crc32 utf8 replay_sink logs (restore_all o.latest o.index, 0))

  -- `Db::open_with`
  unfoldable pub open_with : Files → List SegmentFile → ℕ → DbState ⊎ DbError
  unfolding restore_all
  open_with files logs max_buffer =
      if nat_beq max_buffer 0
      then inr invalid_buffer_size
      else on_opened max_buffer logs (open_store crc32 from_json files Index.new)
