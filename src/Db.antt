-- ===== src/Db.antt =====
-- src/db.rs: the database. Each operation holds the lock on the state, so it is one step. The writer's
-- and the flusher's side of the log are one `Log`; the flusher's own steps stand in Wal/Flusher.antt.
-- The parameters are the checksum, the JSON text of a segment, and the settings of the log.
pub mod Labels
pub mod Query
pub mod Take
pub mod Table
pub mod Flush
pub mod Grow
pub mod View
pub mod Batch
pub mod Write
pub mod History
pub mod Ascending
pub mod Memory
pub mod Bounds
pub mod Drain
pub mod Cut
pub mod Handshake
pub mod Closing
pub mod Released
pub mod Indexed
pub mod Reopen
pub mod Directory
pub mod Failed
pub mod Keep
pub mod Open
use mathlib.Core.Option
use rust_tsdb.Prelude.{
  min, ℕ, ◌+◌, ◌-◌, ◌%◌, ◌^◌, Bool, true, false, ◌&&◌, ◌||◌, not, Option, none, some, List, [], ◌∷◌,
  ◌++◌, ◌⊎◌, inl, inr, is_empty, map, ltb, leb, nat_beq, if◌then◌else◌,
}
use rust_tsdb.Prelude.Eq.{nat_eq}
use rust_tsdb.Prelude.HashMap
use rust_tsdb.Prelude.HashMap.{HashMap, or_default}
use rust_tsdb.Model.{SeriesId, Sample, TimeRange, Matcher}
use rust_tsdb.LabelSet.{LabelSet, label_set_eq}
use rust_tsdb.Ids.Sets.{mem}
use rust_tsdb.Series.{SeriesState, default_state}
use rust_tsdb.Series
use rust_tsdb.Index
use rust_tsdb.Index.{Index}
use rust_tsdb.Segments
use rust_tsdb.Segments.{
  SegmentStore, Segment, StorageError, Fault, working, unopened, unsynced, unwritten, unremoved,
}
use rust_tsdb.Wal.Record.{Bytes, WalRecord}
use rust_tsdb.Wal.Reader.{ReplayError}
use rust_tsdb.Wal.Writer.{Lsn, WalError, log_io, append_with}
use rust_tsdb.Wal.Flusher.{WalConfig, Log, Event, writing, publishing, taking, cutting, run}
use rust_tsdb.Wal.Flusher.Removal.{remove_through, remove_some}

-- `WriteBatch` and `SeriesResult`
abbrev pub WriteBatch : Type 0
WriteBatch = List (LabelSet × List Sample)

pub record SeriesResult : Type 0 where
  pub labels : LabelSet
  pub samples : List Sample

-- The errors of `DbError` that a method gives.
pub data DbError : Type 0 where
  storage : StorageError → DbError
  invalid_time_range : ℕ → ℕ → DbError
  invalid_buffer_size storage_failed : DbError
  wal : WalError → DbError
  wal_corrupt : ReplayError → DbError

pub record Persistence : Type 0 where
  pub disk : SegmentStore
  pub log : Log

pub record DbState : Type 0 where
  pub index : Index
  pub persistence : Option Persistence
  pub buffered_samples : ℕ
  pub max_buffer_samples : ℕ
  pub failed : Bool
  pub generation : ℕ

-- `Db::new`, with no persistence
abbrev pub new : DbState
new = record {
  index = Index.new;
  persistence = none;
  buffered_samples = 0;
  max_buffer_samples = 2 ^ 64 - 1;
  failed = false;
  generation = 1;
}

-- The state behind the lock of the series with this id.
abbrev pub state_of : Index → SeriesId → SeriesState
state_of ix id = or_default (HashMap.get ix.heap id) default_state

abbrev pub with_state : Index → SeriesId → SeriesState → Index
with_state ix id st = record ix { heap = HashMap.insert ix.heap id st }

-- What the first loop of `write` carries.
pub record Prepared : Type 0 where
  pub index : Index
  pub new_series : List Index.Series
  pub logging : List SeriesId
  pub entries : List (SeriesId × List Sample)

-- A series that the log does not have in this generation, and that is not yet in `logging`.
abbrev pub prepare_series : ℕ → Prepared → List Sample → Index × Index.Series → Prepared
prepare_series generation p samples (ix, series) =
    let fresh =
      not (Series.is_logged (state_of ix series.id) generation) && not (mem series.id p.logging) in
    record {
      index = ix;
      new_series = if fresh then p.new_series ++ series ∷ [] else p.new_series;
      logging = if fresh then series.id ∷ p.logging else p.logging;
      entries = p.entries ++ (series.id, samples) ∷ [];
    }

unfoldable pub prepare : ℕ → WriteBatch → Prepared → Prepared
prepare generation [] p = p
prepare generation ((labels, samples) ∷ batch) p = prepare generation batch (
    if is_empty samples
    then p
    else prepare_series generation p samples (Index.encode p.index labels))

-- The record that `write` appends to the log.
abbrev pub log_record : Prepared → WalRecord
log_record p = record {
  series = map (λ (s : Index.Series). record { id = s.id; labels = s.labels }) p.new_series;
  samples = map (λ (e : SeriesId × List Sample). record { id = e.0; samples = e.1 }) p.entries;
}

-- `for series in &new_series { series.lock().mark_logged(generation) }`
unfoldable pub mark_all : ℕ → List Index.Series → Index → Index
mark_all generation [] ix = ix
mark_all generation (s ∷ ss) ix =
    mark_all generation ss (with_state ix s.id (Series.mark_logged (state_of ix s.id) generation))

-- The samples of one series; the number counts those that it takes, which memory keeps below 2^64.
unfoldable pub append_samples : List Sample → SeriesState × ℕ → SeriesState × ℕ
append_samples [] (st, n) = (st, n)
append_samples (s ∷ ss) (st, n) =
    let r = Series.append st s in append_samples ss (r.0, if r.1 then n + 1 else n)

-- The last loop of `write`.
unfoldable pub append_entries : List (SeriesId × List Sample) → Index × ℕ → Index × ℕ
unfolding append_samples
append_entries [] (ix, n) = (ix, n)
append_entries ((id, samples) ∷ es) (ix, n) =
    let r = append_samples samples (state_of ix id, n) in
    append_entries es (with_state ix id r.0, r.1)

-- The samples of every series that has any; they leave the series.
unfoldable pub take_table : List SeriesId → Index → List (SeriesId × List Sample) × Index
take_table [] ix = ([], ix)
take_table (id ∷ ids) ix = elim (Index.get ix id) [
  | none ↦ take_table ids ix
  | some series ↦
      let taken = Series.take_samples (state_of ix id) in
      let rest = take_table ids (with_state ix id taken.0) in
      (if is_empty taken.1 then rest.0 else (id, taken.1) ∷ rest.0, rest.1)
]

-- After how many removals of log files the system fails, if it does.
abbrev pub removal_fails : Fault → Option ℕ
removal_fails working = none
removal_fails unopened = none
removal_fails unsynced = none
removal_fails (unwritten bytes) = none
removal_fails (unremoved n) = some n

module _ (crc32 : Bytes → ℕ) (to_json : Segment → Bytes) (cfg : WalConfig) where
  -- What the flusher does when a cut is asked for: it ends the batch that it has, takes and writes what
  -- is in the buffer, and finds nothing more, since writers wait for the lock on the state.
  abbrev pub drain : List Event
  drain = writing ∷ publishing ∷ taking ∷ writing ∷ publishing ∷ taking ∷ []

  -- `Wal::cut`: the log, and the id of the file that was closed.
  unfoldable pub cut_log : Log → Log × ℕ
  cut_log l =
      let drained = run crc32 cfg l drain in
      (run crc32 cfg drained (cutting ∷ []), drained.active.id)

  -- `Wal::remove_through`, with its error; the active file is none of those that go.
  abbrev pub remove_as : Option ℕ → Log → ℕ → Option WalError × Log
  remove_as none l id = (none, record l { full = (remove_through l.active.id id l.full).1 })
  remove_as (some n) l id =
      (some log_io, record l { full = remove_some n (min id (l.active.id - 1)) l.full })

  unfoldable pub remove_logs : Fault → Log → ℕ → Option WalError × Log
  remove_logs fault = remove_as (removal_fails fault)

  abbrev pub after_flush :
      Fault → DbState → Log → ℕ → Option StorageError × SegmentStore → Option DbError × DbState
  after_flush fault st log closed (some e, disk) = (
    some (storage e),
    record st { persistence = some (record { disk = disk; log = log }); failed = true },
  )
  after_flush fault st log closed (none, disk) =
      let removed = remove_logs fault log closed in
      (
        Option.map wal removed.0,
        record st {
          persistence = some (record { disk = disk; log = removed.1 });
          buffered_samples = 0;
          generation = (st.generation + 1) % 2 ^ 64;
        },
      )

  abbrev pub flush_with : Fault → DbState → Option Persistence → Option DbError × DbState
  flush_with fault st none = (none, st)
  flush_with fault st (some p) =
      let (log, closed) = cut_log p.log in
      let (table, ix) = take_table (Index.resolve st.index []) st.index in
      after_flush fault (record st { index = ix }) log closed
        (Segments.flush crc32 to_json fault table ix p.disk)

  -- `DbState::flush`
  unfoldable pub flush_state : Fault → DbState → Option DbError × DbState
  unfolding cut_log remove_logs take_table
  flush_state fault st =
      if nat_beq st.buffered_samples 0 then (none, st) else flush_with fault st st.persistence

  -- `Db::flush`
  unfoldable pub flush : Fault → DbState → Option DbError × DbState
  unfolding flush_state
  flush fault st = if st.failed then (some storage_failed, st) else flush_state fault st

  -- The answer of the log, with the state: a database without one gives `Lsn::default()`.
  abbrev pub append_log : WalRecord → Option Persistence → (Lsn ⊎ WalError) × Option Persistence
  append_log rec none = (inl 0, none)
  append_log rec (some p) =
      let (r, inner) = append_with crc32 cfg.flush_threshold rec p.log.inner in
      (r, some (record p { log = record p.log { inner = inner } }))

  abbrev pub finish_write : Lsn → Option DbError × DbState → (Lsn ⊎ DbError) × DbState
  finish_write lsn (none, st) = (inl lsn, st)
  finish_write lsn (some e, st) = (inr e, st)

  abbrev pub write_prepared :
      Fault → DbState → Prepared → (Lsn ⊎ WalError) × Option Persistence → (Lsn ⊎ DbError) × DbState
  write_prepared fault st p (inr e, persistence) =
      (inr (wal e), record st { index = p.index; persistence = persistence })
  write_prepared fault st p (inl lsn, persistence) =
      let r =
        append_entries p.entries
          (mark_all st.generation p.new_series p.index, st.buffered_samples) in
      let written = record st { index = r.0; persistence = persistence; buffered_samples = r.1 } in
      if leb st.max_buffer_samples r.1
      then finish_write lsn (flush_state fault written)
      else (inl lsn, written)

  -- `Db::write`
  unfoldable pub write : Fault → DbState → WriteBatch → (Lsn ⊎ DbError) × DbState
  unfolding prepare mark_all append_entries flush_state
  write fault st batch =
      if st.failed
      then (inr storage_failed, st)
      else (let p =
            prepare st.generation batch
              (record { index = st.index; new_series = []; logging = []; entries = [] }) in
          write_prepared fault st p (append_log (log_record p) st.persistence))

-- `labels` of `query`: the ids under their label sets.
abbrev pub put_labels :
    HashMap LabelSet SeriesId → SeriesId → Option LabelSet → HashMap LabelSet SeriesId
put_labels m id none = m
put_labels m id (some ls) = HashMap.insert m ls id

unfoldable pub labels_map :
    Index → List SeriesId → HashMap LabelSet SeriesId → HashMap LabelSet SeriesId
labels_map ix [] m = m
labels_map ix (id ∷ ids) m = labels_map ix ids (put_labels m id (Index.labels_for ix id))

abbrev pub answer_of :
    Index
    → TimeRange
    → SeriesId
    → List Sample
    → Option Index.Series
    → List SeriesResult
    → List SeriesResult
answer_of ix range id on_disk none rest = rest
answer_of ix range id on_disk (some series) rest =
    record { labels = series.labels; samples = on_disk ++ Series.range (state_of ix id) range }
    ∷ rest

-- The loop of `query`.
unfoldable pub answers :
    Index → TimeRange → List SeriesId → HashMap SeriesId (List Sample) → List SeriesResult
answers ix range [] disk = []
answers ix range (id ∷ ids) disk =
    answer_of ix range id (or_default (HashMap.get disk id) []) (Index.get ix id)
      (answers ix range ids (HashMap.remove disk id))

module _ (crc32 : Bytes → ℕ) (from_json : Bytes → Option Segment) where
  abbrev pub read_disk :
      Option Persistence
      → List SeriesId
      → HashMap LabelSet SeriesId
      → TimeRange
      → HashMap SeriesId (List Sample) ⊎ StorageError
  read_disk none ids labels range = inl []
  read_disk (some p) ids labels range = Segments.read crc32 from_json p.disk ids labels range

  abbrev pub on_disk_samples :
      Index
      → TimeRange
      → List SeriesId
      → HashMap SeriesId (List Sample) ⊎ StorageError
      → List SeriesResult ⊎ DbError
  on_disk_samples ix range ids (inl disk) = inl (answers ix range ids disk)
  on_disk_samples ix range ids (inr e) = inr (storage e)

  -- `Db::query`
  unfoldable pub query : DbState → List Matcher → TimeRange → List SeriesResult ⊎ DbError
  unfolding labels_map answers
  query st matchers range =
      if ltb range.end range.start
      then inr (invalid_time_range range.start range.end)
      else if st.failed
      then inr storage_failed
      else (let ids = Index.resolve st.index matchers in
          on_disk_samples st.index range ids
            (read_disk st.persistence ids (labels_map st.index ids []) range))
