-- ===== src/Db/Failed.antt =====
-- How a flush or a write ends that gives an error.
use rust_tsdb.Prelude.{
  sym, ◌∙◌, subst, ltb, is_empty, Bool-cases, if◌then◌else◌, ℕ, ◌≡◌, refl, ap, true, false, Option,
  none, some, List, [], ◌⊎◌, inl, inr, leb, nat_beq,
}
use mathlib.Core.Option
use rust_tsdb.Model.{SeriesId, Sample, TimeRange, Matcher}
use rust_tsdb.Index
use rust_tsdb.Index.{Index}
use rust_tsdb.Segments
use rust_tsdb.Segments.{
  Segment, SegmentStore, StorageError, Fault, working, unopened, unsynced, unwritten, unremoved,
}
use rust_tsdb.Wal.Record.{Bytes}
use rust_tsdb.Wal.Writer.{Lsn, WalError, log_io}
use rust_tsdb.Wal.Flusher.{WalConfig, Log}
use rust_tsdb.Db.{
  DbState, DbError, Persistence, Prepared, WriteBatch, storage_failed, invalid_time_range, wal,
  after_flush, removal_fails, remove_logs, cut_log, take_table, prepare, append_log, log_record,
  append_entries, mark_all, flush_with, flush_state, flush, finish_write, write_prepared, write,
  query,
}

no_error : (e : DbError) → none ≡ some e → ⊥
no_error e h = cc

no_lsn : (lsn : Lsn) (e : DbError) → inl lsn ≡ inr e → ⊥
no_lsn lsn e h = cc

-- A database is another one, but for the files of its log.
pub record AsAfter (after other : DbState) : Type 0 where
  pub index_same : after.index ≡ other.index
  pub disk_same :
      Option.map (λ (p : Persistence). p.disk) after.persistence
      ≡ Option.map (λ (p : Persistence). p.disk) other.persistence
  pub buffered_none : (after.buffered_samples ≡ 0) × (other.buffered_samples ≡ 0)
  pub generation_same : after.generation ≡ other.generation
  pub running : (after.failed ≡ false) × (other.failed ≡ false)

-- The removal of old log files failed.
pub record Removal (fault : Fault) (e : DbError) : Type 0 where
  pub removed : ℕ
  pub fault_is : fault ≡ unremoved removed
  pub error_is : e ≡ wal log_io

-- How a flush ends that gives an error, beside the same flush without a fault.
abbrev Ends : Fault → Option DbError × DbState → Option DbError × DbState → Type 0
Ends fault r w =
    (e : DbError)
    → r.0 ≡ some e
    → (r.1.failed ≡ true) ⊎ (Removal fault e × (w.0 ≡ none) × AsAfter r.1 w.1)

-- How a write ends: by a failed flush, by an error of the log, or by a failed removal once all is on disk.
abbrev EndsWrite : Fault → DbState → (Lsn ⊎ DbError) × DbState → (Lsn ⊎ DbError) × DbState → Type 0
EndsWrite fault st r w =
    (e : DbError)
    → r.0 ≡ inr e
    → (r.1.failed ≡ true)
      ⊎ (((k : WalError) × (e ≡ wal k)
            × (r.1.failed ≡ st.failed)
            × (r.1.buffered_samples ≡ st.buffered_samples))
          ⊎ (Removal fault e × ((lsn : Lsn) × (w.0 ≡ inl lsn)) × AsAfter r.1 w.1))

abbrev failing : DbError → Lsn ⊎ DbError
failing e = inr e

same_error : (d e : DbError) → failing d ≡ failing e → d ≡ e
same_error d e h = cc

same_option : (d e : DbError) → some d ≡ some e → d ≡ e
same_option d e h = cc

not_none : (e : DbError) → some e ≡ none → ⊥
not_none e h = cc

module _ (crc32 : Bytes → ℕ) (to_json : Segment → Bytes) (from_json : Bytes → Option Segment)
    (cfg : WalConfig) where
  same_write :
      (n : ℕ) (ix : Index) (o : Option (List Segments.DiskSeries)) (store : SegmentStore)
      → Segments.write_segment crc32 to_json (unremoved n) ix o store
        ≡ Segments.write_segment crc32 to_json working ix o store
  same_write n ix none store = refl
  same_write n ix (some series) store = refl

  -- Every operation gives the error that asks for a restart, but for a query over a range that ends before it
  -- starts, which gives the error of that; and changes nothing.
  pub record Refuses (st : DbState) : Type 0 where
    pub refuses_write :
        (fault : Fault) (batch : WriteBatch)
        → write crc32 to_json cfg fault st batch ≡ (inr storage_failed, st)
    pub refuses_flush :
        (fault : Fault) → flush crc32 to_json cfg fault st ≡ (some storage_failed, st)
    pub refuses_query :
        (ms : List Matcher) (range : TimeRange)
        → query crc32 from_json st ms range
          ≡ inr (
              if ltb range.end range.start
              then invalid_time_range range.start range.end
              else storage_failed)

  failed-Refuses : (st : DbState) → st.failed ≡ true → Refuses st
  unfolding write flush query
  failed-Refuses st h = record {
    refuses_write = λ fault batch. rw h refl;
    refuses_flush = λ fault. rw h refl;
    refuses_query = λ ms range. elim (Bool-cases (ltb range.end range.start)) [
      | inl e ↦ rw e refl
      | inr e ↦ rw (e, h) refl
    ];
  }

  -- A removal that will fail changes nothing of the store's flush.
  flush-unremoved :
      (n : ℕ) (table : List (SeriesId × List Sample)) (ix : Index) (store : SegmentStore)
      → Segments.flush crc32 to_json (unremoved n) table ix store
        ≡ Segments.flush crc32 to_json working table ix store
  unfolding Segments.flush
  flush-unremoved n table ix store = elim (Bool-cases (is_empty table)) [
    | inl e ↦ rw e refl
    | inr e ↦ rw e (same_write n ix (Segments.disk_series ix (Segments.sort_entries table)) store)
  ]

  removed-Ends :
      (fault : Fault) (st : DbState) (log : Log) (closed : ℕ) (disk : SegmentStore) (o : Option ℕ)
      → removal_fails fault ≡ o
      → st.failed ≡ false
      → Ends fault
          (after_flush crc32 to_json cfg fault st log closed (none, disk))
          (after_flush crc32 to_json cfg working st log closed (none, disk))
  unfolding remove_logs
  removed-Ends working st log closed disk o h ok = λ e f. absurd (no_error e f)
  removed-Ends unopened st log closed disk o h ok = λ e f. absurd (no_error e f)
  removed-Ends unsynced st log closed disk o h ok = λ e f. absurd (no_error e f)
  removed-Ends (unwritten bytes) st log closed disk o h ok = λ e f. absurd (no_error e f)
  removed-Ends (unremoved n) st log closed disk o h ok = λ e f. inr (
    record { removed = n; fault_is = refl; error_is = sym (same_option (wal log_io) e f) },
    refl,
    record {
      index_same = refl;
      disk_same = refl;
      buffered_none = (refl, refl);
      generation_same = refl;
      running = (ok, ok);
    },
  )

  after_flush-Ends :
      (fault : Fault) (st : DbState) (log : Log) (closed : ℕ)
      (r : Option StorageError × SegmentStore)
      → st.failed ≡ false
      → Ends fault
          (after_flush crc32 to_json cfg fault st log closed r)
          (after_flush crc32 to_json cfg working st log closed r)
  after_flush-Ends fault st log closed (some k, disk) ok = λ e h. inl refl
  after_flush-Ends fault st log closed (none, disk) ok =
      removed-Ends fault st log closed disk (removal_fails fault) refl ok

  flush_with-Ends :
      (fault : Fault) (st : DbState) (p : Option Persistence)
      → st.failed ≡ false
      → Ends fault
          (flush_with crc32 to_json cfg fault st p)
          (flush_with crc32 to_json cfg working st p)
  flush_with-Ends fault st none ok = λ e h. absurd (no_error e h)
  flush_with-Ends fault st (some p) ok = λ e h.
      let (log, closed) = cut_log crc32 to_json cfg p.log in
      let (table, ix) = take_table (Index.resolve st.index []) st.index in
      let taken : DbState = record st { index = ix } in
      let r = Segments.flush crc32 to_json fault table ix p.disk in
      elim (after_flush-Ends fault taken log closed r ok e h) [
        | inl f ↦ inl f
        | inr (m, done, same) ↦
            let as_working : r ≡ Segments.flush crc32 to_json working table ix p.disk =
              ap (λ f. Segments.flush crc32 to_json f table ix p.disk) m.fault_is
              ∙ flush-unremoved m.removed table ix p.disk in
            inr (
              m,
              ap (λ x. (after_flush crc32 to_json cfg working taken log closed x).0)
                    (sym as_working)
                  ∙ done,
              subst
                  (λ x.
                    AsAfter (after_flush crc32 to_json cfg fault taken log closed r).1
                      (after_flush crc32 to_json cfg working taken log closed x).1)
                  as_working same,
            )
      ]

  flush_state-Ends :
      (fault : Fault) (st : DbState)
      → st.failed ≡ false
      → Ends fault
          (flush_state crc32 to_json cfg fault st)
          (flush_state crc32 to_json cfg working st)
  unfolding flush_state
  flush_state-Ends fault st ok = elim (Bool-cases (nat_beq st.buffered_samples 0)) [
    | inl e ↦ rw e (λ d h. absurd (no_error d h))
    | inr e ↦ rw e (flush_with-Ends fault st st.persistence ok)
  ]

  flush-running :
      (fault : Fault) (st : DbState)
      → st.failed ≡ false
      → flush crc32 to_json cfg fault st ≡ flush_state crc32 to_json cfg fault st
  unfolding flush
  flush-running fault st h = rw h refl

  flush-failed :
      (fault : Fault) (st : DbState)
      → st.failed ≡ true
      → (flush crc32 to_json cfg fault st).1.failed ≡ true
  unfolding flush
  flush-failed fault st h = rw h refl

  flush-Ends :
      (fault : Fault) (st : DbState)
      → Ends fault (flush crc32 to_json cfg fault st) (flush crc32 to_json cfg working st)
  flush-Ends fault st = elim (Bool-cases st.failed) [
    | inl b ↦ λ e h. inl (flush-failed fault st b)
    | inr b ↦
        subst (λ w. Ends fault (flush crc32 to_json cfg fault st) w)
          (sym (flush-running working st b))
          (subst (λ r. Ends fault r (flush_state crc32 to_json cfg working st))
            (sym (flush-running fault st b)) (flush_state-Ends fault st b))
  ]

  finish_write-Ends :
      (fault : Fault) (st : DbState) (lsn : Lsn) (r w : Option DbError × DbState)
      → Ends fault r w
      → EndsWrite fault st
          (finish_write crc32 to_json cfg lsn r)
          (finish_write crc32 to_json cfg lsn w)
  finish_write-Ends fault st lsn (none, after) w f = λ e h. absurd (no_lsn lsn e h)
  finish_write-Ends fault st lsn (some d, after) (some c, other) f =
      λ e h. elim (f d refl) [ inl b ↦ inl b | inr (m, done, same) ↦ absurd (not_none c done) ]
  finish_write-Ends fault st lsn (some d, after) (none, other) f = λ e h. elim (f d refl) [
    | inl b ↦ inl b
    | inr (m, done, same) ↦ inr (
        inr (
          record {
            removed = m.removed;
            fault_is = m.fault_is;
            error_is = sym (same_error d e h) ∙ m.error_is;
          },
          (lsn, refl),
          same,
        ))
  ]

  write_prepared-Ends :
      (fault : Fault) (st : DbState) (p : Prepared) (r : (Lsn ⊎ WalError) × Option Persistence)
      → st.failed ≡ false
      → EndsWrite fault st
          (write_prepared crc32 to_json cfg fault st p r)
          (write_prepared crc32 to_json cfg working st p r)
  write_prepared-Ends fault st p (inr k, persistence) ok =
      λ e h. inr (inl (k, sym (same_error (wal k) e h), refl, refl))
  write_prepared-Ends fault st p (inl lsn, persistence) ok =
      let r =
        append_entries p.entries
          (mark_all st.generation p.new_series p.index, st.buffered_samples) in
      let written = record st { index = r.0; persistence = persistence; buffered_samples = r.1 } in
      elim (Bool-cases (leb st.max_buffer_samples r.1)) [
        | inl b ↦ rw b (
            finish_write-Ends fault st lsn (flush_state crc32 to_json cfg fault written)
              (flush_state crc32 to_json cfg working written) (flush_state-Ends fault written ok))
        | inr b ↦ rw b (λ e h. absurd (no_lsn lsn e h))
      ]

  abbrev prepared_write : Fault → DbState → WriteBatch → (Lsn ⊎ DbError) × DbState
  prepared_write fault st batch =
      let p =
        prepare st.generation batch
          (record { index = st.index; new_series = []; logging = []; entries = [] }) in
      write_prepared crc32 to_json cfg fault st p
        (append_log crc32 to_json cfg (log_record p) st.persistence)

  write-running :
      (fault : Fault) (st : DbState) (batch : WriteBatch)
      → st.failed ≡ false
      → write crc32 to_json cfg fault st batch ≡ prepared_write fault st batch
  unfolding write
  write-running fault st batch h = rw h refl

  write-failed :
      (fault : Fault) (st : DbState) (batch : WriteBatch)
      → st.failed ≡ true
      → (write crc32 to_json cfg fault st batch).1.failed ≡ true
  unfolding write
  write-failed fault st batch h = rw h refl

  write-Ends :
      (fault : Fault) (st : DbState) (batch : WriteBatch)
      → EndsWrite fault st
          (write crc32 to_json cfg fault st batch)
          (write crc32 to_json cfg working st batch)
  write-Ends fault st batch = elim (Bool-cases st.failed) [
    | inl b ↦ λ e h. inl (write-failed fault st batch b)
    | inr b ↦
        let p =
          prepare st.generation batch
            (record { index = st.index; new_series = []; logging = []; entries = [] }) in
        subst (λ w. EndsWrite fault st (write crc32 to_json cfg fault st batch) w)
          (sym (write-running working st batch b))
          (subst (λ r. EndsWrite fault st r (prepared_write working st batch))
            (sym (write-running fault st batch b))
            (write_prepared-Ends fault st p
              (append_log crc32 to_json cfg (log_record p) st.persistence) b))
  ]

  -- A flush that gives an error, whatever the database was before, ends in one of two ways. It leaves a database
  -- that refuses every operation. Or the error is that of the removal of old log files: then the flush without a
  -- fault succeeds, and the database is the one that it leaves, but for the files of the log: nothing is
  -- counted as buffered, the store is the same, and it has not failed.
  pub flush-Refuses :
      (fault : Fault) (st : DbState) (e : DbError)
      → (flush crc32 to_json cfg fault st).0 ≡ some e
      → Refuses (flush crc32 to_json cfg fault st).1
        ⊎ (Removal fault e
            × ((flush crc32 to_json cfg working st).0 ≡ none)
            × AsAfter (flush crc32 to_json cfg fault st).1 (flush crc32 to_json cfg working st).1)
  flush-Refuses fault st e h = elim (flush-Ends fault st e h) [
    | inl b ↦ inl (failed-Refuses (flush crc32 to_json cfg fault st).1 b)
    | inr m ↦ inr m
  ]

  -- A write that gives an error, whatever the database was before, ends in one of three ways. It leaves a database
  -- that refuses every operation. Or the error is one of the log, and neither the number of buffered samples nor
  -- whether the database has failed is changed. Or the removal of old log files failed: then the write
  -- without a fault gives a position, and the database is the one that it leaves, but for the log's files.
  pub write-Refuses :
      (fault : Fault) (st : DbState) (batch : WriteBatch) (e : DbError)
      → (write crc32 to_json cfg fault st batch).0 ≡ inr e
      → Refuses (write crc32 to_json cfg fault st batch).1
        ⊎ (((k : WalError) × (e ≡ wal k)
              × ((write crc32 to_json cfg fault st batch).1.failed ≡ st.failed)
              × ((write crc32 to_json cfg fault st batch).1.buffered_samples ≡ st.buffered_samples))
            ⊎ (Removal fault e
                × ((lsn : Lsn) × ((write crc32 to_json cfg working st batch).0 ≡ inl lsn))
                × AsAfter
                    (write crc32 to_json cfg fault st batch).1
                    (write crc32 to_json cfg working st batch).1))
  write-Refuses fault st batch e h = elim (write-Ends fault st batch e h) [
    | inl b ↦ inl (failed-Refuses (write crc32 to_json cfg fault st batch).1 b)
    | inr m ↦ inr m
  ]
