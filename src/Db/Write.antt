-- ===== src/Db/Write.antt =====
-- What `write` adds to what the database has under each label set.
use rust_tsdb.Prelude.{
  if_either, false-true, ℕ, ◌+◌, ◌<◌, ◌^◌, ◌≡◌, refl, ap, sym, ◌∙◌, subst, false, Option, none,
  some, List, [], ◌∷◌, ◌++◌, ◌⊎◌, inl, inr, append-nil, append_assoc, length, leb,
}
use rust_tsdb.LabelSet.{LabelSet}
use rust_tsdb.Series.{SeriesState}
use rust_tsdb.Index.{Index}
use rust_tsdb.Segments.{Segment, working}
use rust_tsdb.Segments.Image.{ReadsBack}
use rust_tsdb.Wal.Record.{Bytes, WalRecord}
use rust_tsdb.Wal.Writer.{Lsn, WalError}
use rust_tsdb.Wal.Flusher.{WalConfig}
use rust_tsdb.Db.{
  DbState, DbError, Persistence, Prepared, WriteBatch, wal, storage_failed, prepare, mark_all,
  append_entries, append_log, log_record, flush_state, finish_write, write_prepared, write,
}
use rust_tsdb.Db.Query.{on_disk, DiskHolds, IsSound}
use rust_tsdb.Db.Grow.{Grows, same-Grows, StoreHolds-Grows}
use rust_tsdb.Db.Keep.{IsOrderly, BatchSorted, mark_all-IsOrderly, append_entries-IsOrderly}
use rust_tsdb.Db.View.{state_at, held, accepted, newest_after, Extends, Extends-trans}
use rust_tsdb.Db.Batch.{
  offered, entries_for, AllKnown, append_entries-Extends, mark_all-Extends, inverted-mark_all,
  inverted-append_entries, Prepares, prepare-Prepares,
}
use rust_tsdb.Db.Flush.{HasRoom, Kept, flush_state_lem}

AllKnown-Grows :
    (ix jx : Index) (batch : WriteBatch) → Grows ix jx → AllKnown ix batch → AllKnown jx batch
AllKnown-Grows ix jx [] g k = tt
AllKnown-Grows ix jx ((labels, samples) ∷ batch) g k =
    (λ f. ((k.0 f).0, g labels (k.0 f).0 (k.0 f).1), AllKnown-Grows ix jx batch g k.1)

module _ (crc32 : Bytes → ℕ) (to_json : Segment → Bytes) (from_json : Bytes → Option Segment)
    (cfg : WalConfig) where
  -- The first loop of `write`, from its start.
  abbrev prepared : DbState → WriteBatch → Prepared
  prepared st batch =
      prepare st.generation batch
        (record { index = st.index; new_series = []; logging = []; entries = [] })

  abbrev appended : DbState → Prepared → Option Persistence → DbState
  appended st p persistence =
      let r =
        append_entries p.entries
          (mark_all st.generation p.new_series p.index, st.buffered_samples) in
      record st { index = r.0; persistence = persistence; buffered_samples = r.1 }

  -- The database with the batch in memory, before `write` looks whether the buffer is full.
  abbrev pub unflushed : DbState → WriteBatch → DbState
  unflushed st batch =
      let p = prepared st batch in
      appended st p (append_log crc32 to_json cfg (log_record p) st.persistence).1

  -- One database is another one with a batch more: under each label set stand the samples that stood there,
  -- and behind them those of the batch that come after all that was accepted before them.
  pub record Adds (st : DbState) (gs : List Segment) (batch : WriteBatch) (after : DbState)
      (gs' : List Segment) : Type 0 where
    pub sound : IsSound crc32 to_json from_json after gs'
    pub failed_same : after.failed ≡ st.failed
    pub samples_more :
        (ls : LabelSet)
        → held after.index gs' ls
          ≡ held st.index gs ls ++ accepted (state_at st.index ls).newest (offered ls batch)
    pub newest_same :
        (ls : LabelSet)
        → (state_at after.index ls).newest
          ≡ newest_after (state_at st.index ls).newest (offered ls batch)

  -- What `write` gives: a position, with the batch added; or an error of the log, with nothing added.
  abbrev pub Writes : DbState → List Segment → WriteBatch → (Lsn ⊎ DbError) × DbState → Type 0
  Writes st gs batch (inl lsn, after) = (gs' : List Segment) × Adds st gs batch after gs'
  Writes st gs batch (inr e, after) = (k : WalError) × (e ≡ wal k) × Adds st gs [] after gs

  orderly :
      (st : DbState) (gs : List Segment)
      → IsSound crc32 to_json from_json st gs
      → IsOrderly st.index
  orderly st gs sound = record { formed = sound.index_formed; valid = sound.series_valid }

  DiskHolds-append_log :
      (rec : WalRecord) (ix jx : Index) (o : Option Persistence) (gs : List Segment)
      → Grows ix jx
      → DiskHolds crc32 to_json from_json ix o gs
      → DiskHolds crc32 to_json from_json jx (append_log crc32 to_json cfg rec o).1 gs
  DiskHolds-append_log rec ix jx none gs g d = d
  DiskHolds-append_log rec ix jx (some p) gs g d =
      StoreHolds-Grows crc32 to_json from_json ix jx p.disk gs g d

  unlogged-Adds :
      (st : DbState) (gs : List Segment) (batch : WriteBatch)
      → IsSound crc32 to_json from_json st gs
      → Prepares
          (record { index = st.index; new_series = []; logging = []; entries = [] })
          batch
          (prepared st batch)
      → Adds st gs []
          (record st {
            index = (prepared st batch).index;
            persistence =
                (append_log crc32 to_json cfg (log_record (prepared st batch)) st.persistence).1;
          })
          gs
  unlogged-Adds st gs batch sound d = record {
    sound = record {
      index_formed = d.orderly.formed;
      series_valid = d.orderly.valid;
      disk_holds =
          DiskHolds-append_log (log_record (prepared st batch)) st.index (prepared st batch).index
            st.persistence gs d.grows sound.disk_holds;
    };
    failed_same = refl;
    samples_more = λ ls.
        ap (λ (s : SeriesState). on_disk gs ls ++ s.samples) (d.states ls)
        ∙ sym (append-nil (held st.index gs ls));
    newest_same = λ ls. ap (λ (s : SeriesState). s.newest) (d.states ls);
  }

  appended-Extends :
      (st : DbState) (batch : WriteBatch)
      → Prepares
          (record { index = st.index; new_series = []; logging = []; entries = [] })
          batch
          (prepared st batch)
      → (ls : LabelSet)
      → Extends (state_at st.index ls) (state_at (unflushed st batch).index ls) (offered ls batch)
  appended-Extends st batch d ls =
      let p = prepared st batch in
      let marked = mark_all st.generation p.new_series p.index in
      let same = inverted-mark_all st.generation p.new_series p.index in
      let entries : p.entries ≡ entries_for marked.inverted batch =
        d.entries_more ∙ ap (λ m. entries_for m batch) (sym same) in
      subst
        (λ (s : SeriesState). Extends s (state_at (unflushed st batch).index ls) (offered ls batch))
        (d.states ls)
        (Extends-trans (state_at p.index ls) (state_at marked ls)
          (state_at (unflushed st batch).index ls) [] (offered ls batch)
          (mark_all-Extends st.generation p.new_series p.index ls)
          (subst
            (λ es.
              Extends (state_at marked ls)
                (state_at (append_entries es (marked, st.buffered_samples)).0 ls)
                (offered ls batch))
            (sym entries)
            (append_entries-Extends batch marked st.buffered_samples
              (mark_all-IsOrderly st.generation p.new_series p.index d.orderly).formed
              (AllKnown-Grows p.index marked batch (same-Grows p.index marked same) d.known) ls)))

  unflushed-Adds :
      (st : DbState) (gs : List Segment) (batch : WriteBatch)
      → IsSound crc32 to_json from_json st gs
      → Prepares
          (record { index = st.index; new_series = []; logging = []; entries = [] })
          batch
          (prepared st batch)
      → Adds st gs batch (unflushed st batch) gs
  unflushed-Adds st gs batch sound d =
      let p = prepared st batch in
      let marked = mark_all st.generation p.new_series p.index in
      let final = (unflushed st batch).index in
      let o =
        append_entries-IsOrderly p.entries marked st.buffered_samples
          (mark_all-IsOrderly st.generation p.new_series p.index d.orderly) in
      let same =
        inverted-append_entries p.entries marked st.buffered_samples
        ∙ inverted-mark_all st.generation p.new_series p.index in
      record {
        sound = record {
          index_formed = o.formed;
          series_valid = o.valid;
          disk_holds =
              DiskHolds-append_log (log_record p) st.index final st.persistence gs
                (λ ls id h. same-Grows p.index final same ls id (d.grows ls id h)) sound.disk_holds;
        };
        failed_same = refl;
        samples_more = λ ls.
            ap (λ xs. on_disk gs ls ++ xs) (appended-Extends st batch d ls).samples_more
            ∙ sym (
                append_assoc (on_disk gs ls) (state_at st.index ls).samples
                  (accepted (state_at st.index ls).newest (offered ls batch)));
        newest_same = λ ls. (appended-Extends st batch d ls).newest_same;
      }

  -- A flush after the batch is in memory changes nothing of what is held.
  Kept-Adds :
      (st mid after : DbState) (gs gs' : List Segment) (batch : WriteBatch)
      → Adds st gs batch mid gs
      → Kept crc32 to_json from_json cfg mid gs after gs'
      → Adds st gs batch after gs'
  Kept-Adds st mid after gs gs' batch a k = record {
    sound = k.sound;
    failed_same = k.failed_same ∙ a.failed_same;
    samples_more = λ ls. (k.view_same ls).0 ∙ a.samples_more ls;
    newest_same = λ ls. (k.view_same ls).1 ∙ a.newest_same ls;
  }

  module _ (back : ReadsBack to_json from_json) (u32 : (b : Bytes) → crc32 b < 2 ^ 32) where
    write_prepared-Writes :
        (st : DbState) (gs : List Segment) (batch : WriteBatch) (p : Prepared)
        (r : (Lsn ⊎ WalError) × Option Persistence)
        → Adds st gs [] (record st { index = p.index; persistence = r.1 }) gs
        → Adds st gs batch (appended st p r.1) gs
        → HasRoom crc32 to_json from_json cfg (appended st p r.1)
        → Writes st gs batch (write_prepared crc32 to_json cfg working st p r)
    write_prepared-Writes st gs batch p (inr e, persistence) nothing all room = (e, refl, nothing)
    write_prepared-Writes st gs batch p (inl lsn, persistence) nothing all room =
        let written = appended st p persistence in
        let (after, gs', flushes, kept) =
          flush_state_lem crc32 to_json from_json cfg back u32 written gs all.sound room in
        if_either (Writes st gs batch) (leb st.max_buffer_samples written.buffered_samples)
          (finish_write crc32 to_json cfg lsn (flush_state crc32 to_json cfg working written))
          (inl lsn, written)
          (λ b.
            subst (λ f. Writes st gs batch (finish_write crc32 to_json cfg lsn f)) (sym flushes)
              (gs', Kept-Adds st written after gs gs' batch all kept))
          (λ b. (gs, all))

    -- On a sound database that has not failed, for a batch of label sets in order, when the calls of the system
    -- succeed, the JSON text of a segment is read back, the checksum has 32 bits, there are ids left for the
    -- batch, a segment's number is left and its text has fewer than 2^64 bytes, `write` gives a position or an error
    -- of the log, and leaves a sound database. When it gives a position, then under every label set stand the
    -- samples that stood there, on disk and in memory, and behind them exactly the samples of the batch
    -- that are later than all before them, whether or not the write filled the buffer and flushed it.
    -- When it gives an error, under every label set stands what stood there.
    pub write-Writes :
        (st : DbState) (gs : List Segment) (batch : WriteBatch)
        → IsSound crc32 to_json from_json st gs
        → st.failed ≡ false
        → BatchSorted batch
        → st.index.next_id + length batch < 2 ^ 64
        → HasRoom crc32 to_json from_json cfg (unflushed st batch)
        → Writes st gs batch (write crc32 to_json cfg working st batch)
    unfolding write
    write-Writes st gs batch sound ok sorted ids room =
        let p = prepared st batch in
        let r = append_log crc32 to_json cfg (log_record p) st.persistence in
        let d =
          prepare-Prepares st.generation batch
            (record { index = st.index; new_series = []; logging = []; entries = [] })
            (orderly st gs sound) sorted ids in
        if_either (Writes st gs batch) st.failed (inr storage_failed, st)
          (write_prepared crc32 to_json cfg working st p r) (λ b. absurd (false-true (sym ok ∙ b)))
          (λ b.
            write_prepared-Writes st gs batch p r (unlogged-Adds st gs batch sound d)
              (unflushed-Adds st gs batch sound d) room)
