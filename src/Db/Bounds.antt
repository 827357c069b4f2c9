-- ===== src/Db/Bounds.antt =====
-- How many samples the database keeps in memory.
use rust_tsdb.Prelude.{
  ◌+◌, ◌^◌, ◌≤◌, length, if_either, false-true, ℕ, ◌<◌, ◌≡◌, refl, sym, subst, false, Option, none,
  some, List, [], ◌∷◌, ◌⊎◌, inl, inr, leb, nat_beq, nat_beq_iff, arith,
}
use rust_tsdb.Index
use rust_tsdb.Index.{Index}
use rust_tsdb.Segments
use rust_tsdb.Segments.{Segment, SegmentStore, StorageError, Fault}
use rust_tsdb.Wal.Record.{Bytes, WalRecord}
use rust_tsdb.Wal.Writer.{Lsn, WalError}
use rust_tsdb.Wal.Flusher.{WalConfig, Log}
use rust_tsdb.Db.{
  DbState, DbError, Persistence, Prepared, WriteBatch, storage_failed, prepare, mark_all,
  append_entries, append_log, log_record, cut_log, take_table, after_flush, flush_with, flush_state,
  flush, finish_write, write_prepared, write,
}
use rust_tsdb.Db.Keep.{
  IsOrderly, BatchSorted, prepare-IsOrderly, mark_all-IsOrderly, append_entries-IsOrderly,
  take_table-IsOrderly,
}
use rust_tsdb.Db.Memory.{in_memory, prepare-counts, appended-counts, take_table-counts}
use rust_tsdb.Db.History.{Operation, writing, flushing}

abbrev pub HasStore : DbState → Type 0
HasStore st = (p : Persistence) × (st.persistence ≡ some p)

-- A database with a segment store whose settings allow this many samples in memory: it counts at least those that
-- its series have, and fewer than are allowed, unless it has failed.
record Bounded (most : ℕ) (st : DbState) : Type 0 where
  has_store : HasStore st
  setting : st.max_buffer_samples ≡ most
  orderly : IsOrderly st.index
  counted : in_memory st.index ≤ st.buffered_samples
  within : st.failed ≡ false → st.buffered_samples < most

module _ (crc32 : Bytes → ℕ) (to_json : Segment → Bytes) (cfg : WalConfig) where
  -- An operation, with what the system does when it flushes.
  abbrev pub attempt : DbState → Fault × Operation → DbState
  attempt st (fault, writing batch) = (write crc32 to_json cfg fault st batch).1
  attempt st (fault, flushing) = (flush crc32 to_json cfg fault st).1

  abbrev pub attempts : DbState → List (Fault × Operation) → DbState
  attempts st [] = st
  attempts st (a ∷ ops) = attempts (attempt st a) ops

  -- The label sets of each batch are in order, and there are ids left for it.
  abbrev Fits : DbState → Fault × Operation → Type 0
  Fits st (fault, writing batch) = BatchSorted batch × (st.index.next_id + length batch < 2 ^ 64)
  Fits st (fault, flushing) = Unit

  abbrev pub FitsAll : DbState → List (Fault × Operation) → Type 0
  FitsAll st [] = Unit
  FitsAll st (a ∷ ops) = Fits st a × FitsAll (attempt st a) ops

  after_flush-Bounded :
      (fault : Fault) (most : ℕ) (st : DbState) (log : Log) (closed : ℕ)
      (r : Option StorageError × SegmentStore)
      → 0 < most
      → st.max_buffer_samples ≡ most
      → IsOrderly st.index
      → in_memory st.index ≡ 0
      → Bounded most (after_flush crc32 to_json cfg fault st log closed r).1
  after_flush-Bounded fault most st log closed (some e, disk) h l o m = record {
    has_store = (_, refl);
    setting = l;
    orderly = o;
    counted = omega (arith, m);
    within = λ f. absurd (false-true (sym f));
  }
  after_flush-Bounded fault most st log closed (none, disk) h l o m = record {
    has_store = (_, refl);
    setting = l;
    orderly = o;
    counted = omega (arith, m);
    within = λ f. h;
  }

  flush_with-Bounded :
      (fault : Fault) (most : ℕ) (st : DbState) (p : Persistence)
      → 0 < most
      → st.max_buffer_samples ≡ most
      → IsOrderly st.index
      → Bounded most (flush_with crc32 to_json cfg fault st (some p)).1
  unfolding Index.resolve
  flush_with-Bounded fault most st p h l o =
      let (log, closed) = cut_log crc32 to_json cfg p.log in
      let (table, ix) = take_table st.index.all_ids st.index in
      after_flush-Bounded fault most (record st { index = ix }) log closed
        (Segments.flush crc32 to_json fault table ix p.disk) h l (take_table-IsOrderly st.index o)
        (take_table-counts st.index o)

  -- A flush brings the number down, whatever it was.
  flush_state-Bounded :
      (fault : Fault) (most : ℕ) (st : DbState)
      → HasStore st
      → 0 < most
      → st.max_buffer_samples ≡ most
      → IsOrderly st.index
      → in_memory st.index ≤ st.buffered_samples
      → Bounded most (flush_state crc32 to_json cfg fault st).1
  unfolding flush_state
  flush_state-Bounded fault most st (p, has) h l o m =
      if_either (λ (r : Option DbError × DbState). Bounded most r.1) (nat_beq st.buffered_samples 0)
        (none, st) (flush_with crc32 to_json cfg fault st st.persistence)
        (λ b. record {
          has_store = (p, has);
          setting = l;
          orderly = o;
          counted = m;
          within = λ f. omega (arith, h, (nat_beq_iff st.buffered_samples 0).0 b);
        })
        (λ b.
          subst (λ o. Bounded most (flush_with crc32 to_json cfg fault st o).1) (sym has)
            (flush_with-Bounded fault most st p h l o))

  flush-Bounded :
      (fault : Fault) (most : ℕ) (st : DbState)
      → 0 < most
      → Bounded most st
      → Bounded most (flush crc32 to_json cfg fault st).1
  unfolding flush
  flush-Bounded fault most st h b =
      if_either (λ (r : Option DbError × DbState). Bounded most r.1) st.failed
        (some storage_failed, st) (flush_state crc32 to_json cfg fault st) (λ f. b)
        (λ f. flush_state-Bounded fault most st b.has_store h b.setting b.orderly b.counted)

  append_log-HasStore :
      (rec : WalRecord) (o : Option Persistence) (p : Persistence)
      → o ≡ some p
      → (q : Persistence) × ((append_log crc32 to_json cfg rec o).1 ≡ some q)
  append_log-HasStore rec none p h = (p, h)
  append_log-HasStore rec (some o) p h = (_, refl)

  finish_write-Bounded :
      (most : ℕ) (lsn : Lsn) (r : Option DbError × DbState)
      → Bounded most r.1
      → Bounded most (finish_write crc32 to_json cfg lsn r).1
  finish_write-Bounded most lsn (none, st) b = b
  finish_write-Bounded most lsn (some e, st) b = b

  write_prepared-Bounded :
      (fault : Fault) (most : ℕ) (st : DbState) (p : Prepared)
      (r : (Lsn ⊎ WalError) × Option Persistence)
      → 0 < most
      → Bounded most st
      → IsOrderly p.index
      → in_memory p.index ≤ st.buffered_samples
      → ((q : Persistence) × (r.1 ≡ some q))
      → Bounded most (write_prepared crc32 to_json cfg fault st p r).1
  write_prepared-Bounded fault most st p (inr e, o) h b ord m has = record {
    has_store = has;
    setting = b.setting;
    orderly = ord;
    counted = m;
    within = b.within;
  }
  write_prepared-Bounded fault most st p (inl lsn, o) h b ord m has =
      let marked = mark_all st.generation p.new_series p.index in
      let added = append_entries p.entries (marked, st.buffered_samples) in
      let written = record st { index = added.0; persistence = o; buffered_samples = added.1 } in
      let kept : IsOrderly added.0 =
        append_entries-IsOrderly p.entries marked st.buffered_samples
          (mark_all-IsOrderly st.generation p.new_series p.index ord) in
      let more =
        appended-counts st.generation p.new_series p.entries p.index st.buffered_samples ord.formed
          m in
      if_either (λ (r : (Lsn ⊎ DbError) × DbState). Bounded most r.1)
        (leb st.max_buffer_samples added.1)
        (finish_write crc32 to_json cfg lsn (flush_state crc32 to_json cfg fault written))
        (inl lsn, written)
        (λ f.
          finish_write-Bounded most lsn (flush_state crc32 to_json cfg fault written)
            (flush_state-Bounded fault most written has h b.setting kept more))
        (λ f. record {
          has_store = has;
          setting = b.setting;
          orderly = kept;
          counted = more;
          within = λ g. ground (arith, f, b.setting);
        })

  write-Bounded :
      (fault : Fault) (most : ℕ) (st : DbState) (batch : WriteBatch)
      → 0 < most
      → BatchSorted batch
      → st.index.next_id + length batch < 2 ^ 64
      → Bounded most st
      → Bounded most (write crc32 to_json cfg fault st batch).1
  unfolding write
  write-Bounded fault most st batch h s room b =
      let start : Prepared = record {
        index = st.index;
        new_series = [];
        logging = [];
        entries = [];
      } in
      let p = prepare st.generation batch start in
      if_either (λ (r : (Lsn ⊎ DbError) × DbState). Bounded most r.1) st.failed
        (inr storage_failed, st)
        (write_prepared crc32 to_json cfg fault st p
          (append_log crc32 to_json cfg (log_record p) st.persistence))
        (λ f. b)
        (λ f.
          write_prepared-Bounded fault most st p
            (append_log crc32 to_json cfg (log_record p) st.persistence) h b
            (prepare-IsOrderly st.generation batch start b.orderly s room)
            (omega (arith, b.counted, prepare-counts st.generation batch start b.orderly s room))
            (append_log-HasStore (log_record p) st.persistence b.has_store.0 b.has_store.1))

  attempts-Bounded_lem :
      (ops : List (Fault × Operation)) (most : ℕ) (st : DbState)
      → 0 < most
      → FitsAll st ops
      → Bounded most st
      → Bounded most (attempts st ops)
  attempts-Bounded_lem [] most st h s b = b
  attempts-Bounded_lem ((fault, writing batch) ∷ ops) most st h s b =
      attempts-Bounded_lem ops most (attempt st (fault, writing batch)) h s.1
        (write-Bounded fault most st batch h s.0.0 s.0.1 b)
  attempts-Bounded_lem ((fault, flushing) ∷ ops) most st h s b =
      attempts-Bounded_lem ops most (attempt st (fault, flushing)) h s.1
        (flush-Bounded fault most st h b)

  -- From a database with a segment store, with its index and series in order, with a buffer of at least one sample,
  -- and which counts at least the samples that its series have in memory and fewer than the buffer's limit, after any
  -- flushes and any writes of label sets in order for which ids are left, whatever calls of the system fail:
  -- the database has failed, or all its series together have fewer samples in memory than the limit
  -- `max_buffer_samples`, however large the batches were.
  pub attempts-in_memory :
      (ops : List (Fault × Operation)) (st : DbState)
      → HasStore st
      → IsOrderly st.index
      → in_memory st.index ≤ st.buffered_samples
      → st.buffered_samples < st.max_buffer_samples
      → FitsAll st ops
      → (attempts st ops).failed ≡ false
      → in_memory (attempts st ops).index < st.max_buffer_samples
  attempts-in_memory ops st has ord m l s ok =
      let b =
        attempts-Bounded_lem ops st.max_buffer_samples st (omega arith) s (record {
          has_store = has;
          setting = refl;
          orderly = ord;
          counted = m;
          within = λ f. l;
        }) in
      omega (arith, b.counted, b.within ok)
