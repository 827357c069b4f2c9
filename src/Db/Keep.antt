-- ===== src/Db/Keep.antt =====
-- `write` keeps the index well formed and the series in order, on every branch.
use rust_tsdb.Prelude.{
  if_either, ℕ, ◌+◌, ◌≤◌, ◌<◌, ◌^◌, ap, sym, subst, Option, none, some, List, [], ◌∷◌, ◌⊎◌, inl,
  inr, length, All, is_empty, leb, nat_beq, Bool-cases, arith,
}
use rust_tsdb.Prelude.Eq.{nat_eq}
use rust_tsdb.Prelude.HashMap
use rust_tsdb.Prelude.HashMap.{HashMap, or_default, get-insert}
use rust_tsdb.Model.{SeriesId, Sample}
use rust_tsdb.LabelSet.{LabelSet, label_set_eq}
use rust_tsdb.Ids.Sets.{mem}
use rust_tsdb.LabelSet.Sorted.{IsSorted}
use rust_tsdb.Series
use rust_tsdb.Series.{SeriesState, default_state}
use rust_tsdb.Series.Valid.{
  IsValid, UpTo-nil, append-IsValid, mark_logged-IsValid, default_state-IsValid,
}
use rust_tsdb.Index
use rust_tsdb.Index.{Index, encode, encode_as, add_series}
use rust_tsdb.Index.Invariant.{IsWellFormed}
use rust_tsdb.Index.Encode.{encode-Encoded}
use rust_tsdb.Segments
use rust_tsdb.Segments.{Segment, SegmentStore, StorageError, Fault}
use rust_tsdb.Wal.Record.{Bytes}
use rust_tsdb.Wal.Writer.{Lsn, WalError}
use rust_tsdb.Wal.Flusher.{WalConfig, Log}
use rust_tsdb.Db.{
  DbState, DbError, Persistence, Prepared, WriteBatch, state_of, with_state, storage_failed,
  prepare_series, prepare, mark_all, append_samples, append_entries, append_log, log_record,
  take_table, cut_log, after_flush, flush_with, flush_state, finish_write, write_prepared, write,
}
use rust_tsdb.Db.Take.{with_heap-IsWellFormed, state_of-with_state, take_table_lem, all_ids-All}

-- The index is well formed, and each series' samples are in order.
pub record IsOrderly (ix : Index) : Type 0 where
  pub formed : IsWellFormed ix
  pub valid : (id : SeriesId) → IsValid (state_of ix id)

with_state-IsOrderly :
    (ix : Index) (id : SeriesId) (st : SeriesState)
    → IsOrderly ix
    → IsValid st
    → IsOrderly (with_state ix id st)
with_state-IsOrderly ix id st o v = record {
  formed = with_heap-IsWellFormed ix (HashMap.insert ix.heap id st) o.formed;
  valid = λ n.
      subst IsValid (sym (state_of-with_state ix id n st))
        (if_either IsValid (nat_beq id n) st (state_of ix n) (λ b. v) (λ b. o.valid n));
}

encode_as-states :
    (ix : Index) (labels : LabelSet) (o : Option Index.Series) (n : SeriesId)
    → ((id : SeriesId) → IsValid (state_of ix id))
    → IsValid (state_of (encode_as ix labels o).0 n)
unfolding add_series
encode_as-states ix labels (some s) n v = v n
encode_as-states ix labels none n v =
    subst IsValid (sym (state_of-with_state ix ix.next_id n default_state)) (
      if_either IsValid (nat_beq ix.next_id n) default_state (state_of ix n)
        (λ b. default_state-IsValid) (λ b. v n))

encode_as-next_id :
    (ix : Index) (labels : LabelSet) (o : Option Index.Series)
    → (encode_as ix labels o).0.next_id ≤ ix.next_id + 1
unfolding add_series
encode_as-next_id ix labels (some s) = omega arith
encode_as-next_id ix labels none = omega arith

pub encode-IsOrderly :
    (ix : Index) (labels : LabelSet)
    → IsOrderly ix
    → IsSorted labels
    → ix.next_id + 1 < 2 ^ 64
    → IsOrderly (encode ix labels).0
unfolding encode
encode-IsOrderly ix labels o s room = record {
  formed = (encode-Encoded ix labels o.formed s room).well_formed;
  valid = λ n. encode_as-states ix labels (HashMap.get ix.inverted labels) n o.valid;
}

pub encode-next_id :
    (ix : Index) (labels : LabelSet) → (encode ix labels).0.next_id ≤ ix.next_id + 1
unfolding encode
encode-next_id ix labels = encode_as-next_id ix labels (HashMap.get ix.inverted labels)

-- The label sets of a batch are in order, as every constructor gives them.
abbrev pub BatchSorted : WriteBatch → Type 0
BatchSorted batch = All (λ (e : LabelSet × List Sample). IsSorted e.0) batch

pub prepare-IsOrderly :
    (generation : ℕ) (batch : WriteBatch) (p : Prepared)
    → IsOrderly p.index
    → BatchSorted batch
    → p.index.next_id + length batch < 2 ^ 64
    → IsOrderly (prepare generation batch p).index
unfolding prepare
prepare-IsOrderly generation [] p o s room = o
prepare-IsOrderly generation ((labels, samples) ∷ batch) p o s room =
    elim (Bool-cases (is_empty samples)) [
      | inl e ↦ rw (e, prepare) (prepare-IsOrderly generation batch p o s.1 (omega arith))
      | inr e ↦
          rw (e, prepare)
            (prepare-IsOrderly generation batch
              (prepare_series generation p samples (encode p.index labels))
              (encode-IsOrderly p.index labels o s.0 (omega arith)) s.1
              (omega (arith, encode-next_id p.index labels)))
    ]

pub mark_all-IsOrderly :
    (generation : ℕ) (ss : List Index.Series) (ix : Index)
    → IsOrderly ix
    → IsOrderly (mark_all generation ss ix)
unfolding mark_all
mark_all-IsOrderly generation [] ix o = o
mark_all-IsOrderly generation (s ∷ ss) ix o =
    mark_all-IsOrderly generation ss
      (with_state ix s.id (Series.mark_logged (state_of ix s.id) generation))
      (with_state-IsOrderly ix s.id (Series.mark_logged (state_of ix s.id) generation) o
        (mark_logged-IsValid (state_of ix s.id) generation (o.valid s.id)))

append_samples-IsValid :
    (samples : List Sample) (st : SeriesState) (n : ℕ)
    → IsValid st
    → IsValid (append_samples samples (st, n)).0
unfolding append_samples
append_samples-IsValid [] st n v = v
append_samples-IsValid (s ∷ ss) st n v =
    append_samples-IsValid ss (Series.append st s).0 _ (append-IsValid st s v)

pub append_entries-IsOrderly :
    (es : List (SeriesId × List Sample)) (ix : Index) (n : ℕ)
    → IsOrderly ix
    → IsOrderly (append_entries es (ix, n)).0
unfolding append_entries
append_entries-IsOrderly [] ix n o = o
append_entries-IsOrderly ((id, samples) ∷ es) ix n o =
    let r = append_samples samples (state_of ix id, n) in
    append_entries-IsOrderly es (with_state ix id r.0) r.1 (
      with_state-IsOrderly ix id r.0 o
        (append_samples-IsValid samples (state_of ix id) n (o.valid id)))

-- After the loop of a flush every series is as it was, or without its samples.
pub take_table-IsOrderly : (ix : Index) → IsOrderly ix → IsOrderly (take_table ix.all_ids ix).1
take_table-IsOrderly ix o =
    let (heap, taken, states) =
      take_table_lem ix.all_ids ix o.formed.ids_sorted (all_ids-All ix o.formed) in
    subst IsOrderly (ap (λ (r : List (SeriesId × List Sample) × Index). r.1) (sym taken)) (record {
      formed = with_heap-IsWellFormed ix heap o.formed;
      valid = λ n. subst IsValid (sym (states n)) (
          if_either IsValid (mem n ix.all_ids) (record (state_of ix n) { samples = [] })
            (state_of ix n)
            (λ b. record { ascending = tt; bounded = UpTo-nil (state_of ix n).newest })
            (λ b. o.valid n));
    })

module _ (crc32 : Bytes → ℕ) (to_json : Segment → Bytes) (cfg : WalConfig) where
  after_flush-IsOrderly :
      (fault : Fault) (st : DbState) (log : Log) (closed : ℕ)
      (r : Option StorageError × SegmentStore)
      → IsOrderly st.index
      → IsOrderly (after_flush crc32 to_json cfg fault st log closed r).1.index
  after_flush-IsOrderly fault st log closed (some e, disk) o = o
  after_flush-IsOrderly fault st log closed (none, disk) o = o

  flush_with-IsOrderly :
      (fault : Fault) (st : DbState) (p : Option Persistence)
      → IsOrderly st.index
      → IsOrderly (flush_with crc32 to_json cfg fault st p).1.index
  unfolding Index.resolve
  flush_with-IsOrderly fault st none o = o
  flush_with-IsOrderly fault st (some p) o =
      let (log, closed) = cut_log crc32 to_json cfg p.log in
      let (table, ix) = take_table (Index.resolve st.index []) st.index in
      after_flush-IsOrderly fault (record st { index = ix }) log closed
        (Segments.flush crc32 to_json fault table ix p.disk) (take_table-IsOrderly st.index o)

  -- Of a flush's result: the index that it leaves.
  flush_state-IsOrderly :
      (fault : Fault) (st : DbState)
      → IsOrderly st.index
      → IsOrderly (flush_state crc32 to_json cfg fault st).1.index
  unfolding flush_state
  flush_state-IsOrderly fault st o =
      if_either (λ (r : Option DbError × DbState). IsOrderly r.1.index)
        (nat_beq st.buffered_samples 0) (none, st)
        (flush_with crc32 to_json cfg fault st st.persistence) (λ b. o)
        (λ b. flush_with-IsOrderly fault st st.persistence o)

  finish_write-IsOrderly :
      (lsn : Lsn) (r : Option DbError × DbState)
      → IsOrderly r.1.index
      → IsOrderly (finish_write crc32 to_json cfg lsn r).1.index
  finish_write-IsOrderly lsn (none, st) o = o
  finish_write-IsOrderly lsn (some e, st) o = o

  write_prepared-IsOrderly :
      (fault : Fault) (st : DbState) (p : Prepared) (r : (Lsn ⊎ WalError) × Option Persistence)
      → IsOrderly p.index
      → IsOrderly (write_prepared crc32 to_json cfg fault st p r).1.index
  write_prepared-IsOrderly fault st p (inr e, persistence) = λ o. o
  write_prepared-IsOrderly fault st p (inl lsn, persistence) = λ o.
      let marked = mark_all st.generation p.new_series p.index in
      let r = append_entries p.entries (marked, st.buffered_samples) in
      let written = record st { index = r.0; persistence = persistence; buffered_samples = r.1 } in
      let kept : IsOrderly r.0 =
        append_entries-IsOrderly p.entries marked st.buffered_samples
          (mark_all-IsOrderly st.generation p.new_series p.index o) in
      if_either (λ (w : (Lsn ⊎ DbError) × DbState). IsOrderly w.1.index)
        (leb st.max_buffer_samples r.1)
        (finish_write crc32 to_json cfg lsn (flush_state crc32 to_json cfg fault written))
        (inl lsn, written)
        (λ b.
          finish_write-IsOrderly lsn (flush_state crc32 to_json cfg fault written)
            (flush_state-IsOrderly fault written kept))
        (λ b. kept)

  -- When the index is well formed and every series' samples are in order, the label sets of the batch are in
  -- order, and there are ids left for all of them, the same holds after `write`: when it succeeds, when
  -- the log refuses the record, and when a flush succeeds or fails with any fault.
  pub write-IsOrderly :
      (fault : Fault) (st : DbState) (batch : WriteBatch)
      → IsOrderly st.index
      → BatchSorted batch
      → st.index.next_id + length batch < 2 ^ 64
      → IsOrderly (write crc32 to_json cfg fault st batch).1.index
  unfolding write
  write-IsOrderly fault st batch o s room =
      let start : Prepared = record {
        index = st.index;
        new_series = [];
        logging = [];
        entries = [];
      } in
      let p = prepare st.generation batch start in
      if_either (λ (w : (Lsn ⊎ DbError) × DbState). IsOrderly w.1.index) st.failed
        (inr storage_failed, st)
        (write_prepared crc32 to_json cfg fault st p
          (append_log crc32 to_json cfg (log_record p) st.persistence))
        (λ b. o)
        (λ b.
          write_prepared-IsOrderly fault st p
            (append_log crc32 to_json cfg (log_record p) st.persistence)
            (prepare-IsOrderly st.generation batch start o s room))
