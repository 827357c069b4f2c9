-- ===== src/Tests/Histories.antt =====
-- Sequences of writes and flushes of the database at concrete states.
use rust_tsdb.Prelude.{
  false, ◌+◌, ◌<◌, ◌^◌, ◌≡◌, refl, sym, subst, some, List, [], ◌∷◌, inl, length, map, keep, arith,
}
use rust_tsdb.Prelude.Eq.{nat_eq}
use rust_tsdb.Prelude.HashMap
use rust_tsdb.Prelude.HashMap.{HashMap}
use rust_tsdb.Model.{SeriesId, TimeRange}
use rust_tsdb.Wal.Codec.{
  put_u32, put_u64, put_f64, put_bytes, put_labels, put_samples, label_set_encode, encoder_series,
  encoder_samples, encoder_finish, encode_series, encode_samples, fill, encode_record,
}
use rust_tsdb.Wal.Record.{to_le_bytes, header_encode}
use rust_tsdb.Wal.Flusher.{Log}
use rust_tsdb.Wal.Writer.{append_with, buffer_append, advance}
use rust_tsdb.Series
use rust_tsdb.Series.{SeriesState}
use rust_tsdb.Series.Valid.{default_state-IsValid}
use rust_tsdb.Index
use rust_tsdb.Index.{encode}
use rust_tsdb.Index.Invariant.{new-IsWellFormed}
use rust_tsdb.Index.Resolve.{matches_all}
use rust_tsdb.Segments.{Fault, working, unremoved}
use rust_tsdb.Segments.Flush.{segment_of}
use rust_tsdb.Db.{
  DbState, Persistence, query, write, prepare, mark_all, append_entries, append_samples,
}
use rust_tsdb.Db.Keep.{IsOrderly}
use rust_tsdb.Db.Memory.{in_memory}
use rust_tsdb.Db.Query.{IsSound}
use rust_tsdb.Db.Take.{with_heap}
use rust_tsdb.Db.Flush.{all_table, HasRoom}
use rust_tsdb.Db.Write.{unflushed, Writes, write-Writes}
use rust_tsdb.Db.History.{
  Complete, Operation, writing, flushing, run, AllowsAll, expected, run-query,
}
use rust_tsdb.Db.Ascending.{InTime, AnswersInTime, run-query-InTime}
use rust_tsdb.Db.Bounds.{attempts-in_memory, FitsAll, attempts}
use rust_tsdb.Tests.Logs.{check_sum}
use rust_tsdb.Tests.Indexes.{matchers}
use rust_tsdb.Tests.Texts.{to_text, from_text, text-ReadsBack, put_all}
use rust_tsdb.Tests.Databases.{
  settings, empty_disk, fresh, batch, batch-BatchSorted, check_sum_bound,
}

new_index-IsSound : IsSound check_sum to_text from_text fresh []
unfolding HashMap.get
new_index-IsSound = record {
  index_formed = new-IsWellFormed;
  series_valid = λ id. default_state-IsValid;
  disk_holds = record { holds = tt; numbered = tt };
}

abbrev on_empty_disk : Log → Persistence
on_empty_disk l = record { disk = empty_disk; log = l }

same_persistence : (p q : Persistence) → some p ≡ some q → p ≡ q
same_persistence p q e = cc

number_left-empty_disk :
    (l : Log) (p : Persistence) → some (on_empty_disk l) ≡ some p → p.disk.next_number + 1 < 2 ^ 64
number_left-empty_disk l p e =
    subst (λ (q : Persistence). q.disk.next_number + 1 < 2 ^ 64)
      (same_persistence (on_empty_disk l) p e) (omega arith)

text_size :
    (heap : HashMap SeriesId SeriesState)
    → length (
        to_text (
          segment_of check_sum to_text from_text
            (with_heap (unflushed check_sum to_text from_text settings fresh batch).index heap)
            (all_table check_sum to_text from_text settings
              (unflushed check_sum to_text from_text settings fresh batch).index)))
      ≡ 9
unfolding encode HashMap.get HashMap.insert Index.labels_for put_all prepare mark_all append_entries
    append_samples Series.is_logged Series.mark_logged Series.append Series.accepts
text_size heap = refl

unflushed-HasRoom :
    HasRoom check_sum to_text from_text settings
      (unflushed check_sum to_text from_text settings fresh batch)
unflushed-HasRoom = record {
  number_left = number_left-empty_disk _;
  text_small = λ heap. omega (arith, text_size heap);
}

abbrev after_write : DbState
after_write = (write check_sum to_text settings working fresh batch).1

not_full : after_write ≡ unflushed check_sum to_text from_text settings fresh batch
unfolding write prepare mark_all append_entries append_samples encode HashMap.get HashMap.insert
    Series.is_logged Series.mark_logged Series.append Series.accepts append_with buffer_append
    encode_record fill encode_series encode_samples encoder_series encoder_samples encoder_finish
    label_set_encode put_labels put_samples put_u32 put_u64 put_f64 put_bytes to_le_bytes
    header_encode advance
not_full = refl

fresh-ids_left : fresh.index.next_id + length batch < 2 ^ 64
fresh-ids_left = omega arith

write-Writes_example :
    Writes check_sum to_text from_text settings fresh [] batch
      (write check_sum to_text settings working fresh batch)
write-Writes_example =
    write-Writes check_sum to_text from_text settings text-ReadsBack check_sum_bound fresh [] batch
      new_index-IsSound refl batch-BatchSorted fresh-ids_left unflushed-HasRoom

abbrev operations : List Operation
operations = writing batch ∷ flushing ∷ []

operations-AllowsAll : AllowsAll check_sum to_text from_text settings fresh operations
operations-AllowsAll = (
  (batch-BatchSorted, fresh-ids_left, unflushed-HasRoom),
  (subst (HasRoom check_sum to_text from_text settings) (sym not_full) unflushed-HasRoom, tt),
)

abbrev all_times : TimeRange
all_times = record { start = 0; end = 100 }

run-query_example :
    (query check_sum from_text
        (run check_sum to_text from_text settings fresh operations)
        matchers
        all_times
      ≡ inl (
          map
            (expected check_sum to_text from_text settings text-ReadsBack check_sum_bound fresh []
              operations all_times)
            (keep
              (λ n. matches_all matchers (
                HashMap.get
                  (run check_sum to_text from_text settings fresh operations).index.forward
                  n))
              (run check_sum to_text from_text settings fresh operations).index.all_ids)))
    × Complete check_sum to_text from_text settings text-ReadsBack check_sum_bound fresh []
        operations
run-query_example =
    run-query check_sum to_text from_text settings text-ReadsBack check_sum_bound operations fresh
      [] matchers all_times new_index-IsSound refl operations-AllowsAll (omega arith)

fresh-InTime : InTime fresh []
unfolding HashMap.get Index.id_for
fresh-InTime ls = (tt, refl)

run-query-InTime_example : AnswersInTime (
    query check_sum from_text
      (run check_sum to_text from_text settings fresh operations)
      matchers
      all_times)
run-query-InTime_example =
    run-query-InTime check_sum to_text from_text settings text-ReadsBack check_sum_bound operations
      fresh [] matchers all_times new_index-IsSound fresh-InTime refl operations-AllowsAll
      (omega arith)

abbrev attempted : List (Fault × Operation)
attempted = (unremoved 0, writing batch) ∷ []

fresh-IsOrderly : IsOrderly fresh.index
unfolding HashMap.get
fresh-IsOrderly = record { formed = new-IsWellFormed; valid = λ id. default_state-IsValid }

attempted-FitsAll : FitsAll check_sum to_text settings fresh attempted
attempted-FitsAll = ((batch-BatchSorted, fresh-ids_left), tt)

still_running : (attempts check_sum to_text settings fresh attempted).failed ≡ false
unfolding write prepare mark_all append_entries append_samples encode HashMap.get HashMap.insert
    Series.is_logged Series.mark_logged Series.append Series.accepts append_with buffer_append
    encode_record fill encode_series encode_samples encoder_series encoder_samples encoder_finish
    label_set_encode put_labels put_samples put_u32 put_u64 put_f64 put_bytes to_le_bytes
    header_encode advance
still_running = refl

attempts-in_memory_example :
    in_memory (attempts check_sum to_text settings fresh attempted).index < 3
attempts-in_memory_example =
    attempts-in_memory check_sum to_text settings attempted fresh (_, refl) fresh-IsOrderly
      (omega arith) (omega arith) attempted-FitsAll still_running
