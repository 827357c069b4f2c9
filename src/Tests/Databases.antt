-- ===== src/Tests/Databases.antt =====
-- The database at concrete states.
use rust_tsdb.Prelude.{
  ◌⊎◌, ℕ, ap, inr, ◌+◌, ◌<◌, ◌^◌, ◌≡◌, refl, subst, false, none, some, List, [], ◌∷◌, inl, inr,
  length, map, keep, nat_beq, Bool-cases, arith,
}
use rust_tsdb.Prelude.HashMap
use rust_tsdb.Prelude.HashMap.{HashMap, UniqueKeys}
use rust_tsdb.Prelude.Eq.{◌==◌, eq_iff, nat_eq}
use rust_tsdb.Model.{SeriesId, Sample, TimeRange, Matcher}
use rust_tsdb.Wal.Codec.{
  put_u32, put_u64, put_f64, put_bytes, put_labels, put_samples, label_set_encode, encoder_series,
  encoder_samples, encoder_finish, encode_series, encode_samples, fill, encode_record,
}
use rust_tsdb.Series
use rust_tsdb.Series.{SeriesState, default_state}
use rust_tsdb.Series.Valid.{IsValid, default_state-IsValid}
use rust_tsdb.Index
use rust_tsdb.Index.{Index, encode}
use rust_tsdb.Index.Resolve.{matches_all}
use rust_tsdb.Segments
use rust_tsdb.Segments.{SegmentStore, StorageError, working, unopened, unremoved, io}
use rust_tsdb.Segments.Flush.{segment_of}
use rust_tsdb.Segments.Open.{open_store, open_segments, numbered_files, sort_files, number_after}
use rust_tsdb.Wal.Record.{Bytes, to_le_bytes, header_encode}
use rust_tsdb.Wal.Reader.{replay, replay_files}
use rust_tsdb.Wal.Flusher.{WalConfig, opened}
use rust_tsdb.Wal.Writer.{Lsn, WalError, append_with, buffer_append, advance}
use rust_tsdb.Db.{
  DbState, Persistence, WriteBatch, storage, wal, state_of, query, flush, flush_state, write,
  cut_log, take_table, prepare, mark_all, append_entries, append_samples,
}
use rust_tsdb.Db.Query.{answer, IsSound, query_lem}
use rust_tsdb.Db.Take.{with_heap, with_heap-IsWellFormed}
use rust_tsdb.Db.Flush.{all_table, HasRoom, flush-query}
use rust_tsdb.Db.Failed.{Removal, AsAfter, Refuses, flush-Refuses, write-Refuses}
use rust_tsdb.Db.Keep.{IsOrderly, BatchSorted, write-IsOrderly}
use rust_tsdb.Db.Open.{open_with, restore_all}
use rust_tsdb.Prelude.Bytes.{Str, str_eq}
use rust_tsdb.Api.{start_key, read}
use rust_tsdb.Api.Answered.{Answers, read-Answers}
use rust_tsdb.Tests.Logs.{check_sum, ascii}
use rust_tsdb.Tests.Indexes.{
  job_one, job_one-IsSorted, one_series, one_series-IsWellFormed, matchers,
}
use rust_tsdb.Tests.Texts.{to_text, from_text, text-ReadsBack, put_all}

abbrev samples : List Sample
samples = record { timestamp = 10; value = 7 } ∷ record { timestamp = 20; value = 8 } ∷ []

abbrev filled : SeriesState
filled = record { samples = samples; newest = some 20; logged_gen = 1 }

filled-IsValid : IsValid filled
filled-IsValid = record {
  ascending = ((omega arith, tt), (tt, tt));
  bounded = (omega arith, (omega arith, tt));
}

abbrev filled_heap : HashMap SeriesId SeriesState
filled_heap = (0, filled) ∷ []

abbrev pub settings : WalConfig
settings = record { segment_max_bytes = 1000; flush_threshold = 100 }

abbrev pub empty_disk : SegmentStore
empty_disk = record { files = []; segments = []; next_number = 0 }

abbrev pub persistence : Persistence
persistence = record { disk = empty_disk; log = opened 1 }

-- One series with two buffered samples, and nothing on disk.
abbrev buffered : DbState
buffered = record {
  index = with_heap one_series filled_heap;
  persistence = some persistence;
  buffered_samples = 2;
  max_buffer_samples = 3;
  failed = false;
  generation = 1;
}

series-IsValid : (id : SeriesId) → IsValid (state_of buffered.index id)
unfolding HashMap.get
series-IsValid id = elim (Bool-cases (nat_beq 0 id)) [
  | inl e ↦ rw e filled-IsValid
  | inr e ↦ rw e default_state-IsValid
]

buffered-IsSound : IsSound check_sum to_text from_text buffered []
buffered-IsSound = record {
  index_formed = with_heap-IsWellFormed one_series filled_heap one_series-IsWellFormed;
  series_valid = series-IsValid;
  disk_holds = record { holds = tt; numbered = tt };
}

same_persistence : (p q : Persistence) → some p ≡ some q → p ≡ q
same_persistence p q e = cc

text_size :
    (heap : HashMap SeriesId SeriesState)
    → length (
        to_text (
          segment_of check_sum to_text from_text
            (with_heap buffered.index heap)
            (all_table check_sum to_text from_text settings buffered.index)))
      ≡ 11
unfolding encode HashMap.get HashMap.insert Index.labels_for put_all
text_size heap = refl

buffered-HasRoom : HasRoom check_sum to_text from_text settings buffered
buffered-HasRoom = record {
  number_left = λ p e.
      subst (λ (q : Persistence). q.disk.next_number + 1 < 2 ^ 64)
        (same_persistence persistence p e) (omega arith);
  text_small = λ heap. omega (arith, text_size heap);
}

abbrev pub early : TimeRange
early = record { start = 0; end = 15 }

query_lem_example :
    query check_sum from_text buffered matchers early
    ≡ inl (
        map (answer buffered.index [] early) (
          keep
            (λ n. matches_all matchers (HashMap.get buffered.index.forward n))
            buffered.index.all_ids))
query_lem_example =
    query_lem check_sum to_text from_text buffered [] matchers early buffered-IsSound refl
      (omega arith)

pub check_sum_bound : (b : Bytes) → check_sum b < 2 ^ 32
check_sum_bound b = omega arith

flush-query_example :
    ((flush check_sum to_text settings working buffered).0 ≡ none)
    × ((gs' : List Segments.Segment) × IsSound check_sum to_text from_text
          (flush check_sum to_text settings working buffered).1
          gs')
    × ((ms : List Matcher) (range : TimeRange)
        → query check_sum from_text (flush check_sum to_text settings working buffered).1 ms range
          ≡ query check_sum from_text buffered ms range)
flush-query_example =
    flush-query check_sum to_text from_text settings text-ReadsBack check_sum_bound buffered []
      buffered-IsSound buffered-HasRoom refl

flush_fails : (flush check_sum to_text settings unopened buffered).0 ≡ some (storage io)
unfolding flush flush_state cut_log take_table Segments.flush encode HashMap.get HashMap.insert
    Index.resolve Index.get Index.labels_for Series.take_samples Segments.disk_series
    Segments.sort_entries
flush_fails = refl

flush-Refuses_example :
    Refuses check_sum to_text from_text settings
      (flush check_sum to_text settings unopened buffered).1
    ⊎ (Removal unopened (storage io)
        × ((flush check_sum to_text settings working buffered).0 ≡ none)
        × AsAfter
            (flush check_sum to_text settings unopened buffered).1
            (flush check_sum to_text settings working buffered).1)
flush-Refuses_example =
    flush-Refuses check_sum to_text from_text settings unopened buffered (storage io) flush_fails

-- Nothing is there yet, and one sample fills the buffer.
abbrev full_soon : DbState
full_soon = record {
  index = Index.new;
  persistence = some persistence;
  buffered_samples = 0;
  max_buffer_samples = 1;
  failed = false;
  generation = 1;
}

abbrev pub batch : WriteBatch
batch = (job_one, record { timestamp = 30; value = 9 } ∷ []) ∷ []

write_fails : (write check_sum to_text settings unopened full_soon batch).0 ≡ inr (storage io)
unfolding write prepare mark_all append_entries append_samples flush_state cut_log take_table
    Segments.flush encode HashMap.get HashMap.insert Index.resolve Index.get Index.labels_for
    Series.take_samples Series.is_logged Series.mark_logged Series.append Series.accepts
    Segments.disk_series Segments.sort_entries append_with buffer_append encode_record fill
    encode_series encode_samples encoder_series encoder_samples encoder_finish label_set_encode
    put_labels put_samples put_u32 put_u64 put_f64 put_bytes to_le_bytes header_encode advance
write_fails = refl

write-Refuses_example :
    Refuses check_sum to_text from_text settings
      (write check_sum to_text settings unopened full_soon batch).1
    ⊎ (((k : WalError) × (storage io ≡ wal k)
          × ((write check_sum to_text settings unopened full_soon batch).1.failed
              ≡ full_soon.failed)
          × ((write check_sum to_text settings unopened full_soon batch).1.buffered_samples
              ≡ full_soon.buffered_samples))
        ⊎ (Removal unopened (storage io)
            × ((lsn : Lsn) × ((write check_sum to_text settings working full_soon batch).0
                  ≡ inl lsn))
            × AsAfter
                (write check_sum to_text settings unopened full_soon batch).1
                (write check_sum to_text settings working full_soon batch).1))
write-Refuses_example =
    write-Refuses check_sum to_text from_text settings unopened full_soon batch (storage io)
      write_fails

buffered-IsOrderly : IsOrderly buffered.index
buffered-IsOrderly = record {
  formed = with_heap-IsWellFormed one_series filled_heap one_series-IsWellFormed;
  valid = series-IsValid;
}

pub batch-BatchSorted : BatchSorted batch
batch-BatchSorted = (job_one-IsSorted, tt)

ids_left : buffered.index.next_id + length batch < 2 ^ 64
unfolding encode HashMap.get
ids_left = omega arith

write-IsOrderly_example :
    IsOrderly (write check_sum to_text settings working buffered batch).1.index
write-IsOrderly_example =
    write-IsOrderly check_sum to_text settings working buffered batch buffered-IsOrderly
      batch-BatchSorted ids_left

abbrev pub fresh : DbState
fresh = record {
  index = Index.new;
  persistence = some persistence;
  buffered_samples = 0;
  max_buffer_samples = 3;
  failed = false;
  generation = 1;
}

opens : open_with check_sum ascii to_text from_text settings working working [] [] 3 ≡ inl fresh
unfolding open_with open_store numbered_files sort_files number_after open_segments restore_all
    replay replay_files
opens = refl

abbrev request : HashMap Str Str
request = (start_key, b'5' ∷ []) ∷ ((b'j' ∷ []), b'1' ∷ []) ∷ []

abbrev first : Str → ℕ
first [] = 0
first (c ∷ s) = c

keys_apart : ((b'j' ∷ []) == start_key) ≡ false
keys_apart = elim (Bool-cases ((b'j' ∷ []) == start_key)) [
  | inl e ↦
      let same : first (b'j' ∷ []) ≡ first start_key =
        ap first ((eq_iff (b'j' ∷ []) start_key).0 e) in
      absurd (omega (arith, same))
  | inr e ↦ e
]

request-UniqueKeys : UniqueKeys request
unfolding HashMap.get
request-UniqueKeys = (rw keys_apart refl, (refl, tt))

read-Answers_example : Answers buffered [] request (read check_sum from_text buffered request)
read-Answers_example =
    read-Answers check_sum to_text from_text buffered [] request buffered-IsSound refl
      request-UniqueKeys
