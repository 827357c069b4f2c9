-- ===== src/Tests/Stores.antt =====
-- The segment store and the names of files at concrete inputs.
use rust_tsdb.Prelude.{
  ℕ, ◌+◌, ◌<◌, ◌^◌, ◌≡◌, refl, none, some, List, [], ◌∷◌, ◌++◌, inl, length, arith,
}
use rust_tsdb.Prelude.HashMap
use rust_tsdb.Prelude.HashMap.{HashMap, or_default}
use rust_tsdb.Prelude.Eq.{nat_eq}
use rust_tsdb.Prelude.Bytes.{Str, str_eq}
use rust_tsdb.Model.{SeriesId, Sample, TimeRange}
use rust_tsdb.LabelSet.{LabelSet, label_set_eq}
use rust_tsdb.Index
use rust_tsdb.Index.{encode}
use rust_tsdb.Segments.{DiskSeries, Segment, SegmentStore, working, flush, read_metas, segment_name}
use rust_tsdb.Segments.Read.{found_all, read_metas-found}
use rust_tsdb.Segments.Flush.{TableFits, StoreHolds, segment_of, flushed, flush_lem}
use rust_tsdb.Segments.Table.{Entry}
use rust_tsdb.Segments.Open.{Indexing, number_of, index_segment, index_series, unordered}
use rust_tsdb.Segments.Accepts.{number_of-segment_name}
use rust_tsdb.Wal.Files.{
  file_name, list, list_lem, InOrder, files_with, files_named, parse_id, parse_id-file_name,
}
use rust_tsdb.Wal.Record.{Bytes}
use rust_tsdb.Db.{labels_map}
use rust_tsdb.Db.Table.{IsKnown-Known}
use rust_tsdb.Db.Labels.{labels_map-IsConsistent, empty-IsConsistent}
use rust_tsdb.Tests.Logs.{check_sum}
use rust_tsdb.Tests.Indexes.{job_one, one_series, one_series-IsWellFormed}
use rust_tsdb.Tests.Texts.{to_text, from_text, text-ReadsBack, put_all}

abbrev samples : List Sample
samples = record { timestamp = 10; value = 7 } ∷ record { timestamp = 20; value = 8 } ∷ []

abbrev pub table : List Entry
table = (0, samples) ∷ []

abbrev pub empty_store : SegmentStore
empty_store = record { files = []; segments = []; next_number = 0 }

pub empty_store-StoreHolds : StoreHolds check_sum to_text from_text one_series empty_store []
empty_store-StoreHolds = record { holds = tt; numbered = tt }

check_sum_bound : (b : Bytes) → check_sum b < 2 ^ 32
check_sum_bound b = omega arith

text_size : length (to_text (segment_of check_sum to_text from_text one_series table)) ≡ 11
unfolding encode HashMap.get HashMap.insert Index.labels_for put_all
text_size = refl

text_small : length (to_text (segment_of check_sum to_text from_text one_series table)) < 2 ^ 64
text_small = omega (arith, text_size)

pub table-TableFits : TableFits check_sum to_text from_text one_series table
unfolding encode HashMap.get HashMap.insert Index.get
table-TableFits = record {
  entries = (
    (
      IsKnown-Known one_series one_series-IsWellFormed 0 ((encode Index.new job_one).1, refl),
      refl,
      ((omega arith, tt), (tt, tt)),
    ),
    tt,
  );
  sorted = (tt, tt);
  nonempty = refl;
  small = text_small;
}

pub number_left : empty_store.next_number + 1 < 2 ^ 64
number_left = omega arith

flush_lem_example :
    (flush check_sum to_text working table one_series empty_store
      ≡ (none, flushed check_sum to_text from_text one_series table empty_store))
    × StoreHolds check_sum to_text from_text one_series
        (flushed check_sum to_text from_text one_series table empty_store)
        ([] ++ segment_of check_sum to_text from_text one_series table ∷ [])
flush_lem_example =
    flush_lem check_sum to_text from_text text-ReadsBack check_sum_bound one_series table
      empty_store [] table-TableFits number_left empty_store-StoreHolds

abbrev store : SegmentStore
store = flushed check_sum to_text from_text one_series table empty_store

abbrev segments : List Segment
segments = [] ++ segment_of check_sum to_text from_text one_series table ∷ []

store-StoreHolds : StoreHolds check_sum to_text from_text one_series store segments
store-StoreHolds =
    (flush_lem check_sum to_text from_text text-ReadsBack check_sum_bound one_series table
      empty_store [] table-TableFits number_left empty_store-StoreHolds).1

abbrev wanted : HashMap LabelSet SeriesId
wanted = labels_map one_series (0 ∷ []) []

wanted_consistent :
    (ls : LabelSet) (j : SeriesId)
    → HashMap.get wanted ls ≡ some j
    → Index.id_for one_series ls ≡ some j
wanted_consistent =
    labels_map-IsConsistent one_series one_series-IsWellFormed (0 ∷ []) []
      (empty-IsConsistent one_series one_series-IsWellFormed)

abbrev early : TimeRange
early = record { start = 0; end = 15 }

abbrev no_samples : HashMap SeriesId (List Sample)
no_samples = []

read_metas-found_example :
    (r : HashMap SeriesId (List Sample)) × (read_metas check_sum from_text store.files
        (0 ∷ [])
        wanted
        early
        store.segments
        no_samples
      ≡ inl r)
    × ((id : SeriesId)
        → or_default (HashMap.get r id) []
          ≡ or_default (HashMap.get no_samples id) []
            ++ found_all check_sum from_text store.files one_series
                (0 ∷ [])
                wanted
                early
                wanted_consistent
                segments
                id)
read_metas-found_example =
    read_metas-found check_sum from_text store.files one_series (0 ∷ []) wanted early
      wanted_consistent store.segments segments no_samples store-StoreHolds.holds

abbrev some_name : Str
some_name = segment_name 42

number_of-segment_name_example :
    (number_of some_name ≡ inl (some 42) → some_name ≡ segment_name 42)
    × (some_name ≡ segment_name 42 → number_of some_name ≡ inl (some 42))
number_of-segment_name_example = number_of-segment_name some_name 42 (omega arith)

abbrev new_indexing : Indexing
new_indexing = record { index = Index.new; latest = []; ranges = [] }

abbrev pub series_list : List DiskSeries
series_list = record { labels = job_one; samples = (10, 7) ∷ (20, 8) ∷ [] } ∷ []

abbrev pub indexing_after : Indexing
indexing_after = record {
  index = one_series;
  latest = HashMap.insert [] 0 20;
  ranges = HashMap.insert [] 0 (10, 20);
}

pub accepted_segment : index_segment series_list new_indexing ≡ inl indexing_after
unfolding index_segment index_series unordered encode HashMap.get HashMap.insert
accepted_segment = refl

abbrev names : List Str
names = file_name 12 ∷ (b'x' ∷ []) ∷ file_name 3 ∷ []

list_lem_example :
    InOrder (list names) × ((n : ℕ) → files_with n (list names) ≡ files_named n names)
list_lem_example = list_lem names

parse_id-file_name_example : parse_id (file_name 7) ≡ some 7
parse_id-file_name_example = parse_id-file_name 7 (omega arith)
