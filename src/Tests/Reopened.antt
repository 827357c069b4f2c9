-- ===== src/Tests/Reopened.antt =====
-- `open` of a segment store at a concrete directory.
use rust_tsdb.Prelude.{
  ◌++◌, ◌+◌, ◌<◌, ◌^◌, ◌≡◌, refl, ap, sym, ◌∙◌, subst, Bool, true, Option, none, some, [], ◌∷◌, inl,
  length, arith, if◌then◌else◌,
}
use rust_tsdb.Prelude.Eq.{◌==◌, eq_iff}
use rust_tsdb.Prelude.Bytes.{str_eq}
use rust_tsdb.Wal.Record.{Bytes}
use rust_tsdb.Prelude.HashMap
use rust_tsdb.Prelude.HashMap.{HashMap}
use rust_tsdb.Series.Valid.{default_state-IsValid}
use rust_tsdb.Index
use rust_tsdb.Index.{encode}
use rust_tsdb.Index.Invariant.{new-IsWellFormed}
use rust_tsdb.Segments.{
  Segment, Files, SegmentStore, segment_name, segment_image, read_segment, read_bytes, flush,
  working,
}
use rust_tsdb.Segments.Open.{
  Opening, on_segment_read, push_segment, opened_store, open_files, open_store, open_segments,
  numbered_files, insert_file, sort_files, number_after,
}
use rust_tsdb.Segments.Image.{read_image-segment_image}
use rust_tsdb.Segments.Accepts.{number_of-segment_name}
use rust_tsdb.Db.Keep.{IsOrderly}
use rust_tsdb.Db.Reopen.{AllSorted, segments_of, series_count, Reopens, open_store-Reopens}
use rust_tsdb.Tests.Logs.{check_sum}
use rust_tsdb.Tests.Indexes.{job_one-IsSorted}
use rust_tsdb.Tests.Stores.{
  series_list, indexing_after, accepted_segment, table, empty_store, empty_store-StoreHolds,
  table-TableFits, number_left,
}
use rust_tsdb.Db.Directory.{Lists, flush-Lists}
use rust_tsdb.Segments.Flush.{segment_of}
use rust_tsdb.Tests.Indexes.{one_series}
use rust_tsdb.Tests.Databases.{check_sum_bound}
use rust_tsdb.Tests.Texts.{to_text, from_text, text-ReadsBack, put_all}

abbrev one_segment : Segment
one_segment = record { series = series_list }

abbrev directory : Files
directory = (segment_name 3, segment_image check_sum to_text (to_text one_segment)) ∷ []

listing : numbered_files (segment_name 3 ∷ []) ≡ inl ((3, segment_name 3) ∷ [])
unfolding numbered_files
listing = rw ((number_of-segment_name (segment_name 3) 3 (omega arith)).1 refl) refl

present : (b : Bool) (x y : Option Bytes) → b ≡ true → (if b then x else y) ≡ x
present b x y e = rw e refl

found :
    HashMap.get directory (segment_name 3)
    ≡ some (segment_image check_sum to_text (to_text one_segment))
unfolding HashMap.get
found =
    present (segment_name 3 == segment_name 3) _ none
      ((eq_iff (segment_name 3) (segment_name 3)).1 refl)

text_size : length (to_text one_segment) ≡ 11
unfolding put_all
text_size = refl

reads : read_segment check_sum from_text directory (segment_name 3) ≡ inl one_segment
unfolding read_segment
reads =
    ap (read_bytes check_sum from_text) found
    ∙ read_image-segment_image check_sum to_text from_text text-ReadsBack check_sum_bound
        one_segment (omega (arith, text_size))

abbrev opening : Opening
opening = record {
  index = indexing_after.index;
  latest = indexing_after.latest;
  segments = record { path = segment_name 3; ranges = indexing_after.ranges } ∷ [];
}

abbrev store : SegmentStore
store = record { files = directory; segments = opening.segments; next_number = 4 }

abbrev begin : Opening
begin = record { index = Index.new; latest = []; segments = [] }

first_read :
    on_segment_read begin
      (segment_name 3)
      (read_segment check_sum from_text directory (segment_name 3))
    ≡ inl opening
first_read =
    ap (on_segment_read begin (segment_name 3)) reads
    ∙ ap (push_segment begin (segment_name 3)) accepted_segment

loop : open_segments check_sum from_text directory ((3, segment_name 3) ∷ []) begin ≡ inl opening
unfolding open_segments
loop = rw (first_read, open_segments) refl

opens : open_store check_sum from_text directory Index.new ≡ inl (opening, store)
unfolding open_store sort_files insert_file number_after
opens =
    ap (open_files check_sum from_text directory Index.new) listing
    ∙ ap (opened_store check_sum from_text directory (some 4)) loop

new-IsOrderly : IsOrderly Index.new
unfolding HashMap.get
new-IsOrderly = record { formed = new-IsWellFormed; valid = λ id. default_state-IsValid }

only_segment : segments_of check_sum to_text from_text directory ≡ one_segment ∷ []
unfolding sort_files insert_file
only_segment = rw (listing, reads) refl

labels_sorted : AllSorted (segments_of check_sum to_text from_text directory)
labels_sorted = subst AllSorted (sym only_segment) ((job_one-IsSorted, tt), tt)

ids_left :
    Index.new.next_id + series_count (segments_of check_sum to_text from_text directory) < 2 ^ 64
ids_left = omega (arith, ap series_count only_segment)

open_store-Reopens_example : Reopens check_sum to_text from_text directory Index.new opening store
open_store-Reopens_example =
    open_store-Reopens check_sum to_text from_text directory Index.new opening store new-IsOrderly
      labels_sorted ids_left opens

nothing_there : Lists check_sum to_text from_text empty_store []
unfolding numbered_files sort_files
nothing_there = record { numbers = []; listing = refl; below = tt; segments = refl }

flush-Lists_example :
    ((flush check_sum to_text working table one_series empty_store).0 ≡ none)
    × Lists check_sum to_text from_text
        (flush check_sum to_text working table one_series empty_store).1
        ([] ++ segment_of check_sum to_text from_text one_series table ∷ [])
flush-Lists_example =
    flush-Lists check_sum to_text from_text text-ReadsBack check_sum_bound one_series table
      empty_store [] table-TableFits number_left empty_store-StoreHolds nothing_there
