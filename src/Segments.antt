-- ===== src/Segments.antt =====
-- src/storage/segment.rs: the files that flushed samples go to. The directory is a map from file names
-- to bytes; the lock file stands for itself. `serde_json` is the pair of parameters `to_json` and
-- `from_json`, `crc32fast::hash` is `crc32`.
pub mod Image
pub mod Read
pub mod Names
pub mod Table
pub mod Flush
pub mod Open
pub mod Accepts
pub mod Order
pub mod Listing
use rust_tsdb.Prelude.{
  ℕ, ◌+◌, ◌%◌, ◌^◌, Bool, true, false, ◌&&◌, ◌||◌, not, Option, none, some, List, [], ◌∷◌, ◌++◌,
  ◌⊎◌, inl, inr, length, take, drop, is_empty, last?, keep, any, map, ltb, leb, nat_beq,
  if◌then◌else◌,
}
use rust_tsdb.Prelude.Bytes.{Str, str_eq}
use rust_tsdb.Prelude.Eq.{◌==◌, nat_eq}
use rust_tsdb.Prelude.HashMap
use rust_tsdb.Prelude.HashMap.{HashMap}
use rust_tsdb.Prelude.Decimal.{padded, parse_u64, strip_prefix, strip_suffix}
use rust_tsdb.Model.{SeriesId, Sample, TimeRange}
use rust_tsdb.LabelSet.{LabelSet, label_set_eq}
use rust_tsdb.Ids.Sets.{mem}
use rust_tsdb.Index
use rust_tsdb.Index.{Index}
use rust_tsdb.Wal.Record.{Bytes, to_le_bytes, from_le_bytes}

-- `samples` are pairs of a timestamp and the bits of a value.
pub record DiskSeries : Type 0 where
  pub labels : LabelSet
  pub samples : List (ℕ × ℕ)

pub record Segment : Type 0 where
  pub series : List DiskSeries

abbrev pub Ranges : Type 0
Ranges = HashMap SeriesId (ℕ × ℕ)

-- The path of a segment is its name in the directory.
pub record SegmentMeta : Type 0 where
  pub path : Str
  pub ranges : Ranges

abbrev pub Files : Type 0
Files = HashMap Str Bytes

pub record SegmentStore : Type 0 where
  pub files : Files
  pub segments : List SegmentMeta
  pub next_number : ℕ

-- The errors of `StorageError` that arise here, and a failed `expect`.
pub data StorageError : Type 0 where
  io corrupt_segment panicked : StorageError

-- "MiNItsDB", "segment-", ".seg" and ".tmp"
abbrev pub magic : Bytes
magic = b'M' ∷ b'i' ∷ b'N' ∷ b'I' ∷ b't' ∷ b's' ∷ b'D' ∷ b'B' ∷ []

abbrev pub segment_prefix : Str
segment_prefix = b's' ∷ b'e' ∷ b'g' ∷ b'm' ∷ b'e' ∷ b'n' ∷ b't' ∷ b'-' ∷ []

abbrev pub seg_suffix : Str
seg_suffix = b'.' ∷ b's' ∷ b'e' ∷ b'g' ∷ []

abbrev pub tmp_suffix : Str
tmp_suffix = b'.' ∷ b't' ∷ b'm' ∷ b'p' ∷ []

-- `format!("segment-{number:020}.seg")`, and the temporary name
unfoldable pub segment_name : ℕ → Str
segment_name number = segment_prefix ++ padded 20 20 number ++ seg_suffix

unfoldable pub temporary_name : ℕ → Str
temporary_name number = segment_prefix ++ padded 20 20 number ++ tmp_suffix

abbrev pub to_pair : Sample → ℕ × ℕ
to_pair s = (s.timestamp, s.value)

abbrev pub of_pair : ℕ × ℕ → Sample
of_pair p = record { timestamp = p.0; value = p.1 }

-- `entries.sort_by_key(|(id, _)| id.0)`
insert_entry :
    SeriesId × List Sample → List (SeriesId × List Sample) → List (SeriesId × List Sample)
insert_entry x [] = x ∷ []
insert_entry x (y ∷ ys) = if leb x.0 y.0 then x ∷ y ∷ ys else y ∷ insert_entry x ys

unfoldable pub sort_entries : List (SeriesId × List Sample) → List (SeriesId × List Sample)
unfolding insert_entry
sort_entries [] = []
sort_entries (x ∷ xs) = insert_entry x (sort_entries xs)

abbrev pub on_labels : SeriesId × List Sample → Option LabelSet → Option DiskSeries
on_labels e none = none
on_labels e (some labels) = some (record { labels = labels; samples = map to_pair e.1 })

abbrev pub collect {ℓ} : {A : Type ℓ} → Option A → Option (List A) → Option (List A)
collect none xs = none
collect (some x) none = none
collect (some x) (some xs) = some (x ∷ xs)

-- The series of the new segment; `none` is the failed `expect("indexed series")`.
unfoldable pub disk_series : Index → List (SeriesId × List Sample) → Option (List DiskSeries)
disk_series ix [] = some []
disk_series ix (e ∷ es) = collect (on_labels e (Index.labels_for ix e.0)) (disk_series ix es)

abbrev pub on_range : Option SeriesId → List (ℕ × ℕ) → Option (ℕ × ℕ) → Option (SeriesId × (ℕ × ℕ))
on_range (some id) (first ∷ rest) (some last) = some (id, (first.0, last.0))
on_range (some id) (first ∷ rest) none = none
on_range (some id) [] last = none
on_range none samples last = none

abbrev pub insert_range : Option (SeriesId × (ℕ × ℕ)) → Option Ranges → Option Ranges
insert_range none ranges = none
insert_range (some r) none = none
insert_range (some r) (some ranges) = some (HashMap.insert ranges r.0 r.1)

-- `ranges` of `flush`: the first and the last timestamp of each series, collected from the front.
unfoldable pub series_ranges : Index → List DiskSeries → Ranges → Option Ranges
series_ranges ix [] ranges = some ranges
series_ranges ix (s ∷ ss) ranges =
    elim (insert_range (on_range (Index.id_for ix s.labels) s.samples (last? s.samples))
      (some ranges)) [ none ↦ none | some more ↦ series_ranges ix ss more ]

-- What the system does with the calls of a flush: all succeed; the temporary file cannot be opened, or
-- its writing, sync or renaming fails with these bytes in it; or the sync of the directory fails;
-- or, once the segment is there, the removal of old log files fails with this many of them gone.
pub data Fault : Type 0 where
  working unopened unsynced : Fault
  unwritten : Bytes → Fault
  unremoved : ℕ → Fault

module _ (crc32 : Bytes → ℕ) (to_json : Segment → Bytes) where
  -- The bytes of a segment's file.
  unfoldable pub segment_image : Bytes → Bytes
  segment_image payload =
      magic ++ to_le_bytes 8 (length payload % 2 ^ 64) ++ to_le_bytes 4 (crc32 payload) ++ payload

  -- The end of `flush`, once the file has its name.
  abbrev pub push_meta : SegmentStore → Str → Option Ranges → Option StorageError × SegmentStore
  push_meta store path none = (some panicked, store)
  push_meta store path (some ranges) =
      let pushed = record store {
        segments = store.segments ++ record { path = path; ranges = ranges } ∷ [];
      } in
      if ltb (store.next_number + 1) (2 ^ 64)
      then (none, record pushed { next_number = store.next_number + 1 })
      else (some corrupt_segment, pushed)

  -- The file once it has its name, and the end of `flush`.
  abbrev pub rename_segment :
      Index → List DiskSeries → SegmentStore → Option StorageError × SegmentStore
  rename_segment ix series store =
      let image = segment_image (to_json (record { series = series })) in
      let path = segment_name store.next_number in
      push_meta
        (record store {
          files =
              HashMap.insert (HashMap.remove store.files (temporary_name store.next_number)) path
                image;
        })
        path (series_ranges ix series [])

  abbrev pub write_segment :
      Fault → Index → Option (List DiskSeries) → SegmentStore → Option StorageError × SegmentStore
  write_segment fault ix none store = (some panicked, store)
  write_segment unopened ix (some series) store = (some io, store)
  write_segment (unwritten bytes) ix (some series) store = (
    some io,
    record store { files = HashMap.insert store.files (temporary_name store.next_number) bytes },
  )
  write_segment unsynced ix (some series) store =
      let image = segment_image (to_json (record { series = series })) in
      (
        some io,
        record store {
          files =
              HashMap.insert (HashMap.remove store.files (temporary_name store.next_number))
                (segment_name store.next_number) image;
        },
      )
  write_segment working ix (some series) store = rename_segment ix series store
  write_segment (unremoved n) ix (some series) store = rename_segment ix series store

  -- `SegmentStore::flush`: the error, if there is one, and the store.
  unfoldable pub flush :
      Fault
      → List (SeriesId × List Sample)
      → Index
      → SegmentStore
      → Option StorageError × SegmentStore
  flush fault series ix store =
      if is_empty series
      then (none, store)
      else write_segment fault ix (disk_series ix (sort_entries series)) store

-- `*start <= range.end && *end >= range.start`, of a requested series
abbrev pub overlaps : List SeriesId → TimeRange → SeriesId × (ℕ × ℕ) → Bool
overlaps ids range r = mem r.0 ids && leb r.1.0 range.end && leb range.start r.1.1

abbrev pub in_range : TimeRange → ℕ × ℕ → Bool
in_range range p = leb range.start p.0 && leb p.0 range.end

abbrev pub extend_entry :
    List SeriesId
    → TimeRange
    → DiskSeries
    → HashMap SeriesId (List Sample)
    → Option SeriesId
    → HashMap SeriesId (List Sample)
extend_entry ids range s result none = result
extend_entry ids range s result (some id) =
    if mem id ids
    then HashMap.upsert result id [] (λ xs. xs ++ map of_pair (keep (in_range range) s.samples))
    else result

-- The loop over the series of one segment.
unfoldable pub extend :
    List SeriesId
    → HashMap LabelSet SeriesId
    → TimeRange
    → List DiskSeries
    → HashMap SeriesId (List Sample)
    → HashMap SeriesId (List Sample)
extend ids labels range [] result = result
extend ids labels range (s ∷ ss) result =
    extend ids labels range ss (extend_entry ids range s result (HashMap.get labels s.labels))

module _ (crc32 : Bytes → ℕ) (from_json : Bytes → Option Segment) where
  abbrev pub parsed : Option Segment → Segment ⊎ StorageError
  parsed none = inr corrupt_segment
  parsed (some segment) = inl segment

  -- `read_segment`, of the bytes in the file
  unfoldable pub read_image : Bytes → Segment ⊎ StorageError
  read_image bytes =
      if ltb (length bytes) 20 || not (take 8 bytes == magic)
      then inr corrupt_segment
      else (let len = from_le_bytes (take 8 (drop 8 bytes)) in
          let checksum = from_le_bytes (take 4 (drop 16 bytes)) in
          let payload = drop 20 bytes in
          if not (nat_beq len (length payload % 2 ^ 64)) || not (nat_beq checksum (crc32 payload))
          then inr corrupt_segment
          else parsed (from_json payload))

  abbrev pub read_bytes : Option Bytes → Segment ⊎ StorageError
  read_bytes none = inr io
  read_bytes (some bytes) = read_image bytes

  unfoldable pub read_segment : Files → Str → Segment ⊎ StorageError
  read_segment files path = read_bytes (HashMap.get files path)

  abbrev pub on_segment :
      (List DiskSeries → HashMap SeriesId (List Sample) ⊎ StorageError)
      → Segment ⊎ StorageError
      → HashMap SeriesId (List Sample) ⊎ StorageError
  on_segment next (inl segment) = next segment.series
  on_segment next (inr e) = inr e

  unfoldable pub read_metas :
      Files
      → List SeriesId
      → HashMap LabelSet SeriesId
      → TimeRange
      → List SegmentMeta
      → HashMap SeriesId (List Sample)
      → HashMap SeriesId (List Sample) ⊎ StorageError
  unfolding extend
  read_metas files ids labels range [] result = inl result
  read_metas files ids labels range (m ∷ ms) result =
      let skip = read_metas files ids labels range ms result in
      let next =
        on_segment
          (λ series. read_metas files ids labels range ms (extend ids labels range series result))
          (read_segment files m.path) in
      if any (overlaps ids range) m.ranges then next else skip

  -- `SegmentStore::read`
  unfoldable pub read :
      SegmentStore
      → List SeriesId
      → HashMap LabelSet SeriesId
      → TimeRange
      → HashMap SeriesId (List Sample) ⊎ StorageError
  unfolding read_metas
  read store ids labels range = read_metas store.files ids labels range store.segments []
