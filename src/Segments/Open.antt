-- ===== src/Segments/Open.antt =====
-- src/storage/segment.rs: `SegmentStore::open` and `index_segment`. The calls of the system succeed, and
-- the lock is free. The entries of the directory come in the order of the map of files.
use rust_tsdb.Prelude.{
  ℕ, ◌+◌, ◌^◌, Bool, true, false, ◌||◌, Option, none, some, List, [], ◌∷◌, ◌++◌, ◌⊎◌, inl, inr,
  last?, map, leb, ltb, if◌then◌else◌,
}
use rust_tsdb.Prelude.Bytes.{Str, str_eq}
use rust_tsdb.Prelude.Eq.{◌==◌, nat_eq}
use rust_tsdb.Prelude.HashMap
use rust_tsdb.Prelude.HashMap.{HashMap}
use rust_tsdb.Prelude.Decimal.{parse_u64, strip_prefix, strip_suffix}
use rust_tsdb.Model.{SeriesId}
use rust_tsdb.Index
use rust_tsdb.Index.{Index}
use rust_tsdb.Wal.Record.{Bytes}
use rust_tsdb.Segments.{
  DiskSeries, Segment, Ranges, SegmentMeta, Files, SegmentStore, StorageError, corrupt_segment,
  panicked, segment_prefix, seg_suffix, segment_name, read_segment,
}

-- The number of a file; `none` for a file that is no segment, an error for a name that `flush` does not give.
abbrev pub checked_number : Str → Option ℕ → Option ℕ ⊎ StorageError
checked_number name none = inr corrupt_segment
checked_number name (some number) =
    if name == segment_name number then inl (some number) else inr corrupt_segment

abbrev pub raw_number : Str → Option Str → Option ℕ ⊎ StorageError
raw_number name none = inl none
raw_number name (some raw) = checked_number name (parse_u64 raw)

abbrev pub without_suffix : Option Str → Option Str
without_suffix none = none
without_suffix (some rest) = strip_suffix seg_suffix rest

unfoldable pub number_of : Str → Option ℕ ⊎ StorageError
number_of name = raw_number name (without_suffix (strip_prefix segment_prefix name))

abbrev pub with_number :
    Str → Option ℕ ⊎ StorageError → List (ℕ × Str) ⊎ StorageError → List (ℕ × Str) ⊎ StorageError
with_number name (inr e) rest = inr e
with_number name (inl none) rest = rest
with_number name (inl (some n)) (inl rest) = inl ((n, name) ∷ rest)
with_number name (inl (some n)) (inr e) = inr e

-- The first loop of `open`; the first bad name is the error.
unfoldable pub numbered_files : List Str → List (ℕ × Str) ⊎ StorageError
unfolding number_of
numbered_files [] = inl []
numbered_files (name ∷ names) = with_number name (number_of name) (numbered_files names)

-- `files.sort_by_key(|(number, _)| *number)`
unfoldable pub insert_file : ℕ × Str → List (ℕ × Str) → List (ℕ × Str)
insert_file x [] = x ∷ []
insert_file x (y ∷ ys) = if leb x.0 y.0 then x ∷ y ∷ ys else y ∷ insert_file x ys

unfoldable pub sort_files : List (ℕ × Str) → List (ℕ × Str)
unfolding insert_file
sort_files [] = []
sort_files (x ∷ xs) = insert_file x (sort_files xs)

-- `samples.windows(2).any(|pair| pair[0].0 >= pair[1].0)`
unfoldable pub unordered : List (ℕ × ℕ) → Bool
unordered [] = false
unordered (x ∷ []) = false
unordered (x ∷ y ∷ rest) = leb y.0 x.0 || unordered (y ∷ rest)

-- What `index_segment` works on.
pub record Indexing : Type 0 where
  pub index : Index
  pub latest : HashMap SeriesId ℕ
  pub ranges : Ranges

-- `latest.get(&id).is_some_and(|previous| first <= *previous)`
abbrev pub not_after : ℕ → Option ℕ → Bool
not_after first none = false
not_after first (some previous) = leb first previous

abbrev pub is_there {ℓ} : {A : Type ℓ} → Option A → Bool
is_there none = false
is_there (some a) = true

abbrev pub place_series : Indexing → ℕ → ℕ → Index × Index.Series → Indexing ⊎ StorageError
place_series st first last (ix, series) =
    if not_after first (HashMap.get st.latest series.id)
      || is_there (HashMap.get st.ranges series.id)
    then inr corrupt_segment
    else inl (record {
      index = ix;
      latest = HashMap.insert st.latest series.id last;
      ranges = HashMap.insert st.ranges series.id (first, last);
    })

abbrev pub on_samples :
    Indexing → DiskSeries → List (ℕ × ℕ) → Option (ℕ × ℕ) → Indexing ⊎ StorageError
on_samples st s [] last = inr corrupt_segment
on_samples st s (first ∷ rest) none = inr panicked
on_samples st s (first ∷ rest) (some last) =
    if unordered (first ∷ rest)
    then inr corrupt_segment
    else place_series st first.0 last.0 (Index.encode st.index s.labels)

-- One round of the loop of `index_segment`.
unfoldable pub index_series : Indexing → DiskSeries → Indexing ⊎ StorageError
unfolding unordered
index_series st s = on_samples st s s.samples (last? s.samples)

-- `index_segment`, from empty ranges
unfoldable pub index_segment : List DiskSeries → Indexing → Indexing ⊎ StorageError
unfolding index_series
index_segment [] st = inl st
index_segment (s ∷ ss) st = elim (index_series st s) [
  | inr e ↦ inr e
  | inl after ↦ index_segment ss after
]

-- What the second loop of `open` carries.
pub record Opening : Type 0 where
  pub index : Index
  pub latest : HashMap SeriesId ℕ
  pub segments : List SegmentMeta

abbrev pub push_segment : Opening → Str → Indexing ⊎ StorageError → Opening ⊎ StorageError
push_segment o path (inr e) = inr e
push_segment o path (inl st) = inl (record {
  index = st.index;
  latest = st.latest;
  segments = o.segments ++ record { path = path; ranges = st.ranges } ∷ [];
})

abbrev pub on_segment_read : Opening → Str → Segment ⊎ StorageError → Opening ⊎ StorageError
on_segment_read o path (inr e) = inr e
on_segment_read o path (inl segment) =
    push_segment o path
      (index_segment segment.series (record { index = o.index; latest = o.latest; ranges = [] }))

-- `files.last().map_or(Some(0), |(number, _)| number.checked_add(1))`
unfoldable pub number_after : Option (ℕ × Str) → Option ℕ
number_after none = some 0
number_after (some f) = if ltb (f.0 + 1) (2 ^ 64) then some (f.0 + 1) else none

module _ (crc32 : Bytes → ℕ) (from_json : Bytes → Option Segment) where
  unfoldable pub open_segments : Files → List (ℕ × Str) → Opening → Opening ⊎ StorageError
  unfolding index_segment
  open_segments files [] o = inl o
  open_segments files (f ∷ fs) o =
      elim (on_segment_read o f.1 (read_segment crc32 from_json files f.1)) [
        | inr e ↦ inr e
        | inl after ↦ open_segments files fs after
      ]

  abbrev pub opened_store :
      Files → Option ℕ → Opening ⊎ StorageError → (Opening × SegmentStore) ⊎ StorageError
  opened_store files next (inr e) = inr e
  opened_store files none (inl o) = inr corrupt_segment
  opened_store files (some n) (inl o) =
      inl (o, record { files = files; segments = o.segments; next_number = n })

  abbrev pub open_files :
      Files → Index → List (ℕ × Str) ⊎ StorageError → (Opening × SegmentStore) ⊎ StorageError
  open_files files ix (inr e) = inr e
  open_files files ix (inl numbers) =
      let sorted = sort_files numbers in
      opened_store files (number_after (last? sorted))
        (open_segments files sorted (record { index = ix; latest = []; segments = [] }))

  -- `SegmentStore::open`: the index and the newest timestamps stand in the first part of the result.
  unfoldable pub open_store : Files → Index → (Opening × SegmentStore) ⊎ StorageError
  unfolding numbered_files sort_files number_after open_segments
  open_store files ix = open_files files ix (numbered_files (map (λ (f : Str × Bytes). f.0) files))
