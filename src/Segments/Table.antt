-- ===== src/Segments/Table.antt =====
-- The table that `flush` writes: its series, and the ranges that stand for them.
use rust_tsdb.Prelude.{
  ℕ, ◌≤◌, ◌<◌, ◌≡◌, refl, ap, ◌∙◌, false, Option, some, List, [], ◌∷◌, map, is_empty, last?, All,
  arith, if◌then◌else◌,
}
use rust_tsdb.Prelude.Eq.{◌==◌, nat_eq, eq_iff}
use rust_tsdb.Prelude.Bytes.{str_eq}
use rust_tsdb.Prelude.HashMap
use rust_tsdb.Prelude.HashMap.{HashMap, or_default, get-insert, get-remove}
use rust_tsdb.Model.{SeriesId, Sample}
use rust_tsdb.LabelSet.{LabelSet}
use rust_tsdb.Ids.Sets.{SortedIds}
use rust_tsdb.Series.Valid.{Ascending}
use rust_tsdb.Index
use rust_tsdb.Index.{Index}
use rust_tsdb.Segments.{
  DiskSeries, Ranges, to_pair, sort_entries, insert_entry, disk_series, series_ranges, on_range,
}
use rust_tsdb.Segments.Read.{Within, CoversSeries}

abbrev pub Entry : Type 0
Entry = SeriesId × List Sample

abbrev pub entry_ids : List Entry → List SeriesId
entry_ids = map (λ (e : Entry). e.0)

-- The labels of an id that the index knows.
abbrev pub labels_of : Index → SeriesId → LabelSet
labels_of ix id = or_default (Index.labels_for ix id) (record { labels = [] })

-- The entry's id is one of the index, which has it under its labels.
abbrev pub Known : Index → SeriesId → Type 0
Known ix id =
    (Index.labels_for ix id ≡ some (labels_of ix id))
    × (Index.id_for ix (labels_of ix id) ≡ some id)

-- What `DbState::flush` makes of a series: at least one sample, in the order of time.
abbrev pub EntryFits : Index → Entry → Type 0
EntryFits ix e = Known ix e.0 × (is_empty e.1 ≡ false) × Ascending e.1

abbrev pub disk_of : Index → Entry → DiskSeries
disk_of ix e = record { labels = labels_of ix e.0; samples = map to_pair e.1 }

pub disk_series-known :
    (ix : Index) (es : List Entry)
    → All (EntryFits ix) es
    → disk_series ix es ≡ some (map (disk_of ix) es)
unfolding disk_series
disk_series-known ix [] h = refl
disk_series-known ix (e ∷ es) h = rw (h.0.0.0, disk_series-known ix es h.1) refl

insert_entry-front :
    (x : Entry) (ys : List Entry) → All (λ n. x.0 < n) (entry_ids ys) → insert_entry x ys ≡ x ∷ ys
unfolding insert_entry
insert_entry-front x [] h = refl
insert_entry-front x (y ∷ ys) h = ground arith

pub sort_entries-sorted : (es : List Entry) → SortedIds (entry_ids es) → sort_entries es ≡ es
unfolding sort_entries
sort_entries-sorted [] h = refl
sort_entries-sorted (x ∷ xs) h =
    ap (insert_entry x) (sort_entries-sorted xs h.1) ∙ insert_entry-front x xs h.0

-- The last sample of a list that starts with `x`.
abbrev final : Sample → List Sample → Sample
final x [] = x
final x (y ∷ ys) = final y ys

abbrev range_of : List Sample → ℕ × ℕ
range_of [] = (0, 0)
range_of (x ∷ xs) = (x.timestamp, (final x xs).timestamp)

last?-to_pair :
    (x : Sample) (xs : List Sample) → last? (map to_pair (x ∷ xs)) ≡ some (to_pair (final x xs))
last?-to_pair x [] = refl
last?-to_pair x (y ∷ ys) = last?-to_pair y ys

le-final :
    (x : Sample) (xs : List Sample) → Ascending (x ∷ xs) → x.timestamp ≤ (final x xs).timestamp
le-final x [] h = omega arith
le-final x (y ∷ ys) h = omega (arith, le-final y ys h.1, h.0.0)

Within-final :
    (start : ℕ) (x : Sample) (xs : List Sample)
    → start ≤ x.timestamp
    → Ascending (x ∷ xs)
    → Within (start, (final x xs).timestamp) (map to_pair (x ∷ xs))
Within-final start x [] h a = omega arith
Within-final start x (y ∷ ys) h a = (
  (h, omega (arith, le-final y ys a.1, a.0.0)),
  Within-final start y ys (omega (arith, a.0.0)) a.1,
)

range_of-Within : (xs : List Sample) → Ascending xs → Within (range_of xs) (map to_pair xs)
range_of-Within [] a = tt
range_of-Within (x ∷ xs) a = Within-final x.timestamp x xs (omega arith) a

on_range-some :
    (id : SeriesId) (xs : List Sample)
    → is_empty xs ≡ false
    → on_range (some id) (map to_pair xs) (last? (map to_pair xs)) ≡ some (id, range_of xs)
on_range-some id [] h = absurd (cc)
on_range-some id (x ∷ xs) h = rw (last?-to_pair x xs) refl

-- The ranges once every entry is in them.
abbrev pub ranges_with : List Entry → Ranges → Ranges
ranges_with [] ranges = ranges
ranges_with (e ∷ es) ranges = ranges_with es (HashMap.insert ranges e.0 (range_of e.1))

pub series_ranges-known :
    (ix : Index) (es : List Entry) (ranges : Ranges)
    → All (EntryFits ix) es
    → series_ranges ix (map (disk_of ix) es) ranges ≡ some (ranges_with es ranges)
unfolding series_ranges
series_ranges-known ix [] ranges h = refl
series_ranges-known ix (e ∷ es) ranges h =
    rw (h.0.0.1, series_ranges, on_range-some e.0 e.1 h.0.1)
      (series_ranges-known ix es (HashMap.insert ranges e.0 (range_of e.1)) h.1)

get-ranges_with :
    (es : List Entry) (ranges : Ranges) (id : SeriesId)
    → All (λ n. id < n) (entry_ids es)
    → HashMap.get (ranges_with es ranges) id ≡ HashMap.get ranges id
get-ranges_with [] ranges id h = refl
get-ranges_with (e ∷ es) ranges id h =
    get-ranges_with es (HashMap.insert ranges e.0 (range_of e.1)) id h.1
    ∙ get-insert ranges e.0 id (range_of e.1)
    ∙ ground (arith, h.0)

id_eq : (n m : SeriesId) → some n ≡ some m → n ≡ m
id_eq n m e = cc

if_equal :
    (n m : SeriesId) (r : ℕ × ℕ) (o : Option (ℕ × ℕ))
    → n ≡ m
    → (if n == m then some r else o) ≡ some r
if_equal n m r o e = rw ((eq_iff n m).1 e) refl

pub ranges_with-Covers :
    (ix : Index) (es : List Entry) (ranges : Ranges)
    → All (EntryFits ix) es
    → SortedIds (entry_ids es)
    → All (CoversSeries ix (ranges_with es ranges)) (map (disk_of ix) es)
ranges_with-Covers ix [] ranges h s = tt
ranges_with-Covers ix (e ∷ es) ranges h s = (
  (
    e.0,
    h.0.0.1,
    (
      range_of e.1,
      get-ranges_with es (HashMap.insert ranges e.0 (range_of e.1)) e.0 s.0
          ∙ get-insert ranges e.0 e.0 (range_of e.1)
          ∙ if_equal e.0 e.0 (range_of e.1) (HashMap.get ranges e.0) refl,
      range_of-Within e.1 h.0.2,
    ),
  ),
  ranges_with-Covers ix es (HashMap.insert ranges e.0 (range_of e.1)) h.1 s.1,
)
