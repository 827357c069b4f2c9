-- ===== src/Index.antt =====
-- src/storage/index.rs: the index from label sets to series. Both maps hold the same `Arc<Series>`:
-- here a handle with the two fields that never change, and the state under the series' lock stands
-- in `heap`, by the series' id, so that a change through one handle is seen through the other.
pub mod Posting
pub mod Unions
pub mod Invariant
pub mod Encode
pub mod Resolve
use rust_tsdb.Prelude.{
  ℕ, zero, suc, ◌+◌, ◌%◌, ◌^◌, Bool, true, false, not, Option, none, some, List, [], ◌∷◌, ◌++◌,
  is_empty, if◌then◌else◌,
}
use mathlib.Core.Option
use rust_tsdb.Prelude.Bytes.{Str, str_eq}
use rust_tsdb.Prelude.Eq.{nat_eq}
use rust_tsdb.Prelude.HashMap
use rust_tsdb.Prelude.HashMap.{HashMap, or_default}
use rust_tsdb.Model.{SeriesId, Label, Matcher, equal, not_equal}
use rust_tsdb.LabelSet
use rust_tsdb.LabelSet.{LabelSet, label_set_eq}
use rust_tsdb.Series.{SeriesState, default_state}
use rust_tsdb.Ids.{union_sorted, difference_sorted, intersect_in_place, union_all}

-- `Arc<Series>`
pub record Series : Type 0 where
  pub id : SeriesId
  pub labels : LabelSet

abbrev pub PostingIndex : Type 0
PostingIndex = HashMap Str (HashMap Str (List SeriesId))

pub record Index : Type 0 where
  pub inverted : HashMap LabelSet Series
  pub forward : HashMap SeriesId Series
  pub posting_index : PostingIndex
  pub all_ids : List SeriesId
  pub next_id : SeriesId
  pub heap : HashMap SeriesId SeriesState

-- `Index::new`
abbrev pub new : Index
new = record {
  inverted = [];
  forward = [];
  posting_index = [];
  all_ids = [];
  next_id = 0;
  heap = [];
}

-- `.entry(name).or_default().entry(value).or_default().push(id)`
unfoldable pub push_posting : PostingIndex → Str → Str → SeriesId → PostingIndex
push_posting p name value id =
    HashMap.upsert p name [] (λ values. HashMap.upsert values value [] (λ ids. ids ++ id ∷ []))

-- `for (name, value) in labels { .. }`
unfoldable pub post_labels : PostingIndex → List (Str × Str) → SeriesId → PostingIndex
unfolding push_posting
post_labels p [] id = p
post_labels p ((name, value) ∷ ls) id = post_labels (push_posting p name value id) ls id

-- The arm of `encode` for a label set that is new; `next_id.0 += 1` is on a `u64`.
unfoldable pub add_series : Index → LabelSet → Index × Series
unfolding post_labels
add_series ix labels =
    let id = ix.next_id in
    let series : Series = record { id = id; labels = labels } in
    (
      record {
        inverted = HashMap.insert ix.inverted labels series;
        forward = HashMap.insert ix.forward id series;
        posting_index = post_labels ix.posting_index (LabelSet.into_iter labels) id;
        all_ids = ix.all_ids ++ id ∷ [];
        next_id = (id + 1) % 2 ^ 64;
        heap = HashMap.insert ix.heap id default_state;
      },
      series,
    )

abbrev pub encode_as : Index → LabelSet → Option Series → Index × Series
encode_as ix labels (some series) = (ix, series)
encode_as ix labels none = add_series ix labels

-- `Index::encode`
unfoldable pub encode : Index → LabelSet → Index × Series
unfolding add_series
encode ix labels = encode_as ix labels (HashMap.get ix.inverted labels)

-- `Index::get`, `labels_for`, `id_for`
unfoldable pub get : Index → SeriesId → Option Series
get ix id = HashMap.get ix.forward id

unfoldable pub labels_for : Index → SeriesId → Option LabelSet
labels_for ix id = Option.map (λ s. s.labels) (HashMap.get ix.forward id)

unfoldable pub id_for : Index → LabelSet → Option SeriesId
id_for ix labels = Option.map (λ s. s.id) (HashMap.get ix.inverted labels)

-- `self.posting_index.get(name)`, where a missing entry counts as the empty map, as both uses have it.
abbrev pub values_of : PostingIndex → Str → HashMap Str (List SeriesId)
values_of p name = or_default (HashMap.get p name) []

abbrev pub posting : PostingIndex → Str → Str → List SeriesId
posting p name value = or_default (HashMap.get (values_of p name) value) []

-- The two arms of `candidates`.
unfoldable pub candidates_equal : Index → Str → Str → List SeriesId
candidates_equal ix name value = posting ix.posting_index name value

unfoldable pub candidates_not_equal : Index → Str → Str → List SeriesId
candidates_not_equal ix name value =
    let with_label = union_all (values_of ix.posting_index name) in
    let with_this_value = posting ix.posting_index name value in
    let result = difference_sorted with_label with_this_value in
    if not (is_empty value)
    then union_sorted result (difference_sorted ix.all_ids with_label)
    else result

-- `Index::candidates`
unfoldable pub candidates : Index → Matcher → List SeriesId
unfolding candidates_equal candidates_not_equal
candidates ix m = elim m.operator [
  | equal ↦ candidates_equal ix m.name m.value
  | not_equal ↦ candidates_not_equal ix m.name m.value
]

-- The loop of `resolve`, which stops when nothing is left.
unfoldable pub narrow : Index → List SeriesId → List Matcher → List SeriesId
unfolding candidates
narrow ix ids [] = ids
narrow ix ids (m ∷ ms) =
    let left = intersect_in_place ids (candidates ix m) in
    let rest = narrow ix left ms in if is_empty left then [] else rest

-- `Index::resolve`
unfoldable pub resolve : Index → List Matcher → List SeriesId
unfolding narrow
resolve ix [] = ix.all_ids
resolve ix (m ∷ ms) = narrow ix (candidates ix m) ms

-- `Index::including_label`
unfoldable pub including_label : Index → Str → List SeriesId
including_label ix name = union_all (values_of ix.posting_index name)
