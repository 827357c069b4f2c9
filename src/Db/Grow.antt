-- ===== src/Db/Grow.antt =====
-- An index that grows: every label set keeps its id, and the segments stay covered.
use rust_tsdb.Prelude.{
  ℕ, ◌≡◌, refl, ap, ap₂, sym, ◌∙◌, subst, Option, none, some, List, [], ◌∷◌, ◌++◌, inl, inr,
  concat_map, All, Bool-cases, Option-cases,
}
use mathlib.Core.Option
use rust_tsdb.Prelude.Eq.{◌==◌, eq_iff}
use rust_tsdb.Prelude.HashMap
use rust_tsdb.Prelude.HashMap.{HashMap}
use rust_tsdb.Model.{SeriesId}
use rust_tsdb.LabelSet.{LabelSet, label_set_eq}
use rust_tsdb.Index
use rust_tsdb.Index.{Index, encode}
use rust_tsdb.Index.Invariant.{IsWellFormed}
use rust_tsdb.Index.Encode.{Encoded}
use rust_tsdb.Segments.{DiskSeries, Segment, Ranges, SegmentMeta, Files, SegmentStore}
use rust_tsdb.Segments.Read.{CoversSeries, Holds}
use rust_tsdb.Segments.Flush.{StoreHolds}
use rust_tsdb.Wal.Record.{Bytes}
use rust_tsdb.Db.Labels.{samples_under, labels_for-id_for, some_labels}
use rust_tsdb.Db.Query.{on_disk}

-- Every label set that has an id keeps it.
abbrev pub Grows : Index → Index → Type 0
Grows ix jx =
    (ls : LabelSet) (id : SeriesId) → Index.id_for ix ls ≡ some id → Index.id_for jx ls ≡ some id

pub same-Grows : (ix jx : Index) → jx.inverted ≡ ix.inverted → Grows ix jx
unfolding Index.id_for
same-Grows ix jx e ls id h =
    ap (λ (m : HashMap LabelSet Index.Series). Option.map (λ s. s.id) (HashMap.get m ls)) e ∙ h

found_series :
    (ix : Index) (ls : LabelSet) (id : SeriesId)
    → Index.id_for ix ls ≡ some id
    → (s : Index.Series) × (HashMap.get ix.inverted ls ≡ some s)
unfolding Index.id_for
found_series ix ls id = elim (Option-cases (HashMap.get ix.inverted ls)) [
  | inl e ↦ rw e (λ h. absurd (cc))
  | inr found ↦ λ h. found
]

pub encode-Grows :
    (ix : Index) (labels : LabelSet) (r : Index × Index.Series)
    → IsWellFormed ix
    → Encoded ix labels r
    → Grows ix r.0
unfolding Index.id_for
encode-Grows ix labels r w e ls id h =
    let (s, found) = found_series ix ls id h in
    let there = e.kept s.id s (w.inverted_forward ls s found) in
    let again =
      subst (λ l. HashMap.get r.0.inverted l ≡ some s) (w.inverted_labels ls s found)
        (e.well_formed.forward_inverted s.id s there) in
    ap (Option.map (λ t. t.id)) again ∙ sym (ap (Option.map (λ t. t.id)) found) ∙ h

-- An id stands for one label set.
pub id_for-injective :
    (ix : Index) (w : IsWellFormed ix) (a b : LabelSet) (id : SeriesId)
    → Index.id_for ix a ≡ some id
    → Index.id_for ix b ≡ some id
    → a ≡ b
id_for-injective ix w a b id h k =
    some_labels a b (sym (labels_for-id_for ix w id a h) ∙ labels_for-id_for ix w id b k)

Covers-Grows :
    (ix jx : Index) (ranges : Ranges) (ss : List DiskSeries)
    → Grows ix jx
    → All (CoversSeries ix ranges) ss
    → All (CoversSeries jx ranges) ss
Covers-Grows ix jx ranges [] g c = tt
Covers-Grows ix jx ranges (s ∷ ss) g c =
    ((c.0.0, g s.labels c.0.0 c.0.1, c.0.2), Covers-Grows ix jx ranges ss g c.1)

no_id : (id : SeriesId) → none ≡ some id → ⊥
no_id id e = cc

-- A segment has nothing under labels that the index does not know.
unknown-samples_under :
    (ix : Index) (ranges : Ranges) (ls : LabelSet) (ss : List DiskSeries)
    → Index.id_for ix ls ≡ none
    → All (CoversSeries ix ranges) ss
    → concat_map (samples_under ls) ss ≡ []
unknown-samples_under ix ranges ls [] h c = refl
unknown-samples_under ix ranges ls (s ∷ ss) h c = elim (Bool-cases (s.labels == ls)) [
  | inl e ↦
      absurd (no_id c.0.0 (sym h ∙ ap (Index.id_for ix) (sym ((eq_iff s.labels ls).0 e)) ∙ c.0.1))
  | inr e ↦ rw e (unknown-samples_under ix ranges ls ss h c.1)
]

module _ (crc32 : Bytes → ℕ) (to_json : Segment → Bytes) (from_json : Bytes → Option Segment) where
  pub Holds-Grows :
      (ix jx : Index) (files : Files) (ms : List SegmentMeta) (gs : List Segment)
      → Grows ix jx
      → Holds crc32 from_json files ix ms gs
      → Holds crc32 from_json files jx ms gs
  Holds-Grows ix jx files [] [] g d = tt
  Holds-Grows ix jx files [] (x ∷ gs) g d = absurd d
  Holds-Grows ix jx files (m ∷ ms) [] g d = absurd d
  Holds-Grows ix jx files (m ∷ ms) (x ∷ gs) g d =
      (d.0, Covers-Grows ix jx m.ranges x.series g d.1, Holds-Grows ix jx files ms gs g d.2)

  pub StoreHolds-Grows :
      (ix jx : Index) (store : SegmentStore) (gs : List Segment)
      → Grows ix jx
      → StoreHolds crc32 to_json from_json ix store gs
      → StoreHolds crc32 to_json from_json jx store gs
  StoreHolds-Grows ix jx store gs g d = record {
    holds = Holds-Grows ix jx store.files store.segments gs g d.holds;
    numbered = d.numbered;
  }

  pub unknown-on_disk :
      (ix : Index) (files : Files) (ls : LabelSet) (ms : List SegmentMeta) (gs : List Segment)
      → Index.id_for ix ls ≡ none
      → Holds crc32 from_json files ix ms gs
      → on_disk gs ls ≡ []
  unknown-on_disk ix files ls [] [] h d = refl
  unknown-on_disk ix files ls [] (x ∷ gs) h d = absurd d
  unknown-on_disk ix files ls (m ∷ ms) [] h d = absurd d
  unknown-on_disk ix files ls (m ∷ ms) (x ∷ gs) h d =
      ap₂ (λ a b. a ++ b) (unknown-samples_under ix m.ranges ls x.series h d.1)
        (unknown-on_disk ix files ls ms gs h d.2)
