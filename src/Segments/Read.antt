-- ===== src/Segments/Read.antt =====
-- `read` gives each requested series the samples of every segment, as if no segment were skipped.
use rust_tsdb.Prelude.{
  ℕ, ◌≤◌, ◌≡◌, refl, ap, ap₂, sym, ◌∙◌, subst, Bool, true, false, ◌&&◌, Option, none, some, List,
  [], ◌∷◌, ◌++◌, inl, inr, append-nil, append_assoc, map, keep, any, All, concat_map, leb,
  Bool-cases, Option-cases, arith, if◌then◌else◌,
}
use rust_tsdb.Prelude.Eq.{◌==◌, nat_eq, eq_iff}
use rust_tsdb.Prelude.HashMap
use rust_tsdb.Prelude.HashMap.{HashMap, or_default, get-upsert}
use rust_tsdb.Model.{SeriesId, Sample, TimeRange}
use rust_tsdb.LabelSet.{LabelSet, label_set_eq}
use rust_tsdb.Ids.Sets.{mem}
use rust_tsdb.Index
use rust_tsdb.Index.{Index}
use rust_tsdb.Wal.Record.{Bytes}
use rust_tsdb.Segments.{
  DiskSeries, Segment, Ranges, SegmentMeta, Files, of_pair, read_segment, overlaps, in_range,
  extend_entry, extend, read_metas,
}

-- Every sample of a series in the segment lies in the range that stands for the series.
abbrev pub Within : ℕ × ℕ → List (ℕ × ℕ) → Type 0
Within r samples = All (λ (p : ℕ × ℕ). (r.0 ≤ p.0) × (p.0 ≤ r.1)) samples

abbrev pub CoversSeries : Index → Ranges → DiskSeries → Type 0
CoversSeries ix ranges s =
    (id : SeriesId) × (Index.id_for ix s.labels ≡ some id)
    × ((r : ℕ × ℕ) × (HashMap.get ranges id ≡ some r) × Within r s.samples)

abbrev pub Covers : Index → Ranges → Segment → Type 0
Covers ix ranges g = All (CoversSeries ix ranges) g.series

abbrev pub found_entry :
    List SeriesId → TimeRange → DiskSeries → SeriesId → Option SeriesId → List Sample
found_entry ids range s id none = []
found_entry ids range s id (some j) =
    if mem j ids
    then (if j == id then map of_pair (keep (in_range range) s.samples) else [])
    else []

abbrev entry : SeriesId → ℕ × ℕ → SeriesId × (ℕ × ℕ)
entry j w = (j, w)

pair_eq : (j k : SeriesId) (w v : ℕ × ℕ) → j ≡ k → w ≡ v → entry j w ≡ entry k v
pair_eq j k w v e f = ap₂ entry e f

same_id : (n m : SeriesId) → some n ≡ some m → n ≡ m
same_id n m e = cc

some_eq : (w v : ℕ × ℕ) → some w ≡ some v → w ≡ v
some_eq w v e = cc

any-head :
    (f : SeriesId × (ℕ × ℕ) → Bool) (x : SeriesId × (ℕ × ℕ)) (m : Ranges)
    → any f (x ∷ m) ≡ false
    → f x ≡ false
any-head f x m e = ground (arith, e)

any-tail :
    (f : SeriesId × (ℕ × ℕ) → Bool) (x : SeriesId × (ℕ × ℕ)) (m : Ranges)
    → any f (x ∷ m) ≡ false
    → any f m ≡ false
any-tail f x m e = ground (arith, e)

any-get :
    (f : SeriesId × (ℕ × ℕ) → Bool) (m : Ranges) (k : SeriesId) (v : ℕ × ℕ)
    → HashMap.get m k ≡ some v
    → any f m ≡ false
    → f (k, v) ≡ false
unfolding HashMap.get
any-get f [] k v = λ h e. absurd (cc)
any-get f ((j, w) ∷ m) k v = elim (Bool-cases (j == k)) [
  | inl t ↦ rw t (λ h e.
      subst (λ z. f z ≡ false) (pair_eq j k w v ((eq_iff j k).0 t) (some_eq w v h))
        (any-head f (j, w) m e))
  | inr t ↦ rw t (λ h e. any-get f m k v h (any-tail f (j, w) m e))
]

keep-outside :
    (range : TimeRange) (r : ℕ × ℕ) (samples : List (ℕ × ℕ))
    → Within r samples
    → (leb r.0 range.end && leb range.start r.1) ≡ false
    → keep (in_range range) samples ≡ []
keep-outside range r [] w h = refl
keep-outside range r (p ∷ ps) w h = ground (arith, keep-outside range r ps)

abbrev nothing : List Sample
nothing = []

same_branch : (b : Bool) → (if b then nothing else nothing) ≡ nothing
same_branch true = refl
same_branch false = refl

module _ (ids : List SeriesId) (labels : HashMap LabelSet SeriesId) (range : TimeRange) where
  -- What a series in a segment gives to the answer for an id.
  abbrev pub found_in : SeriesId → DiskSeries → List Sample
  found_in id s = found_entry ids range s id (HashMap.get labels s.labels)

  extend_one :
      (id : SeriesId) (s : DiskSeries) (result : HashMap SeriesId (List Sample)) (j : SeriesId)
      → or_default
          (if j == id
            then some (
                or_default (HashMap.get result j) []
                ++ map of_pair (keep (in_range range) s.samples))
            else HashMap.get result id)
          []
        ≡ or_default (HashMap.get result id) []
          ++ (if j == id then map of_pair (keep (in_range range) s.samples) else [])
  extend_one id s result j = elim (Bool-cases (j == id)) [
    | inl e ↦ rw e (
        ap
          (λ z.
            or_default (HashMap.get result z) [] ++ map of_pair (keep (in_range range) s.samples))
          ((eq_iff j id).0 e))
    | inr e ↦ rw e (sym (append-nil (or_default (HashMap.get result id) [])))
  ]

  extend_entry-found :
      (id : SeriesId) (s : DiskSeries) (result : HashMap SeriesId (List Sample))
      (o : Option SeriesId)
      → or_default (HashMap.get (extend_entry ids range s result o) id) []
        ≡ or_default (HashMap.get result id) [] ++ found_entry ids range s id o
  extend_entry-found id s result none = sym (append-nil (or_default (HashMap.get result id) []))
  extend_entry-found id s result (some j) =
      let more : List Sample → List Sample =
        λ xs. xs ++ map of_pair (keep (in_range range) s.samples) in
      elim (Bool-cases (mem j ids)) [
        | inl t ↦
            rw t (
              ap (λ o. or_default o []) (get-upsert result j id [] more) ∙ extend_one id s result j)
        | inr t ↦ rw t (sym (append-nil (or_default (HashMap.get result id) [])))
      ]

  extend-found :
      (id : SeriesId) (ss : List DiskSeries) (result : HashMap SeriesId (List Sample))
      → or_default (HashMap.get (extend ids labels range ss result) id) []
        ≡ or_default (HashMap.get result id) [] ++ concat_map (found_in id) ss
  unfolding extend
  extend-found id [] result = sym (append-nil (or_default (HashMap.get result id) []))
  extend-found id (s ∷ ss) result =
      let o = HashMap.get labels s.labels in
      extend-found id ss (extend_entry ids range s result o)
      ∙ ap (λ b. b ++ concat_map (found_in id) ss) (extend_entry-found id s result o)
      ∙ append_assoc (or_default (HashMap.get result id) []) (found_in id s)
          (concat_map (found_in id) ss)

  -- The range of a series stands under every id that the index gives its labels.
  known_range :
      (ix : Index) (ranges : Ranges) (s : DiskSeries)
      → CoversSeries ix ranges s
      → (j : SeriesId) → Index.id_for ix s.labels ≡ some j
      → (r : ℕ × ℕ) × (HashMap.get ranges j ≡ some r) × Within r s.samples
  known_range ix ranges s (id, known, found) j e =
      subst (λ n. (r : ℕ × ℕ) × (HashMap.get ranges n ≡ some r) × Within r s.samples)
        (same_id id j (sym known ∙ e)) found

  -- A segment that is skipped has nothing for any id.
  found_in-skipped :
      (ix : Index) (ranges : Ranges) (id : SeriesId) (s : DiskSeries)
      → ((ls : LabelSet) (j : SeriesId)
          → HashMap.get labels ls ≡ some j
          → Index.id_for ix ls ≡ some j)
      → any (overlaps ids range) ranges ≡ false
      → CoversSeries ix ranges s
      → found_in id s ≡ []
  found_in-skipped ix ranges id s known none_there covers =
      let covers_known = known_range ix ranges s covers in
      elim (Option-cases (HashMap.get labels s.labels)) [
        | inl e ↦ rw e refl
        | inr (j, e) ↦
            let (r, there, within) = covers_known j (known s.labels j e) in
            let outside = any-get (overlaps ids range) ranges j r there none_there in
            elim (Bool-cases (mem j ids)) [
              | inl t ↦
                  let apart : (leb r.0 range.end && leb range.start r.1) ≡ false =
                    ground (arith, outside, t) in
                  rw (e, t, keep-outside range r s.samples within apart) (same_branch (j == id))
              | inr t ↦ rw (e, t) refl
            ]
      ]

  skipped :
      (ix : Index) (ranges : Ranges) (id : SeriesId) (ss : List DiskSeries)
      → ((ls : LabelSet) (j : SeriesId)
          → HashMap.get labels ls ≡ some j
          → Index.id_for ix ls ≡ some j)
      → any (overlaps ids range) ranges ≡ false
      → All (CoversSeries ix ranges) ss
      → concat_map (found_in id) ss ≡ []
  skipped ix ranges id [] known none_there covers = refl
  skipped ix ranges id (s ∷ ss) known none_there covers =
      ap₂ (λ a b. a ++ b) (found_in-skipped ix ranges id s known none_there covers.0)
        (skipped ix ranges id ss known none_there covers.1)

-- The segments of the metas, as they stand in the files, with ranges that cover them.
module _ (crc32 : Bytes → ℕ) (from_json : Bytes → Option Segment) where
  abbrev pub Holds : Files → Index → List SegmentMeta → List Segment → Type 0
  Holds files ix [] [] = Unit
  Holds files ix [] (g ∷ gs) = ⊥
  Holds files ix (m ∷ ms) [] = ⊥
  Holds files ix (m ∷ ms) (g ∷ gs) =
      (read_segment crc32 from_json files m.path ≡ inl g)
      × Covers ix m.ranges g
      × Holds files ix ms gs

  module _ (files : Files) (ix : Index) (ids : List SeriesId) (labels : HashMap LabelSet SeriesId)
      (range : TimeRange)
      (known : (ls : LabelSet) (j : SeriesId)
        → HashMap.get labels ls ≡ some j
        → Index.id_for ix ls ≡ some j) where
    -- What all segments have for an id.
    abbrev pub found_all : List Segment → SeriesId → List Sample
    found_all gs id =
        concat_map (λ (g : Segment). concat_map (found_in ids labels range id) g.series) gs

    -- When every segment's file reads back as the segment, the ranges that stand for it cover its samples, and
    -- each label set is under the id that the index has for it, `read` gives no error, and every id gets
    -- the samples in the range from all segments in their order: skipping the segments whose ranges do not
    -- meet the query loses nothing.
    pub read_metas-found :
        (ms : List SegmentMeta) (gs : List Segment) (result : HashMap SeriesId (List Sample))
        → Holds files ix ms gs
        → (r : HashMap SeriesId (List Sample)) × (read_metas crc32 from_json files ids labels range
              ms result
            ≡ inl r)
          × ((id : SeriesId)
              → or_default (HashMap.get r id) []
                ≡ or_default (HashMap.get result id) [] ++ found_all gs id)
    unfolding read_metas
    read_metas-found [] [] result h =
        (result, refl, λ id. sym (append-nil (or_default (HashMap.get result id) [])))
    read_metas-found [] (g ∷ gs) result h = absurd h
    read_metas-found (m ∷ ms) [] result h = absurd h
    read_metas-found (m ∷ ms) (g ∷ gs) result h =
        elim (Bool-cases (any (overlaps ids range) m.ranges)) [
          | inl t ↦
              let next = extend ids labels range g.series result in
              let (r, reads, found) = read_metas-found ms gs next h.2 in
              (
                r,
                rw (t, h.0) reads,
                λ id.
                    found id
                    ∙ ap (λ b. b ++ found_all gs id)
                        (extend-found ids labels range id g.series result)
                    ∙ append_assoc (or_default (HashMap.get result id) [])
                        (concat_map (found_in ids labels range id) g.series) (found_all gs id),
              )
          | inr t ↦
              let (r, reads, found) = read_metas-found ms gs result h.2 in
              (
                r,
                rw t reads,
                λ id.
                    found id
                    ∙ ap (λ b. or_default (HashMap.get result id) [] ++ (b ++ found_all gs id))
                        (sym (skipped ids labels range ix m.ranges id g.series known t h.1)),
              )
        ]
