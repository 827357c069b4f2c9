-- ===== src/Db/Query.antt =====
-- `query` answers with what is stored: the segments' samples and those in the buffers.
use rust_tsdb.Prelude.{
  false-true, ℕ, ◌≤◌, ◌<◌, ◌≡◌, refl, ap, ap₂, sym, ◌∙◌, Bool, true, false, ◌&&◌, Option, none,
  some, List, [], ◌∷◌, ◌++◌, inl, inr, map, keep, All, concat_map, ge→ltb, ne→nat_beq, nat_beq_iff,
  Bool-cases, Option-cases, arith,
}
use rust_tsdb.Prelude.Eq.{nat_eq}
use rust_tsdb.Prelude.HashMap
use rust_tsdb.Prelude.HashMap.{HashMap, or_default, get-remove}
use rust_tsdb.Model.{SeriesId, Sample, TimeRange, Matcher, in_timerange}
use rust_tsdb.LabelSet.{LabelSet, label_set_eq}
use rust_tsdb.Ids.Sets.{SortedIds, mem, mem-keep, keep-SortedIds}
use rust_tsdb.Series.Valid.{IsValid}
use rust_tsdb.Series.Range.{range-keep}
use rust_tsdb.Index
use rust_tsdb.Index.{Index}
use rust_tsdb.Index.Invariant.{IsWellFormed, is_some}
use rust_tsdb.Index.Resolve.{matches_all, resolve-keep}
use rust_tsdb.Segments
use rust_tsdb.Segments.{DiskSeries, Segment, StorageError}
use rust_tsdb.Segments.Read.{found_in, read_metas-found}
use rust_tsdb.Segments.Flush.{StoreHolds}
use rust_tsdb.Segments.Table.{labels_of}
use rust_tsdb.Wal.Record.{Bytes}
use rust_tsdb.Db.{
  DbState, Persistence, SeriesResult, state_of, labels_map, answer_of, answers, read_disk, query,
}
use rust_tsdb.Db.Labels.{
  samples_under, labels_map-IsConsistent, empty-IsConsistent, found_in-samples_under,
}

-- The samples under a label set in the segments, in the order of the segments.
abbrev pub on_disk : List Segment → LabelSet → List Sample
on_disk gs ls = concat_map (λ (g : Segment). concat_map (samples_under ls) g.series) gs

-- All samples of a series, in the order in which they came.
abbrev pub stored : Index → List Segment → SeriesId → List Sample
stored ix gs id = on_disk gs (labels_of ix id) ++ (state_of ix id).samples

-- What `query` has to answer for an id.
abbrev pub answer : Index → List Segment → TimeRange → SeriesId → SeriesResult
answer ix gs range id = record {
  labels = labels_of ix id;
  samples = keep (in_timerange range) (stored ix gs id);
}

keep-append : (p : Sample → Bool) (xs ys : List Sample) → keep p (xs ++ ys) ≡ keep p xs ++ keep p ys
keep-append p [] ys = refl
keep-append p (x ∷ xs) ys = elim (Bool-cases (p x)) [
  | inl e ↦ rw e (ap (λ t. x ∷ t) (keep-append p xs ys))
  | inr e ↦ rw e (keep-append p xs ys)
]

keep-concat_map {ℓ} :
    {A : Type ℓ} (p : Sample → Bool) (f g : A → List Sample) (xs : List A)
    → ((x : A) → f x ≡ keep p (g x))
    → concat_map f xs ≡ keep p (concat_map g xs)
keep-concat_map p f g [] h = refl
keep-concat_map p f g (x ∷ xs) h =
    ap₂ (λ a b. a ++ b) (h x) (keep-concat_map p f g xs h)
    ∙ sym (keep-append p (g x) (concat_map g xs))

mem-later : (n x : SeriesId) (xs : List SeriesId) → mem n xs ≡ true → mem n (x ∷ xs) ≡ true
mem-later n x xs h = ground (arith, h)

pub All-mem :
    {P : SeriesId → Type 0} (xs : List SeriesId)
    → ((n : SeriesId) → mem n xs ≡ true → P n)
    → All P xs
All-mem [] h = tt
All-mem (x ∷ xs) h =
    (h x (rw ((nat_beq_iff x x).1 refl) refl), All-mem xs (λ n m. h n (mem-later n x xs m)))

pub and_left : (a b : Bool) → (a && b) ≡ true → a ≡ true
and_left a b h = ground arith

-- The series of an id that the index has.
module _ (ix : Index) (w : IsWellFormed ix) where
  pub known_id :
      (n : SeriesId)
      → mem n ix.all_ids ≡ true
      → (s : Index.Series) × (HashMap.get ix.forward n ≡ some s)
  known_id n m = elim (Option-cases (HashMap.get ix.forward n)) [
    | inl e ↦ absurd (false-true (sym (ap is_some e) ∙ sym (w.ids_known n) ∙ m))
    | inr found ↦ found
  ]

  labels_for-known :
      (n : SeriesId) → mem n ix.all_ids ≡ true → Index.labels_for ix n ≡ some (labels_of ix n)
  unfolding Index.labels_for
  labels_for-known n m = let (s, e) = known_id n m in rw (e, Index.labels_for) refl

  labels_of-known :
      (n : SeriesId) (s : Index.Series)
      → HashMap.get ix.forward n ≡ some s
      → labels_of ix n ≡ s.labels
  unfolding Index.labels_for
  labels_of-known n s e = rw (e, Index.labels_for) refl

  get-known : (n : SeriesId) → Index.get ix n ≡ HashMap.get ix.forward n
  unfolding Index.get
  get-known n = refl

  All-removed :
      (f : SeriesId → List Sample) (id : SeriesId) (ids : List SeriesId)
      → (disk : HashMap SeriesId (List Sample)) → All (λ n. id < n) ids
      → All (λ n. or_default (HashMap.get disk n) [] ≡ f n) ids
      → All (λ n. or_default (HashMap.get (HashMap.remove disk id) n) [] ≡ f n) ids
  All-removed f id [] disk b h = tt
  All-removed f id (n ∷ ids) disk b h = (
    ap (λ o. or_default o []) (get-remove disk id n)
        ∙ rw (ne→nat_beq id n (omega (arith, b.0))) h.0,
    All-removed f id ids disk b.1 h.1,
  )

  answers_lem :
      (gs : List Segment) (range : TimeRange) (ids : List SeriesId)
      (disk : HashMap SeriesId (List Sample))
      → ((id : SeriesId) → IsValid (state_of ix id))
      → SortedIds ids
      → All (λ id. mem id ix.all_ids ≡ true) ids
      → All
          (λ id.
            or_default (HashMap.get disk id) []
            ≡ keep (in_timerange range) (on_disk gs (labels_of ix id)))
          ids
      → answers ix range ids disk ≡ map (answer ix gs range) ids
  unfolding answers
  answers_lem gs range [] disk v s k h = refl
  answers_lem gs range (id ∷ ids) disk v s k h =
      let (series, e) = known_id id k.0 in
      let rest = answers ix range ids (HashMap.remove disk id) in
      let found = or_default (HashMap.get disk id) [] in
      ap (λ o. answer_of ix range id found o rest) (get-known id ∙ e)
      ∙ ap₂ (λ (r : SeriesResult) rs. r ∷ rs)
          (ap₂ (λ ls xs. record { labels = ls; samples = xs }) (sym (labels_of-known id series e))
            (ap₂ (λ a b. a ++ b) h.0 (range-keep (state_of ix id) range (v id))
              ∙ sym (
                  keep-append (in_timerange range) (on_disk gs (labels_of ix id))
                    (state_of ix id).samples)))
          (answers_lem gs range ids (HashMap.remove disk id) v s.1 k.1 (
            All-removed (λ n. keep (in_timerange range) (on_disk gs (labels_of ix n))) id ids disk
              s.0 h.1))

module _ (crc32 : Bytes → ℕ) (to_json : Segment → Bytes) (from_json : Bytes → Option Segment) where
  -- The segments are those of the store; a database without one has none.
  abbrev pub DiskHolds : Index → Option Persistence → List Segment → Type 0
  DiskHolds ix none gs = gs ≡ []
  DiskHolds ix (some p) gs = StoreHolds crc32 to_json from_json ix p.disk gs

  -- What every database is that has not failed, with the segments `gs` on disk.
  pub record IsSound (st : DbState) (gs : List Segment) : Type 0 where
    pub index_formed : IsWellFormed st.index
    pub series_valid : (id : SeriesId) → IsValid (state_of st.index id)
    pub disk_holds : DiskHolds st.index st.persistence gs

  found_all-on_disk :
      (ix : Index) (w : IsWellFormed ix) (ids : List SeriesId) (range : TimeRange)
      (gs : List Segment)
      → (id : SeriesId) → mem id ids ≡ true
      → mem id ix.all_ids ≡ true
      → concat_map
          (λ (g : Segment). concat_map (found_in ids (labels_map ix ids []) range id) g.series)
          gs
        ≡ keep (in_timerange range) (on_disk gs (labels_of ix id))
  found_all-on_disk ix w ids range gs id h k =
      let ls = labels_of ix id in
      keep-concat_map (in_timerange range)
        (λ (g : Segment). concat_map (found_in ids (labels_map ix ids []) range id) g.series)
        (λ (g : Segment). concat_map (samples_under ls) g.series) gs
        (λ g.
          keep-concat_map (in_timerange range) (found_in ids (labels_map ix ids []) range id)
            (samples_under ls) g.series
            (λ s. found_in-samples_under ix w ids range id ls s (labels_for-known ix w id k) h))

  read_disk-found :
      (ix : Index) (w : IsWellFormed ix) (ids : List SeriesId) (range : TimeRange)
      (gs : List Segment)
      → (o : Option Persistence) → DiskHolds ix o gs
      → ((id : SeriesId) → mem id ids ≡ true → mem id ix.all_ids ≡ true)
      → (disk : HashMap SeriesId (List Sample)) × (read_disk crc32 from_json o ids
            (labels_map ix ids [])
            range
          ≡ inl disk)
        × ((id : SeriesId)
            → mem id ids ≡ true
            → or_default (HashMap.get disk id) []
              ≡ keep (in_timerange range) (on_disk gs (labels_of ix id)))
  unfolding Segments.read HashMap.get
  read_disk-found ix w ids range gs none d k = (
    [],
    refl,
    λ id h.
        ap (λ (l : List Segment). keep (in_timerange range) (on_disk l (labels_of ix id))) (sym d),
  )
  read_disk-found ix w ids range gs (some p) d k =
      let consistent = labels_map-IsConsistent ix w ids [] (empty-IsConsistent ix w) in
      let (disk, reads, found) =
        read_metas-found crc32 from_json p.disk.files ix ids (labels_map ix ids []) range consistent
          p.disk.segments gs [] d.holds in
      (disk, reads, λ id h. found id ∙ found_all-on_disk ix w ids range gs id h (k id h))

  -- On a sound database that has not failed, and a range that does not end before it starts, `query`
  -- gives for exactly the series that every matcher matches, in the order of their ids, the labels
  -- and exactly the stored samples in the range: those of the segments, then those in the buffer.
  pub query_lem :
      (st : DbState) (gs : List Segment) (ms : List Matcher) (range : TimeRange)
      → (sound : IsSound st gs) → st.failed ≡ false
      → range.start ≤ range.end
      → query crc32 from_json st ms range
        ≡ inl (
            map
              (answer st.index gs range)
              (keep (λ n. matches_all ms (HashMap.get st.index.forward n)) st.index.all_ids))
  unfolding query
  query_lem st gs ms range sound ok order =
      let ix = st.index in
      let w = sound.index_formed in
      let p : SeriesId → Bool = λ n. matches_all ms (HashMap.get ix.forward n) in
      let ids = keep p ix.all_ids in
      let inside : (id : SeriesId) → mem id ids ≡ true → mem id ix.all_ids ≡ true =
        λ id h. and_left (mem id ix.all_ids) (p id) (sym (mem-keep p id ix.all_ids) ∙ h) in
      let (disk, reads, found) =
        read_disk-found ix w ids range gs st.persistence sound.disk_holds inside in
      rw (ge→ltb range.end range.start order, ok, resolve-keep ix w ms, reads)
        (ap inl (
          answers_lem ix w gs range ids disk sound.series_valid
            (keep-SortedIds p ix.all_ids w.ids_sorted) (All-mem ids inside) (All-mem ids found)))
