-- ===== src/Db/Table.antt =====
-- The table that a flush writes has the samples of each series under its labels.
use rust_tsdb.Prelude.{
  false-true, ℕ, ◌<◌, ◌≡◌, ◌≢◌, refl, ap, ap₂, sym, ◌∙◌, subst, Bool, true, false, some, List, [],
  ◌∷◌, ◌++◌, inl, inr, map, append-nil, All, concat_map, concat_map-append, is_empty, nat_beq,
  nat_beq_iff, Bool-cases, if◌then◌else◌,
}
use mathlib.Core.List.{map-append}
use rust_tsdb.Prelude.Eq.{◌==◌, nat_eq, eq_iff}
use rust_tsdb.Model.{SeriesId, Sample}
use rust_tsdb.LabelSet.{LabelSet, label_set_eq}
use rust_tsdb.Ids.Sets.{SortedIds, mem, not_mem_below}
use rust_tsdb.Series.Valid.{IsValid}
use rust_tsdb.Index
use rust_tsdb.Index.{Index}
use rust_tsdb.Index.Invariant.{IsWellFormed}
use rust_tsdb.Segments.{to_pair, of_pair}
use rust_tsdb.Segments.Table.{entry_ids, labels_of, Known, EntryFits, disk_of}
use rust_tsdb.Db.{state_of}
use rust_tsdb.Db.Labels.{samples_under, id_for-labels_for}
use rust_tsdb.Db.Take.{IsKnown, table_entry, table_of}

All-above :
    (ix : Index) (k : ℕ) (ids : List SeriesId)
    → All (λ n. k < n) ids
    → All (λ n. k < n) (entry_ids (table_of ix ids))
All-above ix k [] h = tt
All-above ix k (id ∷ ids) h = elim (Bool-cases (is_empty (state_of ix id).samples)) [
  | inl e ↦ rw e (All-above ix k ids h.1)
  | inr e ↦ rw e (h.0, All-above ix k ids h.1)
]

pub entry_ids-SortedIds :
    (ix : Index) (ids : List SeriesId) → SortedIds ids → SortedIds (entry_ids (table_of ix ids))
entry_ids-SortedIds ix [] s = tt
entry_ids-SortedIds ix (id ∷ ids) s = elim (Bool-cases (is_empty (state_of ix id).samples)) [
  | inl e ↦ rw e (entry_ids-SortedIds ix ids s.1)
  | inr e ↦ rw e (All-above ix id ids s.0, entry_ids-SortedIds ix ids s.1)
]

of_pair-to_pair : (xs : List Sample) → map of_pair (map to_pair xs) ≡ xs
of_pair-to_pair [] = refl
of_pair-to_pair (x ∷ xs) = ap (λ t. x ∷ t) (of_pair-to_pair xs)

some_id : (n m : SeriesId) → some n ≡ some m → n ≡ m
some_id n m e = cc

abbrev nothing : List Sample
nothing = []

no_samples : (b : Bool) → (if b then nothing else nothing) ≡ nothing
no_samples true = refl
no_samples false = refl

not_equal : (a b : LabelSet) → a ≢ b → (a == b) ≡ false
not_equal a b h = elim (Bool-cases (a == b)) [ inl e ↦ absurd (h ((eq_iff a b).0 e)) | inr e ↦ e ]

-- Of ids in order the first is not among the later ones.
first_only :
    (ix : Index) (n id : SeriesId) (ids : List SeriesId)
    → All (λ m. n < m) ids
    → (if nat_beq n id then (state_of ix n).samples else [])
        ++ (if mem id ids then (state_of ix id).samples else [])
      ≡ (if (if nat_beq n id then true else mem id ids) then (state_of ix id).samples else [])
first_only ix n id ids h = elim (Bool-cases (nat_beq n id)) [
  | inl e ↦
      let same : n ≡ id = (nat_beq_iff n id).0 e in
      let absent : mem id ids ≡ false =
        not_mem_below id ids (subst (λ z. All (λ m. z < m) ids) same h) in
      rw (e, absent) (append-nil (state_of ix n).samples ∙ ap (λ z. (state_of ix z).samples) same)
  | inr e ↦ rw e refl
]

module _ (jx : Index) (w : IsWellFormed jx) where
  pub IsKnown-Known : (n : SeriesId) → IsKnown jx n → Known jx n
  unfolding Index.get
  IsKnown-Known n k =
      let labelled : Index.labels_for jx n ≡ some (labels_of jx n) =
        unfold Index.labels_for in rw (k.1, Index.labels_for) refl in
      (labelled, id_for-labels_for jx w n (labels_of jx n) labelled)

  pub All-EntryFits :
      (ix : Index) (ids : List SeriesId)
      → ((n : SeriesId) → IsValid (state_of ix n))
      → All (IsKnown jx) ids
      → All (EntryFits jx) (table_of ix ids)
  All-EntryFits ix [] v k = tt
  All-EntryFits ix (id ∷ ids) v k = elim (Bool-cases (is_empty (state_of ix id).samples)) [
    | inl e ↦ rw e (All-EntryFits ix ids v k.1)
    | inr e ↦ rw e ((IsKnown-Known id k.0, e, (v id).ascending), All-EntryFits ix ids v k.1)
  ]

  -- Different ids of the index have different labels.
  labels_of-injective :
      (n m : SeriesId) → Known jx n → Known jx m → labels_of jx n ≡ labels_of jx m → n ≡ m
  labels_of-injective n m h k e = some_id n m (sym h.1 ∙ ap (λ l. Index.id_for jx l) e ∙ k.1)

  samples_under-disk_of :
      (n id : SeriesId) (xs : List Sample)
      → Known jx n
      → Known jx id
      → samples_under (labels_of jx id) (disk_of jx (n, xs)) ≡ (if nat_beq n id then xs else [])
  samples_under-disk_of n id xs h k = elim (Bool-cases (nat_beq n id)) [
    | inl e ↦
        let same : labels_of jx n ≡ labels_of jx id = ap (labels_of jx) ((nat_beq_iff n id).0 e) in
        rw (e, (eq_iff (labels_of jx n) (labels_of jx id)).1 same) (of_pair-to_pair xs)
    | inr e ↦
        let apart : (labels_of jx n == labels_of jx id) ≡ false =
          not_equal (labels_of jx n) (labels_of jx id) (λ same.
            absurd
              (false-true (sym e ∙ (nat_beq_iff n id).1 (labels_of-injective n id h k same)))) in
        rw (e, apart) refl
  ]

  under-table_entry :
      (n id : SeriesId) (xs : List Sample)
      → Known jx n
      → Known jx id
      → concat_map (samples_under (labels_of jx id)) (map (disk_of jx) (table_entry n xs))
        ≡ (if nat_beq n id then xs else [])
  under-table_entry n id [] h k = sym (no_samples (nat_beq n id))
  under-table_entry n id (x ∷ xs) h k =
      append-nil (samples_under (labels_of jx id) (disk_of jx (n, x ∷ xs)))
      ∙ samples_under-disk_of n id (x ∷ xs) h k

  -- In the table a series of it has the samples that it had in the buffer.
  pub under-table_of :
      (ix : Index) (ids : List SeriesId) (id : SeriesId)
      → SortedIds ids
      → All (IsKnown jx) ids
      → IsKnown jx id
      → concat_map (samples_under (labels_of jx id)) (map (disk_of jx) (table_of ix ids))
        ≡ (if mem id ids then (state_of ix id).samples else [])
  under-table_of ix [] id s k h = refl
  under-table_of ix (n ∷ ids) id s k h =
      let f = samples_under (labels_of jx id) in
      let entry = table_entry n (state_of ix n).samples in
      ap (concat_map f) (map-append (disk_of jx) entry (table_of ix ids))
      ∙ concat_map-append f (map (disk_of jx) entry) (map (disk_of jx) (table_of ix ids))
      ∙ ap₂ (λ a b. a ++ b)
          (under-table_entry n id (state_of ix n).samples (IsKnown-Known n k.0)
            (IsKnown-Known id h))
          (under-table_of ix ids id s.1 k.1 h)
      ∙ first_only ix n id ids s.0
