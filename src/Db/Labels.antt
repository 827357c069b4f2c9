-- ===== src/Db/Labels.antt =====
-- The map from label sets to ids that `query` builds, and what it finds in a segment.
use rust_tsdb.Prelude.{
  false-true, ℕ, ◌≡◌, ◌≢◌, refl, ap, sym, ◌∙◌, subst, true, false, Option, none, some, List, [],
  ◌∷◌, inl, inr, map, keep, nat_beq, nat_beq_iff, ne→nat_beq, Bool-cases, Option-cases, arith,
  if◌then◌else◌,
}
use mathlib.Core.Option
use rust_tsdb.Prelude.Eq.{◌==◌, nat_eq, eq_iff}
use rust_tsdb.Prelude.HashMap
use rust_tsdb.Prelude.HashMap.{HashMap, or_default, get-insert, insert-cases}
use rust_tsdb.Model.{SeriesId, Sample, TimeRange, in_timerange}
use rust_tsdb.LabelSet.{LabelSet, label_set_eq}
use rust_tsdb.Ids.Sets.{mem}
use rust_tsdb.Index
use rust_tsdb.Index.{Index}
use rust_tsdb.Index.Invariant.{IsWellFormed}
use rust_tsdb.Segments.{DiskSeries, of_pair, in_range}
use rust_tsdb.Segments.Read.{found_entry, found_in}
use rust_tsdb.Db.{labels_map, put_labels}

-- The samples of a series in a segment, if it has these labels.
abbrev pub samples_under : LabelSet → DiskSeries → List Sample
samples_under ls s = if s.labels == ls then map of_pair s.samples else []

keep-of_pair :
    (range : TimeRange) (ps : List (ℕ × ℕ))
    → map of_pair (keep (in_range range) ps) ≡ keep (in_timerange range) (map of_pair ps)
unfolding in_timerange
keep-of_pair range [] = refl
keep-of_pair range (p ∷ ps) = elim (Bool-cases (in_range range p)) [
  | inl e ↦ rw e (ap (λ t. of_pair p ∷ t) (keep-of_pair range ps))
  | inr e ↦ rw e (keep-of_pair range ps)
]

-- Another id's entry gives nothing.
found_other :
    (ids : List SeriesId) (range : TimeRange) (j id : SeriesId) (s : DiskSeries)
    → j ≢ id
    → found_entry ids range s id (some j) ≡ []
found_other ids range j id s h = ground (arith, ne→nat_beq j id h)

pub id_eq : (n m : SeriesId) → some n ≡ some m → n ≡ m
id_eq n m e = cc

pub some_labels : (a b : LabelSet) → some a ≡ some b → a ≡ b
some_labels a b e = cc

differ : (ls : LabelSet) (s : DiskSeries) → (s.labels == ls) ≡ false → s.labels ≢ ls
differ ls s t e = absurd (false-true (sym t ∙ (eq_iff s.labels ls).1 e))

module _ (ix : Index) (w : IsWellFormed ix) where
  pub id_for-labels_for :
      (id : SeriesId) (ls : LabelSet)
      → Index.labels_for ix id ≡ some ls
      → Index.id_for ix ls ≡ some id
  unfolding Index.labels_for Index.id_for
  id_for-labels_for id ls = elim (Option-cases (HashMap.get ix.forward id)) [
    | inl e ↦ rw (e, Index.labels_for) (λ h. absurd (cc))
    | inr (s, e) ↦
        rw (e, Index.labels_for)
          (λ h.
            let same : s.labels ≡ ls = cc in
            ap (λ l. Index.id_for ix l) (sym same)
            ∙ ap (λ o. Option.map (λ t. t.id) o) (w.forward_inverted id s e)
            ∙ ap some (w.forward_id id s e))
  ]

  pub labels_for-id_for :
      (id : SeriesId) (ls : LabelSet)
      → Index.id_for ix ls ≡ some id
      → Index.labels_for ix id ≡ some ls
  unfolding Index.labels_for Index.id_for
  labels_for-id_for id ls = elim (Option-cases (HashMap.get ix.inverted ls)) [
    | inl e ↦ rw (e, Index.id_for) (λ h. absurd (cc))
    | inr (s, e) ↦
        rw (e, Index.id_for)
          (λ h.
            let same : s.id ≡ id = cc in
            ap (λ n. Index.labels_for ix n) (sym same)
            ∙ ap (λ o. Option.map (λ t. t.labels) o) (w.inverted_forward ls s e)
            ∙ ap some (w.inverted_labels ls s e))
  ]

  put_labels_self :
      (m : HashMap LabelSet SeriesId) (j : SeriesId) (o : Option LabelSet) (ls : LabelSet)
      → o ≡ some ls
      → HashMap.get (put_labels m j o) ls ≡ some j
  put_labels_self m j none ls e = absurd (cc)
  put_labels_self m j (some l) ls e =
      let same : l ≡ ls = cc in get-insert m l ls j ∙ rw ((eq_iff l ls).1 same) refl

  abbrev IsConsistent : HashMap LabelSet SeriesId → Type 0
  IsConsistent m =
      (ls : LabelSet) (j : SeriesId) → HashMap.get m ls ≡ some j → Index.id_for ix ls ≡ some j

  pub empty-IsConsistent : IsConsistent []
  unfolding HashMap.get
  empty-IsConsistent = λ ls j h. absurd (cc)

  put_labels-IsConsistent :
      (m : HashMap LabelSet SeriesId) (id : SeriesId) (o : Option LabelSet)
      → Index.labels_for ix id ≡ o
      → IsConsistent m
      → IsConsistent (put_labels m id o)
  put_labels-IsConsistent m id none e c = c
  put_labels-IsConsistent m id (some l) e c = λ ls j h. elim (insert-cases m l ls h) [
    | inl both ↦
        subst (λ z. Index.id_for ix z ≡ some j) both.0 (id_for-labels_for id l e ∙ ap some both.1)
    | inr old ↦ c ls j old
  ]

  pub labels_map-IsConsistent :
      (ids : List SeriesId) (m : HashMap LabelSet SeriesId)
      → IsConsistent m
      → IsConsistent (labels_map ix ids m)
  unfolding labels_map
  labels_map-IsConsistent [] m c = c
  labels_map-IsConsistent (id ∷ ids) m c =
      labels_map-IsConsistent ids (put_labels m id (Index.labels_for ix id))
        (put_labels-IsConsistent m id (Index.labels_for ix id) refl c)

  -- An id stays under its labels.
  put_labels-kept :
      (m : HashMap LabelSet SeriesId) (j : SeriesId) (o : Option LabelSet) (ls : LabelSet)
      (id : SeriesId)
      → Index.labels_for ix j ≡ o
      → Index.id_for ix ls ≡ some id
      → HashMap.get m ls ≡ some id
      → HashMap.get (put_labels m j o) ls ≡ some id
  put_labels-kept m j none ls id e k h = h
  put_labels-kept m j (some l) ls id e k h = get-insert m l ls j ∙ elim (Bool-cases (l == ls)) [
    | inl t ↦
        rw t (sym (id_for-labels_for j l e) ∙ ap (λ z. Index.id_for ix z) ((eq_iff l ls).0 t) ∙ k)
    | inr t ↦ rw t h
  ]

  labels_map-kept :
      (ids : List SeriesId) (m : HashMap LabelSet SeriesId) (ls : LabelSet) (id : SeriesId)
      → Index.id_for ix ls ≡ some id
      → HashMap.get m ls ≡ some id
      → HashMap.get (labels_map ix ids m) ls ≡ some id
  unfolding labels_map
  labels_map-kept [] m ls id k h = h
  labels_map-kept (j ∷ ids) m ls id k h =
      labels_map-kept ids (put_labels m j (Index.labels_for ix j)) ls id k
        (put_labels-kept m j (Index.labels_for ix j) ls id refl k h)

  pub get-labels_map :
      (ids : List SeriesId) (m : HashMap LabelSet SeriesId) (ls : LabelSet) (id : SeriesId)
      → Index.labels_for ix id ≡ some ls
      → mem id ids ≡ true
      → HashMap.get (labels_map ix ids m) ls ≡ some id
  unfolding labels_map
  get-labels_map [] m ls id e = λ h. absurd (cc)
  get-labels_map (j ∷ ids) m ls id e = elim (Bool-cases (nat_beq j id)) [
    | inl t ↦ rw t (λ h.
        let same : j ≡ id = (nat_beq_iff j id).0 t in
        labels_map-kept ids (put_labels m j (Index.labels_for ix j)) ls id
          (id_for-labels_for id ls e)
          (put_labels_self m j (Index.labels_for ix j) ls (ap (λ n. Index.labels_for ix n) same ∙ e)
            ∙ ap some same))
    | inr t ↦ rw t (λ h. get-labels_map ids (put_labels m j (Index.labels_for ix j)) ls id e h)
  ]

  module _ (ids : List SeriesId) (range : TimeRange) where
    -- In a segment an id of the answer finds exactly the samples that stand under its labels.
    pub found_in-samples_under :
        (id : SeriesId) (ls : LabelSet) (s : DiskSeries)
        → Index.labels_for ix id ≡ some ls
        → mem id ids ≡ true
        → found_in ids (labels_map ix ids []) range id s
          ≡ keep (in_timerange range) (samples_under ls s)
    found_in-samples_under id ls s e h = elim (Bool-cases (s.labels == ls)) [
      | inl t ↦
          let here : HashMap.get (labels_map ix ids []) s.labels ≡ some id =
            ap (λ l. HashMap.get (labels_map ix ids []) l) ((eq_iff s.labels ls).0 t)
            ∙ get-labels_map ids [] ls id e h in
          rw (t, here, h, (nat_beq_iff id id).1 refl) (keep-of_pair range s.samples)
      | inr t ↦ rw t (elim (Option-cases (HashMap.get (labels_map ix ids []) s.labels)) [
        | inl n ↦ rw n refl
        | inr (j, n) ↦ rw n (
            found_other ids range j id s (λ same. differ ls s t (
              some_labels s.labels ls (
                sym (
                  labels_for-id_for id s.labels (
                    labels_map-IsConsistent ids [] empty-IsConsistent s.labels id
                      (n ∙ ap some same)))
                ∙ e))))
      ])
    ]
