-- ===== src/Db/View.antt =====
-- What the database has under a label set, and what an append of samples makes of it.
use rust_tsdb.Prelude.{
  ℕ, false-true, ◌+◌, ◌<◌, ◌≡◌, refl, ap, ap₂, sym, ◌∙◌, Bool, true, false, Option, none, some,
  List, [], ◌∷◌, ◌++◌, inl, inr, append-nil, append_assoc, ltb, nat_beq, nat_beq_iff, ne→nat_beq,
  Bool-cases, Option-cases, arith, if◌then◌else◌,
}
use mathlib.Core.Option
use rust_tsdb.Prelude.Eq.{◌==◌, nat_eq, eq_iff}
use rust_tsdb.Prelude.HashMap
use rust_tsdb.Prelude.HashMap.{HashMap, or_default, get-insert}
use rust_tsdb.Model.{SeriesId, Sample}
use rust_tsdb.LabelSet.{LabelSet, label_set_eq}
use rust_tsdb.Series
use rust_tsdb.Series.{SeriesState, default_state}
use rust_tsdb.Ids.Sets.{mem}
use rust_tsdb.Index
use rust_tsdb.Index.{Index, encode, encode_as, add_series}
use rust_tsdb.Index.Invariant.{IsWellFormed, is_some}
use rust_tsdb.Segments.{Segment}
use rust_tsdb.Segments.Table.{labels_of}
use rust_tsdb.Db.{state_of, with_state, append_samples}
use rust_tsdb.Db.Labels.{labels_for-id_for}
use rust_tsdb.Db.Grow.{id_for-injective}
use rust_tsdb.Db.Query.{on_disk, stored}
use rust_tsdb.Db.Take.{state_of-with_state}

-- The state of the series with these labels; the state of a new series, when there is none.
abbrev pub state_at : Index → LabelSet → SeriesState
state_at ix ls = or_default (Option.map (state_of ix) (Index.id_for ix ls)) default_state

-- All samples under a label set, in the order in which they came.
abbrev pub held : Index → List Segment → LabelSet → List Sample
held ix gs ls = on_disk gs ls ++ (state_at ix ls).samples

-- Whether a sample at this time comes after the newest one.
abbrev pub newer : Option ℕ → ℕ → Bool
newer none timestamp = true
newer (some n) timestamp = ltb n timestamp

-- The samples of a list that come after all that was accepted before them.
abbrev pub accepted : Option ℕ → List Sample → List Sample
accepted newest [] = []
accepted newest (s ∷ ss) =
    let rest = accepted (if newer newest s.timestamp then some s.timestamp else newest) ss in
    if newer newest s.timestamp then s ∷ rest else rest

abbrev pub newest_after : Option ℕ → List Sample → Option ℕ
newest_after newest [] = newest
newest_after newest (s ∷ ss) =
    newest_after (if newer newest s.timestamp then some s.timestamp else newest) ss

-- A series state that has these samples more than another one.
pub record Extends (st after : SeriesState) (ss : List Sample) : Type 0 where
  pub samples_more : after.samples ≡ st.samples ++ accepted st.newest ss
  pub newest_same : after.newest ≡ newest_after st.newest ss

pub accepted-append :
    (n : Option ℕ) (xs ys : List Sample)
    → accepted n (xs ++ ys) ≡ accepted n xs ++ accepted (newest_after n xs) ys
accepted-append n [] ys = refl
accepted-append n (x ∷ xs) ys = elim (Bool-cases (newer n x.timestamp)) [
  | inl e ↦ rw e (ap (λ t. x ∷ t) (accepted-append (some x.timestamp) xs ys))
  | inr e ↦ rw e (accepted-append n xs ys)
]

pub newest_after-append :
    (n : Option ℕ) (xs ys : List Sample)
    → newest_after n (xs ++ ys) ≡ newest_after (newest_after n xs) ys
newest_after-append n [] ys = refl
newest_after-append n (x ∷ xs) ys =
    newest_after-append (if newer n x.timestamp then some x.timestamp else n) xs ys

pub Extends-refl : (st after : SeriesState) → after ≡ st → Extends st after []
Extends-refl st after e = record {
  samples_more = ap (λ (s : SeriesState). s.samples) e ∙ sym (append-nil st.samples);
  newest_same = ap (λ (s : SeriesState). s.newest) e;
}

pub Extends-trans :
    (st mid after : SeriesState) (xs ys : List Sample)
    → Extends st mid xs
    → Extends mid after ys
    → Extends st after (xs ++ ys)
Extends-trans st mid after xs ys a b = record {
  samples_more =
      b.samples_more
      ∙ ap₂ (λ u (n : Option ℕ). u ++ accepted n ys) a.samples_more a.newest_same
      ∙ append_assoc st.samples (accepted st.newest xs) (accepted (newest_after st.newest xs) ys)
      ∙ ap (λ t. st.samples ++ t) (sym (accepted-append st.newest xs ys));
  newest_same =
      b.newest_same
      ∙ ap (λ n. newest_after n ys) a.newest_same
      ∙ sym (newest_after-append st.newest xs ys);
}

append-Extends_parts :
    (xs : List Sample) (newest : Option ℕ) (gen : ℕ) (s : Sample)
    → Extends
        (record { samples = xs; newest = newest; logged_gen = gen })
        (Series.append (record { samples = xs; newest = newest; logged_gen = gen }) s).0
        (s ∷ [])
unfolding Series.append Series.accepts
append-Extends_parts xs none gen s = record { samples_more = refl; newest_same = refl }
append-Extends_parts xs (some n) gen s = elim (Bool-cases (ltb n s.timestamp)) [
  | inl e ↦ record { samples_more = rw e refl; newest_same = rw e refl }
  | inr e ↦ record { samples_more = rw e (sym (append-nil xs)); newest_same = rw e refl }
]

-- `append` of each sample in turn takes those that come after all before them.
pub append_samples-Extends :
    (ss : List Sample) (st : SeriesState) (n : ℕ) → Extends st (append_samples ss (st, n)).0 ss
unfolding append_samples
append_samples-Extends [] st n = Extends-refl st st refl
append_samples-Extends (s ∷ ss) st n =
    let next = Series.append st s in
    Extends-trans st next.0 (append_samples ss (next.0, if next.1 then n + 1 else n)).0 (s ∷ []) ss
      (append-Extends_parts st.samples st.newest st.logged_gen s)
      (append_samples-Extends ss next.0 (if next.1 then n + 1 else n))

no_labels : (ls : LabelSet) → none ≡ some ls → ⊥
no_labels ls e = cc

pub state_at-known :
    (ix : Index) (ls : LabelSet) (id : SeriesId)
    → Index.id_for ix ls ≡ some id
    → state_at ix ls ≡ state_of ix id
state_at-known ix ls id e = ap (λ o. or_default (Option.map (state_of ix) o) default_state) e

pub state_at-unknown :
    (ix : Index) (ls : LabelSet) → Index.id_for ix ls ≡ none → state_at ix ls ≡ default_state
state_at-unknown ix ls e = ap (λ o. or_default (Option.map (state_of ix) o) default_state) e

-- A label set that has an id has one of those that the index lists.
pub known_mem :
    (ix : Index) (w : IsWellFormed ix) (ls : LabelSet) (id : SeriesId)
    → Index.id_for ix ls ≡ some id
    → mem id ix.all_ids ≡ true
unfolding Index.labels_for
known_mem ix w ls id e = elim (Option-cases (HashMap.get ix.forward id)) [
  | inl f ↦
      absurd
        (no_labels ls (sym (ap (Option.map (λ s. s.labels)) f) ∙ labels_for-id_for ix w id ls e))
  | inr (s, f) ↦ w.ids_known id ∙ ap is_some f
]

-- What is held under labels that have an id is what is stored for the id.
pub held-stored :
    (ix : Index) (w : IsWellFormed ix) (gs : List Segment) (ls : LabelSet) (id : SeriesId)
    → Index.id_for ix ls ≡ some id
    → held ix gs ls ≡ stored ix gs id
held-stored ix w gs ls id e =
    let same : labels_of ix id ≡ ls =
      ap (λ o. or_default o (record { labels = [] })) (labels_for-id_for ix w id ls e) in
    ap₂ (λ l (st : SeriesState). on_disk gs l ++ st.samples) (sym same) (state_at-known ix ls id e)

-- The index has an id below the next one for every label set that it knows.
known_below :
    (ix : Index) (w : IsWellFormed ix) (ls : LabelSet) (id : SeriesId)
    → Index.id_for ix ls ≡ some id
    → id < ix.next_id
known_below ix w ls id e = w.ids_below id (known_mem ix w ls id e)

later-ne : (n id : ℕ) → id < n → nat_beq n id ≡ false
later-ne n id h = ne→nat_beq n id (omega arith)

map_if :
    (b : Bool) (x : Index.Series) (o : Option Index.Series)
    → Option.map (λ (s : Index.Series). s.id) (if b then some x else o)
      ≡ (if b then some x.id else Option.map (λ (s : Index.Series). s.id) o)
map_if true x o = refl
map_if false x o = refl

add_series-id_for :
    (ix : Index) (labels ls : LabelSet)
    → Index.id_for (add_series ix labels).0 ls
      ≡ (if labels == ls then some ix.next_id else Index.id_for ix ls)
unfolding add_series Index.id_for
add_series-id_for ix labels ls =
    let series : Index.Series = record { id = ix.next_id; labels = labels } in
    ap (Option.map (λ s. s.id)) (get-insert ix.inverted labels ls series)
    ∙ map_if (labels == ls) series (HashMap.get ix.inverted ls)

pub add_series-state_of :
    (ix : Index) (labels : LabelSet) (n : SeriesId)
    → state_of (add_series ix labels).0 n
      ≡ (if nat_beq ix.next_id n then default_state else state_of ix n)
unfolding add_series
add_series-state_of ix labels n = state_of-with_state ix ix.next_id n default_state

add_series-state_at :
    (ix : Index) (w : IsWellFormed ix) (labels : LabelSet)
    → Index.id_for ix labels ≡ none
    → (ls : LabelSet) → state_at (add_series ix labels).0 ls ≡ state_at ix ls
add_series-state_at ix w labels new ls =
    let jx = (add_series ix labels).0 in
    elim (Bool-cases (labels == ls)) [
      | inl e ↦
          let there : Index.id_for jx ls ≡ some ix.next_id =
            add_series-id_for ix labels ls ∙ rw e refl in
          let here : Index.id_for ix ls ≡ none =
            ap (Index.id_for ix) (sym ((eq_iff labels ls).0 e)) ∙ new in
          state_at-known jx ls ix.next_id there
          ∙ add_series-state_of ix labels ix.next_id
          ∙ rw ((nat_beq_iff ix.next_id ix.next_id).1 refl) refl
          ∙ sym (state_at-unknown ix ls here)
      | inr e ↦
          let same : Index.id_for jx ls ≡ Index.id_for ix ls =
            add_series-id_for ix labels ls ∙ rw e refl in
          elim (Option-cases (Index.id_for ix ls)) [
            | inl h ↦ state_at-unknown jx ls (same ∙ h) ∙ sym (state_at-unknown ix ls h)
            | inr (id, h) ↦
                state_at-known jx ls id (same ∙ h)
                ∙ add_series-state_of ix labels id
                ∙ rw (later-ne ix.next_id id (known_below ix w ls id h)) refl
                ∙ sym (state_at-known ix ls id h)
          ]
    ]

-- What `encode` adds is a series with no samples.
encode_as-state_at :
    (ix : Index) (w : IsWellFormed ix) (labels : LabelSet) (o : Option Index.Series)
    → HashMap.get ix.inverted labels ≡ o
    → (ls : LabelSet) → state_at (encode_as ix labels o).0 ls ≡ state_at ix ls
unfolding Index.id_for
encode_as-state_at ix w labels (some s) e ls = refl
encode_as-state_at ix w labels none e ls =
    add_series-state_at ix w labels (ap (Option.map (λ s. s.id)) e) ls

pub encode-state_at :
    (ix : Index) (w : IsWellFormed ix) (labels ls : LabelSet)
    → state_at (encode ix labels).0 ls ≡ state_at ix ls
unfolding encode
encode-state_at ix w labels ls =
    encode_as-state_at ix w labels (HashMap.get ix.inverted labels) refl ls

other_id :
    (ix : Index) (w : IsWellFormed ix) (labels ls : LabelSet) (id n : SeriesId)
    → Index.id_for ix labels ≡ some id
    → Index.id_for ix ls ≡ some n
    → (labels == ls) ≡ false
    → nat_beq id n ≡ false
other_id ix w labels ls id n h k e = elim (Bool-cases (nat_beq id n)) [
  | inl b ↦
      let same : Index.id_for ix labels ≡ some n = h ∙ ap some ((nat_beq_iff id n).0 b) in
      absurd (false-true (sym e ∙ (eq_iff labels ls).1 (id_for-injective ix w labels ls n same k)))
  | inr b ↦ b
]

-- One more state for the series of some labels.
pub with_state-state_at :
    (ix : Index) (w : IsWellFormed ix) (labels : LabelSet) (id : SeriesId) (st : SeriesState)
    → Index.id_for ix labels ≡ some id
    → (ls : LabelSet)
    → state_at (with_state ix id st) ls ≡ (if labels == ls then st else state_at ix ls)
unfolding Index.id_for
with_state-state_at ix w labels id st h ls = elim (Bool-cases (labels == ls)) [
  | inl e ↦
      let there : Index.id_for ix ls ≡ some id =
        ap (Index.id_for ix) (sym ((eq_iff labels ls).0 e)) ∙ h in
      state_at-known (with_state ix id st) ls id there
      ∙ state_of-with_state ix id id st
      ∙ rw ((nat_beq_iff id id).1 refl, e) refl
  | inr e ↦ elim (Option-cases (Index.id_for ix ls)) [
    | inl k ↦
        state_at-unknown (with_state ix id st) ls k ∙ sym (state_at-unknown ix ls k) ∙ rw e refl
    | inr (n, k) ↦
        let apart : nat_beq id n ≡ false = other_id ix w labels ls id n h k e in
        state_at-known (with_state ix id st) ls n k
        ∙ state_of-with_state ix id n st
        ∙ rw (apart, e) (sym (state_at-known ix ls n k))
  ]
]
