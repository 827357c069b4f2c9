-- ===== src/Db/Batch.antt =====
-- The loops of `write` over the series of a batch, as each label set sees them.
use rust_tsdb.Prelude.{
  ℕ, false-true, ◌+◌, ◌<◌, ◌^◌, ◌≡◌, refl, ap, sym, ◌∙◌, subst, Bool, true, false, some, List, [],
  ◌∷◌, ◌++◌, inl, inr, append-nil, append_assoc, concat_map, length, All, is_empty, nat_beq,
  nat_beq_iff, Bool-cases, Option-cases, arith, if◌then◌else◌,
}
use mathlib.Core.Option
use rust_tsdb.Prelude.Eq.{◌==◌, nat_eq, eq_iff}
use rust_tsdb.Prelude.HashMap
use rust_tsdb.Prelude.HashMap.{HashMap, or_default}
use rust_tsdb.Model.{SeriesId, Sample}
use rust_tsdb.LabelSet.{LabelSet, label_set_eq}
use rust_tsdb.Series
use rust_tsdb.Series.{SeriesState, default_state}
use rust_tsdb.Index
use rust_tsdb.Index.{Index, encode}
use rust_tsdb.Index.Invariant.{IsWellFormed}
use rust_tsdb.Index.Encode.{encode-Encoded}
use rust_tsdb.Db.{
  WriteBatch, Prepared, state_of, with_state, prepare_series, prepare, mark_all, append_samples,
  append_entries,
}
use rust_tsdb.Db.Grow.{Grows, encode-Grows}
use rust_tsdb.Db.Keep.{IsOrderly, BatchSorted, encode-IsOrderly, encode-next_id}
use rust_tsdb.Db.Take.{with_heap-IsWellFormed, state_of-with_state}
use rust_tsdb.Db.View.{
  state_at, Extends, Extends-refl, Extends-trans, append_samples-Extends, encode-state_at,
  with_state-state_at, state_at-known, state_at-unknown,
}

-- The samples that a batch has for a label set.
abbrev pub offered : LabelSet → WriteBatch → List Sample
offered ls batch = concat_map (λ (e : LabelSet × List Sample). if e.0 == ls then e.1 else []) batch

-- The entries of a batch, once every label set has its series.
abbrev pub entries_for : HashMap LabelSet Index.Series → WriteBatch → List (SeriesId × List Sample)
entries_for m [] = []
entries_for m ((labels, samples) ∷ batch) =
    let rest = entries_for m batch in
    if is_empty samples
    then rest
    else (or_default (Option.map (λ s. s.id) (HashMap.get m labels)) 0, samples) ∷ rest

-- The index has an id for all labels that come with samples.
abbrev pub AllKnown : Index → WriteBatch → Type 0
AllKnown ix batch =
    All
      (λ (e : LabelSet × List Sample).
        is_empty e.1 ≡ false → (id : SeriesId) × (Index.id_for ix e.0 ≡ some id))
      batch

empty_samples : (xs : List Sample) → is_empty xs ≡ true → xs ≡ []
empty_samples [] h = refl
empty_samples (x ∷ xs) h = absurd (cc)

abbrev no_samples : List Sample
no_samples = []

both_empty : (b : Bool) → (if b then no_samples else no_samples) ≡ no_samples
both_empty true = refl
both_empty false = refl

entry-Extends :
    (ix : Index) (w : IsWellFormed ix) (labels : LabelSet) (samples : List Sample) (id : SeriesId)
    (n : ℕ)
    → Index.id_for ix labels ≡ some id
    → (ls : LabelSet)
    → Extends
        (state_at ix ls)
        (state_at (with_state ix id (append_samples samples (state_of ix id, n)).0) ls)
        (if labels == ls then samples else [])
entry-Extends ix w labels samples id n h ls =
    let after = (append_samples samples (state_of ix id, n)).0 in
    subst (λ st. Extends (state_at ix ls) st (if labels == ls then samples else []))
      (sym (with_state-state_at ix w labels id after h ls))
      (elim (Bool-cases (labels == ls)) [
        | inl e ↦
            let here : state_at ix ls ≡ state_of ix id =
              state_at-known ix ls id (ap (Index.id_for ix) (sym ((eq_iff labels ls).0 e)) ∙ h) in
            rw e (
              subst (λ st. Extends st after samples) (sym here)
                (append_samples-Extends samples (state_of ix id) n))
        | inr e ↦ rw e (Extends-refl (state_at ix ls) (state_at ix ls) refl)
      ])

pub append_entries-Extends :
    (batch : WriteBatch) (ix : Index) (n : ℕ)
    → IsWellFormed ix
    → AllKnown ix batch
    → (ls : LabelSet)
    → Extends
        (state_at ix ls)
        (state_at (append_entries (entries_for ix.inverted batch) (ix, n)).0 ls)
        (offered ls batch)
unfolding append_entries Index.id_for
append_entries-Extends [] ix n w k ls = Extends-refl (state_at ix ls) (state_at ix ls) refl
append_entries-Extends ((labels, samples) ∷ batch) ix n w k ls =
    elim (Bool-cases (is_empty samples)) [
      | inl e ↦
          rw (e, empty_samples samples e, both_empty (labels == ls))
            (append_entries-Extends batch ix n w k.1 ls)
      | inr e ↦
          let id = or_default (Option.map (λ s. s.id) (HashMap.get ix.inverted labels)) 0 in
          let r = append_samples samples (state_of ix id, n) in
          let jx = with_state ix id r.0 in
          let here : Index.id_for ix labels ≡ some id =
            (k.0 e).1 ∙ ap some (sym (ap (λ o. or_default o 0) (k.0 e).1)) in
          rw e (
            Extends-trans (state_at ix ls) (state_at jx ls)
              (state_at (append_entries (entries_for ix.inverted batch) (jx, r.1)).0 ls)
              (if labels == ls then samples else []) (offered ls batch)
              (entry-Extends ix w labels samples id n here ls)
              (append_entries-Extends batch jx r.1 (with_heap-IsWellFormed ix jx.heap w) k.1 ls))
    ]

mark-Extends :
    (ix : Index) (id generation : ℕ) (ls : LabelSet)
    → Extends
        (state_at ix ls)
        (state_at (with_state ix id (Series.mark_logged (state_of ix id) generation)) ls)
        []
unfolding Index.id_for Series.mark_logged
mark-Extends ix id generation ls =
    let jx = with_state ix id (Series.mark_logged (state_of ix id) generation) in
    elim (Option-cases (Index.id_for ix ls)) [
      | inl k ↦
          Extends-refl (state_at ix ls) (state_at jx ls)
            (state_at-unknown jx ls k ∙ sym (state_at-unknown ix ls k))
      | inr (n, k) ↦
          let there : state_at jx ls ≡ (
              if nat_beq id n
              then Series.mark_logged (state_of ix id) generation
              else state_of ix n) =
            state_at-known jx ls n k
            ∙ state_of-with_state ix id n (Series.mark_logged (state_of ix id) generation) in
          subst (λ st. Extends st (state_at jx ls) []) (sym (state_at-known ix ls n k))
            (subst (λ st. Extends (state_of ix n) st []) (sym there)
              (elim (Bool-cases (nat_beq id n)) [
                | inl e ↦ rw e (
                    let same : state_of ix id ≡ state_of ix n =
                      ap (state_of ix) ((nat_beq_iff id n).0 e) in
                    record {
                      samples_more =
                          ap (λ (s : SeriesState). s.samples) same
                          ∙ sym (append-nil (state_of ix n).samples);
                      newest_same = ap (λ (s : SeriesState). s.newest) same;
                    })
                | inr e ↦ rw e (Extends-refl (state_of ix n) (state_of ix n) refl)
              ]))
    ]

pub mark_all-Extends :
    (generation : ℕ) (ss : List Index.Series) (ix : Index) (ls : LabelSet)
    → Extends (state_at ix ls) (state_at (mark_all generation ss ix) ls) []
unfolding mark_all
mark_all-Extends generation [] ix ls = Extends-refl (state_at ix ls) (state_at ix ls) refl
mark_all-Extends generation (s ∷ ss) ix ls =
    let jx = with_state ix s.id (Series.mark_logged (state_of ix s.id) generation) in
    Extends-trans (state_at ix ls) (state_at jx ls) (state_at (mark_all generation ss jx) ls) [] []
      (mark-Extends ix s.id generation ls) (mark_all-Extends generation ss jx ls)

pub inverted-mark_all :
    (generation : ℕ) (ss : List Index.Series) (ix : Index)
    → (mark_all generation ss ix).inverted ≡ ix.inverted
unfolding mark_all
inverted-mark_all generation [] ix = refl
inverted-mark_all generation (s ∷ ss) ix =
    inverted-mark_all generation ss
      (with_state ix s.id (Series.mark_logged (state_of ix s.id) generation))

pub inverted-append_entries :
    (es : List (SeriesId × List Sample)) (ix : Index) (n : ℕ)
    → (append_entries es (ix, n)).0.inverted ≡ ix.inverted
unfolding append_entries
inverted-append_entries [] ix n = refl
inverted-append_entries ((id, samples) ∷ es) ix n =
    let r = append_samples samples (state_of ix id, n) in
    inverted-append_entries es (with_state ix id r.0) r.1

-- What the first loop of `write` does for a batch.
pub record Prepares (p : Prepared) (batch : WriteBatch) (after : Prepared) : Type 0 where
  pub orderly : IsOrderly after.index
  pub grows : Grows p.index after.index
  pub states : (ls : LabelSet) → state_at after.index ls ≡ state_at p.index ls
  pub known : AllKnown after.index batch
  pub entries_more : after.entries ≡ p.entries ++ entries_for after.index.inverted batch

Prepares-empty :
    (p after : Prepared) (labels : LabelSet) (samples : List Sample) (batch : WriteBatch)
    → is_empty samples ≡ true
    → Prepares p batch after
    → Prepares p ((labels, samples) ∷ batch) after
Prepares-empty p after labels samples batch e d = record {
  orderly = d.orderly;
  grows = d.grows;
  states = d.states;
  known = (λ f. absurd (false-true (sym f ∙ e)), d.known);
  entries_more = rw e d.entries_more;
}

Prepares-series :
    (p next after : Prepared) (labels : LabelSet) (samples : List Sample) (batch : WriteBatch)
    → (series : Index.Series) → is_empty samples ≡ false
    → next.entries ≡ p.entries ++ (series.id, samples) ∷ []
    → Grows p.index next.index
    → ((ls : LabelSet) → state_at next.index ls ≡ state_at p.index ls)
    → Index.id_for next.index labels ≡ some series.id
    → Prepares next batch after
    → Prepares p ((labels, samples) ∷ batch) after
unfolding Index.id_for
Prepares-series p next after labels samples batch series e more g states known d =
    let there : Index.id_for after.index labels ≡ some series.id = d.grows labels series.id known in
    record {
      orderly = d.orderly;
      grows = λ ls id h. d.grows ls id (g ls id h);
      states = λ ls. d.states ls ∙ states ls;
      known = (λ f. (series.id, there), d.known);
      entries_more = rw e (
          d.entries_more
          ∙ ap (λ t. t ++ entries_for after.index.inverted batch) more
          ∙ append_assoc p.entries ((series.id, samples) ∷ [])
              (entries_for after.index.inverted batch)
          ∙ ap (λ id. p.entries ++ (id, samples) ∷ entries_for after.index.inverted batch)
              (sym (ap (λ o. or_default o 0) there)));
    }

pub prepare-Prepares :
    (generation : ℕ) (batch : WriteBatch) (p : Prepared)
    → IsOrderly p.index
    → BatchSorted batch
    → p.index.next_id + length batch < 2 ^ 64
    → Prepares p batch (prepare generation batch p)
unfolding prepare Index.id_for
prepare-Prepares generation [] p o s room = record {
  orderly = o;
  grows = λ ls id h. h;
  states = λ ls. refl;
  known = tt;
  entries_more = sym (append-nil p.entries);
}
prepare-Prepares generation ((labels, samples) ∷ batch) p o s room =
    elim (Bool-cases (is_empty samples)) [
      | inl e ↦
          rw (e, prepare)
            (Prepares-empty p (prepare generation batch p) labels samples batch e
              (prepare-Prepares generation batch p o s.1 (omega arith)))
      | inr e ↦
          let r = encode p.index labels in
          let next = prepare_series generation p samples r in
          let done = encode-Encoded p.index labels o.formed s.0 (omega arith) in
          rw (e, prepare)
            (Prepares-series p next (prepare generation batch next) labels samples batch r.1 e refl
              (encode-Grows p.index labels r o.formed done)
              (encode-state_at p.index o.formed labels) (ap (Option.map (λ t. t.id)) done.by_labels)
              (prepare-Prepares generation batch next
                (encode-IsOrderly p.index labels o s.0 (omega arith)) s.1
                (omega (arith, encode-next_id p.index labels))))
    ]
