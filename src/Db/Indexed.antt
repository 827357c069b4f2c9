-- ===== src/Db/Indexed.antt =====
-- What `index_segment` leaves: an index that knows every series of the segment, and ranges that cover it.
use rust_tsdb.Prelude.{
  false-true, ℕ, ◌+◌, ◌≤◌, ◌<◌, ◌^◌, ◌≡◌, refl, ap, sym, ◌∙◌, subst, Bool, true, false, ◌||◌,
  Option, none, some, List, [], ◌∷◌, ◌⊎◌, inl, inr, length, last?, All, Bool-cases, arith,
  if◌then◌else◌,
}
use mathlib.Core.Option
use rust_tsdb.Prelude.Eq.{◌==◌, nat_eq, eq_iff}
use rust_tsdb.Prelude.HashMap
use rust_tsdb.Prelude.HashMap.{HashMap, get-insert}
use rust_tsdb.Model.{SeriesId}
use rust_tsdb.LabelSet.{LabelSet}
use rust_tsdb.LabelSet.Sorted.{IsSorted}
use rust_tsdb.Index
use rust_tsdb.Index.{Index, encode}
use rust_tsdb.Index.Encode.{encode-Encoded}
use rust_tsdb.Segments.{DiskSeries, Ranges, StorageError, corrupt_segment, panicked}
use rust_tsdb.Segments.Read.{Within, CoversSeries}
use rust_tsdb.Segments.Open.{
  Indexing, unordered, not_after, is_there, place_series, on_samples, index_series, index_segment,
}
use rust_tsdb.Db.Grow.{Grows, encode-Grows}
use rust_tsdb.Db.Keep.{IsOrderly, encode-IsOrderly, encode-next_id}
use rust_tsdb.Db.View.{state_at, encode-state_at}
use rust_tsdb.Segments.Accepts.{Ordered, unordered-Ordered, Result-cases}

-- The labels of every series are in order, as `LabelSet`'s constructors give them.
abbrev pub LabelsSorted : List DiskSeries → Type 0
LabelsSorted ss = All (λ (s : DiskSeries). IsSorted s.labels) ss

same_pair : (x y : ℕ × ℕ) → some x ≡ some y → x ≡ y
same_pair x y e = cc

first_le :
    (x l : ℕ × ℕ) (rest : List (ℕ × ℕ)) → Ordered (x ∷ rest) → last? (x ∷ rest) ≡ some l → x.0 ≤ l.0
first_le x l [] o e = omega (arith, ap (λ (p : ℕ × ℕ). p.0) (same_pair x l e))
first_le x l (y ∷ rest) o e = omega (arith, o.0, first_le y l rest o.1 e)

-- Timestamps that go up lie between a start before them and the last.
Ordered-Within :
    (start : ℕ) (x l : ℕ × ℕ) (rest : List (ℕ × ℕ))
    → start ≤ x.0
    → Ordered (x ∷ rest)
    → last? (x ∷ rest) ≡ some l
    → Within (start, l.0) (x ∷ rest)
Ordered-Within start x l [] h o e = ((h, first_le x l [] o e), tt)
Ordered-Within start x l (y ∷ rest) h o e =
    ((h, first_le x l (y ∷ rest) o e), Ordered-Within start y l rest (omega (arith, o.0)) o.1 e)

abbrev indexed : Indexing → Indexing ⊎ StorageError
indexed st = inl st

no_index : (e : StorageError) (after : Indexing) → inr e ≡ indexed after → ⊥
no_index e after h = cc

same_index : (st after : Indexing) → indexed st ≡ indexed after → st ≡ after
same_index st after h = cc

-- What one series of a segment adds.
record Places (st : Indexing) (s : DiskSeries) (after : Indexing) : Type 0 where
  encoded : after.index ≡ (encode st.index s.labels).0
  covers :
      (r : ℕ × ℕ) × (HashMap.get after.ranges (encode st.index s.labels).1.id ≡ some r)
      × Within r s.samples
  kept :
      (id : SeriesId) (r : ℕ × ℕ)
      → HashMap.get st.ranges id ≡ some r
      → HashMap.get after.ranges id ≡ some r

kept_insert :
    (m : Ranges) (k id : SeriesId) (v r : ℕ × ℕ)
    → is_there (HashMap.get m k) ≡ false
    → HashMap.get m id ≡ some r
    → HashMap.get (HashMap.insert m k v) id ≡ some r
kept_insert m k id v r new h = get-insert m k id v ∙ elim (Bool-cases (k == id)) [
  | inl e ↦ absurd (false-true (sym new ∙ ap is_there (ap (HashMap.get m) ((eq_iff k id).0 e) ∙ h)))
  | inr e ↦ rw e h
]

chosen : (b : Bool) (v : ℕ × ℕ) (o : Option (ℕ × ℕ)) → b ≡ true → (if b then some v else o) ≡ some v
chosen b v o e = rw e refl

get-insert_self :
    (m : Ranges) (k : SeriesId) (v : ℕ × ℕ) → HashMap.get (HashMap.insert m k v) k ≡ some v
get-insert_self m k v =
    get-insert m k k v ∙ chosen (k == k) v (HashMap.get m k) ((eq_iff k k).1 refl)

or_right : (a b : Bool) → (a || b) ≡ false → b ≡ false
or_right a b h = ground arith

place_series-Places :
    (st after : Indexing) (s : DiskSeries) (first last : ℕ)
    → Within (first, last) s.samples
    → place_series st first last (encode st.index s.labels) ≡ indexed after
    → Places st s after
place_series-Places st after s first last within =
    let id = (encode st.index s.labels).1.id in
    let late = not_after first (HashMap.get st.latest id) in
    elim (Bool-cases (late || is_there (HashMap.get st.ranges id))) [
      | inl e ↦ rw e (λ h. absurd (no_index corrupt_segment after h))
      | inr e ↦ rw e (λ h. subst (Places st s) (same_index _ after h) (record {
        encoded = refl;
        covers = ((first, last), get-insert_self st.ranges id (first, last), within);
        kept = λ n r g.
            kept_insert st.ranges id n (first, last) r
              (or_right late (is_there (HashMap.get st.ranges id)) e) g;
      }))
    ]

on_samples-Places :
    (st after : Indexing) (s : DiskSeries) (samples : List (ℕ × ℕ)) (last : Option (ℕ × ℕ))
    → s.samples ≡ samples
    → last? samples ≡ last
    → on_samples st s samples last ≡ indexed after
    → Places st s after
on_samples-Places st after s [] last = λ same l h. absurd (no_index corrupt_segment after h)
on_samples-Places st after s (first ∷ rest) none = λ same l h. absurd (no_index panicked after h)
on_samples-Places st after s (first ∷ rest) (some last) =
    elim (Bool-cases (unordered (first ∷ rest))) [
      | inl e ↦ rw e (λ same l h. absurd (no_index corrupt_segment after h))
      | inr e ↦ rw e (λ same l h.
          place_series-Places st after s first.0 last.0
            (subst (Within (first.0, last.0)) (sym same) (
              Ordered-Within first.0 first last rest (omega arith) (unordered-Ordered first rest e)
                l))
            h)
    ]

-- What all series of a segment add.
pub record Indexes (st : Indexing) (ss : List DiskSeries) (after : Indexing) : Type 0 where
  pub orderly : IsOrderly after.index
  pub grows : Grows st.index after.index
  pub states : (ls : LabelSet) → state_at after.index ls ≡ state_at st.index ls
  pub covers : All (CoversSeries after.index after.ranges) ss
  pub kept :
      (id : SeriesId) (r : ℕ × ℕ)
      → HashMap.get st.ranges id ≡ some r
      → HashMap.get after.ranges id ≡ some r
  pub ids_used : after.index.next_id ≤ st.index.next_id + length ss

Places-Indexes :
    (st next after : Indexing) (s : DiskSeries) (ss : List DiskSeries)
    → IsOrderly st.index
    → IsSorted s.labels
    → st.index.next_id + 1 < 2 ^ 64
    → Places st s next
    → Indexes next ss after
    → Indexes st (s ∷ ss) after
unfolding Index.id_for
Places-Indexes st next after s ss o sorted room p d =
    let r = encode st.index s.labels in
    let e = encode-Encoded st.index s.labels o.formed sorted room in
    let known : Index.id_for next.index s.labels ≡ some r.1.id =
      ap (λ ix. Index.id_for ix s.labels) p.encoded ∙ ap (Option.map (λ t. t.id)) e.by_labels in
    let (range, there, within) = p.covers in
    record {
      orderly = d.orderly;
      grows = λ ls id h. d.grows ls id (
          ap (λ ix. Index.id_for ix ls) p.encoded
          ∙ encode-Grows st.index s.labels r o.formed e ls id h);
      states = λ ls.
          d.states ls
          ∙ ap (λ ix. state_at ix ls) p.encoded
          ∙ encode-state_at st.index o.formed s.labels ls;
      covers = (
        (r.1.id, d.grows s.labels r.1.id known, (range, d.kept r.1.id range there, within)),
        d.covers,
      );
      kept = λ id v h. d.kept id v (p.kept id v h);
      ids_used = omega (
        arith,
        d.ids_used,
        ap (λ (ix : Index). ix.next_id) p.encoded,
        encode-next_id st.index s.labels,
      );
    }

pub index_segment-Indexes :
    (ss : List DiskSeries) (st after : Indexing)
    → IsOrderly st.index
    → LabelsSorted ss
    → st.index.next_id + length ss < 2 ^ 64
    → index_segment ss st ≡ inl after
    → Indexes st ss after
unfolding index_segment index_series
index_segment-Indexes [] st after o sorted room = λ h.
    subst (Indexes st []) (same_index st after h) (record {
      orderly = o;
      grows = λ ls id k. k;
      states = λ ls. refl;
      covers = tt;
      kept = λ id v k. k;
      ids_used = omega arith;
    })
index_segment-Indexes (s ∷ ss) st after o sorted room = elim (Result-cases (index_series st s)) [
  | inl (k, e) ↦ rw (e, index_segment) (λ h. absurd (no_index k after h))
  | inr (next, e) ↦
      rw (e, index_segment)
        (λ h.
          let p = on_samples-Places st next s s.samples (last? s.samples) refl refl e in
          Places-Indexes st next after s ss o sorted.0 (omega arith) p (
            index_segment-Indexes ss next after
              (subst IsOrderly (sym p.encoded)
                (encode-IsOrderly st.index s.labels o sorted.0 (omega arith)))
              sorted.1
              (omega (
                arith,
                ap (λ (ix : Index). ix.next_id) p.encoded,
                encode-next_id st.index s.labels,
              ))
              h))
]
