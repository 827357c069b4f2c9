-- ===== src/Index/Encode.antt =====
-- `encode` keeps the index well formed and gives one id to one label set.
use rust_tsdb.Prelude.{
  ℕ, ◌+◌, ◌^◌, ◌<◌, ◌≡◌, refl, ap, sym, ◌∙◌, subst, true, Option, none, some, List, [], ◌∷◌,
  nat_beq_iff, arith, inl, inr, Option-cases,
}
use native.Mathlib.Nat.{mod-eq_of_lt}
use rust_tsdb.Prelude.Bytes.{Str, str_eq}
use rust_tsdb.Prelude.Eq.{nat_eq, eq_iff}
use rust_tsdb.Prelude.HashMap
use rust_tsdb.Prelude.HashMap.{get-insert, insert-cases}
use rust_tsdb.Model.{Label}
use rust_tsdb.LabelSet.{LabelSet, label_set_eq}
use rust_tsdb.LabelSet.Sorted.{IsSorted, get-find}
use rust_tsdb.Ids.Sets.{mem, mem-snoc, SortedIds-snoc}
use rust_tsdb.Index.{Series, Index, add_series, encode, encode_as, post_labels, posting}
use rust_tsdb.Index.Posting.{
  pairs, mem-post_labels, Fresh, post_labels-SortedIds, post_labels-UniqueKeys, lists-find,
}
use rust_tsdb.Index.Invariant.{carries, IsWellFormed}

module _ (ix : Index) (w : IsWellFormed ix) (labels : LabelSet) (sorted : IsSorted labels)
    (unknown : HashMap.get ix.inverted labels ≡ none) (room : ix.next_id + 1 < 2 ^ 64) where
  fresh_id : HashMap.get ix.forward ix.next_id ≡ none
  fresh_id = elim (Option-cases (HashMap.get ix.forward ix.next_id)) [
    | inl e ↦ e
    | inr (s, e) ↦
        let known : mem ix.next_id ix.all_ids ≡ true = w.ids_known ix.next_id ∙ rw e in
        absurd (omega (arith, w.ids_below ix.next_id known))
  ]

  below_id :
      (n : ℕ) (name value : Str)
      → mem n (posting ix.posting_index name value) ≡ true
      → n < ix.next_id
  below_id n name value e = elim (Option-cases (HashMap.get ix.forward n)) [
    | inl none_there ↦
        cc (w.posting_exact n name value, e, ap (λ o. carries o name value) none_there)
    | inr (s, there) ↦ w.ids_below n (w.ids_known n ∙ rw there)
  ]

  all-Fresh : (ls : List Label) → Fresh ix.posting_index ls ix.next_id
  all-Fresh [] = tt
  all-Fresh (l ∷ ls) = (λ v n e. below_id n l.name v e, all-Fresh ls)

  abbrev added : Index
  added = (add_series ix labels).0

  abbrev series : Series
  series = record { id = ix.next_id; labels = labels }

  added_posting :
      (n : ℕ) (name value : Str)
      → mem n (posting (post_labels ix.posting_index (pairs labels.labels) ix.next_id) name value)
        ≡ carries (HashMap.get (HashMap.insert ix.forward ix.next_id series) n) name value
  added_posting n name value = ground (
    arith,
    mem-post_labels labels.labels ix.posting_index ix.next_id n name value,
    w.posting_exact n name value,
    get-insert ix.forward ix.next_id n series,
    lists-find labels.labels name value sorted,
    get-find labels name sorted,
    fresh_id,
  )

  add_series-IsWellFormed : IsWellFormed (add_series ix labels).0
  unfolding add_series
  add_series-IsWellFormed = record {
    ids_sorted = SortedIds-snoc ix.next_id ix.all_ids w.ids_sorted w.ids_below;
    ids_below = λ n e.
        rw (mod-eq_of_lt room) (ground (arith, e, mem-snoc n ix.next_id ix.all_ids, w.ids_below n));
    ids_known = λ n. ground (
      arith,
      mem-snoc n ix.next_id ix.all_ids,
      get-insert ix.forward ix.next_id n series,
      w.ids_known n,
    );
    forward_id =
        λ n s e. ground (arith, e, get-insert ix.forward ix.next_id n series, w.forward_id n s);
    forward_sorted = λ n s e. elim (insert-cases ix.forward ix.next_id n e) [
      | inl (_, q) ↦ subst (λ z. IsSorted z.labels) q sorted
      | inr q ↦ w.forward_sorted n s q
    ];
    forward_inverted = λ n s e. elim (insert-cases ix.forward ix.next_id n e) [
      | inl (_, q) ↦
          subst (λ z. HashMap.get (HashMap.insert ix.inverted labels series) z.labels ≡ some z) q
            (get-insert ix.inverted labels labels series ∙ rw ((eq_iff labels labels).1 refl))
      | inr q ↦ ground (
        arith,
        get-insert ix.inverted labels s.labels series,
        w.forward_inverted n s q,
        eq_iff labels s.labels,
        unknown,
      )
    ];
    inverted_labels = λ ls s e. ground (
      arith,
      e,
      get-insert ix.inverted labels ls series,
      w.inverted_labels ls s,
      eq_iff labels ls,
    );
    inverted_forward = λ ls s e. elim (insert-cases ix.inverted labels ls e) [
      | inl (_, q) ↦
          subst (λ z. HashMap.get (HashMap.insert ix.forward ix.next_id series) z.id ≡ some z) q
            (get-insert ix.forward ix.next_id ix.next_id series
              ∙ rw ((nat_beq_iff ix.next_id ix.next_id).1 refl))
      | inr q ↦
          ground (
            arith,
            get-insert ix.forward ix.next_id s.id series,
            w.inverted_forward ls s q,
            fresh_id,
          )
    ];
    posting_exact = added_posting;
    posting_sorted =
        post_labels-SortedIds labels.labels ix.posting_index ix.next_id sorted w.posting_sorted
          (all-Fresh labels.labels);
    values_unique =
        post_labels-UniqueKeys labels.labels ix.posting_index ix.next_id w.values_unique;
  }

  -- The new series is found under its labels and under its id.
  add_series-found :
      (HashMap.get (add_series ix labels).0.inverted labels ≡ some series)
      × (HashMap.get (add_series ix labels).0.forward ix.next_id ≡ some series)
      × ((add_series ix labels).1 ≡ series)
  unfolding add_series
  add_series-found = (
    get-insert ix.inverted labels labels series ∙ rw ((eq_iff labels labels).1 refl),
    get-insert ix.forward ix.next_id ix.next_id series
        ∙ rw ((nat_beq_iff ix.next_id ix.next_id).1 refl),
    refl,
  )

kept_by_add :
    (ix : Index) (w : IsWellFormed ix) (labels : LabelSet) (sorted : IsSorted labels)
    (unknown : HashMap.get ix.inverted labels ≡ none) (room : ix.next_id + 1 < 2 ^ 64)
    → (n : ℕ) (s : Series) → HashMap.get ix.forward n ≡ some s
    → HashMap.get (add_series ix labels).0.forward n ≡ some s
unfolding add_series
kept_by_add ix w labels sorted unknown room n s h = ground (
  arith,
  h,
  get-insert ix.forward ix.next_id n (record { id = ix.next_id; labels = labels }),
  fresh_id ix w labels sorted unknown room,
)

refl_labels : (ix : Index) (labels : LabelSet) → (add_series ix labels).1.labels ≡ labels
unfolding add_series
refl_labels ix labels = refl

encode_known :
    (r : Index × Series) (labels : LabelSet)
    → HashMap.get r.0.inverted labels ≡ some r.1
    → encode r.0 labels ≡ r
unfolding encode
encode_known r labels e = ap (encode_as r.0 labels) e

-- What `encode` promises of its result.
pub record Encoded (ix : Index) (labels : LabelSet) (r : Index × Series) : Type 0 where
  pub well_formed : IsWellFormed r.0
  pub labelled : r.1.labels ≡ labels
  pub by_labels : HashMap.get r.0.inverted labels ≡ some r.1
  pub by_id : HashMap.get r.0.forward r.1.id ≡ some r.1
  pub kept :
      (n : ℕ) (s : Series) → HashMap.get ix.forward n ≡ some s → HashMap.get r.0.forward n ≡ some s

encode_as-Encoded :
    (ix : Index) (labels : LabelSet) (o : Option Series)
    → HashMap.get ix.inverted labels ≡ o
    → IsWellFormed ix
    → IsSorted labels
    → ix.next_id + 1 < 2 ^ 64
    → Encoded ix labels (encode_as ix labels o)
unfolding add_series
encode_as-Encoded ix labels (some s) e w sorted room = record {
  well_formed = w;
  labelled = w.inverted_labels labels s e;
  by_labels = e;
  by_id = w.inverted_forward labels s e;
  kept = λ n t h. h;
}
encode_as-Encoded ix labels none e w sorted room = record {
  well_formed = add_series-IsWellFormed ix w labels sorted e room;
  labelled = refl_labels ix labels;
  by_labels = (add_series-found ix w labels sorted e room).0;
  by_id = (add_series-found ix w labels sorted e room).1;
  kept = kept_by_add ix w labels sorted e room;
}

-- `encode` of a label set in order on a well-formed index, with room for one more id, leaves a
-- well-formed index in which the series it returns has these labels and is found by them and by its
-- id, and every series that was there is still found.
pub encode-Encoded :
    (ix : Index) (labels : LabelSet)
    → IsWellFormed ix
    → IsSorted labels
    → ix.next_id + 1 < 2 ^ 64
    → Encoded ix labels (encode ix labels)
unfolding encode
encode-Encoded ix labels w sorted room =
    encode_as-Encoded ix labels (HashMap.get ix.inverted labels) refl w sorted room

-- On a well-formed index with room for one more id, a second `encode` of the same label set in order
-- changes nothing and returns the same series.
pub encode-encode :
    (ix : Index) (labels : LabelSet)
    → IsWellFormed ix
    → IsSorted labels
    → ix.next_id + 1 < 2 ^ 64
    → encode (encode ix labels).0 labels ≡ encode ix labels
encode-encode ix labels w sorted room =
    encode_known (encode ix labels) labels (encode-Encoded ix labels w sorted room).by_labels

some_eq : (x y : Series) → some x ≡ some y → x ≡ y
some_eq x y e = cc

-- On a well-formed index with room for both, two label sets in order that are encoded one after the other
-- and get equal ids are equal.
pub encode-injective :
    (ix : Index) (a b : LabelSet)
    → IsWellFormed ix
    → IsSorted a
    → IsSorted b
    → ix.next_id + 1 < 2 ^ 64
    → (encode ix a).0.next_id + 1 < 2 ^ 64
    → (encode ix a).1.id ≡ (encode (encode ix a).0 b).1.id
    → a ≡ b
encode-injective ix a b w sa sb room room' e =
    let first = encode-Encoded ix a w sa room in
    let second = encode-Encoded (encode ix a).0 b first.well_formed sb room' in
    let still = second.kept (encode ix a).1.id (encode ix a).1 first.by_id in
    let there =
      subst
        (λ z.
          HashMap.get (encode (encode ix a).0 b).0.forward z ≡ some (encode (encode ix a).0 b).1)
        (sym e) second.by_id in
    let same = some_eq (encode ix a).1 (encode (encode ix a).0 b).1 (sym still ∙ there) in
    sym first.labelled ∙ ap (λ s. s.labels) same ∙ second.labelled
