-- ===== src/LabelSet/FromLabels.antt =====
-- `from_labels` builds a set in order, and keeps of each name the label that came last.
use rust_tsdb.Prelude.{
  ◌≡◌, refl, ◌∙◌, sym, ◌≢◌, ◌⊎◌, inl, inr, Option, none, some, List, [], ◌∷◌, Ordering,
  Ordering-cases, Bool-cases, arith, subst,
}
use rust_tsdb.Prelude.Bytes.{
  Str, cmp, cmp-eq, cmp-lt_gt, cmp-gt_lt, cmp-lt_trans, str_eq, str_beq, str_beq_iff, str_beq-gt,
}
use rust_tsdb.Model.{Label}
use rust_tsdb.LabelSet.{
  LabelSet, new, get, insert_label, from_labels, sort_by, dedup_from, dedup_by, later_wins,
}
use rust_tsdb.LabelSet.Sorted.{Above, SortedLabels, IsSorted, find, get-find}
use rust_tsdb.LabelSet.Insert.{insert_label-IsSorted, get-insert_label}
use rust_tsdb.LabelSet.Canonical.{LabelSet_ext}
use rust_tsdb.LabelSet.SortBy.{
  or_else, last_value, by_names, NotBelow, WeaklySorted, sort_by-WeaklySorted, last_value-sort_by,
}
use mathlib.Core.List.{foldl}

module _ (prev x : Label) (xs : List Label) where
  dedup_from-same :
      x.name ≡ prev.name → dedup_from later_wins prev (x ∷ xs) ≡ dedup_from later_wins x xs
  unfolding dedup_from
  dedup_from-same e = ground (arith, str_beq_iff x.name prev.name)

  dedup_from-other :
      x.name ≢ prev.name → dedup_from later_wins prev (x ∷ xs) ≡ prev ∷ dedup_from later_wins x xs
  unfolding dedup_from
  dedup_from-other e = ground (arith, str_beq_iff x.name prev.name)

Str-cases : (s t : Str) → (s ≡ t) ⊎ (s ≢ t)
Str-cases s t = elim (Bool-cases (str_beq s t)) [
  | inl e ↦ inl ((str_beq_iff s t).0 e)
  | inr e ↦ inr (λ q. cc ((str_beq_iff s t).1 q))
]

-- Weakly above, and another name: strictly above.
strictly : (a b : Str) → cmp b a ≢ Ordering.lt → b ≢ a → cmp a b ≡ Ordering.lt
strictly a b h d = elim (Ordering-cases (cmp b a)) [
  | inl l ↦ absurd (h l)
  | inr (inl e) ↦ absurd (d (cmp-eq b a e))
  | inr (inr g) ↦ cmp-gt_lt b a g
]

dedup_from-Above :
    (n : Str) (prev : Label) (xs : List Label)
    → cmp n prev.name ≡ Ordering.lt
    → WeaklySorted (prev ∷ xs)
    → Above n (dedup_from later_wins prev xs)
dedup_from-Above n prev [] h w = unfold dedup_from in (h, tt)
dedup_from-Above n prev (x ∷ xs) h w = elim (Str-cases x.name prev.name) [
  | inl e ↦
      rw (dedup_from-same prev x xs e)
        (dedup_from-Above n x xs (subst (λ z. cmp n z ≡ Ordering.lt) (sym e) h) w.1)
  | inr d ↦ rw (dedup_from-other prev x xs d) (
    h,
    dedup_from-Above n x xs (cmp-lt_trans n prev.name x.name h (strictly prev.name x.name w.0.0 d))
        w.1,
  )
]

dedup_from-SortedLabels :
    (prev : Label) (xs : List Label)
    → WeaklySorted (prev ∷ xs)
    → SortedLabels (dedup_from later_wins prev xs)
dedup_from-SortedLabels prev [] w = unfold dedup_from in (tt, tt)
dedup_from-SortedLabels prev (x ∷ xs) w = elim (Str-cases x.name prev.name) [
  | inl e ↦ rw (dedup_from-same prev x xs e) (dedup_from-SortedLabels x xs w.1)
  | inr d ↦ rw (dedup_from-other prev x xs d) (
    dedup_from-Above prev.name x xs (strictly prev.name x.name w.0.0 d) w.1,
    dedup_from-SortedLabels x xs w.1,
  )
]

last_value-Above : (n : Str) (xs : List Label) → Above n xs → last_value xs n ≡ none
unfolding last_value
last_value-Above n [] h = refl
last_value-Above n (x ∷ xs) h =
    rw (last_value-Above n xs h.1, str_beq-gt x.name n (cmp-lt_gt n x.name h.0))

all-Above : (a b : Str) (xs : List Label) → cmp a b ≡ Ordering.lt → NotBelow b xs → Above a xs
all-Above a b [] h w = tt
all-Above a b (x ∷ xs) h w = elim (Str-cases x.name b) [
  | inl e ↦ (subst (λ z. cmp a z ≡ Ordering.lt) (sym e) h, all-Above a b xs h w.1)
  | inr d ↦ (cmp-lt_trans a b x.name h (strictly b x.name w.0 d), all-Above a b xs h w.1)
]

find-dedup_from :
    (prev : Label) (xs : List Label) (n : Str)
    → WeaklySorted (prev ∷ xs)
    → find (dedup_from later_wins prev xs) n ≡ last_value (prev ∷ xs) n
unfolding find last_value
find-dedup_from prev [] n w = unfold dedup_from in refl
find-dedup_from prev (x ∷ xs) n w = elim (Str-cases x.name prev.name) [
  | inl e ↦
      rw (dedup_from-same prev x xs e)
        (ground (arith, find-dedup_from x xs n w.1, str_beq_iff x.name n, str_beq_iff prev.name n))
  | inr d ↦
      let above = strictly prev.name x.name w.0.0 d in
      let gone =
        last_value-Above prev.name (x ∷ xs) (above, all-Above prev.name x.name xs above w.1.0) in
      rw (dedup_from-other prev x xs d)
        (ground (arith, find-dedup_from x xs n w.1, gone, str_beq_iff prev.name n))
]

dedup_by-SortedLabels : (xs : List Label) → WeaklySorted xs → SortedLabels (dedup_by later_wins xs)
unfolding dedup_by
dedup_by-SortedLabels [] w = tt
dedup_by-SortedLabels (x ∷ xs) w = dedup_from-SortedLabels x xs w

find-dedup_by :
    (xs : List Label) (n : Str)
    → WeaklySorted xs
    → find (dedup_by later_wins xs) n ≡ last_value xs n
unfolding dedup_by
find-dedup_by [] n w = unfold find last_value in refl
find-dedup_by (x ∷ xs) n w = find-dedup_from x xs n w

-- `from_labels` gives a set in order, whatever labels come in.
pub from_labels-IsSorted : (xs : List Label) → IsSorted (from_labels xs)
unfolding from_labels
from_labels-IsSorted xs = dedup_by-SortedLabels (sort_by by_names xs) (sort_by-WeaklySorted xs)

-- The value of a name in `from_labels` is that of the last label with this name.
pub get-from_labels : (xs : List Label) (n : Str) → get (from_labels xs) n ≡ last_value xs n
unfolding from_labels
get-from_labels xs n =
    get-find (from_labels xs) n (from_labels-IsSorted xs)
    ∙ find-dedup_by (sort_by by_names xs) n (sort_by-WeaklySorted xs)
    ∙ last_value-sort_by xs n

foldl-insert_label :
    (xs : List Label) (s : LabelSet)
    → IsSorted s
    → IsSorted (foldl insert_label s xs)
      × ((n : Str) → get (foldl insert_label s xs) n ≡ or_else (last_value xs n) (get s n))
unfolding last_value
foldl-insert_label [] s h = (h, λ n. refl)
foldl-insert_label (x ∷ xs) s h =
    let (sorted, lookups) =
      foldl-insert_label xs (insert_label s x) (insert_label-IsSorted s x h) in
    (sorted, λ n. ground (arith, lookups n, get-insert_label s x n h))

get-new : (n : Str) → get new n ≡ none
get-new n = get-find new n tt ∙ unfold find in refl

or_else-none : (o : Option Str) → or_else o none ≡ o
or_else-none none = refl
or_else-none (some v) = refl

-- Building a set at once gives what inserting its labels one after the other gives.
pub from_labels-insert_label : (xs : List Label) → from_labels xs ≡ foldl insert_label new xs
from_labels-insert_label xs =
    let (sorted, lookups) = foldl-insert_label xs new tt in
    LabelSet_ext (from_labels xs) (foldl insert_label new xs) (from_labels-IsSorted xs) sorted (λ n.
      get-from_labels xs n ∙ sym (lookups n ∙ rw (get-new n) (or_else-none (last_value xs n))))

find-last_value : (xs : List Label) (n : Str) → SortedLabels xs → find xs n ≡ last_value xs n
unfolding find last_value
find-last_value [] n h = refl
find-last_value (x ∷ xs) n h =
    ground (arith, find-last_value xs n h.1, last_value-Above x.name xs h.0, str_beq_iff x.name n)

-- A set in order is rebuilt from its own labels.
pub from_labels-labels : (s : LabelSet) → IsSorted s → from_labels s.labels ≡ s
from_labels-labels s h =
    LabelSet_ext (from_labels s.labels) s (from_labels-IsSorted s.labels) h
      (λ n. get-from_labels s.labels n ∙ sym (get-find s n h ∙ find-last_value s.labels n h))
