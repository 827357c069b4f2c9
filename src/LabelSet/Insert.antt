-- ===== src/LabelSet/Insert.antt =====
-- `insert_label` keeps the order and writes exactly the label that it is given.
use rust_tsdb.Prelude.{
  ◌≡◌, refl, ap, ◌∙◌, inl, inr, some, List, [], ◌∷◌, if◌then◌else◌, Ordering, Ordering-cases, arith,
  subst,
}
use rust_tsdb.Prelude.Bytes.{Str, cmp, cmp-eq, cmp-gt_lt, str_eq, str_beq_iff, str_beq-lt}
use rust_tsdb.Prelude.Eq.{◌==◌, eq_iff}
use rust_tsdb.Slice.{Search, found, missing}
use rust_tsdb.Slice.Bisect.{scan, binary_search_by-scan}
use rust_tsdb.Model.{Label, label_eq}
use rust_tsdb.LabelSet.{LabelSet, get, place, insert_label}
use rust_tsdb.LabelSet.Sorted.{
  Above, Above-trans, SortedLabels, IsSorted, find, get-find, by_name, by_name-Ordered, bump,
  scan-lt, scan-eq, scan-gt,
}

-- The same insertion by one pass from the front.
unfoldable pub put : List Label → Label → List Label
put [] l = l ∷ []
put (x ∷ xs) l =
    let rest = put xs l in
    elim (cmp x.name l.name) [
      | Ordering.lt ↦ x ∷ rest
      | Ordering.eq ↦ l ∷ xs
      | Ordering.gt ↦ l ∷ x ∷ xs
    ]

module _ (x : Label) (xs : List Label) (l : Label) where
  pub put-lt : cmp x.name l.name ≡ Ordering.lt → put (x ∷ xs) l ≡ x ∷ put xs l
  unfolding put
  put-lt e = ground arith

  pub put-eq : cmp x.name l.name ≡ Ordering.eq → put (x ∷ xs) l ≡ l ∷ xs
  unfolding put
  put-eq e = ground arith

  pub put-gt : cmp x.name l.name ≡ Ordering.gt → put (x ∷ xs) l ≡ l ∷ x ∷ xs
  unfolding put
  put-gt e = ground arith

place-bump :
    (x : Label) (xs : List Label) (l : Label) (s : Search)
    → place (x ∷ xs) l (bump s) ≡ x ∷ place xs l s
place-bump x xs l (found i) = ground arith
place-bump x xs l (missing i) = refl

place-found : (x : Label) (xs : List Label) (l : Label) → place (x ∷ xs) l (found 0) ≡ l ∷ xs
place-found x xs l = ground (arith, eq_iff x l)

place-scan :
    (l : Label) (xs : List Label)
    → SortedLabels xs
    → place xs l (scan (by_name l.name) 0 xs) ≡ put xs l
place-scan l [] h = unfold scan put in refl
place-scan l (x ∷ xs) h = elim (Ordering-cases (cmp x.name l.name)) [
  | inl e ↦
      rw (put-lt x xs l e, scan-lt (by_name l.name) x xs e)
        (place-bump x xs l (scan (by_name l.name) 0 xs) ∙ ap (λ t. x ∷ t) (place-scan l xs h.1))
  | inr (inl e) ↦ rw (put-eq x xs l e, scan-eq (by_name l.name) x xs e) (place-found x xs l)
  | inr (inr e) ↦ rw (put-gt x xs l e, scan-gt (by_name l.name) x xs e)
]

pub insert_label-put :
    (s : LabelSet) (l : Label) → IsSorted s → (insert_label s l).labels ≡ put s.labels l
unfolding insert_label
insert_label-put s l h =
    rw (binary_search_by-scan (by_name l.name) s.labels (by_name-Ordered l.name s.labels h))
      (place-scan l s.labels h)

put-Above :
    (n : Str) (xs : List Label) (l : Label)
    → Above n xs
    → cmp n l.name ≡ Ordering.lt
    → Above n (put xs l)
put-Above n [] l h k = unfold put in (k, tt)
put-Above n (x ∷ xs) l h k = elim (Ordering-cases (cmp x.name l.name)) [
  | inl e ↦ rw (put-lt x xs l e) (h.0, put-Above n xs l h.1 k)
  | inr (inl e) ↦ rw (put-eq x xs l e) (k, h.1)
  | inr (inr e) ↦ rw (put-gt x xs l e) (k, h)
]

pub put-SortedLabels : (xs : List Label) (l : Label) → SortedLabels xs → SortedLabels (put xs l)
put-SortedLabels [] l h = unfold put in (tt, tt)
put-SortedLabels (x ∷ xs) l h = elim (Ordering-cases (cmp x.name l.name)) [
  | inl e ↦ rw (put-lt x xs l e) (put-Above x.name xs l h.0 e, put-SortedLabels xs l h.1)
  | inr (inl e) ↦ rw (put-eq x xs l e) (subst (λ n. Above n xs) (cmp-eq x.name l.name e) h.0, h.1)
  | inr (inr e) ↦
      let below = cmp-gt_lt x.name l.name e in
      rw (put-gt x xs l e) ((below, Above-trans l.name x.name xs below h.0), h)
]

-- A lookup after a write, in the form that rewriting uses.
pub find-put :
    (xs : List Label) (l : Label) (n : Str)
    → find (put xs l) n ≡ (if l.name == n then some l.value else find xs n)
unfolding find
find-put [] l n = unfold put in refl
find-put (x ∷ xs) l n = elim (Ordering-cases (cmp x.name l.name)) [
  | inl e ↦ rw (put-lt x xs l e) (
      ground (
        arith,
        find-put xs l n,
        str_beq_iff x.name n,
        str_beq_iff l.name n,
        str_beq_iff x.name l.name,
        str_beq-lt x.name l.name e,
      ))
  | inr (inl e) ↦
      rw (put-eq x xs l e)
        (ground (arith, str_beq_iff x.name n, str_beq_iff l.name n, cmp-eq x.name l.name e))
  | inr (inr e) ↦ rw (put-gt x xs l e)
]

-- `insert_label` on a set in order leaves a set in order.
pub insert_label-IsSorted : (s : LabelSet) (l : Label) → IsSorted s → IsSorted (insert_label s l)
insert_label-IsSorted s l h = rw (insert_label-put s l h) (put-SortedLabels s.labels l h)

-- After `insert_label s l` on a set in order, the name of `l` has the value of `l`, whether it was there or not, and
-- every other name has the value that it had.
pub get-insert_label :
    (s : LabelSet) (l : Label) (n : Str)
    → IsSorted s
    → get (insert_label s l) n ≡ (if l.name == n then some l.value else get s n)
get-insert_label s l n h =
    get-find (insert_label s l) n (insert_label-IsSorted s l h)
    ∙ ap (λ xs. find xs n) (insert_label-put s l h)
    ∙ rw (get-find s n h) (find-put s.labels l n)
