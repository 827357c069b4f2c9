-- ===== src/LabelSet/Sorted.antt =====
-- Labels in order of their names: the bisection is the search from the front.
use rust_tsdb.Prelude.{
  ℕ, suc, ◌+◌, ◌≡◌, refl, ◌∙◌, sym, ◌≢◌, inl, inr, Option, none, some, List, [], ◌∷◌, All,
  if◌then◌else◌, Ordering, Ordering-cases, arith,
}
use rust_tsdb.Prelude.Bytes.{
  Str, cmp, cmp-lt_gt, cmp-gt_lt, cmp-lt_trans, cmp-gt_of, str_eq, str_beq-lt, str_beq-gt,
  str_beq-eq,
}
use rust_tsdb.Prelude.Eq.{◌==◌}
use rust_tsdb.Slice.{Search, found, missing}
use rust_tsdb.Slice.Bisect.{Ordered, scan, binary_search_by-scan}
use rust_tsdb.Model.{Label}
use rust_tsdb.LabelSet.{LabelSet, get, value_at}

-- Every name is above `n`.
abbrev pub Above : Str → List Label → Type 0
Above n xs = All (λ (y : Label). cmp n y.name ≡ Ordering.lt) xs

-- The names go strictly up, so none occurs twice.
abbrev pub SortedLabels : List Label → Type 0
SortedLabels [] = Unit
SortedLabels (x ∷ xs) = Above x.name xs × SortedLabels xs

abbrev pub IsSorted : LabelSet → Type 0
IsSorted s = SortedLabels s.labels

-- The value of the first label with this name, searched from the front.
unfoldable pub find : List Label → Str → Option Str
find [] n = none
find (x ∷ xs) n = if x.name == n then some x.value else find xs n

-- The comparison that `get` and `insert_label` search by.
abbrev pub by_name : Str → Label → Ordering
by_name n l = cmp l.name n

Above-gt :
    (a n : Str) (xs : List Label)
    → Above a xs
    → cmp a n ≢ Ordering.lt
    → All (λ y. by_name n y ≡ Ordering.gt) xs
Above-gt a n [] h k = tt
Above-gt a n (x ∷ xs) h k = (cmp-gt_of a n x.name h.0 k, Above-gt a n xs h.1 k)

pub Above-trans : (a b : Str) (xs : List Label) → cmp a b ≡ Ordering.lt → Above b xs → Above a xs
Above-trans a b [] h k = tt
Above-trans a b (x ∷ xs) h k = (cmp-lt_trans a b x.name h k.0, Above-trans a b xs h k.1)

pub by_name-Ordered : (n : Str) (xs : List Label) → SortedLabels xs → Ordered (by_name n) xs
by_name-Ordered n [] h = tt
by_name-Ordered n (x ∷ xs) h = (Above-gt x.name n xs h.0, by_name-Ordered n xs h.1)

-- The search result in a list with one more element in front.
abbrev pub bump : Search → Search
bump (found i) = found (suc i)
bump (missing i) = missing (suc i)

pub scan-bump {ℓ} :
    {A : Type ℓ} (f : A → Ordering) (i : ℕ) (xs : List A) → scan f (suc i) xs ≡ bump (scan f i xs)
unfolding scan
scan-bump f i [] = refl
scan-bump f i (x ∷ xs) = ground (arith, scan-bump f (i + 1) xs)

pub scan-bump_one {ℓ} :
    {A : Type ℓ} (f : A → Ordering) (xs : List A) → scan f (0 + 1) xs ≡ bump (scan f 0 xs)
scan-bump_one f xs = scan-bump f 0 xs

module _ {ℓ} {A : Type ℓ} (f : A → Ordering) (x : A) (xs : List A) where
  pub scan-lt : f x ≡ Ordering.lt → scan f 0 (x ∷ xs) ≡ bump (scan f 0 xs)
  unfolding scan
  scan-lt e = ground (arith, scan-bump_one f xs)

  pub scan-eq : f x ≡ Ordering.eq → scan f 0 (x ∷ xs) ≡ found 0
  unfolding scan
  scan-eq e = ground arith

  pub scan-gt : f x ≡ Ordering.gt → scan f 0 (x ∷ xs) ≡ missing 0
  unfolding scan
  scan-gt e = ground arith

value_at-bump :
    (x : Label) (xs : List Label) (s : Search) → value_at (x ∷ xs) (bump s) ≡ value_at xs s
value_at-bump x xs (found i) = refl
value_at-bump x xs (missing i) = refl

pub find-Above : (n : Str) (xs : List Label) → Above n xs → find xs n ≡ none
unfolding find
find-Above n [] h = refl
find-Above n (x ∷ xs) h = rw (str_beq-gt x.name n (cmp-lt_gt n x.name h.0)) (find-Above n xs h.1)

value_at-scan :
    (n : Str) (xs : List Label) → SortedLabels xs → value_at xs (scan (by_name n) 0 xs) ≡ find xs n
unfolding find
value_at-scan n [] h = unfold scan in refl
value_at-scan n (x ∷ xs) h = elim (Ordering-cases (cmp x.name n)) [
  | inl l ↦
      rw (str_beq-lt x.name n l, scan-lt (by_name n) x xs l)
        (value_at-bump x xs (scan (by_name n) 0 xs) ∙ value_at-scan n xs h.1)
  | inr (inl e) ↦ rw (str_beq-eq x.name n e, scan-eq (by_name n) x xs e)
  | inr (inr g) ↦
      rw (str_beq-gt x.name n g, scan-gt (by_name n) x xs g)
        (sym (find-Above n xs (Above-trans n x.name xs (cmp-gt_lt x.name n g) h.0)))
]

-- `get` finds the label that a search from the front finds.
pub get-find : (s : LabelSet) (n : Str) → IsSorted s → get s n ≡ find s.labels n
unfolding get
get-find s n h =
    rw (binary_search_by-scan (by_name n) s.labels (by_name-Ordered n s.labels h))
      (value_at-scan n s.labels h)
