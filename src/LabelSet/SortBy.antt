-- ===== src/LabelSet/SortBy.antt =====
-- The stable sort of `from_labels`: it puts the names in order and keeps the last of each the last.
use rust_tsdb.Prelude.{
  ◌≡◌, refl, ap, ◌∙◌, sym, ◌≢◌, inl, inr, Option, none, some, List, [], ◌∷◌, All, if◌then◌else◌,
  Ordering, Ordering-cases, lt_cases, arith, subst,
}
use rust_tsdb.Prelude.Bytes.{
  Str, cmp, cmp-eq, cmp-lt_gt, cmp-gt_lt, cmp-lt_trans, str_eq, str_beq_iff, str_beq-lt,
}
use rust_tsdb.Prelude.Eq.{◌==◌}
use rust_tsdb.Model.{Label}
use rust_tsdb.LabelSet.{insert_sorted, sort_by}

abbrev pub or_else : Option Str → Option Str → Option Str
or_else (some v) d = some v
or_else none d = d

-- The value of the last label with this name.
unfoldable pub last_value : List Label → Str → Option Str
last_value [] n = none
last_value (x ∷ xs) n = or_else (last_value xs n) (if x.name == n then some x.value else none)

abbrev pub by_names : Label → Label → Ordering
by_names a b = cmp a.name b.name

-- No name in the list is below `n`.
abbrev pub NotBelow : Str → List Label → Type 0
NotBelow n xs = All (λ (y : Label). cmp y.name n ≢ Ordering.lt) xs

abbrev pub WeaklySorted : List Label → Type 0
WeaklySorted [] = Unit
WeaklySorted (x ∷ xs) = NotBelow x.name xs × WeaklySorted xs

cmp-ne_lt_trans :
    (a b c : Str) → cmp b a ≢ Ordering.lt → cmp c b ≢ Ordering.lt → cmp c a ≢ Ordering.lt
cmp-ne_lt_trans a b c h k e = elim (Ordering-cases (cmp b c)) [
  | inl l ↦ h (cmp-lt_trans b c a l e)
  | inr (inl q) ↦ h (subst (λ z. cmp z a ≡ Ordering.lt) (sym (cmp-eq b c q)) e)
  | inr (inr g) ↦ k (cmp-gt_lt b c g)
]

NotBelow-trans :
    (a b : Str) (xs : List Label) → cmp b a ≢ Ordering.lt → NotBelow b xs → NotBelow a xs
NotBelow-trans a b [] h k = tt
NotBelow-trans a b (x ∷ xs) h k = (cmp-ne_lt_trans a b x.name h k.0, NotBelow-trans a b xs h k.1)

module _ (x y : Label) (ys : List Label) where
  insert_sorted-lt :
      by_names y x ≡ Ordering.lt
      → insert_sorted by_names x (y ∷ ys) ≡ y ∷ insert_sorted by_names x ys
  unfolding insert_sorted
  insert_sorted-lt e = ground arith

  insert_sorted-ge : by_names y x ≢ Ordering.lt → insert_sorted by_names x (y ∷ ys) ≡ x ∷ y ∷ ys
  unfolding insert_sorted
  insert_sorted-ge e = ground arith

insert_sorted-NotBelow :
    (n : Str) (x : Label) (ys : List Label)
    → cmp x.name n ≢ Ordering.lt
    → NotBelow n ys
    → NotBelow n (insert_sorted by_names x ys)
insert_sorted-NotBelow n x [] h k = unfold insert_sorted in (h, tt)
insert_sorted-NotBelow n x (y ∷ ys) h k = elim (lt_cases (by_names y x)) [
  | inl e ↦ rw (insert_sorted-lt x y ys e) (k.0, insert_sorted-NotBelow n x ys h k.1)
  | inr e ↦ rw (insert_sorted-ge x y ys e) (h, k)
]

insert_sorted-WeaklySorted :
    (x : Label) (ys : List Label) → WeaklySorted ys → WeaklySorted (insert_sorted by_names x ys)
insert_sorted-WeaklySorted x [] h = unfold insert_sorted in (tt, tt)
insert_sorted-WeaklySorted x (y ∷ ys) h = elim (lt_cases (by_names y x)) [
  | inl e ↦ rw (insert_sorted-lt x y ys e) (
    insert_sorted-NotBelow y.name x ys (λ q. cc (cmp-lt_gt y.name x.name e)) h.0,
    insert_sorted-WeaklySorted x ys h.1,
  )
  | inr e ↦ rw (insert_sorted-ge x y ys e) ((e, NotBelow-trans x.name y.name ys e h.0), h)
]

-- The sort is stable: of equal names the last stays the last.
last_value-insert_sorted :
    (x : Label) (ys : List Label) (n : Str)
    → last_value (insert_sorted by_names x ys) n ≡ last_value (x ∷ ys) n
unfolding last_value
last_value-insert_sorted x [] n = unfold insert_sorted in refl
last_value-insert_sorted x (y ∷ ys) n = elim (lt_cases (by_names y x)) [
  | inl e ↦ rw (insert_sorted-lt x y ys e) (
      ground (
        arith,
        last_value-insert_sorted x ys n,
        str_beq_iff x.name n,
        str_beq_iff y.name n,
        str_beq_iff y.name x.name,
        str_beq-lt y.name x.name e,
      ))
  | inr e ↦ rw (insert_sorted-ge x y ys e)
]

pub sort_by-WeaklySorted : (xs : List Label) → WeaklySorted (sort_by by_names xs)
unfolding sort_by
sort_by-WeaklySorted [] = tt
sort_by-WeaklySorted (x ∷ xs) =
    insert_sorted-WeaklySorted x (sort_by by_names xs) (sort_by-WeaklySorted xs)

pub last_value-sort_by :
    (xs : List Label) (n : Str) → last_value (sort_by by_names xs) n ≡ last_value xs n
unfolding sort_by last_value
last_value-sort_by [] n = refl
last_value-sort_by (x ∷ xs) n =
    last_value-insert_sorted x (sort_by by_names xs) n
    ∙ ap (λ o. or_else o (if x.name == n then some x.value else none)) (last_value-sort_by xs n)
