-- ===== src/LabelSet/Canonical.antt =====
-- A set in order is determined by its lookups, so the derived equality does not see the order in
-- which labels came in.
use rust_tsdb.Prelude.{
  ◌≡◌, refl, ap, ap₂, ◌∙◌, sym, inl, inr, none, some, List, [], ◌∷◌, Ordering, Ordering-cases,
  Bool-cases, arith, subst, ◌≢◌,
}
use rust_tsdb.Prelude.Bytes.{
  Str, cmp, cmp-eq, cmp-gt_lt, str_eq, str_beq, str_beq_iff, str_beq_refl,
}
use rust_tsdb.Model.{Label}
use rust_tsdb.LabelSet.{LabelSet, get, insert_label}
use rust_tsdb.LabelSet.Sorted.{
  Above, Above-trans, SortedLabels, IsSorted, find, find-Above, get-find,
}
use rust_tsdb.LabelSet.Insert.{insert_label-IsSorted, get-insert_label}

find-head : (x : Label) (xs : List Label) → find (x ∷ xs) x.name ≡ some x.value
unfolding find
find-head x xs = rw (str_beq_refl x.name)

find-low :
    (n : Str) (x : Label) (xs : List Label)
    → cmp n x.name ≡ Ordering.lt
    → SortedLabels (x ∷ xs)
    → find (x ∷ xs) n ≡ none
find-low n x xs h o = find-Above n (x ∷ xs) (h, Above-trans n x.name xs h o.0)

-- Past equal heads the tails have the same lookups.
find-tail :
    (x : Label) (xs ys : List Label)
    → Above x.name xs
    → Above x.name ys
    → (n : Str) → find (x ∷ xs) n ≡ find (x ∷ ys) n
    → find xs n ≡ find ys n
unfolding find
find-tail x xs ys ax ay n h = elim (Bool-cases (str_beq x.name n)) [
  | inl e ↦
      subst (λ m. find xs m ≡ find ys m) ((str_beq_iff x.name n).0 e)
        (find-Above x.name xs ax ∙ sym (find-Above x.name ys ay))
  | inr e ↦ ground arith
]

heads_eq : (x y : Label) → x.name ≡ y.name → some x.value ≡ some y.value → x ≡ y
heads_eq x y h k = ground arith

pub find_ext :
    (xs ys : List Label)
    → SortedLabels xs
    → SortedLabels ys
    → ((n : Str) → find xs n ≡ find ys n)
    → xs ≡ ys
find_ext [] [] ox oy h = refl
find_ext [] (y ∷ ys) ox oy h = cc (h y.name, find-head y ys, find-Above y.name [] tt)
find_ext (x ∷ xs) [] ox oy h = cc (h x.name, find-head x xs, find-Above x.name [] tt)
find_ext (x ∷ xs) (y ∷ ys) ox oy h = elim (Ordering-cases (cmp x.name y.name)) [
  | inl l ↦ cc (h x.name, find-head x xs, find-low x.name y ys l oy)
  | inr (inl e) ↦
      let name = cmp-eq x.name y.name e in
      let here = subst (λ n. find (y ∷ ys) n ≡ some y.value) (sym name) (find-head y ys) in
      let head = heads_eq x y name (sym (find-head x xs) ∙ h x.name ∙ here) in
      let above = subst (λ n. Above n ys) (sym name) oy.0 in
      ap₂ ◌∷◌ head (
        find_ext xs ys ox.1 oy.1
          (λ n. find-tail x xs ys ox.0 above n (h n ∙ ap (λ z. find (z ∷ ys) n) (sym head))))
  | inr (inr g) ↦ cc (h y.name, find-head y ys, find-low y.name x xs (cmp-gt_lt x.name y.name g) ox)
]

-- Two sets in order with the same lookups are equal.
pub LabelSet_ext :
    (s t : LabelSet) → IsSorted s → IsSorted t → ((n : Str) → get s n ≡ get t n) → s ≡ t
LabelSet_ext s t hs ht h =
    ap (λ l. record { labels = l })
      (find_ext s.labels t.labels hs ht (λ n. sym (get-find s n hs) ∙ h n ∙ get-find t n ht))

-- Two insertions with different names into a set in order commute.
pub insert_label_comm :
    (s : LabelSet) (a b : Label)
    → IsSorted s
    → a.name ≢ b.name
    → insert_label (insert_label s a) b ≡ insert_label (insert_label s b) a
insert_label_comm s a b h d =
    LabelSet_ext _ _ (insert_label-IsSorted (insert_label s a) b (insert_label-IsSorted s a h))
      (insert_label-IsSorted (insert_label s b) a (insert_label-IsSorted s b h))
      (λ n. ground (
        arith,
        get-insert_label (insert_label s a) b n (insert_label-IsSorted s a h),
        get-insert_label (insert_label s b) a n (insert_label-IsSorted s b h),
        get-insert_label s a n h,
        get-insert_label s b n h,
        str_beq_iff a.name n,
        str_beq_iff b.name n,
      ))
