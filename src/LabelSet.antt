-- ===== src/LabelSet.antt =====
-- src/model.rs: `LabelSet`, a vector of labels that its operations keep in order of the names.
pub mod Sorted
pub mod Insert
pub mod SortBy
pub mod FromLabels
pub mod Canonical
use rust_tsdb.Prelude.{
  ℕ, zero, suc, ◌+◌, ◌≡◌, refl, Bool, true, false, ◌&&◌, ◌↔◌, Option, none, some, List, [], ◌∷◌,
  ◌++◌, length, get_elem?, set, take, drop, map, if◌then◌else◌, Ordering, arith,
}
use rust_tsdb.Prelude as P
use mathlib.Core.Option
use rust_tsdb.Prelude.Bytes.{Str, cmp, str_eq}
use rust_tsdb.Prelude.Eq.{KeyEq, ◌==◌, eq_iff}
use rust_tsdb.Slice.{Search, found, missing, binary_search_by}
use rust_tsdb.Model.{Label, label_eq}

pub record LabelSet : Type 0 where
  pub labels : List Label

labels_beq : List Label → List Label → Bool
labels_beq [] [] = true
labels_beq [] (b ∷ t) = false
labels_beq (a ∷ s) [] = false
labels_beq (a ∷ s) (b ∷ t) = (a == b) && labels_beq s t

labels_beq_iff : (s t : List Label) → (labels_beq s t ≡ true) ↔ (s ≡ t)
unfolding labels_beq
labels_beq_iff [] [] = ground arith
labels_beq_iff [] (b ∷ t) = ground arith
labels_beq_iff (a ∷ s) [] = ground arith
labels_beq_iff (a ∷ s) (b ∷ t) = ground (arith, eq_iff a b, labels_beq_iff s t)

-- `derive(PartialEq, KeyEq, Hash)`: what makes a label set a key of a `HashMap`.
pub label_set_beq : LabelSet → LabelSet → Bool
label_set_beq s t = labels_beq s.labels t.labels

pub label_set_beq_iff : (s t : LabelSet) → (label_set_beq s t ≡ true) ↔ (s ≡ t)
unfolding label_set_beq
label_set_beq_iff s t = ground (arith, labels_beq_iff s.labels t.labels)

instance abbrev pub label_set_eq : KeyEq LabelSet
label_set_eq = record { same = label_set_beq; same_iff = label_set_beq_iff }

-- `LabelSet::new`
abbrev pub new : LabelSet
new = record { labels = [] }

-- `LabelSet::from_sorted_unchecked`
abbrev pub from_sorted_unchecked : List Label → LabelSet
from_sorted_unchecked labels = record { labels = labels }

-- `slice::sort_by` is stable: an element stays in front of the later ones that equal it.
insert_sorted : (Label → Label → Ordering) → Label → List Label → List Label
insert_sorted f x [] = x ∷ []
insert_sorted f x (y ∷ ys) =
    let rest = insert_sorted f x ys in
    elim (f y x) [ Ordering.lt ↦ y ∷ rest | Ordering.eq ↦ x ∷ y ∷ ys | Ordering.gt ↦ x ∷ y ∷ ys ]

pub sort_by : (Label → Label → Ordering) → List Label → List Label
unfolding insert_sorted
sort_by f [] = []
sort_by f (x ∷ xs) = insert_sorted f x (sort_by f xs)

-- `Vec::dedup_by`: the closure sees an element and the last one kept, may write to both, and says
-- whether the element goes. `prev` is the last one kept.
dedup_from : (Label → Label → Label × Bool) → Label → List Label → List Label
dedup_from bucket prev [] = prev ∷ []
dedup_from bucket prev (x ∷ xs) =
    let (kept, same) = bucket x prev in
    let rest = dedup_from bucket (if same then kept else x) xs in if same then rest else kept ∷ rest

pub dedup_by : (Label → Label → Label × Bool) → List Label → List Label
unfolding dedup_from
dedup_by bucket [] = []
dedup_by bucket (x ∷ xs) = dedup_from bucket x xs

-- The closure of `from_labels`: of two labels with one name the swap keeps the later.
abbrev pub later_wins : Label → Label → Label × Bool
later_wins a b = if a.name == b.name then (a, true) else (b, false)

-- `LabelSet::from_labels`
unfoldable pub from_labels : List Label → LabelSet
unfolding sort_by dedup_by
from_labels labels =
    from_sorted_unchecked (dedup_by later_wins (sort_by (λ a b. cmp a.name b.name) labels))

-- `self.labels[i].value` where the search found index `i`
abbrev pub value_at : List Label → Search → Option Str
value_at labels (found i) = Option.map (λ l. l.value) (get_elem? labels i)
value_at labels (missing i) = none

-- `LabelSet::get`
unfoldable pub get : LabelSet → Str → Option Str
get s name = value_at s.labels (binary_search_by (λ l. cmp l.name name) s.labels)

-- The arms of `insert_label`'s match. An index that the search finds is in range.
abbrev pub place : List Label → Label → Search → List Label
place labels label (found i) = elim (get_elem? labels i) [
  | none ↦ labels
  | some existing ↦ if existing == label then labels else set labels i label
]
place labels label (missing i) = take i labels ++ label ∷ drop i labels

-- `LabelSet::insert_label`
unfoldable pub insert_label : LabelSet → Label → LabelSet
insert_label s label = record {
  labels = place s.labels label (binary_search_by (λ e. cmp e.name label.name) s.labels);
}

-- `LabelSet::metric_name`; the name is `__name__`.
abbrev pub metric_label : Str
metric_label = 0x5f ∷ 0x5f ∷ 0x6e ∷ 0x61 ∷ 0x6d ∷ 0x65 ∷ 0x5f ∷ 0x5f ∷ []

unfoldable pub metric_name : LabelSet → Option Str
unfolding get
metric_name s = get s metric_label

-- `LabelSet::len`, `LabelSet::is_empty`
abbrev pub len : LabelSet → ℕ
len s = length s.labels

abbrev pub is_empty : LabelSet → Bool
is_empty s = P.is_empty s.labels

-- `IntoIterator for &LabelSet`
abbrev pub into_iter : LabelSet → List (Str × Str)
into_iter s = map (λ l. (l.name, l.value)) s.labels
