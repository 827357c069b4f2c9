-- ===== src/Tests/LabelSets.antt =====
-- Label sets, slices and id lists at concrete inputs.
use rust_tsdb.Prelude.{
  ℕ, ◌<◌, ap, ◌≡◌, refl, some, List, [], ◌∷◌, ◌≢◌, compare, arith, if◌then◌else◌,
}
use mathlib.Core.List.{foldl}
use rust_tsdb.Prelude.Eq.{◌==◌}
use rust_tsdb.Prelude.Bytes.{cmp, str_eq}
use rust_tsdb.Slice.{binary_search_by}
use rust_tsdb.Slice.Bisect.{scan, binary_search_by-scan}
use rust_tsdb.Model.{Label}
use rust_tsdb.LabelSet.{LabelSet, new, from_labels, get, insert_label}
use rust_tsdb.LabelSet.Sorted.{IsSorted}
use rust_tsdb.LabelSet.Insert.{get-insert_label}
use rust_tsdb.LabelSet.Canonical.{LabelSet_ext}
use rust_tsdb.LabelSet.FromLabels.{from_labels-insert_label}
use rust_tsdb.Ids.Sets.{SortedIds}

-- The names "a", "b" and "c".
abbrev a_label : Label
a_label = record { name = 97 ∷ []; value = 49 ∷ [] }

abbrev b_label : Label
b_label = record { name = 98 ∷ []; value = 50 ∷ [] }

abbrev b_again : Label
b_again = record { name = 98 ∷ []; value = 51 ∷ [] }

abbrev c_label : Label
c_label = record { name = 99 ∷ []; value = 50 ∷ [] }

abbrev given : List Label
given = c_label ∷ b_label ∷ a_label ∷ b_again ∷ []

abbrev two_labels : LabelSet
two_labels = record { labels = a_label ∷ c_label ∷ [] }

two_labels-IsSorted : IsSorted two_labels
two_labels-IsSorted = unfold cmp in ((refl, tt), (tt, tt))

from_labels-insert_label_example : from_labels given ≡ foldl insert_label new given
from_labels-insert_label_example = from_labels-insert_label given

get-insert_label_example :
    get (insert_label two_labels b_label) (99 ∷ [])
    ≡ (if b_label.name == 99 ∷ [] then some b_label.value else get two_labels (99 ∷ []))
get-insert_label_example = get-insert_label two_labels b_label (99 ∷ []) two_labels-IsSorted

LabelSet_ext_example : two_labels ≡ two_labels
LabelSet_ext_example =
    LabelSet_ext two_labels two_labels two_labels-IsSorted two_labels-IsSorted (λ n. refl)

abbrev first_or_zero : List ℕ → ℕ
first_or_zero [] = 0
first_or_zero (x ∷ xs) = x

different : (n m : ℕ) → n < m → n ≢ m
different n m h e = absurd (omega arith)

b-not-c : b_label.name ≢ c_label.name
b-not-c e = different 98 99 (omega arith) (ap (λ (xs : List ℕ). first_or_zero xs) e)

abbrev low : List ℕ
low = 1 ∷ 3 ∷ 5 ∷ []

abbrev high : List ℕ
high = 3 ∷ 4 ∷ 5 ∷ 6 ∷ []

low-SortedIds : SortedIds low
low-SortedIds = ((omega arith, (omega arith, tt)), ((omega arith, tt), (tt, tt)))

high-SortedIds : SortedIds high
high-SortedIds = (
  (omega arith, (omega arith, (omega arith, tt))),
  ((omega arith, (omega arith, tt)), ((omega arith, tt), (tt, tt))),
)

binary_search_by-scan_example :
    binary_search_by (λ n. compare n 3) low ≡ scan (λ n. compare n 3) 0 low
binary_search_by-scan_example =
    binary_search_by-scan (λ n. compare n 3) low
      ((λ h. absurd (h refl)), ((λ h. (refl, tt)), ((λ h. tt), tt)))
