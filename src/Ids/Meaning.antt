-- ===== src/Ids/Meaning.antt =====
-- The three operations as filters and as the union of sets, on lists in order.
use rust_tsdb.Prelude.{ℕ, ◌≡◌, sym, ◌∙◌, ◌||◌, not, List, keep}
use rust_tsdb.Ids.{union_sorted, difference_sorted, intersect_in_place}
use rust_tsdb.Ids.Sets.{
  SortedIds, mem, intersect, mem-intersect, mem-union_sorted, mem-difference_sorted, mem-keep,
  ids_ext, keep-SortedIds, intersect-SortedIds, union_sorted-SortedIds, difference_sorted-SortedIds,
}
use rust_tsdb.Ids.InPlace.{intersect_in_place-intersect}

-- On lists in strictly increasing order, `intersect_in_place` keeps of `a` exactly the ids that are
-- in `b`.
pub intersect_in_place-keep :
    (a b : List ℕ) → SortedIds a → SortedIds b → intersect_in_place a b ≡ keep (λ n. mem n b) a
intersect_in_place-keep a b ha hb =
    intersect_in_place-intersect a b
    ∙ ids_ext (intersect a b) (keep (λ n. mem n b) a) (intersect-SortedIds a b ha)
        (keep-SortedIds (λ n. mem n b) a ha)
        (λ n. mem-intersect n a b ha hb ∙ sym (mem-keep (λ m. mem m b) n a))

-- On lists in strictly increasing order, `difference_sorted` keeps of `a` exactly the ids that are
-- not in `b`.
pub difference_sorted-keep :
    (a b : List ℕ) → SortedIds a → SortedIds b → difference_sorted a b ≡ keep (λ n. not (mem n b)) a
difference_sorted-keep a b ha hb =
    ids_ext (difference_sorted a b) (keep (λ n. not (mem n b)) a)
      (difference_sorted-SortedIds a b ha) (keep-SortedIds (λ n. not (mem n b)) a ha)
      (λ n. mem-difference_sorted n a b ha hb ∙ sym (mem-keep (λ m. not (mem m b)) n a))

-- On lists in strictly increasing order, `union_sorted` is in strictly increasing order, and an id is
-- in it if and only if it is in one of the lists.
pub union_sorted_lem :
    (a b : List ℕ)
    → SortedIds a
    → SortedIds b
    → SortedIds (union_sorted a b) × ((n : ℕ) → mem n (union_sorted a b) ≡ (mem n a || mem n b))
union_sorted_lem a b ha hb = (union_sorted-SortedIds a b ha hb, λ n. mem-union_sorted n a b)
