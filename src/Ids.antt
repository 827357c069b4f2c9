-- ===== src/Ids.antt =====
-- src/storage/index.rs: set operations on sorted lists of series ids. A pair of indices into two
-- slices is a pair of lists, what is left of each; `intersect_in_place` keeps its indices, since it
-- writes into the slice that it reads.
pub mod Sets
pub mod InPlace
pub mod Meaning
use rust_tsdb.Prelude.{
  ℕ, zero, suc, ◌+◌, Option, none, some, List, [], ◌∷◌, ◌++◌, length, get_elem?, set, take, compare,
  Ordering,
}
use rust_tsdb.Prelude.HashMap.{HashMap}
use rust_tsdb.Prelude.Bytes.{Str}
use rust_tsdb.Model.{SeriesId}

unfoldable pub union_sorted : List SeriesId → List SeriesId → List SeriesId
union_sorted [] b = b
union_sorted (x ∷ xs) [] = x ∷ xs
union_sorted (x ∷ xs) (y ∷ ys) = elim (compare x y) [
  | Ordering.lt ↦ x ∷ union_sorted xs (y ∷ ys)
  | Ordering.gt ↦ y ∷ union_sorted (x ∷ xs) ys
  | Ordering.eq ↦ x ∷ union_sorted xs ys
]

unfoldable pub difference_sorted : List SeriesId → List SeriesId → List SeriesId
difference_sorted [] b = []
difference_sorted (x ∷ xs) [] = x ∷ xs
difference_sorted (x ∷ xs) (y ∷ ys) = elim (compare x y) [
  | Ordering.lt ↦ x ∷ difference_sorted xs (y ∷ ys)
  | Ordering.gt ↦ difference_sorted (x ∷ xs) ys
  | Ordering.eq ↦ difference_sorted xs ys
]

-- The loop of `intersect_in_place`: `a` is the vector, and the numbers are `write`, `i` and `j`.
unfoldable pub intersect_loop : ℕ → List SeriesId → List SeriesId → ℕ → ℕ → ℕ → List SeriesId
intersect_loop zero a b w i j = take w a
intersect_loop (suc fuel) a b w i j = elim (get_elem? a i) [
  | none ↦ take w a
  | some x ↦ elim (get_elem? b j) [
    | none ↦ take w a
    | some y ↦ elim (compare x y) [
      | Ordering.lt ↦ intersect_loop fuel a b w (i + 1) j
      | Ordering.gt ↦ intersect_loop fuel a b w i (j + 1)
      | Ordering.eq ↦ intersect_loop fuel (set a w x) b (w + 1) (i + 1) (j + 1)
    ]
  ]
]

-- Each round moves `i` or `j`, so the lengths are fuel enough.
unfoldable pub intersect_in_place : List SeriesId → List SeriesId → List SeriesId
unfolding intersect_loop
intersect_in_place a b = intersect_loop (length a + length b) a b 0 0 0

-- `values.values().fold(Vec::new(), |acc, v| union_sorted(&acc, v))`
unfoldable pub union_from : List SeriesId → HashMap Str (List SeriesId) → List SeriesId
unfolding union_sorted
union_from acc [] = acc
union_from acc ((value, ids) ∷ m) = union_from (union_sorted acc ids) m

unfoldable pub union_all : HashMap Str (List SeriesId) → List SeriesId
unfolding union_from
union_all values = union_from [] values
