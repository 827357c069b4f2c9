-- ===== src/Ids/Sets.antt =====
-- The operations as set operations: who is a member, and that the order is kept.
use rust_tsdb.Prelude.{
  ℕ, ◌≤◌, ◌<◌, ◌≡◌, refl, ap₂, subst, Bool, true, false, ◌&&◌, ◌||◌, not, List, [], ◌∷◌, ◌++◌, All,
  keep, compare, Ordering, nat_beq, nat_beq_iff, ne→nat_beq, arith, if◌then◌else◌, inl, inr,
  Bool-cases,
}
use rust_tsdb.Model.{SeriesId}
use rust_tsdb.Ids.{union_sorted, difference_sorted}

-- Strictly increasing.
abbrev pub SortedIds : List SeriesId → Type 0
SortedIds [] = Unit
SortedIds (x ∷ xs) = All (λ y. x < y) xs × SortedIds xs

abbrev pub mem : SeriesId → List SeriesId → Bool
mem n [] = false
mem n (x ∷ xs) = if nat_beq x n then true else mem n xs

-- The intersection on what is left of both lists.
unfoldable pub intersect : List SeriesId → List SeriesId → List SeriesId
intersect [] b = []
intersect (x ∷ xs) [] = []
intersect (x ∷ xs) (y ∷ ys) = elim (compare x y) [
  | Ordering.lt ↦ intersect xs (y ∷ ys)
  | Ordering.gt ↦ intersect (x ∷ xs) ys
  | Ordering.eq ↦ x ∷ intersect xs ys
]

pub not_mem_below : (n : ℕ) (xs : List ℕ) → All (λ y. n < y) xs → mem n xs ≡ false
not_mem_below n [] h = refl
not_mem_below n (x ∷ xs) h = rw (ne→nat_beq x n (omega arith)) (not_mem_below n xs h.1)

pub below_trans : (n m : ℕ) (xs : List ℕ) → n ≤ m → All (λ y. m < y) xs → All (λ y. n < y) xs
below_trans n m [] h k = tt
below_trans n m (x ∷ xs) h k = (omega arith, below_trans n m xs h k.1)

pub mem-union_sorted : (n : ℕ) (a b : List ℕ) → mem n (union_sorted a b) ≡ (mem n a || mem n b)
unfolding union_sorted
mem-union_sorted n [] b = refl
mem-union_sorted n (x ∷ xs) [] = ground arith
mem-union_sorted n (x ∷ xs) (y ∷ ys) = ground (
  arith,
  mem-union_sorted n xs (y ∷ ys),
  mem-union_sorted n (x ∷ xs) ys,
  mem-union_sorted n xs ys,
)

pub mem-difference_sorted :
    (n : ℕ) (a b : List ℕ)
    → SortedIds a
    → SortedIds b
    → mem n (difference_sorted a b) ≡ (mem n a && not (mem n b))
unfolding difference_sorted
mem-difference_sorted n [] b ha hb = refl
mem-difference_sorted n (x ∷ xs) [] ha hb = ground arith
mem-difference_sorted n (x ∷ xs) (y ∷ ys) ha hb = ground (
  arith,
  mem-difference_sorted n xs (y ∷ ys) ha.1 hb,
  mem-difference_sorted n (x ∷ xs) ys ha hb.1,
  mem-difference_sorted n xs ys ha.1 hb.1,
  not_mem_below x xs ha.0,
  not_mem_below y ys hb.0,
  λ (q : x < y). not_mem_below x ys (below_trans x y ys (omega arith) hb.0),
  λ (q : y < x). not_mem_below y xs (below_trans y x xs (omega arith) ha.0),
)

pub mem-intersect :
    (n : ℕ) (a b : List ℕ)
    → SortedIds a
    → SortedIds b
    → mem n (intersect a b) ≡ (mem n a && mem n b)
unfolding intersect
mem-intersect n [] b ha hb = refl
mem-intersect n (x ∷ xs) [] ha hb = ground arith
mem-intersect n (x ∷ xs) (y ∷ ys) ha hb = ground (
  arith,
  mem-intersect n xs (y ∷ ys) ha.1 hb,
  mem-intersect n (x ∷ xs) ys ha hb.1,
  mem-intersect n xs ys ha.1 hb.1,
  not_mem_below x xs ha.0,
  not_mem_below y ys hb.0,
  λ (q : x < y). not_mem_below x ys (below_trans x y ys (omega arith) hb.0),
  λ (q : y < x). not_mem_below y xs (below_trans y x xs (omega arith) ha.0),
)

below-union :
    (n : ℕ) (a b : List ℕ)
    → All (λ y. n < y) a
    → All (λ y. n < y) b
    → All (λ y. n < y) (union_sorted a b)
unfolding union_sorted
below-union n [] b ha hb = hb
below-union n (x ∷ xs) [] ha hb = ha
below-union n (x ∷ xs) (y ∷ ys) ha hb = ground (
  arith,
  below-union n xs (y ∷ ys) ha.1 hb,
  below-union n (x ∷ xs) ys ha hb.1,
  below-union n xs ys ha.1 hb.1,
)

below-difference :
    (n : ℕ) (a b : List ℕ) → All (λ y. n < y) a → All (λ y. n < y) (difference_sorted a b)
unfolding difference_sorted
below-difference n [] b ha = tt
below-difference n (x ∷ xs) [] ha = ha
below-difference n (x ∷ xs) (y ∷ ys) ha = ground (
  arith,
  below-difference n xs (y ∷ ys) ha.1,
  below-difference n (x ∷ xs) ys ha,
  below-difference n xs ys ha.1,
)

below-intersect : (n : ℕ) (a b : List ℕ) → All (λ y. n < y) a → All (λ y. n < y) (intersect a b)
unfolding intersect
below-intersect n [] b ha = tt
below-intersect n (x ∷ xs) [] ha = tt
below-intersect n (x ∷ xs) (y ∷ ys) ha = ground (
  arith,
  below-intersect n xs (y ∷ ys) ha.1,
  below-intersect n (x ∷ xs) ys ha,
  below-intersect n xs ys ha.1,
)

pub union_sorted-SortedIds :
    (a b : List ℕ) → SortedIds a → SortedIds b → SortedIds (union_sorted a b)
unfolding union_sorted
union_sorted-SortedIds [] b ha hb = hb
union_sorted-SortedIds (x ∷ xs) [] ha hb = ha
union_sorted-SortedIds (x ∷ xs) (y ∷ ys) ha hb = ground (
  arith,
  union_sorted-SortedIds xs (y ∷ ys) ha.1 hb,
  union_sorted-SortedIds (x ∷ xs) ys ha hb.1,
  union_sorted-SortedIds xs ys ha.1 hb.1,
  λ (q : x < y). below-union x xs (y ∷ ys) ha.0 (q, below_trans x y ys (omega arith) hb.0),
  λ (q : y < x). below-union y (x ∷ xs) ys (q, below_trans y x xs (omega arith) ha.0) hb.0,
  λ (q : x ≡ y). below-union x xs ys ha.0 (below_trans x y ys (omega arith) hb.0),
)

pub difference_sorted-SortedIds : (a b : List ℕ) → SortedIds a → SortedIds (difference_sorted a b)
unfolding difference_sorted
difference_sorted-SortedIds [] b ha = tt
difference_sorted-SortedIds (x ∷ xs) [] ha = ha
difference_sorted-SortedIds (x ∷ xs) (y ∷ ys) ha = ground (
  arith,
  difference_sorted-SortedIds xs (y ∷ ys) ha.1,
  difference_sorted-SortedIds (x ∷ xs) ys ha,
  difference_sorted-SortedIds xs ys ha.1,
  below-difference x xs (y ∷ ys) ha.0,
)

pub intersect-SortedIds : (a b : List ℕ) → SortedIds a → SortedIds (intersect a b)
unfolding intersect
intersect-SortedIds [] b ha = tt
intersect-SortedIds (x ∷ xs) [] ha = tt
intersect-SortedIds (x ∷ xs) (y ∷ ys) ha = ground (
  arith,
  intersect-SortedIds xs (y ∷ ys) ha.1,
  intersect-SortedIds (x ∷ xs) ys ha,
  intersect-SortedIds xs ys ha.1,
  below-intersect x xs ys ha.0,
)

mem_head : (x : ℕ) (xs : List ℕ) → mem x (x ∷ xs) ≡ true
mem_head x xs = rw ((nat_beq_iff x x).1 refl)

-- Sorted lists with the same members are the same list.
pub ids_ext : (a b : List ℕ) → SortedIds a → SortedIds b → ((n : ℕ) → mem n a ≡ mem n b) → a ≡ b
ids_ext [] [] ha hb h = refl
ids_ext [] (y ∷ ys) ha hb h = cc (h y, mem_head y ys)
ids_ext (x ∷ xs) [] ha hb h = cc (h x, mem_head x xs)
ids_ext (x ∷ xs) (y ∷ ys) ha hb h = ap₂ ◌∷◌ same (ids_ext xs ys ha.1 hb.1 tails)
  where
    same : x ≡ y
    same = ground (
      arith,
      h x,
      h y,
      not_mem_below x xs ha.0,
      not_mem_below y ys hb.0,
      λ (q : x < y). not_mem_below x ys (below_trans x y ys (omega arith) hb.0),
      λ (q : y < x). not_mem_below y xs (below_trans y x xs (omega arith) ha.0),
    )

    tails : (n : ℕ) → mem n xs ≡ mem n ys
    tails n = ground (arith, h n, same, not_mem_below x xs ha.0, not_mem_below y ys hb.0)

pub mem-keep : (p : ℕ → Bool) (n : ℕ) (xs : List ℕ) → mem n (keep p xs) ≡ (mem n xs && p n)
mem-keep p n [] = refl
mem-keep p n (x ∷ xs) = elim (Bool-cases (nat_beq x n)) [
  | inl e ↦
      subst (λ m. mem m (keep p (x ∷ xs)) ≡ (mem m (x ∷ xs) && p m)) ((nat_beq_iff x n).0 e)
        (ground (arith, mem-keep p x xs, mem_head x xs))
  | inr e ↦ ground (arith, mem-keep p n xs)
]

below-keep :
    (p : ℕ → Bool) (n : ℕ) (xs : List ℕ) → All (λ y. n < y) xs → All (λ y. n < y) (keep p xs)
below-keep p n [] h = tt
below-keep p n (x ∷ xs) h = ground (arith, below-keep p n xs h.1)

pub keep-SortedIds : (p : ℕ → Bool) (xs : List ℕ) → SortedIds xs → SortedIds (keep p xs)
keep-SortedIds p [] h = tt
keep-SortedIds p (x ∷ xs) h = ground (arith, keep-SortedIds p xs h.1, below-keep p x xs h.0)

below_snoc : (n m : ℕ) (xs : List ℕ) → n < m → All (λ y. n < y) xs → All (λ y. n < y) (xs ++ m ∷ [])
below_snoc n m [] h k = (h, tt)
below_snoc n m (x ∷ xs) h k = (k.0, below_snoc n m xs h k.1)

-- A larger id goes to the end.
pub SortedIds-snoc :
    (m : ℕ) (xs : List ℕ)
    → SortedIds xs
    → ((n : ℕ) → mem n xs ≡ true → n < m)
    → SortedIds (xs ++ m ∷ [])
SortedIds-snoc m [] h k = (tt, tt)
SortedIds-snoc m (x ∷ xs) h k = (
  below_snoc x m xs (k x (mem_head x xs)) h.0,
  SortedIds-snoc m xs h.1 (λ n e. k n (ground (arith, e))),
)

pub mem-snoc : (n m : ℕ) (xs : List ℕ) → mem n (xs ++ m ∷ []) ≡ (mem n xs || nat_beq m n)
mem-snoc n m [] = ground arith
mem-snoc n m (x ∷ xs) = ground (arith, mem-snoc n m xs)
