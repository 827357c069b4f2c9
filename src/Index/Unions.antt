-- ===== src/Index/Unions.antt =====
-- `union_all` over the values of a label: the members are those of every posting list.
use rust_tsdb.Prelude.{
  ℕ, ◌≡◌, refl, Bool, true, false, ◌||◌, none, some, List, [], ◌∷◌, arith, inl, inr, Bool-cases,
  subst,
}
use rust_tsdb.Prelude.Bytes.{Str, str_eq}
use rust_tsdb.Prelude.Eq.{◌==◌, eq_iff}
use rust_tsdb.Prelude.HashMap
use rust_tsdb.Prelude.HashMap.{HashMap, UniqueKeys}
use rust_tsdb.Ids.{union_sorted, union_from, union_all}
use rust_tsdb.Ids.Sets.{SortedIds, mem, mem-union_sorted, union_sorted-SortedIds}

abbrev Values : Type 0
Values = HashMap Str (List ℕ)

-- The id is in one of the lists.
unfoldable pub in_some : ℕ → Values → Bool
in_some n [] = false
in_some n ((v, ids) ∷ m) = mem n ids || in_some n m

mem-union_from :
    (n : ℕ) (acc : List ℕ) (m : Values) → mem n (union_from acc m) ≡ (mem n acc || in_some n m)
unfolding union_from in_some
mem-union_from n acc [] = ground arith
mem-union_from n acc ((v, ids) ∷ m) =
    ground (arith, mem-union_from n (union_sorted acc ids) m, mem-union_sorted n acc ids)

pub mem-union_all : (n : ℕ) (m : Values) → mem n (union_all m) ≡ in_some n m
unfolding union_all
mem-union_all n m = mem-union_from n [] m

-- Under another key of the tail the lookup goes past the head.
get-tail :
    (k v : Str) (ids ids' : List ℕ) (m : Values)
    → HashMap.get m k ≡ none
    → HashMap.get m v ≡ some ids'
    → HashMap.get ((k, ids) ∷ m) v ≡ some ids'
unfolding HashMap.get
get-tail k v ids ids' m h e = elim (Bool-cases (k == v)) [
  | inl q ↦ cc (subst (λ z. HashMap.get m z ≡ none) ((eq_iff k v).0 q) h)
  | inr q ↦ rw q e
]

get-head : (k : Str) (ids : List ℕ) (m : Values) → HashMap.get ((k, ids) ∷ m) k ≡ some ids
unfolding HashMap.get
get-head k ids m = rw ((eq_iff k k).1 refl)

pub in_some-get :
    (n : ℕ) (m : Values)
    → UniqueKeys m
    → in_some n m ≡ true
    → (v : Str) × (ids : List ℕ) × (HashMap.get m v ≡ some ids) × (mem n ids ≡ true)
unfolding in_some
in_some-get n [] u h = cc
in_some-get n ((k, ids) ∷ m) u h = elim (Bool-cases (mem n ids)) [
  | inl e ↦ (k, ids, get-head k ids m, e)
  | inr e ↦
      let (v, ids', g, i) = in_some-get n m u.1 (ground (arith, e, h)) in
      (v, ids', get-tail k v ids ids' m u.0 g, i)
]

pub get-in_some :
    (n : ℕ) (m : Values) (v : Str) (ids : List ℕ)
    → HashMap.get m v ≡ some ids
    → mem n ids ≡ true
    → in_some n m ≡ true
unfolding in_some HashMap.get
get-in_some n [] v ids g h = cc
get-in_some n ((k, w) ∷ m) v ids g h = ground (arith, get-in_some n m v ids)

union_from-SortedIds :
    (acc : List ℕ) (m : Values)
    → UniqueKeys m
    → SortedIds acc
    → ((v : Str) (ids : List ℕ) → HashMap.get m v ≡ some ids → SortedIds ids)
    → SortedIds (union_from acc m)
unfolding union_from
union_from-SortedIds acc [] u s h = s
union_from-SortedIds acc ((k, ids) ∷ m) u s h =
    union_from-SortedIds (union_sorted acc ids) m u.1
      (union_sorted-SortedIds acc ids s (h k ids (get-head k ids m)))
      (λ v ids' e. h v ids' (get-tail k v ids ids' m u.0 e))

pub union_all-SortedIds :
    (m : Values)
    → UniqueKeys m
    → ((v : Str) (ids : List ℕ) → HashMap.get m v ≡ some ids → SortedIds ids)
    → SortedIds (union_all m)
unfolding union_all
union_all-SortedIds m u h = union_from-SortedIds [] m u tt h
