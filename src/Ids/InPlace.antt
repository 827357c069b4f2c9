-- ===== src/Ids/InPlace.antt =====
-- The intersection that overwrites its own input is the intersection of the lists.
use rust_tsdb.Prelude.{
  ℕ, zero, suc, ◌+◌, ◌-◌, ◌≤◌, ◌<◌, ◌≡◌, refl, ap, sym, ◌∙◌, none, some, List, [], ◌∷◌, ◌++◌,
  append-nil, append_assoc, length, get_elem?, set, take, drop, compare, Ordering, arith, inl, inr,
  Option-cases, Ordering-cases,
}
use native.Mathlib.Numerals.{add-one}
use rust_tsdb.Ids.{intersect_loop, intersect_in_place}
use rust_tsdb.Ids.Sets.{intersect}

drop-none : (xs : List ℕ) (i : ℕ) → get_elem? xs i ≡ none → drop i xs ≡ []
drop-none [] zero h = refl
drop-none [] (suc i) h = refl
drop-none (x ∷ xs) zero h = cc
drop-none (x ∷ xs) (suc i) h = drop-none xs i h

drop-some : (xs : List ℕ) (i x : ℕ) → get_elem? xs i ≡ some x → drop i xs ≡ x ∷ drop (suc i) xs
drop-some [] i x h = cc
drop-some (y ∷ xs) zero x h = ground arith
drop-some (y ∷ xs) (suc i) x h = drop-some xs i x h

get-lt-length : (xs : List ℕ) (i x : ℕ) → get_elem? xs i ≡ some x → i < length xs
get-lt-length [] i x h = cc
get-lt-length (y ∷ xs) zero x h = omega arith
get-lt-length (y ∷ xs) (suc i) x h = omega (arith, get-lt-length xs i x h)

take-set : (xs : List ℕ) (w x : ℕ) → w < length xs → take (suc w) (set xs w x) ≡ take w xs ++ x ∷ []
take-set [] w x h = absurd (omega arith)
take-set (y ∷ xs) zero x h = refl
take-set (y ∷ xs) (suc w) x h = ap (λ t. y ∷ t) (take-set xs w x (omega arith))

drop-set : (xs : List ℕ) (w i x : ℕ) → w < i → drop i (set xs w x) ≡ drop i xs
drop-set xs w zero x h = absurd (omega arith)
drop-set [] w (suc i) x h = refl
drop-set (y ∷ xs) zero (suc i) x h = refl
drop-set (y ∷ xs) (suc w) (suc i) x h = drop-set xs w i x (omega arith)

length-set : (xs : List ℕ) (i x : ℕ) → length (set xs i x) ≡ length xs
length-set [] i x = refl
length-set (y ∷ xs) zero x = refl
length-set (y ∷ xs) (suc i) x = ap suc (length-set xs i x)

intersect-nil : (xs : List ℕ) → intersect xs [] ≡ []
unfolding intersect
intersect-nil [] = refl
intersect-nil (x ∷ xs) = refl

drop-past : (xs : List ℕ) (i : ℕ) → length xs ≤ i → drop i xs ≡ []
drop-past [] zero h = refl
drop-past [] (suc i) h = refl
drop-past (x ∷ xs) zero h = absurd (omega arith)
drop-past (x ∷ xs) (suc i) h = drop-past xs i (omega arith)

-- One round of the loop, by what it finds.
module _ (fuel : ℕ) (a b : List ℕ) (w i j : ℕ) where
  round-end_a : get_elem? a i ≡ none → intersect_loop (suc fuel) a b w i j ≡ take w a
  unfolding intersect_loop
  round-end_a e = ground arith

  round-end_b : get_elem? b j ≡ none → intersect_loop (suc fuel) a b w i j ≡ take w a
  unfolding intersect_loop
  round-end_b e = ground arith

  module _ (x y : ℕ) (ea : get_elem? a i ≡ some x) (eb : get_elem? b j ≡ some y) where
    round-lt :
        compare x y ≡ Ordering.lt
        → intersect_loop (suc fuel) a b w i j ≡ intersect_loop fuel a b w (i + 1) j
    unfolding intersect_loop
    round-lt c = ground arith

    round-gt :
        compare x y ≡ Ordering.gt
        → intersect_loop (suc fuel) a b w i j ≡ intersect_loop fuel a b w i (j + 1)
    unfolding intersect_loop
    round-gt c = ground arith

    round-eq :
        compare x y ≡ Ordering.eq
        → intersect_loop (suc fuel) a b w i j
          ≡ intersect_loop fuel (set a w x) b (w + 1) (i + 1) (j + 1)
    unfolding intersect_loop
    round-eq c = ground arith

module _ (x y : ℕ) (xs ys : List ℕ) where
  intersect-lt : compare x y ≡ Ordering.lt → intersect (x ∷ xs) (y ∷ ys) ≡ intersect xs (y ∷ ys)
  unfolding intersect
  intersect-lt c = ground arith

  intersect-gt : compare x y ≡ Ordering.gt → intersect (x ∷ xs) (y ∷ ys) ≡ intersect (x ∷ xs) ys
  unfolding intersect
  intersect-gt c = ground arith

  intersect-eq : compare x y ≡ Ordering.eq → intersect (x ∷ xs) (y ∷ ys) ≡ x ∷ intersect xs ys
  unfolding intersect
  intersect-eq c = ground arith

drop-add_one : (i : ℕ) (xs : List ℕ) → drop (i + 1) xs ≡ drop (suc i) xs
drop-add_one i xs = ap (λ n. drop n xs) (add-one i)

-- The written part is the result so far, the rest is still to be met.
intersect_loop-intersect :
    (fuel : ℕ) (a b : List ℕ) (w i j : ℕ)
    → w ≤ i
    → length a - i + (length b - j) ≤ fuel
    → intersect_loop fuel a b w i j ≡ take w a ++ intersect (drop i a) (drop j b)
intersect_loop-intersect zero a b w i j h k =
    unfold intersect_loop intersect in
    rw (drop-past a i (omega arith)) (sym (append-nil (take w a)))
intersect_loop-intersect (suc fuel) a b w i j h k = elim (Option-cases (get_elem? a i)) [
  | inl e ↦
      rw (round-end_a fuel a b w i j e, drop-none a i e)
        (unfold intersect in sym (append-nil (take w a)))
  | inr (x, e) ↦ elim (Option-cases (get_elem? b j)) [
    | inl f ↦
        rw (round-end_b fuel a b w i j f, drop-none b j f, intersect-nil (drop i a))
          (sym (append-nil (take w a)))
    | inr (y, f) ↦
        let in_a = get-lt-length a i x e in
        let in_b = get-lt-length b j y f in
        let rest_a = drop-some a i x e in
        let rest_b = drop-some b j y f in
        elim (Ordering-cases (compare x y)) [
          | inl c ↦
              round-lt fuel a b w i j x y e f c
              ∙ intersect_loop-intersect fuel a b w (i + 1) j (omega arith) (omega arith)
              ∙ rw (
                drop-add_one i a,
                rest_a,
                rest_b,
                intersect-lt x y (drop (suc i) a) (drop (suc j) b) c,
              )
          | inr (inl c) ↦
              round-eq fuel a b w i j x y e f c
              ∙ intersect_loop-intersect fuel (set a w x) b (w + 1) (i + 1) (j + 1) (omega arith)
                  (omega (arith, length-set a w x))
              ∙ rw
                  (
                    add-one w,
                    take-set a w x (omega arith),
                    drop-add_one i (set a w x),
                    drop-set a w (suc i) x (omega arith),
                    drop-add_one j b,
                    rest_a,
                    rest_b,
                    intersect-eq x y (drop (suc i) a) (drop (suc j) b) c,
                  )
                  (append_assoc (take w a) (x ∷ []) (intersect (drop (suc i) a) (drop (suc j) b)))
          | inr (inr c) ↦
              round-gt fuel a b w i j x y e f c
              ∙ intersect_loop-intersect fuel a b w i (j + 1) (omega arith) (omega arith)
              ∙ rw (
                drop-add_one j b,
                rest_a,
                rest_b,
                intersect-gt x y (drop (suc i) a) (drop (suc j) b) c,
              )
        ]
  ]
]

pub intersect_in_place-intersect : (a b : List ℕ) → intersect_in_place a b ≡ intersect a b
unfolding intersect_in_place
intersect_in_place-intersect a b =
    intersect_loop-intersect (length a + length b) a b 0 0 0 (omega arith) (omega arith)
