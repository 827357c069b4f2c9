-- ===== src/Slice/Partition.antt =====
-- `partition_point` splits a slice whose elements that pass come first.
use rust_tsdb.Prelude.{
  zero, ℕ, suc, ◌+◌, ◌-◌, ◌≤◌, ◌≡◌, refl, ap, sym, inl, inr, Bool, false, List, [], ◌∷◌, length,
  All, keep, take, drop, not, if◌then◌else◌, Ordering, arith, Bool-cases,
}
use rust_tsdb.Slice.{missing, partition_point}
use rust_tsdb.Slice.Bisect.{Ordered, scan, binary_search_by-scan}

module _ {ℓ} {A : Type ℓ} (p : A → Bool) where
  -- The elements that pass come first.
  abbrev pub Splits : List A → Type ℓ
  Splits [] = Unit
  Splits (x ∷ xs) = (p x ≡ false → All (λ y. p y ≡ false) xs) × Splits xs

  -- The number of elements at the front that pass.
  front : List A → ℕ
  front [] = 0
  front (x ∷ xs) = if p x then suc (front xs) else 0

  abbrev side : A → Ordering
  side x = if p x then Ordering.lt else Ordering.gt

  side-All : (xs : List A) → All (λ y. p y ≡ false) xs → All (λ y. side y ≡ Ordering.gt) xs
  side-All [] h = tt
  side-All (x ∷ xs) h = (rw h.0, side-All xs h.1)

  side-Ordered : (xs : List A) → Splits xs → Ordered side xs
  side-Ordered [] h = tt
  side-Ordered (x ∷ xs) h = (λ ne. side-All xs (h.0 (ground arith)), side-Ordered xs h.1)

  scan-front : (i : ℕ) (xs : List A) → scan side i xs ≡ missing (i + front xs)
  unfolding scan front
  scan-front i [] = ap missing (omega arith)
  scan-front i (x ∷ xs) = ground (arith, scan-front (i + 1) xs)

  partition_point-front : (xs : List A) → Splits xs → partition_point p xs ≡ front xs
  unfolding partition_point
  partition_point-front xs h =
      ground (arith, binary_search_by-scan side xs (side-Ordered xs h), scan-front 0 xs)

  none_pass : (xs : List A) → All (λ y. p y ≡ false) xs → keep p xs ≡ []
  none_pass [] h = refl
  none_pass (x ∷ xs) h = rw h.0 (none_pass xs h.1)

  All-fail : (xs : List A) → All (λ y. p y ≡ false) xs → keep (λ x. not (p x)) xs ≡ xs
  All-fail [] h = refl
  All-fail (x ∷ xs) h = rw h.0 (ap (λ t. x ∷ t) (All-fail xs h.1))

  take-front : (xs : List A) → Splits xs → take (front xs) xs ≡ keep p xs
  unfolding front
  take-front [] h = refl
  take-front (x ∷ xs) h = elim (Bool-cases (p x)) [
    | inl e ↦ rw e (ap (λ t. x ∷ t) (take-front xs h.1))
    | inr e ↦ rw e (sym (none_pass xs (h.0 e)))
  ]

  drop-front : (xs : List A) → Splits xs → drop (front xs) xs ≡ keep (λ x. not (p x)) xs
  unfolding front
  drop-front [] h = refl
  drop-front (x ∷ xs) h = elim (Bool-cases (p x)) [
    | inl e ↦ rw e (drop-front xs h.1)
    | inr e ↦ rw e (ap (λ t. x ∷ t) (sym (All-fail xs (h.0 e))))
  ]

  front-le-length : (xs : List A) → front xs ≤ length xs
  unfolding front
  front-le-length [] = omega arith
  front-le-length (x ∷ xs) = ground (arith, front-le-length xs)

  pub take-partition_point : (xs : List A) → Splits xs → take (partition_point p xs) xs ≡ keep p xs
  take-partition_point xs h = rw (partition_point-front xs h) (take-front xs h)

  pub drop-partition_point :
      (xs : List A) → Splits xs → drop (partition_point p xs) xs ≡ keep (λ x. not (p x)) xs
  drop-partition_point xs h = rw (partition_point-front xs h) (drop-front xs h)

  pub partition_point-le-length : (xs : List A) → Splits xs → partition_point p xs ≤ length xs
  partition_point-le-length xs h = rw (partition_point-front xs h) (front-le-length xs)

  drop-fails :
      (n : ℕ) (xs : List A) → All (λ y. p y ≡ false) xs → All (λ y. p y ≡ false) (drop n xs)
  drop-fails zero xs h = h
  drop-fails (suc n) [] h = tt
  drop-fails (suc n) (x ∷ xs) h = drop-fails n xs h.1

  pub drop-Splits : (n : ℕ) (xs : List A) → Splits xs → Splits (drop n xs)
  drop-Splits zero xs h = h
  drop-Splits (suc n) [] h = tt
  drop-Splits (suc n) (x ∷ xs) h = drop-Splits n xs h.1

  front-fails : (xs : List A) → All (λ y. p y ≡ false) xs → front xs ≡ 0
  unfolding front
  front-fails [] h = refl
  front-fails (x ∷ xs) h = rw h.0

  front-drop : (n : ℕ) (xs : List A) → Splits xs → front (drop n xs) ≡ front xs - n
  unfolding front
  front-drop zero xs h = omega arith
  front-drop (suc n) [] h = omega arith
  front-drop (suc n) (x ∷ xs) h = elim (Bool-cases (p x)) [
    | inl e ↦ rw e (omega (arith, front-drop n xs h.1))
    | inr e ↦ rw e (omega (arith, front-fails (drop n xs) (drop-fails n xs (h.0 e))))
  ]

  pub partition_point-drop :
      (n : ℕ) (xs : List A) → Splits xs → partition_point p (drop n xs) ≡ partition_point p xs - n
  partition_point-drop n xs h =
      rw (partition_point-front xs h, partition_point-front (drop n xs) (drop-Splits n xs h))
        (front-drop n xs h)
