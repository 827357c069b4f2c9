-- ===== src/Slice/Bisect.antt =====
-- The bisection finds what a scan from the front finds, on a slice that is in order.
use rust_tsdb.Prelude.{
  ℕ, zero, suc, ◌+◌, ◌-◌, ◌/◌, ◌≤◌, ◌<◌, ◌≡◌, refl, ap, ◌∙◌, ◌≢◌, inl, inr, true, false, List, [],
  ◌∷◌, length, All, if◌then◌else◌, Ordering, arith, Bool-cases, Ordering-cases, ℕ-cases,
}
use rust_tsdb.Slice.{Search, found, missing, is_gt, probe, bisect, conclude, binary_search_by}

-- All before `k` is not greater, all from `k` on is greater: the loop ends just below `k`.
bisect_lem :
    (p : ℕ → Ordering) (k : ℕ)
    → ((i : ℕ) → i < k → is_gt (p i) ≡ false)
    → ((i : ℕ) → k ≤ i → is_gt (p i) ≡ true)
    → (fuel base size : ℕ) → size ≤ fuel + 1
    → 0 < size
    → base ≤ k - 1
    → k ≤ base + size
    → bisect fuel p base size ≡ k - 1
unfolding bisect
bisect_lem p k below above zero base size hf hs hb hk = omega arith
bisect_lem p k below above (suc fuel) base size hf hs hb hk = ground (
  arith,
  below (base + size / 2),
  above (base + size / 2),
  bisect_lem p k below above fuel base (size - size / 2),
  bisect_lem p k below above fuel (base + size / 2) (size - size / 2),
)

module _ {ℓ} {A : Type ℓ} (f : A → Ordering) where
  -- The comparisons go from `lt` through at most one `eq` to `gt`.
  abbrev pub Ordered : List A → Type ℓ
  Ordered [] = Unit
  Ordered (x ∷ xs) = (f x ≢ Ordering.lt → All (λ y. f y ≡ Ordering.gt) xs) × Ordered xs

  -- The linear search from the front, counting from `i`.
  unfoldable pub scan : ℕ → List A → Search
  scan i [] = missing i
  scan i (x ∷ xs) = elim (f x) [
    | Ordering.lt ↦ scan (i + 1) xs
    | Ordering.eq ↦ found i
    | Ordering.gt ↦ missing i
  ]

  pivot : List A → ℕ
  pivot [] = 0
  pivot (x ∷ xs) = if is_gt (f x) then 0 else suc (pivot xs)

  below_pivot : (xs : List A) (i : ℕ) → i < pivot xs → is_gt (probe f xs i) ≡ false
  unfolding pivot
  below_pivot [] i h = elim h [ ]
  below_pivot (x ∷ xs) zero h = ground arith
  below_pivot (x ∷ xs) (suc i) h = ground (arith, below_pivot xs i)

  All-gt : (xs : List A) (i : ℕ) → All (λ y. f y ≡ Ordering.gt) xs → probe f xs i ≡ Ordering.gt
  All-gt [] i h = refl
  All-gt (x ∷ xs) zero h = h.0
  All-gt (x ∷ xs) (suc i) h = All-gt xs i h.1

  All-gt_pivot : (xs : List A) → All (λ y. f y ≡ Ordering.gt) xs → pivot xs ≡ 0
  unfolding pivot
  All-gt_pivot [] h = refl
  All-gt_pivot (x ∷ xs) h = rw h.0

  above_pivot : (xs : List A) (i : ℕ) → Ordered xs → pivot xs ≤ i → is_gt (probe f xs i) ≡ true
  unfolding pivot
  above_pivot [] i o h = refl
  above_pivot (x ∷ xs) zero o h = ground arith
  above_pivot (x ∷ xs) (suc i) o h = elim (Bool-cases (is_gt (f x))) [
    | inl e ↦ rw (All-gt xs i (o.0 (λ l. ground arith)))
    | inr e ↦ above_pivot xs i o.1 (ground arith)
  ]

  pivot-le-length : (xs : List A) → pivot xs ≤ length xs
  unfolding pivot
  pivot-le-length [] = omega arith
  pivot-le-length (x ∷ xs) = ground (arith, pivot-le-length xs)

  -- The answer when the first greater element is the one at the given index.
  finish : (ℕ → Ordering) → ℕ → ℕ → Search
  finish p j zero = missing j
  finish p j (suc k) = conclude (j + k) (p k)

  finish_lt :
      (x : A) (xs : List A) (j k : ℕ)
      → f x ≡ Ordering.lt
      → finish (probe f xs) (j + 1) k ≡ conclude (j + k) (probe f (x ∷ xs) k)
  unfolding finish
  finish_lt x xs j zero e = rw e (ap missing (omega arith))
  finish_lt x xs j (suc k) e = ap (λ n. conclude n (probe f xs k)) (omega arith)

  scan-finish : (xs : List A) (j : ℕ) → Ordered xs → scan j xs ≡ finish (probe f xs) j (pivot xs)
  unfolding scan pivot finish
  scan-finish [] j o = refl
  scan-finish (x ∷ xs) j o = elim (Ordering-cases (f x)) [
    | inl l ↦ rw (l, scan) (scan-finish xs (j + 1) o.1 ∙ finish_lt x xs j (pivot xs) l)
    | inr (inl e) ↦ ground (arith, All-gt_pivot xs (o.0 (λ l. ground arith)))
    | inr (inr g) ↦ ground arith
  ]

  bisect-pivot :
      (xs : List A)
      → Ordered xs
      → 0 < length xs
      → bisect (length xs) (probe f xs) 0 (length xs) ≡ pivot xs - 1
  bisect-pivot xs o h =
      bisect_lem (probe f xs) (pivot xs) (below_pivot xs) (λ i. above_pivot xs i o) (length xs) 0
        (length xs) (omega arith) h (omega arith) (omega (arith, pivot-le-length xs))

  conclude-pivot :
      (xs : List A)
      → Ordered xs
      → 0 < length xs
      → conclude (pivot xs - 1) (probe f xs (pivot xs - 1)) ≡ finish (probe f xs) 0 (pivot xs)
  unfolding finish
  conclude-pivot xs o h = elim (ℕ-cases (pivot xs)) [
    | inl z ↦ ground (arith, above_pivot xs 0 o)
    | inr (k, e) ↦ rw e (ground arith)
  ]

  -- On a slice in order the bisection is the linear search.
  pub binary_search_by-scan : (xs : List A) → Ordered xs → binary_search_by f xs ≡ scan 0 xs
  unfolding binary_search_by
  binary_search_by-scan [] o = unfold scan in refl
  binary_search_by-scan (x ∷ xs) o = ground (
    arith,
    bisect-pivot (x ∷ xs) o (omega arith),
    conclude-pivot (x ∷ xs) o (omega arith),
    scan-finish (x ∷ xs) 0 o,
  )
