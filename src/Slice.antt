-- ===== src/Slice.antt =====
-- What the program uses of Rust's slices: `binary_search_by` and `partition_point`, by the
-- bisection of the standard library, and `&s[lo..hi]`.
pub mod Bisect
pub mod Partition
use rust_tsdb.Prelude.{
  ℕ, zero, suc, ◌+◌, ◌-◌, ◌/◌, Bool, true, false, Option, none, some, List, length, get_elem?, take,
  drop, ltb, if◌then◌else◌, Ordering,
}

-- `Result<usize, usize>`: where the element is, or where it would go.
pub data Search : Type 0 where
  found : ℕ → Search
  missing : ℕ → Search

abbrev pub is_gt : Ordering → Bool
is_gt Ordering.gt = true
is_gt Ordering.lt = false
is_gt Ordering.eq = false

-- The comparison at an index. The search reads no index that is out of range.
abbrev pub probe {ℓ} : {A : Type ℓ} → (A → Ordering) → List A → ℕ → Ordering
probe f xs i = elim (get_elem? xs i) [ none ↦ Ordering.gt | some x ↦ f x ]

-- `while size > 1 { .. }`: the base at the end. The fuel is the length.
unfoldable pub bisect : ℕ → (ℕ → Ordering) → ℕ → ℕ → ℕ
bisect zero p base size = base
bisect (suc fuel) p base size =
    let half = size / 2 in
    let rest =
      bisect fuel p (if is_gt (p (base + half)) then base else base + half) (size - half) in
    if ltb 1 size then rest else base

abbrev pub conclude : ℕ → Ordering → Search
conclude b Ordering.eq = found b
conclude b Ordering.lt = missing (b + 1)
conclude b Ordering.gt = missing b

unfoldable pub binary_search_by {ℓ} : {A : Type ℓ} → (A → Ordering) → List A → Search
unfolding bisect
binary_search_by f xs =
    let n = length xs in
    let b = bisect n (probe f xs) 0 n in if ltb 0 n then conclude b (probe f xs b) else missing 0

abbrev pub position : Search → ℕ
position (found i) = i
position (missing i) = i

unfoldable pub partition_point {ℓ} : {A : Type ℓ} → (A → Bool) → List A → ℕ
unfolding binary_search_by
partition_point p xs =
    position (binary_search_by (λ x. if p x then Ordering.lt else Ordering.gt) xs)

-- `&xs[lo..hi]` for `lo <= hi <= xs.len()`
abbrev pub slice {ℓ} : {A : Type ℓ} → List A → ℕ → ℕ → List A
slice xs lo hi = take (hi - lo) (drop lo xs)
