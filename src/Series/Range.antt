-- ===== src/Series/Range.antt =====
-- `range` answers with the samples that lie in the time range.
use rust_tsdb.Prelude.{
  ℕ, ◌-◌, ◌<◌, ◌≡◌, refl, ap, ◌∙◌, sym, Bool, false, not, List, [], ◌∷◌, All, keep, take, drop, ltb,
  leb, max, arith,
}
use rust_tsdb.Slice.{partition_point}
use rust_tsdb.Slice.Partition.{
  Splits, take-partition_point, drop-partition_point, drop-Splits, partition_point-drop,
}
use rust_tsdb.Model.{Sample, TimeRange, in_timerange}
use rust_tsdb.Series.{SeriesState, range}
use rust_tsdb.Series.Valid.{Ascending, IsValid}

before : TimeRange → Sample → Bool
before r s = ltb s.timestamp r.start

until : TimeRange → Sample → Bool
until r s = leb s.timestamp r.end

later_not_before :
    (r : TimeRange) (t : ℕ) (xs : List Sample)
    → All (λ (y : Sample). t < y.timestamp) xs
    → ltb t r.start ≡ false
    → All (λ y. before r y ≡ false) xs
unfolding before
later_not_before r t [] h e = tt
later_not_before r t (x ∷ xs) h e = (ground arith, later_not_before r t xs h.1 e)

later_not_until :
    (r : TimeRange) (t : ℕ) (xs : List Sample)
    → All (λ (y : Sample). t < y.timestamp) xs
    → leb t r.end ≡ false
    → All (λ y. until r y ≡ false) xs
unfolding until
later_not_until r t [] h e = tt
later_not_until r t (x ∷ xs) h e = (ground arith, later_not_until r t xs h.1 e)

before-Splits : (r : TimeRange) (xs : List Sample) → Ascending xs → Splits (before r) xs
before-Splits r [] a = tt
before-Splits r (x ∷ xs) a =
    (λ e. later_not_before r x.timestamp xs a.0 (unfold before in e), before-Splits r xs a.1)

until-Splits : (r : TimeRange) (xs : List Sample) → Ascending xs → Splits (until r) xs
until-Splits r [] a = tt
until-Splits r (x ∷ xs) a =
    (λ e. later_not_until r x.timestamp xs a.0 (unfold until in e), until-Splits r xs a.1)

keep-keep :
    (r : TimeRange) (xs : List Sample)
    → keep (until r) (keep (λ x. not (before r x)) xs) ≡ keep (in_timerange r) xs
unfolding before until in_timerange
keep-keep r [] = refl
keep-keep r (x ∷ xs) = ground (arith, keep-keep r xs)

gap : (hi lo : ℕ) → max hi lo - lo ≡ hi - lo
gap hi lo = omega arith

-- In a valid state `range` is exactly the samples that `in_timerange` accepts, in their order; a
-- range that ends before it starts has none.
pub range-keep :
    (st : SeriesState) (r : TimeRange) → IsValid st → range st r ≡ keep (in_timerange r) st.samples
unfolding range before until
range-keep st r v =
    let xs = st.samples in
    let lo = partition_point (before r) xs in
    let hi = partition_point (until r) xs in
    let sb = before-Splits r xs v.ascending in
    let su = until-Splits r xs v.ascending in
    ap (λ n. take n (drop lo xs)) (gap hi lo ∙ sym (partition_point-drop (until r) lo xs su))
    ∙ take-partition_point (until r) (drop lo xs) (drop-Splits (until r) lo xs su)
    ∙ ap (keep (until r)) (drop-partition_point (before r) xs sb)
    ∙ keep-keep r xs
