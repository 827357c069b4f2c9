-- ===== src/Series.antt =====
-- src/storage/series.rs: the samples of one series that are not on disk yet, under the series' lock.
pub mod Valid
pub mod Range
pub mod History
use rust_tsdb.Prelude.{
  ℕ, max, Bool, true, false, Option, none, some, List, [], ◌∷◌, ◌++◌, ltb, leb, nat_beq,
  if◌then◌else◌,
}
use rust_tsdb.Slice.{partition_point, slice}
use rust_tsdb.Model.{Sample, TimeRange}

pub record SeriesState : Type 0 where
  pub samples : List Sample
  pub newest : Option ℕ
  pub logged_gen : ℕ

-- `SeriesState::default`
abbrev pub default_state : SeriesState
default_state = record { samples = []; newest = none; logged_gen = 0 }

unfoldable pub accepts : SeriesState → ℕ → Bool
accepts st timestamp = elim st.newest [ none ↦ true | some n ↦ ltb n timestamp ]

unfoldable pub append : SeriesState → Sample → SeriesState × Bool
unfolding accepts
append st s =
    let ok = accepts st s.timestamp in
    if ok
    then (record st { samples = st.samples ++ s ∷ []; newest = some s.timestamp }, ok)
    else (st, ok)

-- `range`: the part of the samples from the first that is not before the start up to the last that
-- is not after the end.
unfoldable pub range : SeriesState → TimeRange → List Sample
range st r =
    let lo = partition_point (λ s. ltb s.timestamp r.start) st.samples in
    let hi = partition_point (λ s. leb s.timestamp r.end) st.samples in
    slice st.samples lo (max hi lo)

unfoldable pub is_logged : SeriesState → ℕ → Bool
is_logged st generation = nat_beq st.logged_gen generation

unfoldable pub mark_logged : SeriesState → ℕ → SeriesState
mark_logged st generation = record st { logged_gen = generation }

-- `std::mem::take` leaves the empty vector.
unfoldable pub take_samples : SeriesState → SeriesState × List Sample
take_samples st = (record st { samples = [] }, st.samples)

unfoldable pub restore_newest : SeriesState → ℕ → SeriesState
restore_newest st newest = elim st.newest [
  | some n ↦ record st { newest = some (max n newest) }
  | none ↦ record st { newest = some newest }
]
