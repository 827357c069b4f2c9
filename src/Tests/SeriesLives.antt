-- ===== src/Tests/SeriesLives.antt =====
-- A series at concrete inputs.
use rust_tsdb.Prelude.{◌≡◌, List, [], ◌∷◌, keep}
use rust_tsdb.Model.{Sample, TimeRange, in_timerange}
use rust_tsdb.Series.{SeriesState, default_state, append, range}
use rust_tsdb.Series.Valid.{Ascending, IsValid, append-IsValid, default_state-IsValid}
use rust_tsdb.Series.Range.{range-keep}
use rust_tsdb.Series.History.{
  Op, write, flush, restore, live, born, accepted, unflushed, live-Ascending, live-unflushed,
}

abbrev early : Sample
early = record { timestamp = 10; value = 1 }

abbrev later : Sample
later = record { timestamp = 20; value = 2 }

abbrev two_samples : SeriesState
two_samples = (append (append default_state early).0 later).0

two_samples-IsValid : IsValid two_samples
two_samples-IsValid =
    append-IsValid (append default_state early).0 later
      (append-IsValid default_state early default_state-IsValid)

abbrev around_later : TimeRange
around_later = record { start = 15; end = 30 }

range-keep_example :
    range two_samples around_later ≡ keep (in_timerange around_later) two_samples.samples
range-keep_example = range-keep two_samples around_later two_samples-IsValid

abbrev some_ops : List Op
some_ops = write early ∷ flush ∷ write early ∷ write later ∷ restore 15 ∷ []

live-Ascending_example : Ascending (accepted (live born some_ops))
live-Ascending_example = live-Ascending some_ops

live-unflushed_example :
    accepted (live born some_ops) ≡ (live born (unflushed some_ops)).state.samples
live-unflushed_example = live-unflushed some_ops
