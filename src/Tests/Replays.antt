-- ===== src/Tests/Replays.antt =====
-- The resolver at a concrete input: samples before their series, and samples without one.
use rust_tsdb.Prelude.{ℕ, ◌+◌, ◌≡◌, ◌≢◌, true, arith, refl, List, [], ◌∷◌, length}
use rust_tsdb.Wal.Record.{WalRecord}
use rust_tsdb.Wal.Replay.{ReplaySink, resolver_new, finish}
use rust_tsdb.Wal.Reader.{Progress, failed, out_of_fuel, replay_file}
use rust_tsdb.Wal.Reader.Fuel.{replay_file-enough}
use rust_tsdb.Tests.Logs.{check_sum, ascii}
use rust_tsdb.Wal.Replay.Conserve.{Keeps, total_of, handed, finish-handed}

abbrev gathering : ReplaySink ℕ
gathering = record { series = λ n labels. (n, 0); samples = λ n id b. n + length b }

gathering-Keeps : Keeps gathering (λ n. n)
gathering-Keeps = record { series_size = λ s labels. refl; samples_size = λ s id b. refl }

abbrev mixed : List WalRecord
mixed =
    record {
      series = [];
      samples =
          record { id = 1; samples = record { timestamp = 5; value = 1 } ∷ [] }
          ∷ record { id = 2; samples = record { timestamp = 6; value = 1 } ∷ [] }
          ∷ [];
    }
    ∷ record { series = record { id = 1; labels = record { labels = [] } } ∷ []; samples = [] }
    ∷ []

finish-handed_example :
    (handed gathering mixed (resolver_new, 0)).1
      + (finish (handed gathering mixed (resolver_new, 0)).0).dropped_samples
    ≡ 0 + total_of mixed
finish-handed_example = finish-handed gathering (λ n. n) gathering-Keeps mixed 0

abbrev at_start : Progress ℕ
at_start = record { resolved = (resolver_new, 0); offset = 0; records = 0 }

replay_file-enough_example :
    replay_file check_sum ascii gathering 3 1 true (7 ∷ 8 ∷ []) at_start ≢ failed out_of_fuel
replay_file-enough_example =
    replay_file-enough check_sum ascii gathering 3 1 true (7 ∷ 8 ∷ []) at_start (omega arith)
