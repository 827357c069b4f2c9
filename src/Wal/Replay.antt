-- ===== src/Wal/Replay.antt =====
-- src/storage/wal/replay.rs: records go to a sink under the sink's ids; samples that come before
-- their series wait for it.
pub mod Conserve
use rust_tsdb.Prelude.{ℕ, ◌+◌, none, some, List, [], ◌∷◌, ◌++◌, length}
use rust_tsdb.Prelude.HashMap
use rust_tsdb.Prelude.HashMap.{HashMap}
use rust_tsdb.Prelude.Eq.{nat_eq}
use rust_tsdb.Model.{SeriesId, Sample}
use rust_tsdb.LabelSet.{LabelSet}
use rust_tsdb.Wal.Record.{SeriesEntry, SamplesEntry, WalRecord}

-- `trait ReplaySink`, on a state of type `S`.
pub record ReplaySink (S : Type 0) : Type 0 where
  pub series : S → LabelSet → S × SeriesId
  pub samples : S → SeriesId → List Sample → S

pub record ResolveStats : Type 0 where
  pub late_series : ℕ
  pub unknown_series : ℕ
  pub dropped_samples : ℕ

pub record Resolver : Type 0 where
  pub ids : HashMap SeriesId SeriesId
  pub pending : HashMap SeriesId (List (List Sample))
  pub stats : ResolveStats

-- `Resolver::default`
abbrev pub resolver_new : Resolver
resolver_new = record {
  ids = [];
  pending = [];
  stats = record { late_series = 0; unknown_series = 0; dropped_samples = 0 };
}

module _ {S : Type 0} (sink : ReplaySink S) where
  -- `for samples in parked { sink.samples(sink_id, samples) }`
  unfoldable pub deliver : SeriesId → List (List Sample) → S → S
  deliver id [] s = s
  deliver id (batch ∷ rest) s = deliver id rest (sink.samples s id batch)

  unfoldable pub apply_series : SeriesEntry → Resolver × S → Resolver × S
  apply_series e (r, s) =
      let (s', sink_id) = sink.series s e.labels in
      let ids = HashMap.insert r.ids e.id sink_id in
      elim (HashMap.get r.pending e.id) [
        | none ↦ (record r { ids = ids }, s')
        | some parked ↦ (
          record {
            ids = ids;
            pending = HashMap.remove r.pending e.id;
            stats = record r.stats { late_series = r.stats.late_series + 1 };
          },
          deliver sink_id parked s',
        )
      ]

  unfoldable pub apply_samples : SamplesEntry → Resolver × S → Resolver × S
  apply_samples e (r, s) = elim (HashMap.get r.ids e.id) [
    | some sink_id ↦ (r, sink.samples s sink_id e.samples)
    | none ↦ (record r { pending = HashMap.upsert r.pending e.id [] (λ q. q ++ e.samples ∷ []) }, s)
  ]

  unfoldable pub apply_all_series : List SeriesEntry → Resolver × S → Resolver × S
  apply_all_series [] st = st
  apply_all_series (e ∷ es) st = apply_all_series es (apply_series e st)

  unfoldable pub apply_all_samples : List SamplesEntry → Resolver × S → Resolver × S
  apply_all_samples [] st = st
  apply_all_samples (e ∷ es) st = apply_all_samples es (apply_samples e st)

  -- `Resolver::apply`
  unfoldable pub apply : WalRecord → Resolver × S → Resolver × S
  unfolding apply_all_series apply_all_samples
  apply rec st = apply_all_samples rec.samples (apply_all_series rec.series st)

unfoldable pub count_samples : List (List Sample) → ℕ
count_samples [] = 0
count_samples (b ∷ bs) = length b + count_samples bs

unfoldable pub dropped : HashMap SeriesId (List (List Sample)) → ℕ
unfolding count_samples
dropped [] = 0
dropped ((id, bs) ∷ m) = count_samples bs + dropped m

-- `Resolver::finish`
unfoldable pub finish : Resolver → ResolveStats
unfolding dropped
finish r = record r.stats { unknown_series = length r.pending; dropped_samples = dropped r.pending }
