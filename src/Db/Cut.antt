-- ===== src/Db/Cut.antt =====
-- What a cut of the log leaves.
use rust_tsdb.Prelude.{[], some, last?, ℕ, ◌+◌, ◌≡◌, [], concat_map}
use rust_tsdb.Wal.Record.{Bytes}
use rust_tsdb.Wal.Reader.{SegmentFile}
use rust_tsdb.Wal.Flusher.{Log}
use rust_tsdb.Db.Drain.{Settled}

-- The file that a cut closes, and what stands in the files before it.
pub record Cuts (all : Bytes) (r : Log × ℕ) : Type 0 where
  pub settled : Settled all r.0
  pub active_new : r.0.active.bytes ≡ []
  pub active_next : r.0.active.id ≡ r.1 + 1
  pub closed_last : (f : SegmentFile) × (last? r.0.full ≡ some f) × (f.id ≡ r.1)
  pub closed_all : concat_map (λ (f : SegmentFile). f.bytes) r.0.full ≡ all
