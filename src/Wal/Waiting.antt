-- ===== src/Wal/Waiting.antt =====
-- src/storage/wal/lsn.rs and writer.rs: what a writer waits for, and how far the files are behind.
use rust_tsdb.Prelude.{ℕ, ◌-◌, Bool, true, false, ◌||◌, Option, none, some, leb, ltb, if◌then◌else◌}
use rust_tsdb.Wal.Writer.{Lsn}

-- `Durability`; its `None` is `unwaited` here.
pub data Durability : Type 0 where
  unwaited written : Durability

abbrev pub is_unwaited : Durability → Bool
is_unwaited unwaited = true
is_unwaited written = false

-- `Progress::wait`: whether it returns while this position is the published one.
unfoldable pub wait_returns : Durability → Lsn → Lsn → Bool
wait_returns level lsn published = is_unwaited level || leb lsn published

-- `WalWriter::backlog_bytes`, of the two positions that it reads one after the other; `none` is the
-- subtraction that goes below 0.
unfoldable pub backlog_bytes : Lsn → Lsn → Option ℕ
backlog_bytes end published = if ltb end published then none else some (end - published)
