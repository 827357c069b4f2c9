-- ===== src/Wal/Flusher.antt =====
-- src/storage/wal/flusher.rs: the thread that moves the buffer to the active file. Between two of
-- its steps any number of appends may happen. A failed write or sync aborts the process, so that the
-- steps end there.
pub mod Durable
pub mod Published
pub mod Acked
pub mod Removal
pub mod Loop
use rust_tsdb.Prelude.{
  ℕ, ◌+◌, Bool, true, false, Option, none, some, List, [], ◌∷◌, ◌++◌, length, leb, if◌then◌else◌,
}
use rust_tsdb.Wal.Record.{Bytes, WalRecord}
use rust_tsdb.Wal.Reader.{SegmentFile}
use rust_tsdb.Wal.Writer.{
  Lsn, Inner, buffer_new, buffer_take, buffer_close, publish_written, append_with,
}

-- The settings of `WalConfig` that the flusher and the buffer read.
pub record WalConfig : Type 0 where
  pub segment_max_bytes : ℕ
  pub flush_threshold : ℕ

-- Where the flusher stands in `flush_loop` and `write_batch`: it is about to `take`, `take` gave it
-- nothing, it holds a batch, or it has written one and not yet published it.
pub data Phase : Type 0 where
  idle found_nothing : Phase
  holding : Bytes → Lsn → Phase
  wrote : Lsn → Phase

pub record Log : Type 0 where
  pub inner : Inner
  pub written : Lsn
  pub phase : Phase
  pub full : List SegmentFile
  pub active : SegmentFile

-- `Wal::open`, on a directory whose next file has this id.
abbrev pub opened : ℕ → Log
opened id = record {
  inner = buffer_new;
  written = 0;
  phase = idle;
  full = [];
  active = record { id = id; bytes = [] };
}

-- `rotate`: the active file is left as it is, and the next one is created.
unfoldable pub rotate : Log → Log
rotate l = record l {
  full = l.full ++ l.active ∷ [];
  active = record { id = l.active.id + 1; bytes = [] };
}

unfoldable pub rotate_if_full : WalConfig → Log → Log
unfolding rotate
rotate_if_full cfg l = if leb cfg.segment_max_bytes (length l.active.bytes) then rotate l else l

-- `ActiveSegment::write`
unfoldable pub segment_write : SegmentFile → Bytes → SegmentFile
segment_write f bytes = record f { bytes = f.bytes ++ bytes }

-- `shared.buffer.take(&mut spare)` of the loop; `spare` is empty between two batches.
abbrev pub on_take : Log → Option Lsn × Inner × Bytes → Log
on_take l (none, g, spare) = record l { inner = g; phase = found_nothing }
on_take l (some end, g, spare) = record l { inner = g; phase = holding spare end }

unfoldable pub take_batch : Log → Phase → Log
unfolding buffer_take
take_batch l idle = on_take l (buffer_take l.inner [])
take_batch l found_nothing = on_take l (buffer_take l.inner [])
take_batch l (holding spare end) = l
take_batch l (wrote end) = l

-- The first half of `write_batch`: rotate a full file, and write the batch.
unfoldable pub write_batch : WalConfig → Log → Phase → Log
unfolding rotate_if_full segment_write
write_batch cfg l idle = l
write_batch cfg l found_nothing = l
write_batch cfg l (holding spare end) =
    let m = rotate_if_full cfg l in
    record m { active = segment_write m.active spare; phase = wrote end }
write_batch cfg l (wrote end) = l

-- The second half: publish the batch's end.
unfoldable pub publish : Log → Phase → Log
unfolding publish_written
publish l idle = l
publish l found_nothing = l
publish l (holding spare end) = l
publish l (wrote end) = record l { written = publish_written l.written end; phase = idle }

-- The flusher serves a cut once `take` has found nothing: it rotates.
unfoldable pub cut : Log → Phase → Log
unfolding rotate
cut l idle = l
cut l found_nothing = record (rotate l) { phase = idle }
cut l (holding spare end) = l
cut l (wrote end) = l

-- What may happen next. A step that the flusher's place does not allow changes nothing.
pub data Event : Type 0 where
  appending : WalRecord → Event
  taking writing publishing cutting closing : Event

unfoldable pub happen : (Bytes → ℕ) → WalConfig → Log → Event → Log
unfolding append_with take_batch write_batch publish cut buffer_close
happen crc32 cfg l (appending rec) = record l {
  inner = (append_with crc32 cfg.flush_threshold rec l.inner).1;
}
happen crc32 cfg l taking = take_batch l l.phase
happen crc32 cfg l writing = write_batch cfg l l.phase
happen crc32 cfg l publishing = publish l l.phase
happen crc32 cfg l cutting = cut l l.phase
happen crc32 cfg l closing = record l { inner = buffer_close l.inner }

unfoldable pub run : (Bytes → ℕ) → WalConfig → Log → List Event → Log
unfolding happen
run crc32 cfg l [] = l
run crc32 cfg l (e ∷ es) = run crc32 cfg (happen crc32 cfg l e) es
