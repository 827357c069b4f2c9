-- ===== src/Wal/Writer.antt =====
-- src/storage/wal/buffer.rs, lsn.rs and writer.rs: records on their way to the flusher, and the
-- positions in the log. Each operation runs under the buffer's lock, so it is one step on `Inner`.
use rust_tsdb.Prelude.{
  ℕ, ◌+◌, ◌%◌, ◌^◌, Bool, true, false, ◌&&◌, Option, none, some, [], ◌++◌, ◌⊎◌, inl, inr, length,
  ltb, leb, is_empty, if◌then◌else◌,
}
use rust_tsdb.Wal.Record.{Bytes, max_record_bytes, WalRecord}
use rust_tsdb.Wal.Codec.{encode_record}

-- `Lsn(pub u64)`
abbrev pub Lsn : Type 0
Lsn = ℕ

-- The errors of an append, and those of the system's calls; the others of `WalError` are about what files hold.
pub data WalError : Type 0 where
  record_too_large : ℕ → WalError
  log_closed log_io : WalError

pub record Inner : Type 0 where
  pub buf : Bytes
  pub end : Lsn
  pub closed : Bool

pub record Appended : Type 0 where
  pub lsn : Lsn
  pub crossed_threshold : Bool

-- `WalBuffer::new`
abbrev pub buffer_new : Inner
buffer_new = record { buf = []; end = 0; closed = false }

-- `WalBuffer::append` with its `flush_threshold`.
unfoldable pub buffer_append : ℕ → Bytes → Inner → (Appended ⊎ WalError) × Inner
buffer_append threshold bytes g = if g.closed then (inr log_closed, g) else (
  inl (record {
    lsn = (g.end + length bytes) % 2 ^ 64;
    crossed_threshold = ltb (length g.buf) threshold && leb threshold (length (g.buf ++ bytes));
  }),
  record g { buf = g.buf ++ bytes; end = (g.end + length bytes) % 2 ^ 64 },
)

-- `WalBuffer::take`: the buffer and `spare` change places.
unfoldable pub buffer_take : Inner → Bytes → Option Lsn × Inner × Bytes
buffer_take g spare =
    if is_empty g.buf then (none, g, spare) else (some g.end, record g { buf = spare }, g.buf)

-- `WalBuffer::close`
unfoldable pub buffer_close : Inner → Inner
buffer_close g = record g { closed = true }

-- `advance`: a position only goes up.
unfoldable pub advance : Lsn → Lsn → Lsn × Bool
advance cur to = if ltb cur to then (to, true) else (cur, false)

-- `Progress::publish_written`
unfoldable pub publish_written : Lsn → Lsn → Lsn
unfolding advance
publish_written written lsn = (advance written lsn).0

abbrev pub lsn_of : Appended ⊎ WalError → Lsn ⊎ WalError
lsn_of (inl a) = inl a.lsn
lsn_of (inr e) = inr e

-- `WalWriter::append`, with `append_with`.
unfoldable pub append_with : (Bytes → ℕ) → ℕ → WalRecord → Inner → (Lsn ⊎ WalError) × Inner
unfolding buffer_append
append_with crc32 threshold rec g =
    let f = encode_record crc32 rec in
    if f.empty
    then (inl g.end, g)
    else if ltb max_record_bytes f.payload_len
    then (inr (record_too_large f.payload_len), g)
    else let r = buffer_append threshold f.out g in (lsn_of r.0, r.1)
