-- ===== src/Wal/Reader.antt =====
-- src/storage/wal/reader.rs: the records of the log files, in the order of the files' ids. A file is
-- its bytes; reads of it do not fail.
pub mod Frames
pub mod Recovery
pub mod Crash
pub mod Restart
pub mod Fuel
use rust_tsdb.Prelude.{
  ℕ, zero, suc, ◌+◌, ◌-◌, Bool, true, false, ◌&&◌, Option, none, some, List, [], ◌∷◌, ◌++◌, length,
  take, drop, last?, nat_beq, ltb, if◌then◌else◌, ◌⊎◌, inl, inr,
}
use mathlib.Core.Option
use rust_tsdb.Wal.Record.{
  Bytes, RecordKind, max_record_bytes, from_u8, Corruption, truncated, checksum_mismatch,
  invalid_kind, invalid_length, invalid_payload, RecordHeader, header_decode, record_crc,
  encoded_len, CodecError, WalRecord,
}
use rust_tsdb.Wal.Codec.{decode}
use rust_tsdb.Wal.Codec
use rust_tsdb.Wal.Replay.{ReplaySink, Resolver, ResolveStats, resolver_new, apply, finish}

-- `ReadResult`: the end of the file, a record, or what is wrong.
pub data ReadResult : Type 0 where
  done : ReadResult
  item : RecordKind → Bytes → ReadResult
  corrupt : Corruption → ReadResult

-- `read_full` on the bytes that are left: as many as there are, up to `n`.
unfoldable pub read_full : ℕ → Bytes → Bytes × Bytes
read_full n src = (take n src, drop n src)

module _ (crc32 : Bytes → ℕ) where
  -- The tests behind the header, in their order.
  unfoldable pub read_payload : RecordHeader → Bytes → ReadResult × Bytes
  unfolding read_full
  read_payload header src = elim (from_u8 header.kind) [
    | none ↦ (corrupt (invalid_kind header.kind), src)
    | some kind ↦
        let (payload, rest) = read_full header.len src in
        if ltb max_record_bytes header.len
        then (corrupt (invalid_length header.len), src)
        else if ltb (length payload) header.len
        then (corrupt truncated, rest)
        else if nat_beq (record_crc crc32 header.kind header.len payload) header.crc
        then (item kind payload, rest)
        else (corrupt checksum_mismatch, rest)
  ]

  -- `read_record`: the result, and the bytes behind it.
  unfoldable pub read_record : Bytes → ReadResult × Bytes
  unfolding read_full read_payload
  read_record src =
      let (hdr, rest) = read_full encoded_len src in
      if nat_beq (length hdr) 0
      then (done, rest)
      else if ltb (length hdr) encoded_len
      then (corrupt truncated, rest)
      else read_payload (header_decode hdr) rest

-- `SegmentInfo`: a log file, by the id in its name.
pub record SegmentFile : Type 0 where
  pub id : ℕ
  pub bytes : Bytes

-- `WalError::Corrupt`, and the fuel of the loop below, which no file exhausts.
pub data ReplayError : Type 0 where
  corrupt_at : ℕ → ℕ → Corruption → ReplayError
  out_of_fuel : ReplayError

-- What the loop over one file carries: resolver and sink, the offset, the records so far.
pub record Progress (S : Type 0) : Type 0 where
  pub resolved : Resolver × S
  pub offset : ℕ
  pub records : ℕ

-- How a file ended: at its end, cut off at an offset, or with an error.
pub data FileEnd (S : Type 0) : Type 0 where
  clean : Progress S → FileEnd S
  torn : Progress S → FileEnd S
  failed : ReplayError → FileEnd S

module _ (crc32 : Bytes → ℕ) (utf8 : Bytes → Bool) {S : Type 0} (sink : ReplaySink S) where
  abbrev after_record : ℕ → Bytes → Progress S → WalRecord → Progress S
  after_record id payload p rec = record {
    resolved = apply sink rec p.resolved;
    offset = p.offset + (encoded_len + length payload);
    records = p.records + 1;
  }

  -- The record that `codec::decode` gives, or its error at this place.
  abbrev pub on_decoded :
      (Bytes → Progress S → FileEnd S)
      → ℕ
      → Bytes
      → Bytes
      → Progress S
      → Codec.Result WalRecord
      → FileEnd S
  on_decoded next id payload rest p (Codec.Result.ok rec) =
      next rest (after_record id payload p rec)
  on_decoded next id payload rest p (Codec.Result.err e) =
      failed (corrupt_at id p.offset (invalid_payload e))

  -- The arms of the match; `next` goes on with the loop.
  abbrev pub on_read :
      (Bytes → Progress S → FileEnd S) → ℕ → Bool → Progress S → ReadResult × Bytes → FileEnd S
  on_read next id last p (done, rest) = clean p
  on_read next id last p (item kind payload, rest) =
      on_decoded next id payload rest p (decode utf8 kind payload)
  on_read next id last p (corrupt reason, rest) =
      if last then torn p else failed (corrupt_at id p.offset reason)

  -- `loop { match read_record(&mut r)? { .. } }` over one file; `last` says that it is the last one.
  unfoldable pub replay_file : ℕ → ℕ → Bool → Bytes → Progress S → FileEnd S
  replay_file zero id last src p = failed out_of_fuel
  replay_file (suc fuel) id last src p =
      on_read (replay_file fuel id last) id last p (read_record crc32 src)

pub record RecoveryReport : Type 0 where
  pub segments : ℕ
  pub last_segment : Option ℕ
  pub records : ℕ
  pub truncated : Option (ℕ × ℕ × ℕ)
  pub series : ResolveStats

-- `Result<RecoveryReport, WalError>`, with the sink and the files that a cut leaves behind.
pub data Outcome (S : Type 0) : Type 0 where
  recovered : RecoveryReport → S → List SegmentFile → Outcome S
  stopped : ReplayError → Outcome S

-- What the loop over the files carries.
pub record Pass (S : Type 0) : Type 0 where
  pub resolved : Resolver × S
  pub records : ℕ
  pub cut : Option (ℕ × ℕ × ℕ)
  pub files : List SegmentFile

-- `Some(seg.id) == report.last_segment`
unfoldable pub is_last : ℕ → Option ℕ → Bool
is_last id none = false
is_last id (some n) = nat_beq id n

-- `truncate`: the file keeps the bytes before the offset.
abbrev pub truncate : SegmentFile → ℕ → SegmentFile
truncate f offset = record f { bytes = take offset f.bytes }

module _ (crc32 : Bytes → ℕ) (utf8 : Bytes → Bool) {S : Type 0} (sink : ReplaySink S) where
  -- What `replay` keeps of a file that has been read.
  abbrev pub on_file_end : SegmentFile → Pass S → FileEnd S → Pass S ⊎ ReplayError
  on_file_end f pass (clean p) =
      inl (record pass { resolved = p.resolved; records = p.records; files = pass.files ++ f ∷ [] })
  on_file_end f pass (torn p) = inl (record {
    resolved = p.resolved;
    records = p.records;
    cut = some (f.id, p.offset, length f.bytes - p.offset);
    files = pass.files ++ truncate f p.offset ∷ [];
  })
  on_file_end f pass (failed e) = inr e

  -- One file of `replay`. Every round takes a byte at least, so the fuel is enough.
  unfoldable pub replay_one : Option ℕ → SegmentFile → Pass S → Pass S ⊎ ReplayError
  replay_one last f pass = on_file_end f pass (
      replay_file crc32 utf8 sink (length f.bytes + 1) f.id (is_last f.id last) f.bytes
        (record { resolved = pass.resolved; offset = 0; records = pass.records }))

  abbrev pub on_pass : (Pass S → Pass S ⊎ ReplayError) → Pass S ⊎ ReplayError → Pass S ⊎ ReplayError
  on_pass next (inl pass) = next pass
  on_pass next (inr e) = inr e

  unfoldable pub replay_files : Option ℕ → List SegmentFile → Pass S → Pass S ⊎ ReplayError
  replay_files last [] pass = inl pass
  replay_files last (f ∷ fs) pass = on_pass (replay_files last fs) (replay_one last f pass)

  abbrev pub report_of : List SegmentFile → Pass S ⊎ ReplayError → Outcome S
  report_of segments (inl pass) =
      recovered
        (record {
          segments = length segments;
          last_segment = Option.map (λ f. f.id) (last? segments);
          records = pass.records;
          truncated = pass.cut;
          series = finish pass.resolved.0;
        })
        pass.resolved.1 pass.files
  report_of segments (inr e) = stopped e

  abbrev pub pass_new : S → Pass S
  pass_new s = record { resolved = (resolver_new, s); records = 0; cut = none; files = [] }

  -- `replay`
  unfoldable pub replay : List SegmentFile → S → Outcome S
  replay segments s =
      report_of segments
        (replay_files (Option.map (λ f. f.id) (last? segments)) segments (pass_new s))
