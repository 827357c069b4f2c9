-- ===== src/Wal/Record.antt =====
-- src/storage/wal/record.rs and error.rs: the header of a record, its payload's parts, and the
-- errors. A byte is a number below 256. The checksum of `crc32fast` is the parameter `crc32`.
use rust_tsdb.Prelude.{
  ℕ, zero, suc, ◌+◌, ◌*◌, ◌/◌, ◌%◌, ◌^◌, Option, none, some, List, [], ◌∷◌, ◌++◌, length, nat_beq,
  take, drop, if◌then◌else◌,
}
use rust_tsdb.Model.{SeriesId, Sample}
use rust_tsdb.LabelSet.{LabelSet}

abbrev pub Bytes : Type 0
Bytes = List ℕ

-- `MAX_RECORD_BYTES`
abbrev pub max_record_bytes : ℕ
max_record_bytes = 64 * 1024 * 1024

pub data RecordKind : Type 0 where
  write : RecordKind

-- `kind as u8`
abbrev pub kind_u8 : RecordKind → ℕ
kind_u8 write = 0

-- `RecordKind::from_u8`
unfoldable pub from_u8 : ℕ → Option RecordKind
from_u8 v = if nat_beq v 0 then some write else none

pub data CodecError : Type 0 where
  unexpected_eof bad_utf8 trailing_bytes : CodecError

pub data Corruption : Type 0 where
  truncated checksum_mismatch : Corruption
  invalid_kind invalid_length : ℕ → Corruption
  invalid_payload : CodecError → Corruption

-- `{u32,u64}::to_le_bytes`: the `n` lowest bytes, lowest first.
unfoldable pub to_le_bytes : ℕ → ℕ → Bytes
to_le_bytes zero v = []
to_le_bytes (suc n) v = (v % 256) ∷ to_le_bytes n (v / 256)

unfoldable pub from_le_bytes : Bytes → ℕ
from_le_bytes [] = 0
from_le_bytes (b ∷ bs) = b + 256 * from_le_bytes bs

pub record RecordHeader : Type 0 where
  pub len : ℕ
  pub crc : ℕ
  pub kind : ℕ

-- `RecordHeader::ENCODED_LEN`
abbrev pub encoded_len : ℕ
encoded_len = 4 + 4 + 1

-- `RecordHeader::encode`
unfoldable pub header_encode : RecordHeader → Bytes
unfolding to_le_bytes
header_encode h = to_le_bytes 4 h.len ++ to_le_bytes 4 h.crc ++ h.kind ∷ []

-- `bytes[8]`; the array has nine bytes.
abbrev pub byte_or_zero : Bytes → ℕ
byte_or_zero [] = 0
byte_or_zero (b ∷ bs) = b

-- `RecordHeader::decode`
unfoldable pub header_decode : Bytes → RecordHeader
unfolding from_le_bytes
header_decode bytes = record {
  len = from_le_bytes (take 4 bytes);
  crc = from_le_bytes (take 4 (drop 4 bytes));
  kind = byte_or_zero (drop 8 bytes);
}

-- `record_crc`; the hasher is fed the three parts one after the other.
unfoldable pub record_crc : (Bytes → ℕ) → ℕ → ℕ → Bytes → ℕ
unfolding to_le_bytes
record_crc crc32 kind len payload = crc32 (kind ∷ to_le_bytes 4 len ++ payload)

-- `RecordHeader::for_payload`; `payload.len() as u32` wraps.
unfoldable pub for_payload : (Bytes → ℕ) → RecordKind → Bytes → RecordHeader
unfolding record_crc
for_payload crc32 kind payload =
    let len = length payload % 2 ^ 32 in
    record { len = len; crc = record_crc crc32 (kind_u8 kind) len payload; kind = kind_u8 kind }

pub record SeriesEntry : Type 0 where
  pub id : SeriesId
  pub labels : LabelSet

pub record SamplesEntry : Type 0 where
  pub id : SeriesId
  pub samples : List Sample

pub record WalRecord : Type 0 where
  pub series : List SeriesEntry
  pub samples : List SamplesEntry
