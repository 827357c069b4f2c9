-- ===== src/Wal/Codec.antt =====
-- src/storage/wal/codec.rs: records to bytes and back. `std::str::from_utf8` is the parameter `utf8`.
pub mod Reads
pub mod Words
pub mod Parts
pub mod Encode
pub mod RoundTrip
use rust_tsdb.Prelude.{
  ℕ, zero, suc, ◌+◌, ◌-◌, ◌*◌, ◌/◌, ◌%◌, ◌^◌, min, Bool, true, false, ◌&&◌, Option, none, some,
  List, [], ◌∷◌, ◌++◌, length, take, drop, is_empty, nat_beq, ltb, leb, if◌then◌else◌,
}
use rust_tsdb.Prelude.Bytes.{Str}
use rust_tsdb.Model.{SeriesId, Sample, Label}
use rust_tsdb.LabelSet
use rust_tsdb.LabelSet.{LabelSet}
use rust_tsdb.Wal.Record.{
  Bytes, RecordKind, write, CodecError, unexpected_eof, bad_utf8, trailing_bytes, to_le_bytes,
  from_le_bytes, header_encode, for_payload, encoded_len, SeriesEntry, SamplesEntry, WalRecord,
}

-- `SAMPLE_ENCODED_LEN`, `COUNTS_LEN`
abbrev pub sample_encoded_len : ℕ
sample_encoded_len = 8 + 8

abbrev pub counts_len : ℕ
counts_len = 4 + 4

-- Encoding: each of these appends to `out`.

unfoldable pub put_u32 : Bytes → ℕ → Bytes
put_u32 out v = out ++ to_le_bytes 4 v

unfoldable pub put_u64 : Bytes → ℕ → Bytes
put_u64 out v = out ++ to_le_bytes 8 v

-- The eight bytes of an `f64` are those of its bit pattern.
unfoldable pub put_f64 : Bytes → ℕ → Bytes
put_f64 out v = out ++ to_le_bytes 8 v

-- `b.len() as u32` wraps.
unfoldable pub put_bytes : Bytes → Str → Bytes
unfolding put_u32
put_bytes out b = put_u32 out (length b % 2 ^ 32) ++ b

unfoldable pub put_labels : Bytes → List (Str × Str) → Bytes
put_labels out [] = out
put_labels out ((name, value) ∷ ls) = put_labels (put_bytes (put_bytes out name) value) ls

-- `LabelSet::encode`
unfoldable pub label_set_encode : LabelSet → Bytes → Bytes
unfolding put_labels
label_set_encode s out = put_labels (put_u32 out (LabelSet.len s % 2 ^ 32)) (LabelSet.into_iter s)

pub record RecordEncoder : Type 0 where
  pub out : Bytes
  pub series : ℕ
  pub samples : ℕ

abbrev pub zeros : ℕ → Bytes
zeros zero = []
zeros (suc n) = 0 ∷ zeros n

-- `RecordEncoder::new`: the buffer is cleared, and the header and the counts are left for `finish`.
abbrev pub encoder_new : RecordEncoder
encoder_new = record { out = zeros (encoded_len + counts_len); series = 0; samples = 0 }

-- `RecordEncoder::series`; the count is a `u32`.
unfoldable pub encoder_series : RecordEncoder → SeriesId → LabelSet → RecordEncoder
encoder_series e id labels = record e {
  series = (e.series + 1) % 2 ^ 32;
  out = label_set_encode labels (put_u64 e.out id);
}

unfoldable pub put_samples : Bytes → List Sample → Bytes
put_samples out [] = out
put_samples out (s ∷ ss) = put_samples (put_f64 (put_u64 out s.timestamp) s.value) ss

-- `RecordEncoder::samples`; an entry with no samples is left out.
unfoldable pub encoder_samples : RecordEncoder → SeriesId → List Sample → RecordEncoder
unfolding put_samples
encoder_samples e id samples = if is_empty samples then e else record e {
  samples = (e.samples + 1) % 2 ^ 32;
  out = put_samples (put_u32 (put_u64 e.out id) (length samples % 2 ^ 32)) samples;
}

-- `out[i..i + bytes.len()].copy_from_slice(bytes)`
abbrev pub copy_at : ℕ → Bytes → Bytes → Bytes
copy_at i bytes out = take i out ++ bytes ++ drop (i + length bytes) out

pub record Finished : Type 0 where
  pub out : Bytes
  pub empty : Bool
  pub payload_len : ℕ

-- `RecordEncoder::finish`: the counts go in first, then the header with their checksum.
unfoldable pub encoder_finish : (Bytes → ℕ) → RecordEncoder → Finished
encoder_finish crc32 e =
    let h = encoded_len in
    let counted =
      copy_at (h + 4) (to_le_bytes 4 e.samples) (copy_at h (to_le_bytes 4 e.series) e.out) in
    let header = for_payload crc32 write (drop h counted) in
    record {
      out = copy_at 0 (header_encode header) counted;
      empty = nat_beq e.series 0 && nat_beq e.samples 0;
      payload_len = length counted - h;
    }

-- The closure of `WalWriter::append`, in writer.rs: all series, then all samples.
unfoldable pub encode_series : List SeriesEntry → RecordEncoder → RecordEncoder
encode_series [] enc = enc
encode_series (e ∷ es) enc = encode_series es (encoder_series enc e.id e.labels)

unfoldable pub encode_samples : List SamplesEntry → RecordEncoder → RecordEncoder
encode_samples [] enc = enc
encode_samples (e ∷ es) enc = encode_samples es (encoder_samples enc e.id e.samples)

unfoldable pub fill : WalRecord → RecordEncoder → RecordEncoder
unfolding encode_series encode_samples
fill rec enc = encode_samples rec.samples (encode_series rec.series enc)

-- The encoder from `new` to `finish`, as `append_with` drives it.
unfoldable pub encode_record : (Bytes → ℕ) → WalRecord → Finished
unfolding fill encoder_finish
encode_record crc32 rec = encoder_finish crc32 (fill rec encoder_new)

-- Decoding.

pub data Result {ℓ} (A : Type ℓ) : Type ℓ where
  ok : A → Result A
  err : CodecError → Result A

pub record Reader : Type 0 where
  pub buf : Bytes
  pub pos : ℕ

-- A read moves the position, or fails.
abbrev pub Read {ℓ} : Type ℓ → Type ℓ
Read A = Reader → Result (A × Reader)

abbrev pub continue {ℓ κ} :
    {A : Type ℓ} {B : Type κ} → Result (A × Reader) → (A → Read B) → Result (B × Reader)
continue (ok (a, r)) f = f a r
continue (err e) f = err e

infixl 5 ◌>>=◌ ◌>>◌
unfoldable pub ◌>>=◌ {ℓ κ} : {A : Type ℓ} {B : Type κ} → Read A → (A → Read B) → Read B
◌>>=◌ m f r = continue (m r) f

abbrev pub ◌>>◌ {ℓ} : {B : Type ℓ} → Read (Unit {0}) → Read B → Read B
m >> k = m >>= λ _. k

unfoldable pub pure {ℓ} : {A : Type ℓ} → A → Read A
pure a r = ok (a, r)

abbrev pub result_of {ℓ} : {A : Type ℓ} → Result (A × Reader) → Result A
result_of (ok (a, r)) = ok a
result_of (err e) = err e

-- `Reader::new`
abbrev pub reader_new : Bytes → Reader
reader_new buf = record { buf = buf; pos = 0 }

-- `Reader::take`: `checked_add` and `get` answer `None` past a `usize` and past the buffer.
unfoldable pub take_bytes : ℕ → Read Bytes
take_bytes n r =
    if ltb (r.pos + n) (2 ^ 64) && leb (r.pos + n) (length r.buf)
    then ok (take n (drop r.pos r.buf), record r { pos = r.pos + n })
    else err unexpected_eof

unfoldable pub remaining : Reader → ℕ
remaining r = length r.buf - r.pos

-- `Reader::is_empty`
unfoldable pub at_end : Reader → Bool
at_end r = leb (length r.buf) r.pos

unfoldable pub read_u32 : Read ℕ
read_u32 = do b ← take_bytes 4; pure (from_le_bytes b)

unfoldable pub read_u64 : Read ℕ
read_u64 = do b ← take_bytes 8; pure (from_le_bytes b)

unfoldable pub read_f64 : Read ℕ
read_f64 = do b ← take_bytes 8; pure (from_le_bytes b)

-- `if n > r.remaining() / size { return Err(UnexpectedEof) }`
unfoldable pub check_remaining : ℕ → ℕ → Read (Unit {0})
unfolding remaining
check_remaining n size r = if ltb (remaining r / size) n then err unexpected_eof else ok (tt, r)

-- `for _ in 0..n { out.push(..) }`
unfoldable pub read_many {ℓ} : {A : Type ℓ} → ℕ → Read A → Read (List A)
read_many zero m = pure []
read_many (suc n) m = do a ← m; rest ← read_many n m; pure (a ∷ rest)

unfoldable pub read_sample : Read Sample
read_sample = do t ← read_u64; v ← read_f64; pure (record { timestamp = t; value = v })

unfoldable pub read_samples_entry : Read SamplesEntry
read_samples_entry = do
  id ← read_u64
  n ← read_u32
  check_remaining n sample_encoded_len
  ss ← read_many n read_sample
  pure (record { id = id; samples = ss })

unfoldable pub check_end : Read (Unit {0})
unfolding at_end
check_end r = if at_end r then ok (tt, r) else err trailing_bytes

module _ (utf8 : Bytes → Bool) where
  unfoldable pub valid_str : Bytes → Read Str
  valid_str s r = if utf8 s then ok (s, r) else err bad_utf8

  unfoldable pub read_str : Read Str
  unfolding valid_str
  read_str = do n ← read_u32; s ← take_bytes n; valid_str s

  unfoldable pub read_label : Read Label
  read_label = do n ← read_str; v ← read_str; pure (record { name = n; value = v })

  -- `LabelSet::decode`
  unfoldable pub label_set_decode : Read LabelSet
  label_set_decode = do
    n ← read_u32
    check_remaining n (4 + 4)
    labels ← read_many n read_label
    pure (LabelSet.from_labels labels)

  unfoldable pub read_series_entry : Read SeriesEntry
  read_series_entry = do
    id ← read_u64
    labels ← label_set_decode
    pure (record { id = id; labels = labels })

  -- The body of `decode`; `saturating_add` stops at the largest `usize`.
  unfoldable pub read_record_parts : Read WalRecord
  read_record_parts = do
    n_series ← read_u32
    n_samples ← read_u32
    check_remaining (min (n_series + n_samples) (2 ^ 64 - 1)) (8 + 4)
    series ← read_many n_series read_series_entry
    samples ← read_many n_samples read_samples_entry
    check_end
    pure (record { series = series; samples = samples })

  -- `decode`
  unfoldable pub decode : RecordKind → Bytes → Result WalRecord
  decode write payload = result_of (read_record_parts (reader_new payload))
