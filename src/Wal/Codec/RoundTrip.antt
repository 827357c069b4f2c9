-- ===== src/Wal/Codec/RoundTrip.antt =====
-- A record comes back from the bytes that the encoder wrote for it.
use rust_tsdb.Prelude.{
  ℕ, ◌+◌, ◌*◌, ◌^◌, ◌-◌, ◌≤◌, ◌<◌, ◌≡◌, refl, ap, ◌∙◌, Bool, List, [], ◌∷◌, ◌++◌, length,
  length-append, All, keep, drop, concat_map, length-concat_map-ge, min, arith, inl, inr,
  Bool-cases,
}
use rust_tsdb.Wal.Record.{
  Bytes, write, to_le_bytes, header_encode, for_payload, SeriesEntry, SamplesEntry, WalRecord,
}
use rust_tsdb.Wal.Codec.{
  encoder_finish, encode_record, zeros, ok, ◌>>=◌, read_record_parts, decode, read_samples_entry,
  read_series_entry, reader_new, result_of,
}
use rust_tsdb.Wal.Codec.Reads.{
  ReadsAll, AllReads, ReadsAll-bind, ReadsAll-check, ReadsAll-end, ReadsAll-last, Reads-read_many,
}
use rust_tsdb.Wal.Codec.Words.{length-to_le_bytes, Reads-read_u32}
use rust_tsdb.Wal.Codec.Parts.{
  series_bytes, samples_bytes, set_bytes, sample_bytes, FitsSeries, FitsSamples,
  Reads-read_samples_entry, Reads-read_series_entry, label_bytes,
}
use rust_tsdb.Wal.Codec.Encode.{nonempty, FitsRecord, body_bytes, fill_lem}

-- A header takes nine bytes.
pub length-header_encode :
    (crc32 : Bytes → ℕ) (p : Bytes) → length (header_encode (for_payload crc32 write p)) ≡ 9
unfolding header_encode to_le_bytes
length-header_encode crc32 p = refl

module _ (utf8 : Bytes → Bool) where
  -- The payload: the two counts, then the entries.
  abbrev pub payload_bytes : WalRecord → Bytes
  payload_bytes rec =
      to_le_bytes 4 (length rec.series)
      ++ to_le_bytes 4 (length (keep nonempty rec.samples))
      ++ body_bytes utf8 rec

  -- The record without the entries that have no samples.
  abbrev pub logged : WalRecord → WalRecord
  logged rec = record rec { samples = keep nonempty rec.samples }

  finish_lem :
      (crc32 : Bytes → ℕ) (body : Bytes) (n m : ℕ)
      → (encoder_finish crc32 (record { out = zeros 17 ++ body; series = n; samples = m })).out
        ≡ header_encode (for_payload crc32 write (to_le_bytes 4 n ++ to_le_bytes 4 m ++ body))
          ++ to_le_bytes 4 n
          ++ to_le_bytes 4 m
          ++ body
  unfolding encoder_finish header_encode to_le_bytes
  finish_lem crc32 body n m = refl

  -- Of a record whose parts fit their fields, the encoder writes the header of the payload and then the
  -- payload.
  pub encode_record-out :
      (crc32 : Bytes → ℕ) (rec : WalRecord)
      → FitsRecord utf8 rec
      → (encode_record crc32 rec).out
        ≡ header_encode (for_payload crc32 write (payload_bytes rec)) ++ payload_bytes rec
  unfolding encode_record header_encode to_le_bytes
  encode_record-out crc32 rec h =
      ap (λ e. (encoder_finish crc32 e).out) (fill_lem utf8 rec h)
      ∙ finish_lem crc32 (body_bytes utf8 rec) (length rec.series)
          (length (keep nonempty rec.samples))

  keep_fits : (es : List SamplesEntry) → All FitsSamples es → All FitsSamples (keep nonempty es)
  keep_fits [] h = tt
  keep_fits (e ∷ es) h = elim (Bool-cases (nonempty e)) [
    | inl t ↦ rw t (h.0, keep_fits es h.1)
    | inr f ↦ rw f (keep_fits es h.1)
  ]

  length-keep : (es : List SamplesEntry) → length (keep nonempty es) ≤ length es
  length-keep [] = omega arith
  length-keep (e ∷ es) = ground (arith, length-keep es)

  All-series :
      (es : List SeriesEntry)
      → All (FitsSeries utf8) es
      → AllReads (read_series_entry utf8) series_bytes es
  All-series [] h = tt
  All-series (e ∷ es) h = (Reads-read_series_entry utf8 e h.0, All-series es h.1)

  All-samples :
      (es : List SamplesEntry) → All FitsSamples es → AllReads read_samples_entry samples_bytes es
  All-samples [] h = tt
  All-samples (e ∷ es) h = (Reads-read_samples_entry e h.0, All-samples es h.1)

  length-series_bytes : (e : SeriesEntry) → 8 + 4 ≤ length (series_bytes e)
  length-series_bytes e = omega (
    arith,
    length-append (to_le_bytes 8 e.id) (set_bytes e.labels),
    length-append (to_le_bytes 4 (length e.labels.labels)) (concat_map label_bytes e.labels.labels),
    length-to_le_bytes 8 e.id,
    length-to_le_bytes 4 (length e.labels.labels),
  )

  length-samples_bytes : (e : SamplesEntry) → 8 + 4 ≤ length (samples_bytes e)
  unfolding to_le_bytes
  length-samples_bytes e =
      let counted = to_le_bytes 4 (length e.samples) ++ concat_map sample_bytes e.samples in
      omega (
        arith,
        length-append (to_le_bytes 8 e.id) counted,
        length-append (to_le_bytes 4 (length e.samples)) (concat_map sample_bytes e.samples),
        length-to_le_bytes 8 e.id,
        length-to_le_bytes 4 (length e.samples),
      )

  enough :
      (rec : WalRecord)
      → min (length rec.series + length (keep nonempty rec.samples)) (2 ^ 64 - 1) * (8 + 4)
        ≤ length (body_bytes utf8 rec)
  enough rec = omega (
    arith,
    length-append (concat_map series_bytes rec.series)
        (concat_map samples_bytes (keep nonempty rec.samples)),
    length-concat_map-ge series_bytes (8 + 4) length-series_bytes rec.series,
    length-concat_map-ge samples_bytes (8 + 4) length-samples_bytes (keep nonempty rec.samples),
  )

  parts :
      (rec : WalRecord)
      → FitsRecord utf8 rec
      → ReadsAll (read_record_parts utf8) (payload_bytes rec) (logged rec)
  unfolding read_record_parts ◌>>=◌ to_le_bytes
  parts rec h =
      let kept = keep nonempty rec.samples in
      ReadsAll-bind _ (Reads-read_u32 (length rec.series) h.series_count) (
        ReadsAll-bind _
          (Reads-read_u32 (length kept) (omega (arith, length-keep rec.samples, h.samples_count)))
          (ReadsAll-check (min (length rec.series + length kept) (2 ^ 64 - 1)) (8 + 4) (omega arith)
            (enough rec)
            (ReadsAll-bind _
              (Reads-read_many (read_series_entry utf8) series_bytes rec.series
                (All-series rec.series h.series_fit))
              (ReadsAll-last _
                (Reads-read_many read_samples_entry samples_bytes kept
                  (All-samples kept (keep_fits rec.samples h.samples_fit)))
                (ReadsAll-end (logged rec))))))

  pub decode_payload :
      (rec : WalRecord)
      → FitsRecord utf8 rec
      → length (payload_bytes rec) < 2 ^ 64
      → decode utf8 write (payload_bytes rec) ≡ ok (logged rec)
  unfolding decode
  decode_payload rec h small =
      let (r', e) =
        (parts rec h).run (reader_new (payload_bytes rec))
          (record { within = omega arith; small = small }) refl in
      ap result_of e

  drop-header :
      (crc32 : Bytes → ℕ) (p : Bytes) → drop 9 (header_encode (for_payload crc32 write p) ++ p) ≡ p
  unfolding header_encode to_le_bytes
  drop-header crc32 p = refl

  -- What follows the header of an encoded record decodes to the record, without the entries that
  -- have no samples: ids, timestamps and values below 2^64, lengths and counts below 2^32, label
  -- sets in order, names and values that `from_utf8` accepts.
  pub decode-encode_record :
      (crc32 : Bytes → ℕ) (rec : WalRecord)
      → FitsRecord utf8 rec
      → length (payload_bytes rec) < 2 ^ 64
      → decode utf8 write (drop 9 (encode_record crc32 rec).out) ≡ ok (logged rec)
  decode-encode_record crc32 rec h small =
      ap (λ o. decode utf8 write (drop 9 o)) (encode_record-out crc32 rec h)
      ∙ ap (decode utf8 write) (drop-header crc32 (payload_bytes rec))
      ∙ decode_payload rec h small
