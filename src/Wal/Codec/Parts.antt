-- ===== src/Wal/Codec/Parts.antt =====
-- The layout of a payload's parts, and that each part is read back.
use rust_tsdb.Prelude.{
  ◌+◌, ◌^◌, ◌≤◌, ◌<◌, ◌≡◌, subst, Bool, true, List, [], ◌∷◌, ◌++◌, length, length-append, All,
  concat_map, length-concat_map-ge, arith,
}
use rust_tsdb.Prelude.Bytes.{Str}
use rust_tsdb.Model.{Sample, Label}
use rust_tsdb.LabelSet.{LabelSet}
use rust_tsdb.LabelSet.Sorted.{IsSorted}
use rust_tsdb.LabelSet.FromLabels.{from_labels-labels}
use rust_tsdb.Wal.Record.{Bytes, to_le_bytes, SeriesEntry, SamplesEntry}
use rust_tsdb.Wal.Codec.{
  ◌>>=◌, pure, read_f64, read_sample, read_samples_entry, valid_str, read_str, read_label,
  label_set_decode, read_series_entry, sample_encoded_len,
}
use rust_tsdb.Wal.Codec.Reads.{
  Reads, Reads-pure, Reads-bind, Reads-map, Reads-last, Reads-check, Reads-take_bytes, AllReads,
  Reads-read_many,
}
use rust_tsdb.Wal.Codec.Words.{length-to_le_bytes, Reads-read_u32, Reads-read_u64, Reads-read_f64}
use rust_tsdb.LabelSet

-- A string: its length, then its bytes.
abbrev pub str_bytes : Str → Bytes
str_bytes s = to_le_bytes 4 (length s) ++ s

abbrev pub label_bytes : Label → Bytes
label_bytes l = str_bytes l.name ++ str_bytes l.value

abbrev pub set_bytes : LabelSet → Bytes
set_bytes s = to_le_bytes 4 (length s.labels) ++ concat_map label_bytes s.labels

abbrev pub series_bytes : SeriesEntry → Bytes
series_bytes e = to_le_bytes 8 e.id ++ set_bytes e.labels

abbrev pub sample_bytes : Sample → Bytes
sample_bytes s = to_le_bytes 8 s.timestamp ++ to_le_bytes 8 s.value

abbrev pub samples_bytes : SamplesEntry → Bytes
samples_bytes e =
    to_le_bytes 8 e.id ++ to_le_bytes 4 (length e.samples) ++ concat_map sample_bytes e.samples

-- What fits its fields: `u64` ids, timestamps and values, `u32` lengths.
abbrev pub FitsSample : Sample → Type 0
FitsSample s = (s.timestamp < 2 ^ 64) × (s.value < 2 ^ 64)

abbrev pub FitsSamples : SamplesEntry → Type 0
FitsSamples e = (e.id < 2 ^ 64) × (length e.samples < 2 ^ 32) × All FitsSample e.samples

Reads-read_sample : (s : Sample) → FitsSample s → Reads read_sample (sample_bytes s) s
unfolding read_sample
Reads-read_sample s h =
    Reads-bind (λ t. read_f64 >>= λ v. pure (record { timestamp = t; value = v }))
      (Reads-read_u64 s.timestamp h.0)
      (Reads-map (λ v. record { timestamp = s.timestamp; value = v }) (Reads-read_f64 s.value h.1))

All-samples : (ss : List Sample) → All FitsSample ss → AllReads read_sample sample_bytes ss
All-samples [] h = tt
All-samples (s ∷ ss) h = (Reads-read_sample s h.0, All-samples ss h.1)

length-sample_bytes : (s : Sample) → sample_encoded_len ≤ length (sample_bytes s)
length-sample_bytes s = omega (
  arith,
  length-append (to_le_bytes 8 s.timestamp) (to_le_bytes 8 s.value),
  length-to_le_bytes 8 s.timestamp,
  length-to_le_bytes 8 s.value,
)

pub Reads-read_samples_entry :
    (e : SamplesEntry) → FitsSamples e → Reads read_samples_entry (samples_bytes e) e
unfolding read_samples_entry ◌>>=◌ to_le_bytes
Reads-read_samples_entry e h = Reads-bind _ (Reads-read_u64 e.id h.0) (
    Reads-bind _ (Reads-read_u32 (length e.samples) h.1) (
      Reads-check (length e.samples) sample_encoded_len (omega arith)
        (length-concat_map-ge sample_bytes sample_encoded_len length-sample_bytes e.samples)
        (Reads-map (λ ss. record { id = e.id; samples = ss })
          (Reads-read_many read_sample sample_bytes e.samples (All-samples e.samples h.2)))))

module _ (utf8 : Bytes → Bool) where
  abbrev pub FitsStr : Str → Type 0
  FitsStr s = (length s < 2 ^ 32) × (utf8 s ≡ true)

  abbrev pub FitsLabel : Label → Type 0
  FitsLabel l = FitsStr l.name × FitsStr l.value

  -- A set in order, as every constructor but `from_sorted_unchecked` makes it.
  abbrev pub FitsSet : LabelSet → Type 0
  FitsSet s = IsSorted s × (length s.labels < 2 ^ 32) × All FitsLabel s.labels

  abbrev pub FitsSeries : SeriesEntry → Type 0
  FitsSeries e = (e.id < 2 ^ 64) × FitsSet e.labels

  Reads-valid_str : (s : Str) → utf8 s ≡ true → Reads (valid_str utf8 s) [] s
  unfolding valid_str pure
  Reads-valid_str s h = record { run = λ r t i e. rw h ((Reads-pure s).run r t i e) }

  Reads-read_str : (s : Str) → FitsStr s → Reads (read_str utf8) (str_bytes s) s
  unfolding read_str
  Reads-read_str s h =
      Reads-bind _ (Reads-read_u32 (length s) h.0)
        (Reads-last (valid_str utf8) (Reads-take_bytes s) (Reads-valid_str s h.1))

  Reads-read_label : (l : Label) → FitsLabel l → Reads (read_label utf8) (label_bytes l) l
  unfolding read_label
  Reads-read_label l h =
      Reads-bind _ (Reads-read_str l.name h.0)
        (Reads-map (λ v. record { name = l.name; value = v }) (Reads-read_str l.value h.1))

  All-labels : (ls : List Label) → All FitsLabel ls → AllReads (read_label utf8) label_bytes ls
  All-labels [] h = tt
  All-labels (l ∷ ls) h = (Reads-read_label l h.0, All-labels ls h.1)

  length-str_bytes : (s : Str) → 4 ≤ length (str_bytes s)
  length-str_bytes s =
      omega (arith, length-append (to_le_bytes 4 (length s)) s, length-to_le_bytes 4 (length s))

  length-label_bytes : (l : Label) → 4 + 4 ≤ length (label_bytes l)
  length-label_bytes l = omega (
    arith,
    length-append (str_bytes l.name) (str_bytes l.value),
    length-str_bytes l.name,
    length-str_bytes l.value,
  )

  pub Reads-label_set_decode :
      (s : LabelSet) → FitsSet s → Reads (label_set_decode utf8) (set_bytes s) s
  unfolding label_set_decode
  Reads-label_set_decode s h = Reads-bind _ (Reads-read_u32 (length s.labels) h.1) (
      Reads-check (length s.labels) (4 + 4) (omega arith)
        (length-concat_map-ge label_bytes (4 + 4) length-label_bytes s.labels)
        (subst (Reads _ (concat_map label_bytes s.labels)) (from_labels-labels s h.0) (
          Reads-map LabelSet.from_labels
            (Reads-read_many (read_label utf8) label_bytes s.labels (All-labels s.labels h.2)))))

  pub Reads-read_series_entry :
      (e : SeriesEntry) → FitsSeries e → Reads (read_series_entry utf8) (series_bytes e) e
  unfolding read_series_entry
  Reads-read_series_entry e h =
      Reads-bind _ (Reads-read_u64 e.id h.0)
        (Reads-map (λ ls. record { id = e.id; labels = ls }) (Reads-label_set_decode e.labels h.1))
