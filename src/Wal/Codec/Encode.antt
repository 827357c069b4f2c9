-- ===== src/Wal/Codec/Encode.antt =====
-- What the encoder writes, in the layout of the parts.
use rust_tsdb.Prelude.{
  suc, ◌+◌, ◌^◌, ◌<◌, ◌≡◌, refl, ap, sym, ◌∙◌, Bool, not, List, [], ◌∷◌, ◌++◌, append-nil,
  append_assoc, length, All, keep, is_empty, concat_map, arith, map, ap₂, Bool-cases, inl, inr,
  if◌then◌else◌,
}
use native.Mathlib.Nat.{mod-eq_of_lt, add-zero}
use rust_tsdb.Prelude.Bytes.{Str}
use rust_tsdb.Model.{SeriesId, Sample, Label}
use rust_tsdb.LabelSet.{LabelSet}
use rust_tsdb.Wal.Record.{Bytes, to_le_bytes, SeriesEntry, SamplesEntry, WalRecord}
use rust_tsdb.Wal.Codec.{
  put_u32, put_u64, put_f64, put_bytes, put_labels, put_samples, label_set_encode, RecordEncoder,
  encoder_new, encoder_series, encoder_samples, encode_series, encode_samples, fill, zeros,
}
use rust_tsdb.Wal.Codec.Parts.{
  str_bytes, label_bytes, set_bytes, series_bytes, sample_bytes, samples_bytes, FitsSamples,
  FitsLabel, FitsSet, FitsSeries,
}

put_bytes_lem : (out : Bytes) (s : Str) → length s < 2 ^ 32 → put_bytes out s ≡ out ++ str_bytes s
unfolding put_bytes put_u32
put_bytes_lem out s h = rw (mod-eq_of_lt h) (append_assoc out (to_le_bytes 4 (length s)) s)

put_samples_lem :
    (out : Bytes) (ss : List Sample) → put_samples out ss ≡ out ++ concat_map sample_bytes ss
unfolding put_samples put_u64 put_f64
put_samples_lem out [] = sym (append-nil out)
put_samples_lem out (s ∷ ss) =
    put_samples_lem ((out ++ to_le_bytes 8 s.timestamp) ++ to_le_bytes 8 s.value) ss
    ∙ simp append_assoc

-- An entry that the encoder does not leave out.
abbrev pub nonempty : SamplesEntry → Bool
nonempty e = not (is_empty e.samples)

encoder_samples_lem :
    (enc : RecordEncoder) (id : SeriesId) (s : Sample) (ss : List Sample)
    → suc (length ss) < 2 ^ 32
    → enc.samples + 1 < 2 ^ 32
    → encoder_samples enc id (s ∷ ss) ≡ record enc {
      samples = enc.samples + 1;
      out = enc.out ++ samples_bytes (record { id = id; samples = s ∷ ss });
    }
unfolding encoder_samples put_u32 put_u64
encoder_samples_lem enc id s ss h k =
    rw (mod-eq_of_lt h, mod-eq_of_lt k)
      (ap (λ o. record enc { samples = enc.samples + 1; out = o })
        (put_samples_lem ((enc.out ++ to_le_bytes 8 id) ++ to_le_bytes 4 (suc (length ss))) (s ∷ ss)
          ∙ simp append_assoc))

-- The encoder after one entry.
abbrev with_samples : RecordEncoder → SamplesEntry → RecordEncoder
with_samples enc e = record enc { samples = enc.samples + 1; out = enc.out ++ samples_bytes e }

encoder_samples_cases :
    (enc : RecordEncoder) (id : SeriesId) (ss : List Sample)
    → length ss < 2 ^ 32
    → enc.samples + 1 < 2 ^ 32
    → encoder_samples enc id ss
      ≡ (if not (is_empty ss) then with_samples enc (record { id = id; samples = ss }) else enc)
encoder_samples_cases enc id [] h k = unfold encoder_samples in refl
encoder_samples_cases enc id (s ∷ ss) h k = encoder_samples_lem enc id s ss h k

encode_samples_lem :
    (es : List SamplesEntry) (enc : RecordEncoder)
    → All FitsSamples es
    → enc.samples + length es < 2 ^ 32
    → encode_samples es enc ≡ record enc {
      samples = enc.samples + length (keep nonempty es);
      out = enc.out ++ concat_map samples_bytes (keep nonempty es);
    }
unfolding encode_samples
encode_samples_lem [] enc h k =
    ap₂ (λ n o. record enc { samples = n; out = o }) (sym (add-zero enc.samples))
      (sym (append-nil enc.out))
encode_samples_lem (e ∷ es) enc h k = elim (Bool-cases (nonempty e)) [
  | inl t ↦
      ap (encode_samples es) (encoder_samples_cases enc e.id e.samples h.0.1 (omega arith) ∙ rw t)
      ∙ encode_samples_lem es (with_samples enc e) h.1 (omega arith)
      ∙ rw t (
          ap₂ (λ n o. record enc { samples = n; out = o }) (omega arith)
            (append_assoc enc.out (samples_bytes e) (concat_map samples_bytes (keep nonempty es))))
  | inr f ↦
      ap (encode_samples es) (encoder_samples_cases enc e.id e.samples h.0.1 (omega arith) ∙ rw f)
      ∙ encode_samples_lem es enc h.1 (omega arith)
      ∙ rw f
]

module _ (utf8 : Bytes → Bool) where
  put_labels_lem :
      (ls : List Label) (out : Bytes)
      → All (FitsLabel utf8) ls
      → put_labels out (map (λ l. (l.name, l.value)) ls) ≡ out ++ concat_map label_bytes ls
  unfolding put_labels
  put_labels_lem [] out h = sym (append-nil out)
  put_labels_lem (l ∷ ls) out h =
      put_labels_lem ls (put_bytes (put_bytes out l.name) l.value) h.1
      ∙ ap (λ o. o ++ concat_map label_bytes ls)
          (put_bytes_lem (put_bytes out l.name) l.value h.0.1.0
            ∙ ap (λ o. o ++ str_bytes l.value) (put_bytes_lem out l.name h.0.0.0))
      ∙ simp append_assoc

  label_set_encode_lem :
      (s : LabelSet) (out : Bytes) → FitsSet utf8 s → label_set_encode s out ≡ out ++ set_bytes s
  unfolding label_set_encode put_u32
  label_set_encode_lem s out h = rw (mod-eq_of_lt h.1) (
      put_labels_lem s.labels (out ++ to_le_bytes 4 (length s.labels)) h.2
      ∙ append_assoc out (to_le_bytes 4 (length s.labels)) (concat_map label_bytes s.labels))

  abbrev with_series : RecordEncoder → SeriesEntry → RecordEncoder
  with_series enc e = record enc { series = enc.series + 1; out = enc.out ++ series_bytes e }

  encoder_series_lem :
      (enc : RecordEncoder) (e : SeriesEntry)
      → FitsSeries utf8 e
      → enc.series + 1 < 2 ^ 32
      → encoder_series enc e.id e.labels ≡ with_series enc e
  unfolding encoder_series put_u64
  encoder_series_lem enc e h k = rw (mod-eq_of_lt k) (
      ap (λ o. record enc { series = enc.series + 1; out = o })
        (label_set_encode_lem e.labels (enc.out ++ to_le_bytes 8 e.id) h.1
          ∙ append_assoc enc.out (to_le_bytes 8 e.id) (set_bytes e.labels)))

  encode_series_lem :
      (es : List SeriesEntry) (enc : RecordEncoder)
      → All (FitsSeries utf8) es
      → enc.series + length es < 2 ^ 32
      → encode_series es enc ≡ record enc {
        series = enc.series + length es;
        out = enc.out ++ concat_map series_bytes es;
      }
  unfolding encode_series
  encode_series_lem [] enc h k =
      ap₂ (λ n o. record enc { series = n; out = o }) (sym (add-zero enc.series))
        (sym (append-nil enc.out))
  encode_series_lem (e ∷ es) enc h k =
      ap (encode_series es) (encoder_series_lem enc e h.0 (omega arith))
      ∙ encode_series_lem es (with_series enc e) h.1 (omega arith)
      ∙ ap₂ (λ n o. record enc { series = n; out = o }) (omega arith)
          (append_assoc enc.out (series_bytes e) (concat_map series_bytes es))

  -- A record whose parts fit, with counts that a `u32` holds.
  pub record FitsRecord (rec : WalRecord) : Type 0 where
    pub series_count : length rec.series < 2 ^ 32
    pub samples_count : length rec.samples < 2 ^ 32
    pub series_fit : All (FitsSeries utf8) rec.series
    pub samples_fit : All FitsSamples rec.samples

  -- The entries behind the counts.
  abbrev pub body_bytes : WalRecord → Bytes
  body_bytes rec =
      concat_map series_bytes rec.series ++ concat_map samples_bytes (keep nonempty rec.samples)

  pub fill_lem :
      (rec : WalRecord)
      → FitsRecord rec
      → fill rec encoder_new ≡ record {
        out = zeros 17 ++ body_bytes rec;
        series = length rec.series;
        samples = length (keep nonempty rec.samples);
      }
  unfolding fill
  fill_lem rec h =
      ap (encode_samples rec.samples)
        (encode_series_lem rec.series encoder_new h.series_fit (omega (arith, h.series_count)))
      ∙ encode_samples_lem rec.samples
          (record {
            out = zeros 17 ++ concat_map series_bytes rec.series;
            series = 0 + length rec.series;
            samples = 0;
          })
          h.samples_fit (omega (arith, h.samples_count))
      ∙ ap₂ (λ n m. record { out = zeros 17 ++ body_bytes rec; series = n; samples = m })
          (omega arith) (omega arith)
