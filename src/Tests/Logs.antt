-- ===== src/Tests/Logs.antt =====
-- The write-ahead log at concrete inputs.
use rust_tsdb.Prelude.{
  ℕ, ◌+◌, ◌%◌, ◌^◌, ◌≤◌, ◌<◌, ◌≡◌, ◌≢◌, refl, Bool, true, ◌&&◌, none, some, [], ◌∷◌, ◌++◌, map,
  length, take, drop, last?, leb, arith,
}
use mathlib.Core.Option
use rust_tsdb.LabelSet.{LabelSet}
use rust_tsdb.Wal.Record.{
  Bytes, write, truncated, max_record_bytes, to_le_bytes, header_encode, WalRecord,
}
use rust_tsdb.Wal.Codec.{encode_record, decode, ok}
use rust_tsdb.Wal.Codec.Encode.{FitsRecord}
use rust_tsdb.Wal.Codec.RoundTrip.{payload_bytes, logged, decode-encode_record}
use rust_tsdb.Wal.Replay.{ReplaySink}
use rust_tsdb.Wal.Reader.{SegmentFile, replay, stopped, corrupt_at}
use rust_tsdb.Wal.Reader.Frames.{frame, IsU32}
use rust_tsdb.Wal.Reader.Recovery.{Loggable, log_bytes}
use rust_tsdb.Wal.Reader.Crash.{LogFile, Torn, file_with, whole_file, AllLoggable, all_records}
use rust_tsdb.Wal.Reader.Restart.{outcome, replay-whole, replay-Torn, replay-Torn_early}

-- A checksum, a test for text, and a sink that counts.
abbrev sum_of : Bytes → ℕ
sum_of [] = 0
sum_of (b ∷ bs) = b + sum_of bs

abbrev pub check_sum : Bytes → ℕ
check_sum b = sum_of b % 2 ^ 32

pub check_sum-IsU32 : IsU32 check_sum
check_sum-IsU32 b = omega arith

abbrev pub ascii : Bytes → Bool
ascii [] = true
ascii (b ∷ bs) = leb b 127 && ascii bs

abbrev counting : ReplaySink ℕ
counting = record { series = λ n labels. (n + 1, n); samples = λ n id samples. n }

abbrev one_label : LabelSet
one_label = record { labels = record { name = 106 ∷ []; value = 49 ∷ [] } ∷ [] }

-- One series with one sample.
abbrev pub logged_once : WalRecord
logged_once = record {
  series = record { id = 3; labels = one_label } ∷ [];
  samples = record { id = 3; samples = record { timestamp = 10; value = 1 } ∷ [] } ∷ [];
}

logged_once_fits : FitsRecord ascii logged_once
logged_once_fits = record {
  series_count = omega arith;
  samples_count = omega arith;
  series_fit = (
    (omega arith, ((tt, tt), omega arith, (((omega arith, refl), (omega arith, refl)), tt))),
    tt,
  );
  samples_fit = ((omega arith, omega arith, ((omega arith, omega arith), tt)), tt);
}

payload_size : length (payload_bytes ascii logged_once) ≡ 58
unfolding to_le_bytes
payload_size = refl

payload_small : length (payload_bytes ascii logged_once) < 2 ^ 64
payload_small = omega (arith, payload_size)

payload_allowed : length (payload_bytes ascii logged_once) ≤ max_record_bytes
payload_allowed = omega (arith, payload_size)

logged_once-Loggable : Loggable check_sum ascii logged_once
logged_once-Loggable = record { fits = logged_once_fits; small = payload_allowed }

decode-encode_record_example :
    decode ascii write (drop 9 (encode_record check_sum logged_once).out)
    ≡ ok (logged ascii logged_once)
decode-encode_record_example =
    decode-encode_record ascii check_sum logged_once logged_once_fits payload_small

abbrev short_payload : Bytes
short_payload = 1 ∷ 2 ∷ 3 ∷ []

-- The first five bytes of its record, and the others.
abbrev torn_front : Bytes
torn_front = take 5 (frame check_sum short_payload)

abbrev torn_back : Bytes
torn_back = drop 5 (frame check_sum short_payload)

torn_whole : torn_front ++ torn_back ≡ frame check_sum short_payload
unfolding header_encode to_le_bytes
torn_whole = refl

torn_there : 0 < length torn_front
unfolding header_encode to_le_bytes
torn_there = omega arith

torn_missing : 0 < length torn_back
unfolding header_encode to_le_bytes
torn_missing = omega arith

torn_front-Torn : Torn check_sum torn_front
torn_front-Torn = record {
  payload = short_payload;
  back = torn_back;
  whole = torn_whole;
  fits = omega arith;
  some_there = torn_there;
  some_missing = torn_missing;
}

abbrev first_file : LogFile
first_file = record { id = 1; records = logged_once ∷ [] }

abbrev second_file : LogFile
second_file = record { id = 2; records = logged_once ∷ [] }

abbrev whole_second : SegmentFile
whole_second = whole_file check_sum ascii second_file

files_loggable : AllLoggable check_sum ascii (first_file ∷ [])
files_loggable = ((logged_once-Loggable, tt), tt)

replay-whole_example :
    replay check_sum ascii counting (map (whole_file check_sum ascii) (first_file ∷ [])) 0
    ≡ outcome check_sum ascii counting
        (all_records check_sum ascii (first_file ∷ []))
        0
        1
        (Option.map (λ f. f.id) (last? (map (whole_file check_sum ascii) (first_file ∷ []))))
        none
        (map (whole_file check_sum ascii) (first_file ∷ []))
replay-whole_example =
    replay-whole check_sum ascii counting check_sum-IsU32 (first_file ∷ []) 0 files_loggable

replay-Torn_example :
    replay check_sum ascii counting
      (map (whole_file check_sum ascii) (first_file ∷ [])
        ++ file_with check_sum ascii second_file torn_front ∷ [])
      0
    ≡ outcome check_sum ascii counting
        (all_records check_sum ascii (first_file ∷ []) ++ second_file.records)
        0
        (1 + 1)
        (some 2)
        (some (2, length (log_bytes check_sum ascii second_file.records), length torn_front))
        (map (whole_file check_sum ascii) (first_file ∷ [])
          ++ whole_file check_sum ascii second_file ∷ [])
replay-Torn_example =
    replay-Torn check_sum ascii counting check_sum-IsU32 (first_file ∷ []) second_file torn_front 0
      files_loggable (logged_once-Loggable, tt) torn_front-Torn

one-not-two : first_file.id ≢ whole_second.id
one-not-two e = absurd (omega arith)

replay-Torn_early_example :
    replay check_sum ascii counting
      (map (whole_file check_sum ascii) []
        ++ file_with check_sum ascii first_file torn_front ∷ whole_second ∷ [])
      0
    ≡ stopped (corrupt_at 1 (length (log_bytes check_sum ascii first_file.records)) truncated)
replay-Torn_early_example =
    replay-Torn_early check_sum ascii counting check_sum-IsU32 [] first_file torn_front whole_second
      [] whole_second 0 refl one-not-two tt (logged_once-Loggable, tt) torn_front-Torn
