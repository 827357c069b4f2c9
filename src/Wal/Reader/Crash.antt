-- ===== src/Wal/Reader/Crash.antt =====
-- Replay of a whole directory, in which the last file may end inside a record.
use rust_tsdb.Prelude.{
  ℕ, suc, ◌+◌, ◌≤◌, ◌<◌, ◌≡◌, refl, ap, ap₂, sym, ◌∙◌, Bool, Option, none, List, [], ◌∷◌, ◌++◌, inl,
  map, append_assoc, append-nil, length, length-append, All, concat_map, arith, if◌then◌else◌,
}
use native.Mathlib.Nat.{add-zero}
use rust_tsdb.Wal.Record.{Bytes, max_record_bytes, truncated, WalRecord}
use rust_tsdb.Wal.Replay.{ReplaySink, Resolver, resolver_new}
use rust_tsdb.Wal.Reader.{
  read_record, read_full, Progress, clean, torn, failed, corrupt_at, replay_file, on_read,
  SegmentFile, Pass, pass_new, replay_one, replay_files, on_file_end, on_pass, is_last,
}
use rust_tsdb.Wal.Reader.Frames.{frame, IsU32, read_record-cut}
use rust_tsdb.Wal.Reader.Recovery.{Loggable, log_bytes, apply_all, after_all, replay_file-records}

-- A log file by the records in it.
pub record LogFile : Type 0 where
  pub id : ℕ
  pub records : List WalRecord

-- What a crash leaves of a record: some of its bytes, and not all.
pub record Torn (crc32 : Bytes → ℕ) (front : Bytes) : Type 0 where
  pub payload : Bytes
  pub back : Bytes
  pub whole : front ++ back ≡ frame crc32 payload
  pub fits : length payload ≤ max_record_bytes
  pub some_there : 0 < length front
  pub some_missing : 0 < length back

module _ (crc32 : Bytes → ℕ) (utf8 : Bytes → Bool) where
  -- The file as the flusher wrote it, with `tail` behind its records.
  abbrev pub file_with : LogFile → Bytes → SegmentFile
  file_with f tail = record { id = f.id; bytes = log_bytes crc32 utf8 f.records ++ tail }

  abbrev pub whole_file : LogFile → SegmentFile
  whole_file f = record { id = f.id; bytes = log_bytes crc32 utf8 f.records }

  abbrev pub AllLoggable : List LogFile → Type 0
  AllLoggable fs = All (λ (f : LogFile). All (Loggable crc32 utf8) f.records) fs

  abbrev pub all_records : List LogFile → List WalRecord
  all_records fs = concat_map (λ (f : LogFile). f.records) fs

  module _ {S : Type 0} (sink : ReplaySink S) where
    abbrev pub apply_records : List WalRecord → Resolver × S → Resolver × S
    apply_records = apply_all crc32 utf8 sink

    -- The pass behind a file whose records are all there.
    abbrev pass_over : LogFile → Pass S → Pass S
    pass_over f pass = record pass {
      resolved = apply_records f.records pass.resolved;
      records = pass.records + length f.records;
      files = pass.files ++ whole_file f ∷ [];
    }

    pub pass_over_all : List LogFile → Pass S → Pass S
    pass_over_all [] pass = pass
    pass_over_all (f ∷ fs) pass = pass_over_all fs (pass_over f pass)

    at_end :
        (k id : ℕ) (last : Bool) (p : Progress S)
        → replay_file crc32 utf8 sink (suc k) id last [] p ≡ clean p
    unfolding replay_file read_record read_full
    at_end k id last p = refl

    at_tear :
        (k id : ℕ) (last : Bool) (p : Progress S) (front : Bytes)
        → IsU32 crc32
        → Torn crc32 front
        → replay_file crc32 utf8 sink (suc k) id last front p
          ≡ (if last then torn p else failed (corrupt_at id p.offset truncated))
    unfolding replay_file
    at_tear k id last p front u32 t =
        let r = read_record crc32 front in
        let cut =
          read_record-cut crc32 u32 t.payload t.fits front t.back t.whole t.some_there
            t.some_missing in
        ap (λ z. on_read crc32 utf8 sink (replay_file crc32 utf8 sink k id last) id last p (z, r.1))
          cut

    module _ (u32 : IsU32 crc32) where
      replay_one-whole :
          (last : Option ℕ) (f : LogFile) (pass : Pass S)
          → All (Loggable crc32 utf8) f.records
          → replay_one crc32 utf8 sink last (whole_file f) pass ≡ inl (pass_over f pass)
      unfolding replay_one
      replay_one-whole last f pass h =
          let start : Progress S = record {
            resolved = pass.resolved;
            offset = 0;
            records = pass.records;
          } in
          let (k, e) =
            replay_file-records crc32 utf8 sink u32 f.id (is_last f.id last) f.records h [] start in
          ap (on_file_end crc32 utf8 sink (whole_file f) pass) (
            ap (λ b. replay_file crc32 utf8 sink (length b + 1) f.id (is_last f.id last) b start)
              (sym (append-nil (log_bytes crc32 utf8 f.records)))
            ∙ e
            ∙ at_end k f.id (is_last f.id last) (after_all crc32 utf8 sink f.records start))

      pub replay_files-whole :
          (last : Option ℕ) (fs : List LogFile) (rest : List SegmentFile) (pass : Pass S)
          → AllLoggable fs
          → replay_files crc32 utf8 sink last (map whole_file fs ++ rest) pass
            ≡ replay_files crc32 utf8 sink last rest (pass_over_all fs pass)
      unfolding replay_files pass_over_all
      replay_files-whole last [] rest pass h = refl
      replay_files-whole last (f ∷ fs) rest pass h =
          ap
            (on_pass crc32 utf8 sink
              (replay_files crc32 utf8 sink last (map whole_file fs ++ rest)))
            (replay_one-whole last f pass h.0)
          ∙ replay_files-whole last fs rest (pass_over f pass) h.1

      pub replay_one-torn :
          (last : Option ℕ) (f : LogFile) (front : Bytes) (pass : Pass S)
          → All (Loggable crc32 utf8) f.records
          → Torn crc32 front
          → replay_one crc32 utf8 sink last (file_with f front) pass
            ≡ on_file_end crc32 utf8 sink (file_with f front) pass (
                if is_last f.id last
                then torn (
                    after_all crc32 utf8 sink f.records
                      (record { resolved = pass.resolved; offset = 0; records = pass.records }))
                else failed
                    (corrupt_at f.id (0 + length (log_bytes crc32 utf8 f.records)) truncated))
      unfolding replay_one
      replay_one-torn last f front pass h t =
          let start : Progress S = record {
            resolved = pass.resolved;
            offset = 0;
            records = pass.records;
          } in
          let (k, e) =
            replay_file-records crc32 utf8 sink u32 f.id (is_last f.id last) f.records h front
              start in
          ap (on_file_end crc32 utf8 sink (file_with f front) pass) (
            e
            ∙ at_tear k f.id (is_last f.id last) (after_all crc32 utf8 sink f.records start) front
                u32 t)

      pub apply_all-append :
          (xs ys : List WalRecord) (st : Resolver × S)
          → apply_records (xs ++ ys) st ≡ apply_records ys (apply_records xs st)
      apply_all-append [] ys st = refl
      apply_all-append (x ∷ xs) ys st = apply_all-append xs ys _

      pass_over_all_lem :
          (fs : List LogFile) (pass : Pass S)
          → pass_over_all fs pass ≡ record {
            resolved = apply_records (all_records fs) pass.resolved;
            records = pass.records + length (all_records fs);
            cut = pass.cut;
            files = pass.files ++ map whole_file fs;
          }
      unfolding pass_over_all
      pass_over_all_lem [] pass =
          ap₂ (λ n l. record pass { records = n; files = l }) (sym (add-zero pass.records))
            (sym (append-nil pass.files))
      pass_over_all_lem (f ∷ fs) pass =
          pass_over_all_lem fs (pass_over f pass)
          ∙ ap₂
              (λ r l. record {
                resolved = r;
                records = (pass.records + length f.records) + length (all_records fs);
                cut = pass.cut;
                files = l;
              })
              (sym (apply_all-append f.records (all_records fs) pass.resolved))
              (append_assoc pass.files (whole_file f ∷ []) (map whole_file fs))
          ∙ ap
              (λ n. record {
                resolved = apply_records (all_records (f ∷ fs)) pass.resolved;
                records = n;
                cut = pass.cut;
                files = pass.files ++ map whole_file (f ∷ fs);
              })
              (omega (arith, length-append f.records (all_records fs)))

      -- The pass behind the files of a directory, none of them cut.
      abbrev pub pass_of : List LogFile → S → Pass S
      pass_of fs s = record {
        resolved = apply_records (all_records fs) (resolver_new, s);
        records = length (all_records fs);
        cut = none;
        files = map whole_file fs;
      }

      pub pass_over_all-new :
          (fs : List LogFile) (s : S) → pass_over_all fs (pass_new crc32 utf8 sink s) ≡ pass_of fs s
      pass_over_all-new fs s =
          pass_over_all_lem fs (pass_new crc32 utf8 sink s)
          ∙ ap
              (λ n. record {
                resolved = apply_records (all_records fs) (resolver_new, s);
                records = n;
                cut = none;
                files = map whole_file fs;
              })
              (omega arith)
