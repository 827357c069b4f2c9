-- ===== src/Wal/Reader/Restart.antt =====
-- The outcome of `replay` on a directory that a crash left behind.
use rust_tsdb.Prelude.{
  ℕ, ◌+◌, ◌-◌, ◌≡◌, ◌≢◌, refl, ap, ap₂, sym, ◌∙◌, Bool, true, false, Option, none, some, List, [],
  ◌∷◌, ◌++◌, ◌⊎◌, inl, map, append-nil, length, length-append, length-map, last?, last?-snoc,
  last?-append, take, take-length-append, All, ne→nat_beq, nat_beq_iff, arith, if◌then◌else◌,
}
use mathlib.Core.Option
use native.Mathlib.Nat.{zero-add}
use rust_tsdb.Wal.Record.{Bytes, truncated, WalRecord}
use rust_tsdb.Wal.Replay.{ReplaySink, Resolver, resolver_new, finish}
use rust_tsdb.Wal.Reader.{
  Progress, torn, failed, corrupt_at, SegmentFile, Pass, pass_new, replay_files, replay,
  on_file_end, on_pass, report_of, Outcome, recovered, stopped, ReplayError, is_last,
}
use rust_tsdb.Wal.Reader.Frames.{IsU32}
use rust_tsdb.Wal.Reader.Recovery.{Loggable, log_bytes, after_all}
use rust_tsdb.Wal.Reader.Crash.{
  LogFile, Torn, file_with, whole_file, AllLoggable, all_records, apply_records, pass_of,
  replay_files-whole, replay_one-torn, pass_over_all-new, apply_all-append,
}

module _ (crc32 : Bytes → ℕ) (utf8 : Bytes → Bool) {S : Type 0} (sink : ReplaySink S) where
  -- Resolver and sink once every record has gone to them, in the order of the log.
  abbrev pub resolved : List WalRecord → S → Resolver × S
  resolved rs s = apply_records crc32 utf8 sink rs (resolver_new, s)

  abbrev outcome_at :
      Resolver × S → ℕ → ℕ → Option ℕ → Option (ℕ × ℕ × ℕ) → List SegmentFile → Outcome S
  outcome_at st records segments last cut files =
      recovered
        (record {
          segments = segments;
          last_segment = last;
          records = records;
          truncated = cut;
          series = finish st.0;
        })
        st.1 files

  -- The outcome of a replay that handed on just these records.
  abbrev pub outcome :
      List WalRecord → S → ℕ → Option ℕ → Option (ℕ × ℕ × ℕ) → List SegmentFile → Outcome S
  outcome rs s segments last cut files =
      outcome_at (resolved rs s) (length rs) segments last cut files

  abbrev whole_files : List LogFile → List SegmentFile
  whole_files fs = map (whole_file crc32 utf8) fs

  module _ (u32 : IsU32 crc32) where
    -- On files of whole records that the writer accepts, with a 32-bit checksum, `replay` hands every
    -- record to the resolver, in order, cuts nothing and leaves the files as they are. A record is handed
    -- on without its entries that have no samples, which the encoder leaves out.
    pub replay-whole :
        (fs : List LogFile) (s : S)
        → AllLoggable crc32 utf8 fs
        → replay crc32 utf8 sink (map (whole_file crc32 utf8) fs) s
          ≡ outcome
              (all_records crc32 utf8 fs)
              s
              (length fs)
              (Option.map (λ f. f.id) (last? (map (whole_file crc32 utf8) fs)))
              none
              (map (whole_file crc32 utf8) fs)
    unfolding replay replay_files
    replay-whole fs s h =
        let files = whole_files fs in
        let last = Option.map (λ (f : SegmentFile). f.id) (last? files) in
        let start = pass_new crc32 utf8 sink s in
        ap (report_of crc32 utf8 sink files) (
          ap (λ l. replay_files crc32 utf8 sink last l start) (sym (append-nil files))
          ∙ replay_files-whole crc32 utf8 sink u32 last fs [] start h
          ∙ ap inl (pass_over_all-new crc32 utf8 sink u32 fs s))
        ∙ ap (λ n. outcome (all_records crc32 utf8 fs) s n last none files)
            (length-map fs (whole_file crc32 utf8))

    -- The pass before the last file.
    before_last :
        (last : Option ℕ) (fs : List LogFile) (rest : List SegmentFile) (s : S)
        → AllLoggable crc32 utf8 fs
        → replay_files crc32 utf8 sink last (whole_files fs ++ rest) (pass_new crc32 utf8 sink s)
          ≡ replay_files crc32 utf8 sink last rest (pass_of crc32 utf8 sink u32 fs s)
    before_last last fs rest s h =
        replay_files-whole crc32 utf8 sink u32 last fs rest (pass_new crc32 utf8 sink s) h
        ∙ ap (replay_files crc32 utf8 sink last rest) (pass_over_all-new crc32 utf8 sink u32 fs s)

    is_last-some : (id : ℕ) → is_last id (some id) ≡ true
    unfolding is_last
    is_last-some id = (nat_beq_iff id id).1 refl

    is_last-other : (id n : ℕ) → id ≢ n → is_last id (some n) ≡ false
    unfolding is_last
    is_last-other id n h = ne→nat_beq id n h

    last_pass :
        (f : LogFile) (front : Bytes) (pass : Pass S)
        → All (Loggable crc32 utf8) f.records
        → Torn crc32 front
        → replay_files crc32 utf8 sink (some f.id) (file_with crc32 utf8 f front ∷ []) pass
          ≡ inl (record {
            resolved = apply_records crc32 utf8 sink f.records pass.resolved;
            records = pass.records + length f.records;
            cut = some (f.id, length (log_bytes crc32 utf8 f.records), length front);
            files = pass.files ++ whole_file crc32 utf8 f ∷ [];
          })
    unfolding replay_files
    last_pass f front pass h t =
        let log = log_bytes crc32 utf8 f.records in
        let start : Progress S = record {
          resolved = pass.resolved;
          offset = 0;
          records = pass.records;
        } in
        let kept : ℕ → ℕ → Bytes → Pass S ⊎ ReplayError = λ n d bytes. inl (record {
          resolved = apply_records crc32 utf8 sink f.records pass.resolved;
          records = pass.records + length f.records;
          cut = some (f.id, n, d);
          files = pass.files ++ record { id = f.id; bytes = bytes } ∷ [];
        }) in
        ap (on_pass crc32 utf8 sink (replay_files crc32 utf8 sink (some f.id) [])) (
          replay_one-torn crc32 utf8 sink u32 (some f.id) f front pass h t
          ∙ ap
              (λ b. on_file_end crc32 utf8 sink (file_with crc32 utf8 f front) pass (
                if b
                then torn (after_all crc32 utf8 sink f.records start)
                else failed (corrupt_at f.id (0 + length log) truncated)))
              (is_last-some f.id))
        ∙ ap (λ n. kept n (length (log ++ front) - n) (take n (log ++ front)))
            (zero-add (length log))
        ∙ ap₂ (λ d bytes. kept (length log) d bytes) (omega (arith, length-append log front))
            (take-length-append log front)

    -- On files of records that the writer accepts, with a 32-bit checksum, of which the last ends inside a
    -- record, `replay` hands on every whole record of every file, and
    -- no other; it reports the last file's id, the length of its whole records and the number of
    -- bytes behind them, and cuts the file there. A record is handed on
    -- without its entries that have no samples, which the encoder leaves out.
    pub replay-Torn :
        (fs : List LogFile) (f : LogFile) (front : Bytes) (s : S)
        → AllLoggable crc32 utf8 fs
        → All (Loggable crc32 utf8) f.records
        → Torn crc32 front
        → replay crc32 utf8 sink
            (map (whole_file crc32 utf8) fs ++ file_with crc32 utf8 f front ∷ [])
            s
          ≡ outcome
              (all_records crc32 utf8 fs ++ f.records)
              s
              (length fs + 1)
              (some f.id)
              (some (f.id, length (log_bytes crc32 utf8 f.records), length front))
              (map (whole_file crc32 utf8) fs ++ whole_file crc32 utf8 f ∷ [])
    unfolding replay
    replay-Torn fs f front s h g t =
        let files = whole_files fs ++ file_with crc32 utf8 f front ∷ [] in
        let rs = all_records crc32 utf8 fs in
        let cut : Option (ℕ × ℕ × ℕ) =
          some (f.id, length (log_bytes crc32 utf8 f.records), length front) in
        let left = whole_files fs ++ whole_file crc32 utf8 f ∷ [] in
        let found = last?-snoc (whole_files fs) (file_with crc32 utf8 f front) in
        let counted : length files ≡ length fs + 1 = omega (
          arith,
          length-append (whole_files fs) (file_with crc32 utf8 f front ∷ []),
          length-map fs (whole_file crc32 utf8),
        ) in
        ap
          (λ l. report_of crc32 utf8 sink files (
            replay_files crc32 utf8 sink (Option.map (λ f. f.id) l) files
              (pass_new crc32 utf8 sink s)))
          found
        ∙ ap (report_of crc32 utf8 sink files) (
            before_last (some f.id) fs (file_with crc32 utf8 f front ∷ []) s h
            ∙ last_pass f front (pass_of crc32 utf8 sink u32 fs s) g t)
        ∙ ap₂
            (λ n l.
              outcome_at (apply_records crc32 utf8 sink f.records (resolved rs s))
                (length rs + length f.records) n (Option.map (λ f. f.id) l) cut left)
            counted found
        ∙ ap₂ (λ st n. outcome_at st n (length fs + 1) (some f.id) cut left)
            (sym (apply_all-append crc32 utf8 sink u32 rs f.records (resolver_new, s)))
            (sym (length-append rs f.records))

    -- A record that is cut short behind whole records in a file whose id is not that of the last one stops
    -- `replay` as truncated, with the file's id and the place (a 32-bit checksum, and only whole records in
    -- the files before).
    pub replay-Torn_early :
        (fs : List LogFile) (f : LogFile) (front : Bytes) (next : SegmentFile)
        → (later : List SegmentFile) (newest : SegmentFile) (s : S)
        → last? (next ∷ later) ≡ some newest
        → f.id ≢ newest.id
        → AllLoggable crc32 utf8 fs
        → All (Loggable crc32 utf8) f.records
        → Torn crc32 front
        → replay crc32 utf8 sink
            (map (whole_file crc32 utf8) fs ++ file_with crc32 utf8 f front ∷ next ∷ later)
            s
          ≡ stopped (corrupt_at f.id (length (log_bytes crc32 utf8 f.records)) truncated)
    unfolding replay replay_files
    replay-Torn_early fs f front next later newest s l d h g t =
        let torn_file = file_with crc32 utf8 f front in
        let files = whole_files fs ++ torn_file ∷ next ∷ later in
        let start = pass_of crc32 utf8 sink u32 fs s in
        let progress =
          after_all crc32 utf8 sink f.records
            (record { resolved = start.resolved; offset = 0; records = start.records }) in
        let at = length (log_bytes crc32 utf8 f.records) in
        ap
          (λ l. report_of crc32 utf8 sink files (
            replay_files crc32 utf8 sink (Option.map (λ f. f.id) l) files
              (pass_new crc32 utf8 sink s)))
          (last?-append (whole_files fs) torn_file (next ∷ later) ∙ l)
        ∙ ap (report_of crc32 utf8 sink files) (
            before_last (some newest.id) fs (torn_file ∷ next ∷ later) s h
            ∙ ap
                (on_pass crc32 utf8 sink
                  (replay_files crc32 utf8 sink (some newest.id) (next ∷ later)))
                (replay_one-torn crc32 utf8 sink u32 (some newest.id) f front start g t
                  ∙ ap
                      (λ b.
                        on_file_end crc32 utf8 sink torn_file start (
                          if b then torn progress else failed (corrupt_at f.id (0 + at) truncated)))
                      (is_last-other f.id newest.id d)))
        ∙ ap (λ n. stopped (corrupt_at f.id n truncated)) (zero-add at)
