-- ===== src/Wal/Reader/Recovery.antt =====
-- Replay recovers exactly the whole records of a log, whatever is left of a record behind them.
use rust_tsdb.Prelude.{
  ℕ, suc, ◌+◌, ◌-◌, ◌≤◌, ◌≡◌, ap, ap₂, sym, ◌∙◌, Bool, List, [], ◌∷◌, ◌++◌, append_assoc, length,
  length-append, All, concat_map, arith,
}
use native.Mathlib.Nat.{add-zero}
use rust_tsdb.Wal.Record.{
  Bytes, write, max_record_bytes, header_encode, for_payload, encoded_len, WalRecord,
}
use rust_tsdb.Wal.Codec.{encode_record}
use rust_tsdb.Wal.Codec.Encode.{FitsRecord}
use rust_tsdb.Wal.Codec.RoundTrip.{
  payload_bytes, logged, encode_record-out, decode_payload, length-header_encode,
}
use rust_tsdb.Wal.Replay.{ReplaySink, Resolver, apply}
use rust_tsdb.Wal.Reader.{read_record, Progress, after_record, replay_file, on_read, on_decoded}
use rust_tsdb.Wal.Reader.Frames.{frame, IsU32, read_record-frame}

module _ (crc32 : Bytes → ℕ) (utf8 : Bytes → Bool) where
  -- A record that the writer accepts: its parts fit, and its payload is not too large.
  pub record Loggable (rec : WalRecord) : Type 0 where
    pub fits : FitsRecord utf8 rec
    pub small : length (payload_bytes utf8 rec) ≤ max_record_bytes

  -- The bytes of a log: what the encoder wrote for each record.
  abbrev pub log_bytes : List WalRecord → Bytes
  log_bytes = concat_map (λ rec. (encode_record crc32 rec).out)

  record_frame :
      (rec : WalRecord)
      → Loggable rec
      → (encode_record crc32 rec).out ≡ frame crc32 (payload_bytes utf8 rec)
  record_frame rec h = encode_record-out utf8 crc32 rec h.fits

  -- The fuel for these records, over `k`.
  fuel_for : List WalRecord → ℕ → ℕ
  fuel_for [] k = k
  fuel_for (r ∷ rs) k = suc (fuel_for rs k)

  fuel_for-add : (rs : List WalRecord) (k : ℕ) → fuel_for rs k ≡ length rs + k
  unfolding fuel_for
  fuel_for-add [] k = omega arith
  fuel_for-add (r ∷ rs) k = omega (arith, fuel_for-add rs k)

  pub length-log_bytes : (rs : List WalRecord) → All Loggable rs → length rs ≤ length (log_bytes rs)
  length-log_bytes [] h = omega arith
  length-log_bytes (r ∷ rs) h =
      let p = payload_bytes utf8 r in
      omega (
        arith,
        length-append (encode_record crc32 r).out (log_bytes rs),
        ap length (record_frame r h.0),
        length-append (header_encode (for_payload crc32 write p)) p,
        length-header_encode crc32 p,
        length-log_bytes rs h.1,
      )

  length-record :
      (r : WalRecord)
      → Loggable r
      → length (encode_record crc32 r).out ≡ encoded_len + length (payload_bytes utf8 r)
  length-record r h =
      let p = payload_bytes utf8 r in
      omega (
        arith,
        ap length (record_frame r h),
        length-append (header_encode (for_payload crc32 write p)) p,
        length-header_encode crc32 p,
      )

  module _ {S : Type 0} (sink : ReplaySink S) where
    -- The records go to the resolver and the sink one after the other.
    abbrev pub apply_all : List WalRecord → Resolver × S → Resolver × S
    apply_all [] st = st
    apply_all (r ∷ rs) st = apply_all rs (apply sink (logged utf8 r) st)

    -- The progress behind these records.
    abbrev pub after_all : List WalRecord → Progress S → Progress S
    after_all rs p = record {
      resolved = apply_all rs p.resolved;
      offset = p.offset + length (log_bytes rs);
      records = p.records + length rs;
    }

    module _ (u32 : IsU32 crc32) (id : ℕ) (last : Bool) where
      one_record :
          (r : WalRecord)
          → Loggable r
          → (fuel : ℕ) (rest : Bytes) (p : Progress S)
          → replay_file crc32 utf8 sink (suc fuel) id last ((encode_record crc32 r).out ++ rest) p
            ≡ replay_file crc32 utf8 sink fuel id last rest
                (after_record crc32 utf8 sink id (payload_bytes utf8 r) p (logged utf8 r))
      unfolding replay_file
      one_record r h fuel rest p =
          let payload = payload_bytes utf8 r in
          ap
            (λ b.
              on_read crc32 utf8 sink (replay_file crc32 utf8 sink fuel id last) id last p
                (read_record crc32 (b ++ rest)))
            (record_frame r h)
          ∙ ap (on_read crc32 utf8 sink (replay_file crc32 utf8 sink fuel id last) id last p)
              (read_record-frame crc32 u32 payload h.small rest)
          ∙ ap
              (on_decoded crc32 utf8 sink (replay_file crc32 utf8 sink fuel id last) id payload rest
                p)
              (decode_payload utf8 r h.fits (omega (arith, h.small)))

      all_records :
          (rs : List WalRecord)
          → All Loggable rs
          → (k : ℕ) (tail : Bytes) (p : Progress S)
          → replay_file crc32 utf8 sink (fuel_for rs k) id last (log_bytes rs ++ tail) p
            ≡ replay_file crc32 utf8 sink k id last tail (after_all rs p)
      unfolding fuel_for
      all_records [] h k tail p =
          ap₂
            (λ n m.
              replay_file crc32 utf8 sink k id last tail
                (record { resolved = p.resolved; offset = n; records = m }))
            (sym (add-zero p.offset)) (sym (add-zero p.records))
      all_records (r ∷ rs) h k tail p =
          let q = after_record crc32 utf8 sink id (payload_bytes utf8 r) p (logged utf8 r) in
          ap (λ b. replay_file crc32 utf8 sink (suc (fuel_for rs k)) id last b p)
            (append_assoc (encode_record crc32 r).out (log_bytes rs) tail)
          ∙ one_record r h.0 (fuel_for rs k) (log_bytes rs ++ tail) p
          ∙ all_records rs h.1 k tail q
          ∙ ap₂
              (λ n m.
                replay_file crc32 utf8 sink k id last tail
                  (record { resolved = apply_all rs q.resolved; offset = n; records = m }))
              (omega (
                arith,
                length-append (encode_record crc32 r).out (log_bytes rs),
                length-record r h.0,
              ))
              (omega arith)

      -- A file of whole records, with `tail` behind them: the loop gets through the records and
      -- then sees the tail.
      pub replay_file-records :
          (rs : List WalRecord)
          → All Loggable rs
          → (tail : Bytes) (p : Progress S)
          → (k : ℕ) × (replay_file crc32 utf8 sink
                (length (log_bytes rs ++ tail) + 1)
                id
                last
                (log_bytes rs ++ tail)
                p
              ≡ replay_file crc32 utf8 sink (suc k) id last tail (after_all rs p))
      replay_file-records rs h tail p =
          let k = length (log_bytes rs ++ tail) - length rs in
          let fuel = fuel_for-add rs (suc k) in
          (
            k,
            ap (λ n. replay_file crc32 utf8 sink n id last (log_bytes rs ++ tail) p)
                  (omega (arith, fuel, length-append (log_bytes rs) tail, length-log_bytes rs h))
                ∙ all_records rs h (suc k) tail p,
          )
