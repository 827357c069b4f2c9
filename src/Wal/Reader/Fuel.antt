-- ===== src/Wal/Reader/Fuel.antt =====
-- The loop over a file ends before its fuel does, whatever bytes are in the file.
use rust_tsdb.Prelude.{
  ℕ, zero, suc, ◌≤◌, ◌<◌, ◌≢◌, Bool, true, false, [], ◌∷◌, length, take, drop, arith, inl, inr,
  Option-cases,
}
use rust_tsdb.Wal.Record.{Bytes, RecordHeader, WalRecord, from_u8, header_decode}
use rust_tsdb.Wal.Codec
use rust_tsdb.Wal.Codec.{decode}
use rust_tsdb.Wal.Replay.{ReplaySink}
use rust_tsdb.Wal.Reader.{
  ReadResult, done, item, corrupt, read_full, read_payload, read_record, Progress, FileEnd, failed,
  out_of_fuel, on_decoded, on_read, replay_file,
}

length-drop-le : (n : ℕ) (xs : Bytes) → length (drop n xs) ≤ length xs
length-drop-le zero xs = omega arith
length-drop-le (suc n) [] = omega arith
length-drop-le (suc n) (x ∷ xs) = omega (arith, length-drop-le n xs)

module _ (crc32 : Bytes → ℕ) where
  length-read_payload :
      (h : RecordHeader) (src : Bytes) → length (read_payload crc32 h src).1 ≤ length src
  unfolding read_payload read_full
  length-read_payload h src = elim (Option-cases (from_u8 h.kind)) [
    | inl n ↦ rw (n, read_payload) (omega arith)
    | inr (kind, k) ↦ rw (k, read_payload) (ground (arith, length-drop-le h.len src))
  ]

  length-read_record :
      (b : ℕ) (bs : Bytes) → length (read_record crc32 (b ∷ bs)).1 < length (b ∷ bs)
  unfolding read_record read_full
  length-read_record b bs =
      ground (
        arith,
        length-drop-le 8 bs,
        length-read_payload (header_decode (b ∷ take 8 bs)) (drop 8 bs),
      )

module _ (crc32 : Bytes → ℕ) (utf8 : Bytes → Bool) {S : Type 0} (sink : ReplaySink S) where
  abbrev Ends : FileEnd S → Type 0
  Ends r = r ≢ failed out_of_fuel

  on_decoded-Ends :
      (next : Bytes → Progress S → FileEnd S) (id : ℕ) (payload rest : Bytes) (p : Progress S)
      → (r : Codec.Result WalRecord) → ((q : Progress S) → Ends (next rest q))
      → Ends (on_decoded crc32 utf8 sink next id payload rest p r)
  on_decoded-Ends next id payload rest p (Codec.Result.ok rec) h = h _
  on_decoded-Ends next id payload rest p (Codec.Result.err e) h = λ x. absurd (cc)

  on_read-Ends :
      (next : Bytes → Progress S → FileEnd S) (id : ℕ) (last : Bool) (p : Progress S)
      → (r : ReadResult × Bytes) → ((q : Progress S) → Ends (next r.1 q))
      → Ends (on_read crc32 utf8 sink next id last p r)
  on_read-Ends next id last p (done, rest) h = λ x. absurd (cc)
  on_read-Ends next id last p (item kind payload, rest) h =
      on_decoded-Ends next id payload rest p (decode utf8 kind payload) h
  on_read-Ends next id true p (corrupt reason, rest) h = λ x. absurd (cc)
  on_read-Ends next id false p (corrupt reason, rest) h = λ x. absurd (cc)

  -- On any bytes, one more round than there are bytes is fuel enough for the loop over a file.
  pub replay_file-enough :
      (fuel id : ℕ) (last : Bool) (src : Bytes) (p : Progress S)
      → length src < fuel
      → replay_file crc32 utf8 sink fuel id last src p ≢ failed out_of_fuel
  unfolding replay_file
  replay_file-enough zero id last src p h = absurd (omega arith)
  replay_file-enough (suc fuel) id last [] p h = unfold read_record read_full in λ x. absurd (cc)
  replay_file-enough (suc fuel) id last (b ∷ bs) p h =
      on_read-Ends (replay_file crc32 utf8 sink fuel id last) id last p (read_record crc32 (b ∷ bs))
        (λ q.
          replay_file-enough fuel id last (read_record crc32 (b ∷ bs)).1 q
            (omega (arith, h, length-read_record crc32 b bs)))
