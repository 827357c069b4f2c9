-- ===== src/Segments/Image.antt =====
-- The file that `flush` writes is read back.
use rust_tsdb.Prelude.{
  ℕ, ◌%◌, ◌^◌, ◌<◌, ◌≡◌, refl, false, Option, some, inl, length, nat_beq_iff, ltb, ge→ltb, arith,
}
use rust_tsdb.Prelude.Eq.{eq_iff}
use rust_tsdb.Prelude.Bytes.{str_eq}
use rust_tsdb.Wal.Record.{Bytes, to_le_bytes, from_le_bytes}
use rust_tsdb.Wal.Codec.Words.{from_le_bytes-to_le_bytes}
use rust_tsdb.Segments.{Segment, magic, segment_image, read_image}

-- What `serde_json` documents of a type with derived implementations: the text is read back.
abbrev pub ReadsBack : (Segment → Bytes) → (Bytes → Option Segment) → Type 0
ReadsBack to_json from_json = (g : Segment) → from_json (to_json g) ≡ some g

module _ (crc32 : Bytes → ℕ) (to_json : Segment → Bytes) (from_json : Bytes → Option Segment) where
  -- A file is refused or gives the segment that its payload is the text of: of the image of a
  -- segment's text, the segment, if the checksum has 32 bits and the text fewer than 2^64 bytes.
  pub read_image-segment_image :
      ReadsBack to_json from_json
      → ((b : Bytes) → crc32 b < 2 ^ 32)
      → (g : Segment) → length (to_json g) < 2 ^ 64
      → read_image crc32 from_json (segment_image crc32 to_json (to_json g)) ≡ inl g
  unfolding read_image segment_image to_le_bytes
  read_image-segment_image back u32 g h =
      let p = to_json g in
      let image = segment_image crc32 to_json p in
      let long : ltb (length image) 20 ≡ false = ge→ltb (length image) 20 (omega arith) in
      let len : from_le_bytes (to_le_bytes 8 (length p % 2 ^ 64)) ≡ length p % 2 ^ 64 =
        from_le_bytes-to_le_bytes 8 (length p % 2 ^ 64) (omega arith) in
      let crc : from_le_bytes (to_le_bytes 4 (crc32 p)) ≡ crc32 p =
        from_le_bytes-to_le_bytes 4 (crc32 p) (omega (arith, u32 p)) in
      let len_same = (nat_beq_iff (length p % 2 ^ 64) (length p % 2 ^ 64)).1 refl in
      let crc_same = (nat_beq_iff (crc32 p) (crc32 p)).1 refl in
      rw (long, read_image, (eq_iff magic magic).1 refl, len, len_same, crc, crc_same, back g) refl
