-- ===== src/Wal/Reader/Frames.antt =====
-- A record on disk: its header and payload. `read_record` takes a whole one off the front and refuses
-- one that is cut short.
use rust_tsdb.Prelude.{
  ℕ, zero, suc, ◌^◌, ◌≤◌, ◌<◌, ◌≡◌, refl, ap, ap₂, ◌∙◌, List, [], ◌∷◌, ◌++◌, length, length-append,
  take, take-length-append, drop-length-append, lt→ltb, ge→ltb, ne→nat_beq, nat_beq_iff, arith,
}
use native.Mathlib.Nat.{mod-eq_of_lt}
use rust_tsdb.Wal.Record.{
  Bytes, write, max_record_bytes, from_u8, truncated, to_le_bytes, RecordHeader, header_encode,
  header_decode, record_crc, for_payload,
}
use native.Mathlib.Decide.{dec_lt}
use rust_tsdb.Wal.Codec.RoundTrip.{length-header_encode}
use rust_tsdb.Wal.Codec.Words.{from_le_bytes-to_le_bytes}
use rust_tsdb.Wal.Reader.{item, corrupt, read_payload, read_record}

-- `decode` of a header gives back what `encode` wrote, if length and checksum are 32-bit numbers.
pub header_decode-header_encode :
    (h : RecordHeader) → h.len < 2 ^ 32 → h.crc < 2 ^ 32 → header_decode (header_encode h) ≡ h
unfolding header_decode header_encode
header_decode-header_encode h len crc =
    ap₂ (λ l c. record h { len = l; crc = c }) (from_le_bytes-to_le_bytes 4 h.len (omega arith))
      (from_le_bytes-to_le_bytes 4 h.crc (omega arith))

-- A record as it stands in a log file.
abbrev pub frame : (Bytes → ℕ) → Bytes → Bytes
frame crc32 p = header_encode (for_payload crc32 write p) ++ p

-- `crc32fast` answers with a `u32`.
abbrev pub IsU32 : (Bytes → ℕ) → Type 0
IsU32 crc32 = (b : Bytes) → crc32 b < 2 ^ 32

take-all {ℓ} : {A : Type ℓ} (n : ℕ) (xs : List A) → length xs ≤ n → take n xs ≡ xs
take-all zero [] h = refl
take-all zero (x ∷ xs) h = absurd (omega arith)
take-all (suc n) [] h = refl
take-all (suc n) (x ∷ xs) h = ap (λ t. x ∷ t) (take-all n xs (omega arith))

head_eq {ℓ} : {A : Type ℓ} (x y : A) (xs ys : List A) → x ∷ xs ≡ y ∷ ys → x ≡ y
head_eq x y xs ys e = cc

tail_eq {ℓ} : {A : Type ℓ} (x y : A) (xs ys : List A) → x ∷ xs ≡ y ∷ ys → xs ≡ ys
tail_eq x y xs ys e = cc

-- A list that is cut behind `hd` begins with `hd`.
split_at {ℓ} :
    {A : Type ℓ} (hd p front back : List A)
    → front ++ back ≡ hd ++ p
    → length hd ≤ length front
    → (q : List A) × (front ≡ hd ++ q) × (q ++ back ≡ p)
split_at [] p front back e h = (front, refl, e)
split_at (x ∷ hd) p [] back e h = absurd (omega arith)
split_at (x ∷ hd) p (y ∷ front) back e h =
    let (q, same, rest) =
      split_at hd p front back (tail_eq y x (front ++ back) (hd ++ p) e) (omega arith) in
    (q, ap₂ ◌∷◌ (head_eq y x (front ++ back) (hd ++ p) e) same, rest)

module _ (crc32 : Bytes → ℕ) (u32 : IsU32 crc32) (p : Bytes)
    (fits : length p ≤ max_record_bytes) where
  small : length p ≤ max_record_bytes → length p < 2 ^ 32
  small h = omega arith

  abbrev whole : RecordHeader
  whole = record { len = length p; crc = record_crc crc32 0 (length p) p; kind = 0 }

  header_lem : header_decode (header_encode (for_payload crc32 write p)) ≡ whole
  unfolding for_payload
  header_lem =
      header_decode-header_encode (for_payload crc32 write p) (omega arith) (u32 _)
      ∙ ap (λ n. record { len = n; crc = record_crc crc32 0 n p; kind = 0 })
          (mod-eq_of_lt (small fits))

  read_payload-whole : (rest : Bytes) → read_payload crc32 whole (p ++ rest) ≡ (item write p, rest)
  unfolding read_payload from_u8
  read_payload-whole rest = rw (
    ge→ltb max_record_bytes (length p) fits,
    take-length-append p rest,
    drop-length-append p rest,
    ge→ltb (length p) (length p) (omega arith),
    (nat_beq_iff (record_crc crc32 0 (length p) p) (record_crc crc32 0 (length p) p)).1 refl,
  )

  read_payload-short :
      (q : Bytes) → length q < length p → (read_payload crc32 whole q).0 ≡ corrupt truncated
  unfolding read_payload from_u8
  read_payload-short q h = rw (
    ge→ltb max_record_bytes (length p) fits,
    take-all (length p) q (omega arith),
    lt→ltb (length q) (length p) h,
  )

  -- A whole record, with a payload that is not above the limit and a 32-bit checksum, is read, and the bytes
  -- behind it are left.
  pub read_record-frame :
      (rest : Bytes) → read_record crc32 (frame crc32 p ++ rest) ≡ (item write p, rest)
  unfolding read_record header_encode to_le_bytes
  read_record-frame rest =
      ap (λ h. read_payload crc32 h (p ++ rest)) header_lem ∙ read_payload-whole rest

  read_record-cut_payload :
      (q : Bytes)
      → length q < length p
      → (read_record crc32 (header_encode (for_payload crc32 write p) ++ q)).0 ≡ corrupt truncated
  unfolding read_record header_encode to_le_bytes
  read_record-cut_payload q h =
      ap (λ h. (read_payload crc32 h q).0) header_lem ∙ read_payload-short q h

  read_record-cut_header :
      (q : Bytes) → 0 < length q → length q < 9 → (read_record crc32 q).0 ≡ corrupt truncated
  unfolding read_record
  read_record-cut_header q h k =
      rw (take-all 9 q (omega arith), ne→nat_beq (length q) 0 (omega arith), lt→ltb (length q) 9 k)

  -- A record, with a payload that is not above the limit and a 32-bit checksum, of which at least one byte is
  -- there and at least one is missing, is refused as truncated.
  pub read_record-cut :
      (front back : Bytes)
      → front ++ back ≡ frame crc32 p
      → 0 < length front
      → 0 < length back
      → (read_record crc32 front).0 ≡ corrupt truncated
  read_record-cut front back e h k = elim (dec_lt (length front) 9) [
    | yes short ↦ read_record-cut_header front h short
    | no long ↦
        let hd = header_encode (for_payload crc32 write p) in
        let (q, same, rest) =
          split_at hd p front back e (omega (arith, length-header_encode crc32 p)) in
        rw same (read_record-cut_payload q (omega (arith, ap length rest, length-append q back)))
  ]
