-- ===== src/Segments/Flush.antt =====
-- A successful `flush` adds the table as one more segment and keeps the others.
use rust_tsdb.Prelude.{
  ℕ, ◌+◌, ◌≤◌, ◌<◌, ◌^◌, ◌≡◌, ◌≢◌, refl, ap, sym, ◌∙◌, Bool, true, false, Option, none, some, List,
  [], ◌∷◌, ◌++◌, inl, inr, length, map, is_empty, All, All-append, lt→ltb, Bool-cases, arith,
  if◌then◌else◌,
}
use rust_tsdb.Prelude.Eq.{◌==◌, nat_eq, eq_iff}
use rust_tsdb.Prelude.Bytes.{Str, str_eq}
use rust_tsdb.Prelude.HashMap
use rust_tsdb.Prelude.HashMap.{HashMap, or_default, get-insert, get-remove}
use rust_tsdb.Ids.Sets.{SortedIds}
use rust_tsdb.Index.{Index}
use rust_tsdb.Wal.Record.{Bytes}
use rust_tsdb.Segments.{
  Segment, SegmentMeta, Files, SegmentStore, segment_name, temporary_name, read_segment, read_bytes,
  segment_image, flush, working,
}
use rust_tsdb.Segments.Names.{segment_name-injective, temporary_name-ne-segment_name}
use rust_tsdb.Segments.Image.{ReadsBack, read_image-segment_image}
use rust_tsdb.Segments.Read.{Covers, Holds}
use rust_tsdb.Segments.Table.{
  Entry, EntryFits, disk_of, disk_series-known, entry_ids, ranges_with, ranges_with-Covers,
  series_ranges-known, sort_entries-sorted,
}

-- The files of the segments have the names of numbers that are used up.
abbrev pub Numbered : ℕ → List SegmentMeta → Type 0
Numbered next ms = All (λ (m : SegmentMeta). (k : ℕ) × (k < next) × (m.path ≡ segment_name k)) ms

Numbered-later : (n m : ℕ) (ms : List SegmentMeta) → n ≤ m → Numbered n ms → Numbered m ms
Numbered-later n m [] h k = tt
Numbered-later n m (x ∷ xs) h k =
    ((k.0.0, omega (arith, k.0.1), k.0.2), Numbered-later n m xs h k.1)

other : {V : Type 0} (a b : Str) (x y : Option V) → a ≢ b → (if a == b then x else y) ≡ y
other a b x y h = elim (Bool-cases (a == b)) [
  | inl e ↦ absurd (h ((eq_iff a b).0 e))
  | inr e ↦ rw e refl
]

chosen : (b : Bool) (x y : Option Bytes) → b ≡ true → (if b then x else y) ≡ x
chosen b x y e = rw e refl

get-insert_self :
    (files : Files) (name : Str) (image : Bytes)
    → HashMap.get (HashMap.insert files name image) name ≡ some image
get-insert_self files name image =
    get-insert files name name image
    ∙ chosen (name == name) (some image) (HashMap.get files name) ((eq_iff name name).1 refl)

lt_irrefl : (k n : ℕ) → k < n → n ≢ k
lt_irrefl k n h e = absurd (omega arith)

module _ (crc32 : Bytes → ℕ) (to_json : Segment → Bytes) (from_json : Bytes → Option Segment) where
  -- The files once the new one has its name.
  abbrev pub files_after : Files → ℕ → Bytes → Files
  files_after files n image =
      HashMap.insert (HashMap.remove files (temporary_name n)) (segment_name n) image

  pub get-files_after :
      (files : Files) (n k : ℕ) (image : Bytes)
      → n < 2 ^ 64
      → k < n
      → HashMap.get (files_after files n image) (segment_name k)
        ≡ HashMap.get files (segment_name k)
  get-files_after files n k image h l =
      get-insert (HashMap.remove files (temporary_name n)) (segment_name n) (segment_name k) image
      ∙ other (segment_name n) (segment_name k) (some image)
          (HashMap.get (HashMap.remove files (temporary_name n)) (segment_name k))
          (λ e. absurd (lt_irrefl k n l (segment_name-injective n k h (omega arith) e)))
      ∙ get-remove files (temporary_name n) (segment_name k)
      ∙ other (temporary_name n) (segment_name k) none (HashMap.get files (segment_name k))
          (temporary_name-ne-segment_name n k)

  Holds-files_after :
      (files : Files) (ix : Index) (n : ℕ) (image : Bytes) (ms : List SegmentMeta)
      (gs : List Segment)
      → n < 2 ^ 64
      → Numbered n ms
      → Holds crc32 from_json files ix ms gs
      → Holds crc32 from_json (files_after files n image) ix ms gs
  Holds-files_after files ix n image [] [] h k d = tt
  Holds-files_after files ix n image [] (g ∷ gs) h k d = absurd d
  Holds-files_after files ix n image (m ∷ ms) [] h k d = absurd d
  Holds-files_after files ix n image (m ∷ ms) (g ∷ gs) h k d = (
    ap (read_segment crc32 from_json (files_after files n image)) k.0.2
        ∙ unfold read_segment in
          ap (read_bytes crc32 from_json) (get-files_after files n k.0.0 image h k.0.1)
          ∙ ap (read_segment crc32 from_json files) (sym k.0.2)
          ∙ d.0,
    d.1,
    Holds-files_after files ix n image ms gs h k.1 d.2,
  )

  pub Holds-snoc :
      (files : Files) (ix : Index) (m : SegmentMeta) (g : Segment) (ms : List SegmentMeta)
      (gs : List Segment)
      → Holds crc32 from_json files ix ms gs
      → read_segment crc32 from_json files m.path ≡ inl g
      → Covers ix m.ranges g
      → Holds crc32 from_json files ix (ms ++ m ∷ []) (gs ++ g ∷ [])
  Holds-snoc files ix m g [] [] d r c = (r, c, tt)
  Holds-snoc files ix m g [] (x ∷ gs) d r c = absurd d
  Holds-snoc files ix m g (y ∷ ms) [] d r c = absurd d
  Holds-snoc files ix m g (y ∷ ms) (x ∷ gs) d r c =
      (d.0, d.1, Holds-snoc files ix m g ms gs d.2 r c)

  -- The new file is read back.
  pub read_segment-files_after :
      ReadsBack to_json from_json
      → ((b : Bytes) → crc32 b < 2 ^ 32)
      → (files : Files) (n : ℕ) (g : Segment) → length (to_json g) < 2 ^ 64
      → read_segment crc32 from_json
          (files_after files n (segment_image crc32 to_json (to_json g)))
          (segment_name n)
        ≡ inl g
  unfolding read_segment
  read_segment-files_after back u32 files n g small =
      ap (read_bytes crc32 from_json) (
        get-insert_self (HashMap.remove files (temporary_name n)) (segment_name n)
          (segment_image crc32 to_json (to_json g)))
      ∙ read_image-segment_image crc32 to_json from_json back u32 g small

  abbrev pub segment_of : Index → List Entry → Segment
  segment_of ix table = record { series = map (disk_of ix) table }

  -- The store with the table as its last segment.
  abbrev pub flushed : Index → List Entry → SegmentStore → SegmentStore
  flushed ix table store = record {
    files =
        files_after store.files store.next_number
          (segment_image crc32 to_json (to_json (segment_of ix table)));
    segments =
        store.segments
        ++ record { path = segment_name store.next_number; ranges = ranges_with table [] } ∷ [];
    next_number = store.next_number + 1;
  }

  -- What `flush` needs of its table: series of the index in the order of their ids, each with samples in
  -- the order of time.
  pub record TableFits (ix : Index) (table : List Entry) : Type 0 where
    pub entries : All (EntryFits ix) table
    pub sorted : SortedIds (entry_ids table)
    pub nonempty : is_empty table ≡ false
    pub small : length (to_json (segment_of ix table)) < 2 ^ 64

  pub record StoreHolds (ix : Index) (store : SegmentStore) (gs : List Segment) : Type 0 where
    pub holds : Holds crc32 from_json store.files ix store.segments gs
    pub numbered : Numbered store.next_number store.segments

  -- When all calls of the system succeed, the JSON text of a segment is read back, the checksum
  -- has 32 bits and a number is left, `flush` of a table of known series in the order of their
  -- ids, each with samples in the order of time, and with a text of fewer than 2^64 bytes,
  -- succeeds, and the store then holds the segments that it held, unchanged, and the table's as
  -- the last one.
  pub flush_lem :
      ReadsBack to_json from_json
      → ((b : Bytes) → crc32 b < 2 ^ 32)
      → (ix : Index) (table : List Entry) (store : SegmentStore) (gs : List Segment)
      → TableFits ix table
      → store.next_number + 1 < 2 ^ 64
      → StoreHolds ix store gs
      → (flush crc32 to_json working table ix store ≡ (none, flushed ix table store))
        × StoreHolds ix (flushed ix table store) (gs ++ segment_of ix table ∷ [])
  unfolding flush
  flush_lem back u32 ix table store gs t room d =
      let image = segment_image crc32 to_json (to_json (segment_of ix table)) in
      let reads =
        read_segment-files_after back u32 store.files store.next_number (segment_of ix table)
          t.small in
      (
        rw
            (
              t.nonempty,
              sort_entries-sorted table t.sorted,
              disk_series-known ix table t.entries,
              series_ranges-known ix table [] t.entries,
              lt→ltb (store.next_number + 1) (2 ^ 64) room,
            )
            refl,
        record {
          holds =
              Holds-snoc (files_after store.files store.next_number image) ix
                (record { path = segment_name store.next_number; ranges = ranges_with table [] })
                (segment_of ix table) store.segments gs
                (Holds-files_after store.files ix store.next_number image store.segments gs
                  (omega arith) d.numbered d.holds)
                reads (ranges_with-Covers ix table [] t.entries t.sorted);
          numbered =
              All-append
                (λ (m : SegmentMeta).
                  (k : ℕ) × (k < store.next_number + 1) × (m.path ≡ segment_name k))
                store.segments _
                (Numbered-later store.next_number (store.next_number + 1) store.segments
                  (omega arith) d.numbered)
                ((store.next_number, omega arith, refl), tt);
        },
      )
