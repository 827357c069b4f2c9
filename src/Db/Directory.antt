-- ===== src/Db/Directory.antt =====
-- What the directory of the segment store holds after a flush: what `open` will read from it.
use rust_tsdb.Prelude.{
  ℕ, ◌+◌, ◌<◌, ◌^◌, ◌≡◌, refl, ap, ap₂, sym, ◌∙◌, subst, Option, none, List, [], ◌∷◌, ◌++◌, ◌⊎◌,
  inl, inr, length, All-append, arith,
}
use rust_tsdb.Prelude.Bytes.{Str, str_eq}
use rust_tsdb.Prelude.HashMap
use rust_tsdb.Prelude.HashMap.{HashMap}
use rust_tsdb.Index.{Index}
use rust_tsdb.Wal.Record.{Bytes}
use rust_tsdb.Segments.{
  Segment, Files, SegmentStore, StorageError, segment_name, segment_image, read_segment, read_bytes,
  flush, working,
}
use rust_tsdb.Segments.Image.{ReadsBack}
use rust_tsdb.Segments.Table.{Entry}
use rust_tsdb.Segments.Flush.{
  files_after, get-files_after, segment_of, flushed, TableFits, StoreHolds, flush_lem,
  read_segment-files_after,
}
use rust_tsdb.Segments.Open.{numbered_files, sort_files}
use rust_tsdb.Segments.Order.{numbered_files-Named, All-sort_files}
use rust_tsdb.Segments.Listing.{names_of, AllBelow, numbered_files-flushed, sort_files-snoc}
use rust_tsdb.Db.Reopen.{
  with_segment, read_all, read_numbered, AllNamed, AllNamed-both, segments_of,
}

module _ (crc32 : Bytes → ℕ) (to_json : Segment → Bytes) (from_json : Bytes → Option Segment) where
  -- A store whose files have numbers below the next one, and are the segments that it has.
  pub record Lists (store : SegmentStore) (gs : List Segment) : Type 0 where
    pub numbers : List (ℕ × Str)
    pub listing : numbered_files (names_of store.files) ≡ inl numbers
    pub below : AllBelow store.next_number numbers
    pub segments : read_all crc32 to_json from_json store.files (sort_files numbers) ≡ gs

  with_segment-append :
      (r : Segment ⊎ StorageError) (xs ys : List Segment)
      → with_segment crc32 to_json from_json r (xs ++ ys)
        ≡ with_segment crc32 to_json from_json r xs ++ ys
  with_segment-append (inl g) xs ys = refl
  with_segment-append (inr e) xs ys = refl

  read_all-append :
      (files : Files) (fs hs : List (ℕ × Str))
      → read_all crc32 to_json from_json files (fs ++ hs)
        ≡ read_all crc32 to_json from_json files fs ++ read_all crc32 to_json from_json files hs
  read_all-append files [] hs = refl
  read_all-append files (f ∷ fs) hs =
      ap (with_segment crc32 to_json from_json (read_segment crc32 from_json files f.1))
        (read_all-append files fs hs)
      ∙ with_segment-append (read_segment crc32 from_json files f.1)
          (read_all crc32 to_json from_json files fs) (read_all crc32 to_json from_json files hs)

  -- The files that were there are read as before.
  read_all-files_after :
      (files : Files) (n : ℕ) (image : Bytes) (fs : List (ℕ × Str))
      → n < 2 ^ 64
      → AllNamed crc32 to_json from_json n fs
      → read_all crc32 to_json from_json (files_after crc32 to_json from_json files n image) fs
        ≡ read_all crc32 to_json from_json files fs
  unfolding read_segment
  read_all-files_after files n image [] l k = refl
  read_all-files_after files n image (f ∷ fs) l k =
      let after = files_after crc32 to_json from_json files n image in
      let same : HashMap.get after f.1 ≡ HashMap.get files f.1 =
        ap (HashMap.get after) k.0.1
        ∙ get-files_after crc32 to_json from_json files n f.0 image l k.0.0
        ∙ ap (HashMap.get files) (sym k.0.1) in
      ap₂ (with_segment crc32 to_json from_json) (ap (read_bytes crc32 from_json) same)
        (read_all-files_after files n image fs l k.1)

  AllBelow-later : (n : ℕ) (fs : List (ℕ × Str)) → AllBelow n fs → AllBelow (n + 1) fs
  AllBelow-later n [] h = tt
  AllBelow-later n (f ∷ fs) h = (omega arith, AllBelow-later n fs h.1)

  -- What a flush leaves in the directory: the files of the store, and the new one behind them.
  flushed-Lists :
      ReadsBack to_json from_json
      → ((b : Bytes) → crc32 b < 2 ^ 32)
      → (ix : Index) (table : List Entry) (store : SegmentStore) (gs : List Segment)
      → length (to_json (segment_of crc32 to_json from_json ix table)) < 2 ^ 64
      → store.next_number < 2 ^ 64
      → Lists store gs
      → Lists
          (flushed crc32 to_json from_json ix table store)
          (gs ++ segment_of crc32 to_json from_json ix table ∷ [])
  flushed-Lists back u32 ix table store gs small l d =
      let n = store.next_number in
      let g = segment_of crc32 to_json from_json ix table in
      let image = segment_image crc32 to_json (to_json g) in
      let after = files_after crc32 to_json from_json store.files n image in
      let one : List (ℕ × Str) = (n, segment_name n) ∷ [] in
      let named =
        All-sort_files (λ (f : ℕ × Str). (f.0 < n) × (f.1 ≡ segment_name f.0)) d.numbers
          (AllNamed-both crc32 to_json from_json n d.numbers d.below
            (numbered_files-Named (names_of store.files) d.numbers d.listing)) in
      record {
        numbers = d.numbers ++ one;
        listing = numbered_files-flushed store.files n image d.numbers l d.listing d.below;
        below = All-append _ d.numbers one (AllBelow-later n d.numbers d.below) (omega arith, tt);
        segments =
            ap (read_all crc32 to_json from_json after)
              (sort_files-snoc d.numbers (n, segment_name n) d.below)
            ∙ read_all-append after (sort_files d.numbers) one
            ∙ ap₂ (λ xs ys. xs ++ ys)
                (read_all-files_after store.files n image (sort_files d.numbers) l named
                  ∙ d.segments)
                (ap (λ r. with_segment crc32 to_json from_json r [])
                  (read_segment-files_after crc32 to_json from_json back u32 store.files n g
                    small));
      }

  -- On a store whose directory lists exactly its segments with numbers below the next one, when all calls of the
  -- system succeed, the JSON text of a segment is read back, the checksum has 32 bits and a number is left, a
  -- `flush` of a table of known series in the order of their ids, each with samples in the order of time, and with
  -- a text of fewer than 2^64 bytes, succeeds, and the directory then lists exactly the same segments and the
  -- table's behind them, in the order in which `open` reads them, also when a temporary file was left behind.
  pub flush-Lists :
      ReadsBack to_json from_json
      → ((b : Bytes) → crc32 b < 2 ^ 32)
      → (ix : Index) (table : List Entry) (store : SegmentStore) (gs : List Segment)
      → TableFits crc32 to_json from_json ix table
      → store.next_number + 1 < 2 ^ 64
      → StoreHolds crc32 to_json from_json ix store gs
      → Lists store gs
      → ((flush crc32 to_json working table ix store).0 ≡ none)
        × Lists
            (flush crc32 to_json working table ix store).1
            (gs ++ segment_of crc32 to_json from_json ix table ∷ [])
  flush-Lists back u32 ix table store gs t room d ls =
      let done = (flush_lem crc32 to_json from_json back u32 ix table store gs t room d).0 in
      (
        ap (λ (r : Option StorageError × SegmentStore). r.0) done,
        subst
            (λ (r : Option StorageError × SegmentStore).
              Lists r.1 (gs ++ segment_of crc32 to_json from_json ix table ∷ []))
            (sym done) (flushed-Lists back u32 ix table store gs t.small (omega arith) ls),
      )

  -- What `open` reads of a listed directory are its segments.
  pub Lists-segments_of :
      (store : SegmentStore) (gs : List Segment)
      → Lists store gs
      → segments_of crc32 to_json from_json store.files ≡ gs
  Lists-segments_of store gs d =
      ap (read_numbered crc32 to_json from_json store.files) d.listing ∙ d.segments
