-- ===== src/Db/Reopen.antt =====
-- What `SegmentStore::open` gives: a store that holds the segments of its files, in the order of their numbers.
use rust_tsdb.Prelude.{
  map, ap₂, ◌≤◌, ℕ, ◌+◌, ◌<◌, ◌^◌, ◌≡◌, refl, ap, sym, ◌∙◌, subst, Option, none, some, List, [],
  ◌∷◌, ◌++◌, ◌⊎◌, inl, inr, append-nil, append_assoc, length, last?, All, All-append, arith,
}
use rust_tsdb.Prelude.Bytes.{Str, str_eq}
use rust_tsdb.Prelude.Eq.{nat_eq}
use rust_tsdb.LabelSet.{LabelSet}
use rust_tsdb.Index.{Index}
use rust_tsdb.Segments.{
  Segment, SegmentMeta, Files, SegmentStore, StorageError, corrupt_segment, read_segment,
  segment_name,
}
use rust_tsdb.Segments.Read.{Holds}
use rust_tsdb.Segments.Flush.{Numbered, StoreHolds, Holds-snoc}
use rust_tsdb.Segments.Open.{
  Indexing, Opening, numbered_files, sort_files, number_after, index_segment, push_segment,
  on_segment_read, open_segments, opened_store, open_files, open_store,
}
use rust_tsdb.Segments.Listing.{
  count, paths_of, numbered_files-count, sort_files-count, names_of, AllBelow,
}
use rust_tsdb.Segments.Order.{
  InOrder, Named, numbered_files-Named, All-sort_files, sort_files-InOrder, number_after-above,
  number_after-below,
}
use rust_tsdb.Wal.Record.{Bytes}
use rust_tsdb.Db.Grow.{Holds-Grows}
use rust_tsdb.Db.Indexed.{LabelsSorted, index_segment-Indexes}
use rust_tsdb.Db.Keep.{IsOrderly}
use rust_tsdb.Db.View.{state_at}

-- How many series the segments have.
abbrev pub series_count : List Segment → ℕ
series_count [] = 0
series_count (g ∷ gs) = length g.series + series_count gs

abbrev pub AllSorted : List Segment → Type 0
AllSorted gs = All (λ (g : Segment). LabelsSorted g.series) gs

abbrev given : Opening → Opening ⊎ StorageError
given o = inl o

no_opening : (e : StorageError) (o : Opening) → inr e ≡ given o → ⊥
no_opening e o h = cc

same_opening : (o p : Opening) → given o ≡ given p → o ≡ p
same_opening o p h = cc

-- An opening with one segment more.
abbrev pushed : Opening → Str → Indexing → Opening
pushed o path st = record {
  index = st.index;
  latest = st.latest;
  segments = o.segments ++ record { path = path; ranges = st.ranges } ∷ [];
}

abbrev start : Opening → Indexing
start o = record { index = o.index; latest = o.latest; ranges = [] }

push_segment-inl :
    (o next : Opening) (path : Str) (r : Indexing ⊎ StorageError)
    → push_segment o path r ≡ given next
    → (st : Indexing) × (r ≡ inl st) × (next ≡ pushed o path st)
push_segment-inl o next path (inr e) h = absurd (no_opening e next h)
push_segment-inl o next path (inl st) h = (st, refl, sym (same_opening (pushed o path st) next h))

on_segment_read-inl :
    (o next : Opening) (path : Str) (r : Segment ⊎ StorageError)
    → on_segment_read o path r ≡ given next
    → (g : Segment) × (r ≡ inl g)
      × ((st : Indexing) × (index_segment g.series (start o) ≡ inl st) × (next ≡ pushed o path st))
on_segment_read-inl o next path (inr e) h = absurd (no_opening e next h)
on_segment_read-inl o next path (inl g) h =
    (g, refl, push_segment-inl o next path (index_segment g.series (start o)) h)

Opening-cases :
    (r : Opening ⊎ StorageError)
    → ((e : StorageError) × (r ≡ inr e)) ⊎ ((o : Opening) × (r ≡ inl o))
Opening-cases (inl o) = inr (o, refl)
Opening-cases (inr e) = inl (e, refl)

abbrev pub meta_paths : List SegmentMeta → List Str
meta_paths ms = map (λ (m : SegmentMeta). m.path) ms

meta_paths-snoc :
    (ms : List SegmentMeta) (m : SegmentMeta)
    → meta_paths (ms ++ m ∷ []) ≡ meta_paths ms ++ m.path ∷ []
meta_paths-snoc [] m = refl
meta_paths-snoc (n ∷ ms) m = ap (λ xs. n.path ∷ xs) (meta_paths-snoc ms m)

abbrev pub Rising : List ℕ → Type 0
Rising [] = Unit
Rising (n ∷ ns) = All (λ m. n ≤ m) ns × Rising ns

abbrev numbers_of : List (ℕ × Str) → List ℕ
numbers_of fs = map (λ (f : ℕ × Str). f.0) fs

All-numbers_of :
    (n : ℕ) (fs : List (ℕ × Str))
    → All (λ (f : ℕ × Str). n ≤ f.0) fs
    → All (λ m. n ≤ m) (numbers_of fs)
All-numbers_of n [] h = tt
All-numbers_of n (f ∷ fs) h = (h.0, All-numbers_of n fs h.1)

numbers_of-Rising : (fs : List (ℕ × Str)) → InOrder fs → Rising (numbers_of fs)
numbers_of-Rising [] h = tt
numbers_of-Rising (f ∷ fs) h = (All-numbers_of f.0 fs h.0, numbers_of-Rising fs h.1)

numbers_of-AllBelow :
    (next : ℕ) (fs : List (ℕ × Str)) → AllBelow next fs → All (λ k. k < next) (numbers_of fs)
numbers_of-AllBelow next [] h = tt
numbers_of-AllBelow next (f ∷ fs) h = (h.0, numbers_of-AllBelow next fs h.1)

paths_of-Named : (fs : List (ℕ × Str)) → Named fs → paths_of fs ≡ map segment_name (numbers_of fs)
paths_of-Named [] h = refl
paths_of-Named (f ∷ fs) h = ap₂ (λ (x : Str) xs. x ∷ xs) h.0 (paths_of-Named fs h.1)

module _ (crc32 : Bytes → ℕ) (to_json : Segment → Bytes) (from_json : Bytes → Option Segment) where
  abbrev pub with_segment : Segment ⊎ StorageError → List Segment → List Segment
  with_segment (inl g) gs = g ∷ gs
  with_segment (inr e) gs = gs

  -- The segments that can be read of these files.
  abbrev pub read_all : Files → List (ℕ × Str) → List Segment
  read_all files [] = []
  read_all files (f ∷ fs) =
      with_segment (read_segment crc32 from_json files f.1) (read_all files fs)

  -- What the loop over the files does.
  pub record Opens (files : Files) (o : Opening) (next : ℕ) (gs : List Segment) (after : Opening)
      : Type 0 where
    pub orderly : IsOrderly after.index
    pub states : (ls : LabelSet) → state_at after.index ls ≡ state_at o.index ls
    pub holds : Holds crc32 from_json files after.index after.segments gs
    pub numbered : Numbered next after.segments

  abbrev pub AllNamed : ℕ → List (ℕ × Str) → Type 0
  AllNamed next fs = All (λ (f : ℕ × Str). (f.0 < next) × (f.1 ≡ segment_name f.0)) fs

  pub open_segments-Opens :
      (files : Files) (fs : List (ℕ × Str)) (o after : Opening) (next : ℕ) (gs : List Segment)
      → IsOrderly o.index
      → Holds crc32 from_json files o.index o.segments gs
      → Numbered next o.segments
      → AllNamed next fs
      → AllSorted (read_all files fs)
      → o.index.next_id + series_count (read_all files fs) < 2 ^ 64
      → open_segments crc32 from_json files fs o ≡ inl after
      → Opens files o next (gs ++ read_all files fs) after
  unfolding open_segments
  open_segments-Opens files [] o after next gs ord d n named sorted room = λ h.
      subst (Opens files o next (gs ++ [])) (same_opening o after h) (record {
        orderly = ord;
        states = λ ls. refl;
        holds = subst (Holds crc32 from_json files o.index o.segments) (sym (append-nil gs)) d;
        numbered = n;
      })
  open_segments-Opens files (f ∷ fs) o after next gs ord d n named sorted room =
      elim (Opening-cases (on_segment_read o f.1 (read_segment crc32 from_json files f.1))) [
        | inl (e, r) ↦ rw (r, open_segments) (λ h. absurd (no_opening e after h))
        | inr (mid, r) ↦
            let (g, reads, (st, indexes, same)) =
              on_segment_read-inl o mid f.1 (read_segment crc32 from_json files f.1) r in
            let rest = read_all files fs in
            let sorted' = subst (λ x. AllSorted (with_segment x rest)) reads sorted in
            let room' =
              subst (λ x. o.index.next_id + series_count (with_segment x rest) < 2 ^ 64) reads
                room in
            let d' =
              index_segment-Indexes g.series (start o) st ord sorted'.0 (omega arith) indexes in
            let meta : SegmentMeta = record { path = f.1; ranges = st.ranges } in
            let held =
              Holds-snoc crc32 to_json from_json files st.index meta g o.segments gs
                (Holds-Grows crc32 to_json from_json o.index st.index files o.segments gs d'.grows
                  d)
                reads d'.covers in
            let numbered =
              All-append _ o.segments (meta ∷ []) n ((f.0, named.0.0, named.0.1), tt) in
            rw (r, open_segments)
              (λ h.
                let opens =
                  open_segments-Opens files fs (pushed o f.1 st) after next (gs ++ g ∷ [])
                    d'.orderly held numbered named.1 sorted'.1 (omega (arith, d'.ids_used))
                    (subst (λ m. open_segments crc32 from_json files fs m ≡ inl after) same h) in
                subst (λ x. Opens files o next (gs ++ with_segment x rest) after) (sym reads)
                  (record {
                    orderly = opens.orderly;
                    states = λ ls. opens.states ls ∙ d'.states ls;
                    holds =
                        subst (Holds crc32 from_json files after.index after.segments)
                          (append_assoc gs (g ∷ []) rest) opens.holds;
                    numbered = opens.numbered;
                  }))
      ]

  open_segments-paths :
      (files : Files) (fs : List (ℕ × Str)) (o after : Opening)
      → open_segments crc32 from_json files fs o ≡ inl after
      → meta_paths after.segments ≡ meta_paths o.segments ++ paths_of fs
  unfolding open_segments
  open_segments-paths files [] o after = λ h.
      ap (λ (q : Opening). meta_paths q.segments) (sym (same_opening o after h))
      ∙ sym (append-nil (meta_paths o.segments))
  open_segments-paths files (f ∷ fs) o after =
      elim (Opening-cases (on_segment_read o f.1 (read_segment crc32 from_json files f.1))) [
        | inl (e, r) ↦ rw (r, open_segments) (λ h. absurd (no_opening e after h))
        | inr (mid, r) ↦
            let (g, reads, (st, indexes, same)) =
              on_segment_read-inl o mid f.1 (read_segment crc32 from_json files f.1) r in
            rw (r, open_segments)
              (λ h.
                open_segments-paths files fs mid after h
                ∙ ap (λ (q : Opening). meta_paths q.segments ++ paths_of fs) same
                ∙ ap (λ xs. xs ++ paths_of fs)
                    (meta_paths-snoc o.segments (record { path = f.1; ranges = st.ranges }))
                ∙ append_assoc (meta_paths o.segments) (f.1 ∷ []) (paths_of fs))
      ]

  abbrev pub read_numbered : Files → List (ℕ × Str) ⊎ StorageError → List Segment
  read_numbered files (inl numbers) = read_all files (sort_files numbers)
  read_numbered files (inr e) = []

  -- The segments in a directory: those of its segment files, in the order of the numbers in their names.
  abbrev pub segments_of : Files → List Segment
  segments_of files = read_numbered files (numbered_files (names_of files))

  -- What `open` gives.
  pub record Reopens (files : Files) (ix : Index) (o : Opening) (store : SegmentStore)
      : Type 0 where
    pub orderly : IsOrderly o.index
    pub states : (ls : LabelSet) → state_at o.index ls ≡ state_at ix ls
    pub store_holds : StoreHolds crc32 to_json from_json o.index store (segments_of files)
    pub files_same : store.files ≡ files
    pub numbers : List ℕ
    pub rising : Rising numbers
    pub in_use : All (λ k. k < store.next_number) numbers
    pub next_below : store.next_number < 2 ^ 64
    pub paths : meta_paths store.segments ≡ map segment_name numbers
    pub complete :
        (n : ℕ)
        → n < 2 ^ 64
        → count (segment_name n) (meta_paths store.segments)
          ≡ count (segment_name n) (names_of files)

  abbrev opened_as : Opening → SegmentStore → (Opening × SegmentStore) ⊎ StorageError
  opened_as o store = inl (o, store)

  no_store : (e : StorageError) (o : Opening) (store : SegmentStore) → inr e ≡ opened_as o store → ⊥
  no_store e o store h = cc

  same_store :
      (o p : Opening) (store other : SegmentStore)
      → opened_as o store ≡ opened_as p other
      → (o ≡ p) × (store ≡ other)
  same_store o p store other h = (cc, cc)

  opened_store-inl :
      (files : Files) (next : Option ℕ) (r : Opening ⊎ StorageError) (o : Opening)
      (store : SegmentStore)
      → opened_store crc32 from_json files next r ≡ opened_as o store
      → (n : ℕ) × (next ≡ some n)
        × (r ≡ inl o)
        × (store ≡ record { files = files; segments = o.segments; next_number = n })
  opened_store-inl files next (inr e) o store h = absurd (no_store e o store h)
  opened_store-inl files none (inl p) o store h = absurd (no_store corrupt_segment o store h)
  opened_store-inl files (some n) (inl p) o store h =
      let same =
        same_store p o (record { files = files; segments = p.segments; next_number = n }) store h in
      (
        n,
        refl,
        ap given same.0,
        sym same.1
            ∙ ap (λ (q : Opening). record { files = files; segments = q.segments; next_number = n })
                same.0,
      )

  pub AllNamed-both :
      (next : ℕ) (fs : List (ℕ × Str)) → AllBelow next fs → Named fs → AllNamed next fs
  AllNamed-both next [] h k = tt
  AllNamed-both next (f ∷ fs) h k = ((h.0, k.0), AllNamed-both next fs h.1 k.1)

  open_files-Reopens :
      (files : Files) (ix : Index) (o : Opening) (store : SegmentStore)
      (r : List (ℕ × Str) ⊎ StorageError)
      → numbered_files (names_of files) ≡ r
      → IsOrderly ix
      → AllSorted (segments_of files)
      → ix.next_id + series_count (segments_of files) < 2 ^ 64
      → open_files crc32 from_json files ix r ≡ opened_as o store
      → Reopens files ix o store
  open_files-Reopens files ix o store (inr e) same ord sorted room h = absurd (no_store e o store h)
  open_files-Reopens files ix o store (inl numbers) same ord sorted room h =
      let fs = sort_files numbers in
      let begin : Opening = record { index = ix; latest = []; segments = [] } in
      let (n, next, loop, stored) =
        opened_store-inl files (number_after (last? fs))
          (open_segments crc32 from_json files fs begin) o store h in
      let above = number_after-above n fs (sort_files-InOrder numbers) next in
      let sorted_named =
        All-sort_files (λ (f : ℕ × Str). f.1 ≡ segment_name f.0) numbers
          (numbered_files-Named (names_of files) numbers same) in
      let named = AllNamed-both n fs above sorted_named in
      let read : meta_paths store.segments ≡ paths_of fs =
        ap (λ (s : SegmentStore). meta_paths s.segments) stored
        ∙ open_segments-paths files fs begin o loop in
      let opens =
        open_segments-Opens files fs begin o n [] ord tt tt named
          (subst (λ x. AllSorted (read_numbered files x)) same sorted)
          (subst (λ x. ix.next_id + series_count (read_numbered files x) < 2 ^ 64) same room)
          loop in
      record {
        orderly = opens.orderly;
        states = opens.states;
        store_holds =
            subst (λ s. StoreHolds crc32 to_json from_json o.index s (segments_of files))
              (sym stored)
              (subst
                (λ x.
                  StoreHolds crc32 to_json from_json o.index
                    (record { files = files; segments = o.segments; next_number = n })
                    (read_numbered files x))
                (sym same) (record { holds = opens.holds; numbered = opens.numbered }));
        files_same = ap (λ (s : SegmentStore). s.files) stored;
        numbers = numbers_of fs;
        rising = numbers_of-Rising fs (sort_files-InOrder numbers);
        in_use =
            subst (λ (s : SegmentStore). All (λ k. k < s.next_number) (numbers_of fs)) (sym stored)
              (numbers_of-AllBelow n fs above);
        next_below =
            subst (λ (s : SegmentStore). s.next_number < 2 ^ 64) (sym stored)
              (number_after-below (last? fs) n next);
        paths = read ∙ paths_of-Named fs sorted_named;
        complete = λ k l.
            ap (count (segment_name k)) read
            ∙ sort_files-count (segment_name k) numbers
            ∙ numbered_files-count (names_of files) numbers k l same;
      }

  -- When `SegmentStore::open` succeeds on an index in order, the label sets in the files are in order and there
  -- are ids left for their series, then the store has a segment for every name of the directory that is the name of
  -- a segment's number below 2^64, as often as the directory has it, and for no other name; they stand in the
  -- order of their numbers; each is what its file is read as, none is left out, and it is covered by
  -- its ranges; the index stays in order and has gained no samples; and the next number is above all in use, and below 2^64.
  pub open_store-Reopens :
      (files : Files) (ix : Index) (o : Opening) (store : SegmentStore)
      → IsOrderly ix
      → AllSorted (segments_of files)
      → ix.next_id + series_count (segments_of files) < 2 ^ 64
      → open_store crc32 from_json files ix ≡ inl (o, store)
      → Reopens files ix o store
  unfolding open_store
  open_store-Reopens files ix o store ord sorted room h =
      open_files-Reopens files ix o store (numbered_files (names_of files)) refl ord sorted room h
