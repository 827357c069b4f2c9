-- ===== src/Db/Flush.antt =====
-- `flush` moves samples to disk, and every query still gives what it gave.
use rust_tsdb.Prelude.{
  ℕ, ◌+◌, ◌≤◌, ◌<◌, ◌^◌, ◌≡◌, refl, ap, ap₂, sym, ◌∙◌, subst, Bool, true, false, Option, none, some,
  List, [], ◌∷◌, ◌++◌, inl, inr, map, append-nil, length, All, keep, concat_map, concat_map-append,
  is_empty, nat_beq, ltb, Bool-cases, Option-cases, arith, if◌then◌else◌,
}
use rust_tsdb.Prelude.Eq.{nat_eq}
use rust_tsdb.Prelude.HashMap
use rust_tsdb.Prelude.HashMap.{HashMap}
use rust_tsdb.Model.{SeriesId, TimeRange, Matcher, in_timerange}
use rust_tsdb.LabelSet.{LabelSet}
use rust_tsdb.Ids.Sets.{SortedIds, mem, mem-keep}
use rust_tsdb.Series.{SeriesState}
use rust_tsdb.Series.Valid.{IsValid, UpTo-nil}
use rust_tsdb.Index
use rust_tsdb.Index.{Index}
use rust_tsdb.Index.Invariant.{IsWellFormed}
use rust_tsdb.Index.Resolve.{matches_all}
use rust_tsdb.Segments
use rust_tsdb.Segments.{Segment, SegmentMeta, Files, SegmentStore, working, Fault}
use rust_tsdb.Segments.Image.{ReadsBack}
use rust_tsdb.Segments.Read.{Holds}
use rust_tsdb.Segments.Flush.{segment_of, flushed, flush_lem, StoreHolds}
use rust_tsdb.Segments.Table.{Entry, labels_of, disk_of, EntryFits}
use rust_tsdb.Wal.Record.{Bytes}
use rust_tsdb.Wal.Flusher.{WalConfig}
use rust_tsdb.Db.{
  DbState, DbError, Persistence, SeriesResult, state_of, cut_log, remove_logs, after_flush,
  flush_with, flush_state, flush, query,
}
use rust_tsdb.Db.Labels.{samples_under}
use rust_tsdb.Db.Grow.{unknown-on_disk}
use rust_tsdb.Db.View.{held, state_at, state_at-known, state_at-unknown, held-stored, known_mem}
use rust_tsdb.Db.Query.{
  on_disk, stored, answer, DiskHolds, IsSound, query_lem, All-mem, known_id, and_left,
}
use rust_tsdb.Db.Table.{entry_ids-SortedIds, All-EntryFits, under-table_of}
use rust_tsdb.Db.Take.{
  with_heap, with_heap-IsWellFormed, table_of, All-IsKnown, take_table_lem, all_ids-All,
}

module _ (crc32 : Bytes → ℕ) (to_json : Segment → Bytes) (from_json : Bytes → Option Segment)
    (cfg : WalConfig) where
  -- The segments once the table is on disk; no file is written for an empty table.
  abbrev pub segments_with : Index → List Entry → List Segment → List Segment
  segments_with ix table gs =
      if is_empty table then gs else gs ++ segment_of crc32 to_json from_json ix table ∷ []

  abbrev pub all_table : Index → List Entry
  all_table ix = table_of ix ix.all_ids

  -- There is a number left for a segment, and its text is not too long.
  pub record HasRoom (st : DbState) : Type 0 where
    pub number_left : (p : Persistence) → st.persistence ≡ some p → p.disk.next_number + 1 < 2 ^ 64
    pub text_small :
        (heap : HashMap SeriesId SeriesState)
        → length (
            to_json
              (segment_of crc32 to_json from_json (with_heap st.index heap) (all_table st.index)))
          < 2 ^ 64

  on_disk-segments_with :
      (ix : Index) (table : List Entry) (gs : List Segment) (ls : LabelSet)
      → on_disk (segments_with ix table gs) ls
        ≡ on_disk gs ls ++ concat_map (samples_under ls) (map (disk_of ix) table)
  on_disk-segments_with ix [] gs ls = sym (append-nil (on_disk gs ls))
  on_disk-segments_with ix (e ∷ es) gs ls =
      concat_map-append (λ (g : Segment). concat_map (samples_under ls) g.series) gs
        (segment_of crc32 to_json from_json ix (e ∷ es) ∷ [])
      ∙ ap (λ b. on_disk gs ls ++ b)
          (append-nil (concat_map (samples_under ls) (map (disk_of ix) (e ∷ es))))

  Holds-with_heap :
      (ix : Index) (heap : HashMap SeriesId SeriesState) (files : Files) (ms : List SegmentMeta)
      (gs : List Segment)
      → Holds crc32 from_json files ix ms gs
      → Holds crc32 from_json files (with_heap ix heap) ms gs
  unfolding Index.id_for
  Holds-with_heap ix heap files [] [] d = tt
  Holds-with_heap ix heap files [] (g ∷ gs) d = absurd d
  Holds-with_heap ix heap files (m ∷ ms) [] d = absurd d
  Holds-with_heap ix heap files (m ∷ ms) (g ∷ gs) d =
      (d.0, d.1, Holds-with_heap ix heap files ms gs d.2)

  StoreHolds-with_heap :
      (ix : Index) (heap : HashMap SeriesId SeriesState) (store : SegmentStore) (gs : List Segment)
      → StoreHolds crc32 to_json from_json ix store gs
      → StoreHolds crc32 to_json from_json (with_heap ix heap) store gs
  StoreHolds-with_heap ix heap store gs d = record {
    holds = Holds-with_heap ix heap store.files store.segments gs d.holds;
    numbered = d.numbered;
  }

  labels_of-with_heap :
      (ix : Index) (heap : HashMap SeriesId SeriesState) (id : SeriesId)
      → labels_of (with_heap ix heap) id ≡ labels_of ix id
  unfolding Index.labels_for
  labels_of-with_heap ix heap id = refl

  either-IsValid :
      (b : Bool) (st : SeriesState)
      → IsValid st
      → IsValid (if b then record st { samples = [] } else st)
  either-IsValid true st v = record { ascending = tt; bounded = UpTo-nil st.newest }
  either-IsValid false st v = v

  -- What a flush keeps: the database is sound, and every known id has the same stored samples.
  pub record Kept (st : DbState) (gs : List Segment) (after : DbState) (gs' : List Segment)
      : Type 0 where
    pub sound : IsSound crc32 to_json from_json after gs'
    pub failed_same : after.failed ≡ st.failed
    pub ids_same : after.index.all_ids ≡ st.index.all_ids
    pub forward_same : after.index.forward ≡ st.index.forward
    pub answer_same :
        (range : TimeRange) (id : SeriesId)
        → mem id st.index.all_ids ≡ true
        → answer after.index gs' range id ≡ answer st.index gs range id
    pub view_same :
        (ls : LabelSet)
        → (held after.index gs' ls ≡ held st.index gs ls)
          × ((state_at after.index ls).newest ≡ (state_at st.index ls).newest)

  module _ (back : ReadsBack to_json from_json) (u32 : (b : Bytes) → crc32 b < 2 ^ 32) where
    -- The store's `flush`, an empty table included.
    disk_flush :
        (ix : Index) (table : List Entry) (store : SegmentStore) (gs : List Segment)
        → All (EntryFits ix) table
        → SortedIds (map (λ (e : Entry). e.0) table)
        → length (to_json (segment_of crc32 to_json from_json ix table)) < 2 ^ 64
        → store.next_number + 1 < 2 ^ 64
        → StoreHolds crc32 to_json from_json ix store gs
        → (after : SegmentStore) × (Segments.flush crc32 to_json working table ix store
            ≡ (none, after))
          × StoreHolds crc32 to_json from_json ix after (segments_with ix table gs)
    disk_flush ix [] store gs f s h n d = (store, unfold Segments.flush in refl, d)
    disk_flush ix (e ∷ es) store gs f s h n d =
        let done =
          flush_lem crc32 to_json from_json back u32 ix (e ∷ es) store gs
            (record { entries = f; sorted = s; nonempty = refl; small = h }) n d in
        (flushed crc32 to_json from_json ix (e ∷ es) store, done.0, done.1)

    stored-flushed :
        (ix : Index) (heap : HashMap SeriesId SeriesState) (gs : List Segment) (id : SeriesId)
        → IsWellFormed ix
        → mem id ix.all_ids ≡ true
        → state_of (with_heap ix heap) id
          ≡ (if mem id ix.all_ids then record (state_of ix id) { samples = [] } else state_of ix id)
        → stored (with_heap ix heap) (segments_with (with_heap ix heap) (all_table ix) gs) id
          ≡ stored ix gs id
    unfolding Index.get HashMap.get
    stored-flushed ix heap gs id w m st =
        let jx = with_heap ix heap in
        let here : (b : Bool)
            → b ≡ true
            → (if b then (state_of ix id).samples else []) ≡ (state_of ix id).samples =
          λ b e. rw e refl in
        let left : (b : Bool)
            → b ≡ true
            → (if b then record (state_of ix id) { samples = [] } else state_of ix id).samples
              ≡ [] =
          λ b e. rw e refl in
        ap₂ (λ a b. a ++ b)
          (on_disk-segments_with jx (all_table ix) gs (labels_of jx id)
            ∙ ap₂ (λ (ls : LabelSet) xs. on_disk gs ls ++ xs) (labels_of-with_heap ix heap id)
                (under-table_of jx (with_heap-IsWellFormed ix heap w) ix ix.all_ids id w.ids_sorted
                    (All-IsKnown ix heap ix.all_ids (all_ids-All ix w))
                    (known_id jx (with_heap-IsWellFormed ix heap w) id m)
                  ∙ here (mem id ix.all_ids) m))
          (ap (λ (s : SeriesState). s.samples) st ∙ left (mem id ix.all_ids) m)
        ∙ append-nil (on_disk gs (labels_of ix id) ++ (state_of ix id).samples)

    either-newest :
        (b : Bool) (st : SeriesState)
        → (if b then record st { samples = [] } else st).newest ≡ st.newest
    either-newest true st = refl
    either-newest false st = refl

    view-flushed :
        (ix : Index) (heap : HashMap SeriesId SeriesState) (store after : SegmentStore)
        (gs gs' : List Segment)
        → IsWellFormed ix
        → StoreHolds crc32 to_json from_json ix store gs
        → StoreHolds crc32 to_json from_json (with_heap ix heap) after gs'
        → ((id : SeriesId)
            → mem id ix.all_ids ≡ true
            → stored (with_heap ix heap) gs' id ≡ stored ix gs id)
        → ((id : SeriesId) → (state_of (with_heap ix heap) id).newest ≡ (state_of ix id).newest)
        → (ls : LabelSet)
        → (held (with_heap ix heap) gs' ls ≡ held ix gs ls)
          × ((state_at (with_heap ix heap) ls).newest ≡ (state_at ix ls).newest)
    unfolding Index.id_for
    view-flushed ix heap store after gs gs' w d d' same newest ls =
        let jx = with_heap ix heap in
        elim (Option-cases (Index.id_for ix ls)) [
          | inl e ↦
              let here = state_at-unknown ix ls e in
              let there = state_at-unknown jx ls e in
              (
                ap₂ (λ b (s : SeriesState). b ++ s.samples)
                    (unknown-on_disk crc32 to_json from_json jx after.files ls after.segments gs' e
                        d'.holds
                      ∙ sym (
                          unknown-on_disk crc32 to_json from_json ix store.files ls store.segments
                            gs e d.holds))
                    (there ∙ sym here),
                ap (λ (s : SeriesState). s.newest) (there ∙ sym here),
              )
          | inr (id, e) ↦ (
            held-stored jx (with_heap-IsWellFormed ix heap w) gs' ls id e
                ∙ same id (known_mem ix w ls id e)
                ∙ sym (held-stored ix w gs ls id e),
            ap (λ (s : SeriesState). s.newest) (state_at-known jx ls id e)
                ∙ newest id
                ∙ ap (λ (s : SeriesState). s.newest) (sym (state_at-known ix ls id e)),
          )
        ]

    flush_some :
        (st : DbState) (p : Persistence) (gs : List Segment)
        → IsSound crc32 to_json from_json st gs
        → HasRoom st
        → st.persistence ≡ some p
        → (after : DbState) × (gs' : List Segment) × (flush_with crc32 to_json cfg working st
              (some p)
            ≡ (none, after))
          × Kept st gs after gs'
    unfolding Index.resolve remove_logs
    flush_some st p gs sound room has =
        let ix = st.index in
        let w = sound.index_formed in
        let known = all_ids-All ix w in
        let (heap, taken, states) = take_table_lem ix.all_ids ix w.ids_sorted known in
        let jx = with_heap ix heap in
        let jw = with_heap-IsWellFormed ix heap w in
        let before = subst (λ o. DiskHolds crc32 to_json from_json ix o gs) has sound.disk_holds in
        let (disk, flushes, holds) =
          disk_flush jx (all_table ix) p.disk gs
            (All-EntryFits jx jw ix ix.all_ids sound.series_valid
              (All-IsKnown ix heap ix.all_ids known))
            (entry_ids-SortedIds ix ix.all_ids w.ids_sorted) (room.text_small heap)
            (room.number_left p has) (StoreHolds-with_heap ix heap p.disk gs before) in
        let (log, closed) = cut_log crc32 to_json cfg p.log in
        let valid : (id : SeriesId) → IsValid (state_of jx id) = λ id.
          subst IsValid (sym (states id))
            (either-IsValid (mem id ix.all_ids) (state_of ix id) (sound.series_valid id)) in
        (
          (after_flush crc32 to_json cfg working (record st { index = jx }) log closed
              (none, disk)).1,
          segments_with jx (all_table ix) gs,
          ap
                (λ (r : List Entry × Index).
                  after_flush crc32 to_json cfg working (record st { index = r.1 }) log closed
                    (Segments.flush crc32 to_json working r.0 r.1 p.disk))
                taken
              ∙ ap (after_flush crc32 to_json cfg working (record st { index = jx }) log closed)
                  flushes,
          record {
            sound = record { index_formed = jw; series_valid = valid; disk_holds = holds };
            failed_same = refl;
            ids_same = refl;
            forward_same = refl;
            answer_same = λ range id m.
                ap₂ (λ ls xs. record { labels = ls; samples = keep (in_timerange range) xs })
                  (labels_of-with_heap ix heap id) (stored-flushed ix heap gs id w m (states id));
            view_same =
                view-flushed ix heap p.disk disk gs (segments_with jx (all_table ix) gs) w before
                  holds (λ id m. stored-flushed ix heap gs id w m (states id))
                  (λ id.
                    ap (λ (s : SeriesState). s.newest) (states id)
                    ∙ either-newest (mem id ix.all_ids) (state_of ix id));
          },
        )

    same-Kept :
        (st : DbState) (gs : List Segment)
        → IsSound crc32 to_json from_json st gs
        → Kept st gs st gs
    same-Kept st gs sound = record {
      sound = sound;
      failed_same = refl;
      ids_same = refl;
      forward_same = refl;
      answer_same = λ range id m. refl;
      view_same = λ ls. (refl, refl);
    }

    -- `flush_state` on a sound database succeeds, and what it leaves is sound and has the same stored samples.
    pub flush_state_lem :
        (st : DbState) (gs : List Segment)
        → IsSound crc32 to_json from_json st gs
        → HasRoom st
        → (after : DbState) × (gs' : List Segment) × (flush_state crc32 to_json cfg working st
            ≡ (none, after))
          × Kept st gs after gs'
    unfolding flush_state
    flush_state_lem st gs sound room = elim (Bool-cases (nat_beq st.buffered_samples 0)) [
      | inl e ↦ (st, gs, rw e refl, same-Kept st gs sound)
      | inr e ↦ elim (Option-cases st.persistence) [
        | inl h ↦ (st, gs, rw (e, h) refl, same-Kept st gs sound)
        | inr (p, h) ↦
            let (after, gs', flushes, kept) = flush_some st p gs sound room h in
            (after, gs', rw e (ap (flush_with crc32 to_json cfg working st) h ∙ flushes), kept)
      ]
    ]

    same_answers :
        (range : TimeRange) (st after : DbState) (gs gs' : List Segment) (ids : List SeriesId)
        → Kept st gs after gs'
        → All (λ id. mem id st.index.all_ids ≡ true) ids
        → map (answer after.index gs' range) ids ≡ map (answer st.index gs range) ids
    same_answers range st after gs gs' [] k h = refl
    same_answers range st after gs gs' (id ∷ ids) k h =
        ap₂ (λ (a : SeriesResult) b. a ∷ b) (k.answer_same range id h.0)
          (same_answers range st after gs gs' ids k h.1)

    Kept-query :
        (st after : DbState) (gs gs' : List Segment) (ms : List Matcher) (range : TimeRange)
        → IsSound crc32 to_json from_json st gs
        → st.failed ≡ false
        → Kept st gs after gs'
        → query crc32 from_json after ms range ≡ query crc32 from_json st ms range
    Kept-query st after gs gs' ms range sound ok k = elim (Bool-cases (ltb range.end range.start)) [
      | inl e ↦ unfold query in rw (e, query) refl
      | inr e ↦
          let order : range.start ≤ range.end = ground (arith, e) in
          let p : SeriesId → Bool = λ n. matches_all ms (HashMap.get st.index.forward n) in
          query_lem crc32 to_json from_json after gs' ms range k.sound (k.failed_same ∙ ok) order
          ∙ ap₂
              (λ (f : HashMap SeriesId Index.Series) ids. inl (
                map (answer after.index gs' range)
                  (keep (λ n. matches_all ms (HashMap.get f n)) ids)))
              k.forward_same k.ids_same
          ∙ ap inl (
              same_answers range st after gs gs' (keep p st.index.all_ids) k (
                All-mem (keep p st.index.all_ids) (λ id h.
                  and_left (mem id st.index.all_ids) (p id)
                    (sym (mem-keep p id st.index.all_ids) ∙ h))))
          ∙ sym (query_lem crc32 to_json from_json st gs ms range sound ok order)
    ]

    pub flush-running :
        (st : DbState)
        → st.failed ≡ false
        → flush crc32 to_json cfg working st ≡ flush_state crc32 to_json cfg working st
    unfolding flush
    flush-running st ok = rw ok refl

    -- On a sound database that has not failed, when the calls of the system succeed, the JSON
    -- text of a segment is read back, the checksum has 32 bits, a segment's number is left and
    -- the text of the new segment has fewer than 2^64 bytes, `flush` succeeds, the database is
    -- sound after it, and every query gives the same answer as before it, whether or not there
    -- was anything to flush.
    pub flush-query :
        (st : DbState) (gs : List Segment)
        → IsSound crc32 to_json from_json st gs
        → HasRoom st
        → st.failed ≡ false
        → ((flush crc32 to_json cfg working st).0 ≡ none)
          × ((gs' : List Segment) × IsSound crc32 to_json from_json
                (flush crc32 to_json cfg working st).1
                gs')
          × ((ms : List Matcher) (range : TimeRange)
              → query crc32 from_json (flush crc32 to_json cfg working st).1 ms range
                ≡ query crc32 from_json st ms range)
    flush-query st gs sound room ok =
        let (after, gs', flushes, kept) = flush_state_lem st gs sound room in
        let done : flush crc32 to_json cfg working st ≡ (none, after) =
          flush-running st ok ∙ flushes in
        (
          ap (λ (r : Option DbError × DbState). r.0) done,
          (
            gs',
            subst (λ s. IsSound crc32 to_json from_json s gs')
                (sym (ap (λ (r : Option DbError × DbState). r.1) done)) kept.sound,
          ),
          λ ms range.
              ap (λ (r : Option DbError × DbState). query crc32 from_json r.1 ms range) done
              ∙ Kept-query st after gs gs' ms range sound ok kept,
        )
