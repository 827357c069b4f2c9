-- ===== src/Db/History.antt =====
-- Any sequence of writes and flushes: what a query then answers with.
use rust_tsdb.Prelude.{
  Option-cases, none, some, ℕ, ◌+◌, ◌≤◌, ◌<◌, ◌^◌, ◌≡◌, refl, ap, ap₂, sym, ◌∙◌, subst, Bool, true,
  false, Option, List, [], ◌∷◌, ◌++◌, ◌⊎◌, inl, inr, append-nil, append_assoc, length, map, keep,
  All,
}
use rust_tsdb.Prelude.Eq.{nat_eq}
use rust_tsdb.Prelude.HashMap
use rust_tsdb.Model.{SeriesId, Sample, TimeRange, Matcher, in_timerange}
use rust_tsdb.LabelSet.{LabelSet}
use rust_tsdb.Ids.Sets.{mem, mem-keep}
use rust_tsdb.Index
use rust_tsdb.Index.{Index}
use rust_tsdb.Index.Resolve.{matches_all}
use rust_tsdb.Segments.{Segment, working}
use rust_tsdb.Segments.Image.{ReadsBack}
use rust_tsdb.Segments.Table.{labels_of}
use rust_tsdb.Wal.Record.{Bytes}
use rust_tsdb.Wal.Writer.{Lsn}
use rust_tsdb.Wal.Flusher.{WalConfig}
use rust_tsdb.Db.{Persistence, DbState, DbError, SeriesResult, WriteBatch, write, flush, query}
use rust_tsdb.Db.Query.{IsSound, answer, query_lem, All-mem, known_id, and_left}
use rust_tsdb.Db.Table.{IsKnown-Known}
use rust_tsdb.Db.Keep.{BatchSorted}
use rust_tsdb.Db.View.{
  state_at-unknown, known_mem, state_at, held, accepted, newest_after, accepted-append,
  newest_after-append, held-stored,
}
use rust_tsdb.Series.{SeriesState}
use rust_tsdb.Db.Labels.{labels_for-id_for}
use rust_tsdb.Db.Grow.{unknown-on_disk}
use rust_tsdb.Db.Query.{DiskHolds, on_disk}
use rust_tsdb.Db.Batch.{offered}
use rust_tsdb.Db.Write.{unflushed, Writes, write-Writes}
use rust_tsdb.Db.Flush.{HasRoom, flush_state_lem, flush-running}

-- What a client does.
pub data Operation : Type 0 where
  writing : WriteBatch → Operation
  flushing : Operation

module _ (crc32 : Bytes → ℕ) (to_json : Segment → Bytes) (from_json : Bytes → Option Segment)
    (cfg : WalConfig) where
  abbrev pub step : DbState → Operation → DbState
  step st (writing batch) = (write crc32 to_json cfg working st batch).1
  step st flushing = (flush crc32 to_json cfg working st).1

  abbrev pub run : DbState → List Operation → DbState
  run st [] = st
  run st (op ∷ ops) = run (step st op) ops

  -- The samples that an operation hands to the database for a label set, if it is acknowledged.
  abbrev acknowledged : LabelSet → WriteBatch → Lsn ⊎ DbError → List Sample
  acknowledged ls batch (inl lsn) = offered ls batch
  acknowledged ls batch (inr e) = []

  abbrev handed_in : LabelSet → DbState → Operation → List Sample
  handed_in ls st (writing batch) =
      acknowledged ls batch (write crc32 to_json cfg working st batch).0
  handed_in ls st flushing = []

  -- All samples of the acknowledged writes for a label set, in the order of the writes.
  abbrev pub submitted : LabelSet → DbState → List Operation → List Sample
  submitted ls st [] = []
  submitted ls st (op ∷ ops) = handed_in ls st op ++ submitted ls (step st op) ops

  -- The numbers that an operation uses up are there: ids, and a segment's number and size.
  abbrev Allows : DbState → Operation → Type 0
  Allows st (writing batch) =
      BatchSorted batch
      × (st.index.next_id + length batch < 2 ^ 64)
      × HasRoom crc32 to_json from_json cfg (unflushed crc32 to_json from_json cfg st batch)
  Allows st flushing = HasRoom crc32 to_json from_json cfg st

  abbrev pub AllowsAll : DbState → List Operation → Type 0
  AllowsAll st [] = Unit
  AllowsAll st (op ∷ ops) = Allows st op × AllowsAll (step st op) ops

  -- One database is another one with these samples more under a label set.
  pub record Gains (st : DbState) (gs : List Segment) (more : LabelSet → List Sample)
      (after : DbState) (gs' : List Segment) : Type 0 where
    pub sound : IsSound crc32 to_json from_json after gs'
    pub failed_same : after.failed ≡ st.failed
    pub samples_more :
        (ls : LabelSet)
        → held after.index gs' ls
          ≡ held st.index gs ls ++ accepted (state_at st.index ls).newest (more ls)
    pub newest_same :
        (ls : LabelSet)
        → (state_at after.index ls).newest ≡ newest_after (state_at st.index ls).newest (more ls)

  Gains-trans :
      (st mid after : DbState) (gs gs' gs'' : List Segment) (f g : LabelSet → List Sample)
      → Gains st gs f mid gs'
      → Gains mid gs' g after gs''
      → Gains st gs (λ ls. f ls ++ g ls) after gs''
  Gains-trans st mid after gs gs' gs'' f g a b = record {
    sound = b.sound;
    failed_same = b.failed_same ∙ a.failed_same;
    samples_more = λ ls.
        let n = (state_at st.index ls).newest in
        b.samples_more ls
        ∙ ap₂ (λ xs (m : Option ℕ). xs ++ accepted m (g ls)) (a.samples_more ls) (a.newest_same ls)
        ∙ append_assoc (held st.index gs ls) (accepted n (f ls))
            (accepted (newest_after n (f ls)) (g ls))
        ∙ ap (λ t. held st.index gs ls ++ t) (sym (accepted-append n (f ls) (g ls)));
    newest_same = λ ls.
        b.newest_same ls
        ∙ ap (λ m. newest_after m (g ls)) (a.newest_same ls)
        ∙ sym (newest_after-append (state_at st.index ls).newest (f ls) (g ls));
  }

  Writes-Gains :
      (st : DbState) (gs : List Segment) (batch : WriteBatch) (r : (Lsn ⊎ DbError) × DbState)
      → Writes crc32 to_json from_json cfg st gs batch r
      → (gs' : List Segment) × Gains st gs (λ ls. acknowledged ls batch r.0) r.1 gs'
  Writes-Gains st gs batch (inl lsn, after) (gs', a) = (
    gs',
    record {
      sound = a.sound;
      failed_same = a.failed_same;
      samples_more = a.samples_more;
      newest_same = a.newest_same;
    },
  )
  Writes-Gains st gs batch (inr e, after) (k, same, a) = (
    gs,
    record {
      sound = a.sound;
      failed_same = a.failed_same;
      samples_more = a.samples_more;
      newest_same = a.newest_same;
    },
  )

  module _ (back : ReadsBack to_json from_json) (u32 : (b : Bytes) → crc32 b < 2 ^ 32) where
    flush-Gains :
        (st : DbState) (gs : List Segment)
        → IsSound crc32 to_json from_json st gs
        → st.failed ≡ false
        → HasRoom crc32 to_json from_json cfg st
        → (gs' : List Segment) × Gains st gs (λ ls. []) (flush crc32 to_json cfg working st).1 gs'
    flush-Gains st gs sound ok room =
        let (after, gs', flushes, kept) =
          flush_state_lem crc32 to_json from_json cfg back u32 st gs sound room in
        let done = flush-running crc32 to_json from_json cfg back u32 st ok ∙ flushes in
        (
          gs',
          subst (λ (s : DbState). Gains st gs (λ ls. []) s gs')
              (sym (ap (λ (r : Option DbError × DbState). r.1) done))
              (record {
                sound = kept.sound;
                failed_same = kept.failed_same;
                samples_more = λ ls. (kept.view_same ls).0 ∙ sym (append-nil (held st.index gs ls));
                newest_same = λ ls. (kept.view_same ls).1;
              }),
        )

    step-Gains :
        (st : DbState) (gs : List Segment) (op : Operation)
        → IsSound crc32 to_json from_json st gs
        → st.failed ≡ false
        → Allows st op
        → (gs' : List Segment) × Gains st gs (λ ls. handed_in ls st op) (step st op) gs'
    step-Gains st gs (writing batch) sound ok a =
        Writes-Gains st gs batch (write crc32 to_json cfg working st batch)
          (write-Writes crc32 to_json from_json cfg back u32 st gs batch sound ok a.0 a.1 a.2)
    step-Gains st gs flushing sound ok a = flush-Gains st gs sound ok a

    pub run-Gains :
        (ops : List Operation) (st : DbState) (gs : List Segment)
        → IsSound crc32 to_json from_json st gs
        → st.failed ≡ false
        → AllowsAll st ops
        → (gs' : List Segment) × Gains st gs (λ ls. submitted ls st ops) (run st ops) gs'
    run-Gains [] st gs sound ok a = (
      gs,
      record {
        sound = sound;
        failed_same = refl;
        samples_more = λ ls. sym (append-nil (held st.index gs ls));
        newest_same = λ ls. refl;
      },
    )
    run-Gains (op ∷ ops) st gs sound ok a =
        let (mid, one) = step-Gains st gs op sound ok a.0 in
        let (gs', rest) = run-Gains ops (step st op) mid one.sound (one.failed_same ∙ ok) a.1 in
        (
          gs',
          Gains-trans st (step st op) (run st (op ∷ ops)) gs mid gs' (λ ls. handed_in ls st op)
              (λ ls. submitted ls (step st op) ops) one rest,
        )

    -- What a query has to answer for an id of the last index.
    abbrev pub expected :
        DbState → List Segment → List Operation → TimeRange → SeriesId → SeriesResult
    expected st gs ops range id =
        let ls = labels_of (run st ops).index id in
        record {
          labels = ls;
          samples =
              keep (in_timerange range) (
                held st.index gs ls
                ++ accepted (state_at st.index ls).newest (submitted ls st ops));
        }

    expected-answer :
        (st after : DbState) (gs gs' : List Segment) (more : LabelSet → List Sample)
        (range : TimeRange) (ids : List SeriesId)
        → Gains st gs more after gs'
        → All (λ id. mem id after.index.all_ids ≡ true) ids
        → map (answer after.index gs' range) ids
          ≡ map
              (λ id. record {
                labels = labels_of after.index id;
                samples = keep (in_timerange range) (
                    held st.index gs (labels_of after.index id)
                    ++ accepted
                        (state_at st.index (labels_of after.index id)).newest
                        (more (labels_of after.index id)));
              })
              ids
    unfolding Index.get
    expected-answer st after gs gs' more range [] g k = refl
    expected-answer st after gs gs' more range (id ∷ ids) g k =
        let ix = after.index in
        let w = g.sound.index_formed in
        let ls = labels_of ix id in
        let known = (IsKnown-Known ix w id (known_id ix w id k.0)).1 in
        ap₂
          (λ xs (rest : List SeriesResult).
            record { labels = ls; samples = keep (in_timerange range) xs } ∷ rest)
          (sym (held-stored ix w gs' ls id known) ∙ g.samples_more ls)
          (expected-answer st after gs gs' more range ids g k.1)

    unknown-DiskHolds :
        (ix : Index) (o : Option Persistence) (gs : List Segment) (ls : LabelSet)
        → Index.id_for ix ls ≡ none
        → DiskHolds crc32 to_json from_json ix o gs
        → on_disk gs ls ≡ []
    unknown-DiskHolds ix none gs ls e d = ap (λ hs. on_disk hs ls) d
    unknown-DiskHolds ix (some p) gs ls e d =
        unknown-on_disk crc32 to_json from_json ix p.disk.files ls p.disk.segments gs e d.holds

    -- Nothing is held under labels that no series of the index has.
    unknown-held :
        (st : DbState) (gs : List Segment) (ls : LabelSet)
        → IsSound crc32 to_json from_json st gs
        → Index.id_for st.index ls ≡ none
        → held st.index gs ls ≡ []
    unknown-held st gs ls sound e =
        ap₂ (λ xs (s : SeriesState). xs ++ s.samples)
          (unknown-DiskHolds st.index st.persistence gs ls e sound.disk_holds)
          (state_at-unknown st.index ls e)

    -- The series that there are at the end: a label set is that of one of them, found under its id, or no samples
    -- stood under it at first and none were accepted for it.
    abbrev pub Complete : DbState → List Segment → List Operation → Type 0
    Complete st gs ops =
        (ls : LabelSet)
        → ((id : SeriesId) × (mem id (run st ops).index.all_ids ≡ true)
            × (Index.labels_for (run st ops).index id ≡ some ls))
          ⊎ (held st.index gs ls ++ accepted (state_at st.index ls).newest (submitted ls st ops)
              ≡ [])

    run-Complete :
        (ops : List Operation) (st : DbState) (gs gs' : List Segment)
        → Gains st gs (λ ls. submitted ls st ops) (run st ops) gs'
        → Complete st gs ops
    run-Complete ops st gs gs' g ls =
        let ix = (run st ops).index in
        elim (Option-cases (Index.id_for ix ls)) [
          | inl e ↦ inr (sym (g.samples_more ls) ∙ unknown-held (run st ops) gs' ls g.sound e)
          | inr (id, e) ↦ inl (
            id,
            known_mem ix g.sound.index_formed ls id e,
            labels_for-id_for ix g.sound.index_formed id ls e,
          )
        ]

    -- From a sound database that has not failed, after any flushes and any writes of label sets in order, each
    -- of whose calls of the system succeed and for which ids, segment numbers and sizes are left (the JSON text
    -- of a segment is read back and the checksum has 32 bits), a query over a range that does not end before
    -- it starts gives for exactly the series of the index that every matcher matches, in the order of their
    -- ids, the labels and exactly those samples in the range that were there at first or that an
    -- acknowledged write handed in later than all before them in the series, in the order in which
    -- they came, however the flushes fell. Every label set under which samples were there at first
    -- or were accepted is that of a series of the index.
    pub run-query :
        (ops : List Operation) (st : DbState) (gs : List Segment) (ms : List Matcher)
        (range : TimeRange)
        → IsSound crc32 to_json from_json st gs
        → st.failed ≡ false
        → AllowsAll st ops
        → range.start ≤ range.end
        → (query crc32 from_json (run st ops) ms range
            ≡ inl (
                map (expected st gs ops range) (
                  keep
                    (λ n. matches_all ms (HashMap.get (run st ops).index.forward n))
                    (run st ops).index.all_ids)))
          × Complete st gs ops
    run-query ops st gs ms range sound ok a order =
        let after = run st ops in
        let (gs', g) = run-Gains ops st gs sound ok a in
        let p : SeriesId → Bool = λ n. matches_all ms (HashMap.get after.index.forward n) in
        (
          query_lem crc32 to_json from_json after gs' ms range g.sound (g.failed_same ∙ ok) order
              ∙ ap inl (
                  expected-answer st after gs gs' (λ ls. submitted ls st ops) range
                    (keep p after.index.all_ids) g
                    (All-mem (keep p after.index.all_ids) (λ id h.
                      and_left (mem id after.index.all_ids) (p id)
                        (sym (mem-keep p id after.index.all_ids) ∙ h)))),
          run-Complete ops st gs gs' g,
        )
