-- ===== src/Db/Ascending.antt =====
-- The times of the samples in what a query answers, after any writes and flushes.
use rust_tsdb.Prelude.{
  ℕ, ◌≤◌, ◌<◌, ◌^◌, ◌≡◌, sym, subst, Bool, true, false, Option, none, some, List, [], ◌∷◌, ◌++◌,
  ◌⊎◌, inl, inr, append-nil, append_assoc, keep, map, All, ltb→lt, Bool-cases, arith,
}
use rust_tsdb.Model.{SeriesId, Sample, TimeRange, Matcher, in_timerange}
use rust_tsdb.LabelSet.{LabelSet}
use rust_tsdb.Series.Valid.{Ascending, UpTo, Ascending-snoc, UpTo-snoc}
use rust_tsdb.Segments.{Segment}
use rust_tsdb.Segments.Image.{ReadsBack}
use rust_tsdb.Wal.Record.{Bytes}
use rust_tsdb.Wal.Flusher.{WalConfig}
use rust_tsdb.Db.{DbState, DbError, SeriesResult, query}
use rust_tsdb.Db.Query.{IsSound}
use rust_tsdb.Db.View.{state_at, held, accepted, newest_after, newer}
use rust_tsdb.Db.History.{Operation, run, submitted, AllowsAll, expected, run-query}

-- Under each label set the samples, on disk and then in memory, go strictly up and end at or before the newest.
abbrev pub InTime : DbState → List Segment → Type 0
InTime st gs =
    (ls : LabelSet)
    → Ascending (held st.index gs ls) × UpTo (state_at st.index ls).newest (held st.index gs ls)

snoc-InTime :
    (n : Option ℕ) (xs : List Sample) (s : Sample)
    → newer n s.timestamp ≡ true
    → Ascending xs
    → UpTo n xs
    → Ascending (xs ++ s ∷ []) × UpTo (some s.timestamp) (xs ++ s ∷ [])
snoc-InTime none xs s e a u = rw u ((tt, tt), (omega arith, tt))
snoc-InTime (some n) xs s e a u =
    let h = ltb→lt n s.timestamp e in
    (Ascending-snoc n xs s h u a, UpTo-snoc n xs s (omega (arith, h)) u)

-- The samples that are later than all before them keep the times strictly up.
accepted-InTime :
    (ss : List Sample) (n : Option ℕ) (xs : List Sample)
    → Ascending xs
    → UpTo n xs
    → Ascending (xs ++ accepted n ss) × UpTo (newest_after n ss) (xs ++ accepted n ss)
accepted-InTime [] n xs a u = rw (append-nil xs) (a, u)
accepted-InTime (s ∷ ss) n xs a u = elim (Bool-cases (newer n s.timestamp)) [
  | inl e ↦
      let (a', u') = snoc-InTime n xs s e a u in
      rw e (
        subst (λ zs. Ascending zs × UpTo (newest_after (some s.timestamp) ss) zs)
          (append_assoc xs (s ∷ []) (accepted (some s.timestamp) ss))
          (accepted-InTime ss (some s.timestamp) (xs ++ s ∷ []) a' u'))
  | inr e ↦ rw e (accepted-InTime ss n xs a u)
]

keep-All :
    (p : Sample → Bool) (P : Sample → Type 0) (xs : List Sample) → All P xs → All P (keep p xs)
keep-All p P [] h = tt
keep-All p P (x ∷ xs) h = elim (Bool-cases (p x)) [
  | inl e ↦ rw e (h.0, keep-All p P xs h.1)
  | inr e ↦ rw e (keep-All p P xs h.1)
]

keep-Ascending : (p : Sample → Bool) (xs : List Sample) → Ascending xs → Ascending (keep p xs)
keep-Ascending p [] h = tt
keep-Ascending p (x ∷ xs) h = elim (Bool-cases (p x)) [
  | inl e ↦ rw e (keep-All p (λ y. x.timestamp < y.timestamp) xs h.0, keep-Ascending p xs h.1)
  | inr e ↦ rw e (keep-Ascending p xs h.1)
]

map-All :
    {A B : Type 0}
    → (f : A → B) (P : B → Type 0) (xs : List A) → ((x : A) → P (f x))
    → All P (map f xs)
map-All f P [] h = tt
map-All f P (x ∷ xs) h = (h x, map-All f P xs h)

-- The samples of every series of an answer go strictly up in time; an error has none.
abbrev pub AnswersInTime : List SeriesResult ⊎ DbError → Type 0
AnswersInTime (inl rs) = All (λ (r : SeriesResult). Ascending r.samples) rs
AnswersInTime (inr e) = Unit

module _ (crc32 : Bytes → ℕ) (to_json : Segment → Bytes) (from_json : Bytes → Option Segment)
    (cfg : WalConfig) (back : ReadsBack to_json from_json)
    (u32 : (b : Bytes) → crc32 b < 2 ^ 32) where
  expected-Ascending :
      (ops : List Operation) (st : DbState) (gs : List Segment) (range : TimeRange) (id : SeriesId)
      → InTime st gs
      → Ascending (expected crc32 to_json from_json cfg back u32 st gs ops range id).samples
  expected-Ascending ops st gs range id times =
      let ls = (expected crc32 to_json from_json cfg back u32 st gs ops range id).labels in
      let n = (state_at st.index ls).newest in
      let ss = submitted crc32 to_json from_json cfg ls st ops in
      keep-Ascending (in_timerange range) (held st.index gs ls ++ accepted n ss)
        (accepted-InTime ss n (held st.index gs ls) (times ls).0 (times ls).1).0

  -- From a sound database that has not failed and whose samples under each label set go strictly up in time,
  -- on disk and then in memory, to the newest that it knows, after any writes and flushes as in
  -- `run-query`, a query over a range that does not end before it starts gives samples that go
  -- strictly up in time in each series: none twice, and none out of order.
  pub run-query-InTime :
      (ops : List Operation) (st : DbState) (gs : List Segment) (ms : List Matcher)
      (range : TimeRange)
      → IsSound crc32 to_json from_json st gs
      → InTime st gs
      → st.failed ≡ false
      → AllowsAll crc32 to_json from_json cfg st ops
      → range.start ≤ range.end
      → AnswersInTime (query crc32 from_json (run crc32 to_json from_json cfg st ops) ms range)
  run-query-InTime ops st gs ms range sound times ok a order =
      subst AnswersInTime
        (sym (run-query crc32 to_json from_json cfg back u32 ops st gs ms range sound ok a order).0)
        (map-All (expected crc32 to_json from_json cfg back u32 st gs ops range)
          (λ (r : SeriesResult). Ascending r.samples) _
          (λ id. expected-Ascending ops st gs range id times))
