-- ===== src/Wal/Replay/Conserve.antt =====
-- No sample is lost on the way through the resolver: it reaches the sink, or it is counted as dropped.
use rust_tsdb.Prelude.{
  ℕ, ◌+◌, ◌≡◌, refl, ap, ◌∙◌, subst, none, some, List, [], ◌∷◌, ◌++◌, inl, inr, length, Bool-cases,
  Option-cases, arith,
}
use rust_tsdb.Prelude.Eq.{◌==◌, nat_eq, eq_iff}
use rust_tsdb.Prelude.HashMap
use rust_tsdb.Prelude.HashMap.{HashMap, UniqueKeys, upsert-UniqueKeys, get-remove}
use rust_tsdb.Model.{SeriesId, Sample}
use rust_tsdb.LabelSet.{LabelSet}
use rust_tsdb.Wal.Record.{SeriesEntry, SamplesEntry, WalRecord}
use rust_tsdb.Wal.Replay.{
  ReplaySink, Resolver, resolver_new, deliver, apply_series, apply_samples, apply_all_series,
  apply_all_samples, apply, count_samples, dropped, finish,
}

abbrev Pending : Type 0
Pending = HashMap SeriesId (List (List Sample))

count_samples-snoc :
    (bs : List (List Sample)) (b : List Sample)
    → count_samples (bs ++ b ∷ []) ≡ count_samples bs + length b
unfolding count_samples
count_samples-snoc [] b = omega arith
count_samples-snoc (c ∷ bs) b = omega (arith, count_samples-snoc bs b)

dropped-upsert :
    (m : Pending) (k : SeriesId) (b : List Sample)
    → dropped (HashMap.upsert m k [] (λ q. q ++ b ∷ [])) ≡ dropped m + length b
unfolding dropped count_samples HashMap.upsert
dropped-upsert [] k b = omega arith
dropped-upsert ((j, bs) ∷ m) k b = elim (Bool-cases (j == k)) [
  | inl h ↦ rw h (omega (arith, count_samples-snoc bs b))
  | inr h ↦ rw h (omega (arith, dropped-upsert m k b))
]

remove-none : (m : Pending) (k : SeriesId) → HashMap.get m k ≡ none → HashMap.remove m k ≡ m
unfolding HashMap.get HashMap.remove
remove-none [] k = λ h. refl
remove-none ((j, bs) ∷ m) k = elim (Bool-cases (j == k)) [
  | inl t ↦ rw t (λ h. absurd (cc))
  | inr t ↦ rw t (λ h. ap (λ r. (j, bs) ∷ r) (remove-none m k h))
]

dropped-remove :
    (m : Pending) (k : SeriesId) (bs : List (List Sample))
    → UniqueKeys m
    → HashMap.get m k ≡ some bs
    → dropped (HashMap.remove m k) + count_samples bs ≡ dropped m
unfolding dropped HashMap.get HashMap.remove
dropped-remove [] k bs u = λ h. absurd (cc)
dropped-remove ((j, cs) ∷ m) k bs u = elim (Bool-cases (j == k)) [
  | inl t ↦ rw t (λ h.
      let same : cs ≡ bs = cc in
      let here : HashMap.get m k ≡ none =
        subst (λ z. HashMap.get m z ≡ none) ((eq_iff j k).0 t) u.0 in
      omega (arith, ap dropped (remove-none m k here), ap count_samples same))
  | inr t ↦ rw t (λ h. omega (arith, dropped-remove m k bs u.1 h))
]

remove-UniqueKeys : (m : Pending) (k : SeriesId) → UniqueKeys m → UniqueKeys (HashMap.remove m k)
unfolding HashMap.remove
remove-UniqueKeys [] k u = tt
remove-UniqueKeys ((j, bs) ∷ m) k u = elim (Bool-cases (j == k)) [
  | inl h ↦ rw h (remove-UniqueKeys m k u.1)
  | inr h ↦ rw h (ground (arith, get-remove m k j, u.0), remove-UniqueKeys m k u.1)
]

abbrev pub total : List SamplesEntry → ℕ
total [] = 0
total (e ∷ es) = length e.samples + total es

-- The number of samples in the records.
abbrev pub total_of : List WalRecord → ℕ
total_of [] = 0
total_of (r ∷ rs) = total r.samples + total_of rs

-- The records go to the resolver one after the other.
unfoldable pub handed :
    {S : Type 0} (sink : ReplaySink S) → List WalRecord → Resolver × S → Resolver × S
handed sink [] st = st
handed sink (r ∷ rs) st = handed sink rs (apply sink r st)

module _ {S : Type 0} (sink : ReplaySink S) (size : S → ℕ) where
  -- The sink keeps every sample that it is given, and a series brings none.
  pub record Keeps : Type 0 where
    pub series_size : (s : S) (labels : LabelSet) → size (sink.series s labels).0 ≡ size s
    pub samples_size :
        (s : S) (id : SeriesId) (b : List Sample) → size (sink.samples s id b) ≡ size s + length b

  module _ (keeps : Keeps) where
    size-deliver :
        (id : SeriesId) (bs : List (List Sample)) (s : S)
        → size (deliver sink id bs s) ≡ size s + count_samples bs
    unfolding deliver count_samples
    size-deliver id [] s = omega arith
    size-deliver id (b ∷ bs) s =
        omega (arith, size-deliver id bs (sink.samples s id b), keeps.samples_size s id b)

    -- The samples that the sink has and that wait.
    abbrev seen : Resolver × S → ℕ
    seen st = size st.1 + dropped st.0.pending

    seen-apply_series :
        (e : SeriesEntry) (st : Resolver × S)
        → UniqueKeys st.0.pending
        → (seen (apply_series sink e st) ≡ seen st) × UniqueKeys (apply_series sink e st).0.pending
    unfolding apply_series
    seen-apply_series e (r, s) u = elim (Option-cases (HashMap.get r.pending e.id)) [
      | inl n ↦ rw (n, apply_series) (omega (arith, keeps.series_size s e.labels), u)
      | inr (parked, p) ↦
          rw (p, apply_series)
            (
              omega (
                arith,
                size-deliver (sink.series s e.labels).1 parked (sink.series s e.labels).0,
                keeps.series_size s e.labels,
                dropped-remove r.pending e.id parked u p,
              ),
              remove-UniqueKeys r.pending e.id u,
            )
    ]

    seen-apply_samples :
        (e : SamplesEntry) (st : Resolver × S)
        → UniqueKeys st.0.pending
        → (seen (apply_samples sink e st) ≡ seen st + length e.samples)
          × UniqueKeys (apply_samples sink e st).0.pending
    unfolding apply_samples
    seen-apply_samples e (r, s) u = elim (Option-cases (HashMap.get r.ids e.id)) [
      | inl n ↦
          rw (n, apply_samples)
            (
              omega (arith, dropped-upsert r.pending e.id e.samples),
              upsert-UniqueKeys r.pending e.id [] (λ q. q ++ e.samples ∷ []) u,
            )
      | inr (id, p) ↦ rw (p, apply_samples) (omega (arith, keeps.samples_size s id e.samples), u)
    ]

    seen-apply_all_series :
        (es : List SeriesEntry) (st : Resolver × S)
        → UniqueKeys st.0.pending
        → (seen (apply_all_series sink es st) ≡ seen st)
          × UniqueKeys (apply_all_series sink es st).0.pending
    unfolding apply_all_series
    seen-apply_all_series [] st u = (refl, u)
    seen-apply_all_series (e ∷ es) st u =
        let one = seen-apply_series e st u in
        let rest = seen-apply_all_series es (apply_series sink e st) one.1 in
        (rest.0 ∙ one.0, rest.1)

    seen-apply_all_samples :
        (es : List SamplesEntry) (st : Resolver × S)
        → UniqueKeys st.0.pending
        → (seen (apply_all_samples sink es st) ≡ seen st + total es)
          × UniqueKeys (apply_all_samples sink es st).0.pending
    unfolding apply_all_samples
    seen-apply_all_samples [] st u = (omega arith, u)
    seen-apply_all_samples (e ∷ es) st u =
        let one = seen-apply_samples e st u in
        let rest = seen-apply_all_samples es (apply_samples sink e st) one.1 in
        (omega (arith, rest.0, one.0), rest.1)

    seen-handed :
        (rs : List WalRecord) (st : Resolver × S)
        → UniqueKeys st.0.pending
        → seen (handed sink rs st) ≡ seen st + total_of rs
    unfolding handed apply
    seen-handed [] st u = omega arith
    seen-handed (r ∷ rs) st u =
        let series = seen-apply_all_series r.series st u in
        let samples =
          seen-apply_all_samples r.samples (apply_all_series sink r.series st) series.1 in
        omega (
          arith,
          seen-handed rs (apply_all_samples sink r.samples (apply_all_series sink r.series st))
              samples.1,
          samples.0,
          series.0,
        )

    -- When a new resolver has been given any records, and the sink keeps every sample that it is given,
    -- the samples that the sink has gained and those that `finish` counts as dropped are together
    -- as many as the samples in the records.
    pub finish-handed :
        (rs : List WalRecord) (s : S)
        → size (handed sink rs (resolver_new, s)).1
            + (finish (handed sink rs (resolver_new, s)).0).dropped_samples
          ≡ size s + total_of rs
    unfolding finish dropped
    finish-handed rs s = omega (arith, seen-handed rs (resolver_new, s) tt)
