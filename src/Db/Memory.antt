-- ===== src/Db/Memory.antt =====
-- How many samples the series of an index have in memory, and what each step of a write or a flush does to that.
use rust_tsdb.Prelude.{
  if_either, ℕ, ◌+◌, ◌≤◌, ◌<◌, ◌^◌, ◌≡◌, refl, ap, ap₂, sym, ◌∙◌, subst, Option, none, some, List,
  [], ◌∷◌, ◌++◌, inl, inr, length, length-append, is_empty, All, ltb, nat_beq, nat_beq_iff,
  ne→nat_beq, Bool-cases, arith, if◌then◌else◌,
}
use rust_tsdb.Prelude.Eq.{nat_eq}
use rust_tsdb.Prelude.HashMap
use rust_tsdb.Prelude.HashMap.{HashMap}
use rust_tsdb.Model.{SeriesId, Sample}
use rust_tsdb.LabelSet.{LabelSet, label_set_eq}
use rust_tsdb.Ids.Sets.{SortedIds}
use rust_tsdb.Series
use rust_tsdb.Series.{SeriesState, default_state}
use rust_tsdb.Index
use rust_tsdb.Index.{Index, encode, encode_as, add_series}
use rust_tsdb.Index.Invariant.{IsWellFormed}
use rust_tsdb.Db.{
  Prepared, WriteBatch, state_of, with_state, prepare_series, prepare, mark_all, append_samples,
  append_entries, take_table,
}
use rust_tsdb.Db.Query.{All-mem}
use rust_tsdb.Db.Take.{All-with_state, state_of-with_state, with_heap, take_table_lem, all_ids-All}
use rust_tsdb.Db.View.{add_series-state_of}
use rust_tsdb.Db.Keep.{IsOrderly, BatchSorted, encode-IsOrderly, encode-next_id}

-- The number of samples in the states of these series.
abbrev pub samples_in : Index → List SeriesId → ℕ
samples_in ix [] = 0
samples_in ix (id ∷ ids) = length (state_of ix id).samples + samples_in ix ids

-- Of all series of the index.
abbrev pub in_memory : Index → ℕ
in_memory ix = samples_in ix ix.all_ids

same_samples :
    (ix jx : Index) (ids : List SeriesId)
    → All (λ n. state_of jx n ≡ state_of ix n) ids
    → samples_in jx ids ≡ samples_in ix ids
same_samples ix jx [] h = refl
same_samples ix jx (n ∷ ids) h =
    ap₂ (λ (st : SeriesState) k. length st.samples + k) h.0 (same_samples ix jx ids h.1)

same_length : (x y : SeriesState) → x ≡ y → length x.samples ≡ length y.samples
same_length x y e = ap (λ (st : SeriesState). length st.samples) e

-- One state changes by as much as it grows.
samples_in-with_state :
    (ix : Index) (id : SeriesId) (st : SeriesState) (a b : ℕ) (ids : List SeriesId)
    → length st.samples + a ≤ length (state_of ix id).samples + b
    → a ≤ b
    → SortedIds ids
    → samples_in (with_state ix id st) ids + a ≤ samples_in ix ids + b
samples_in-with_state ix id st a b [] h l s = omega (arith, l)
samples_in-with_state ix id st a b (n ∷ ids) h l s =
    let jx = with_state ix id st in
    elim (Bool-cases (nat_beq id n)) [
      | inl e ↦
          let same : id ≡ n = (nat_beq_iff id n).0 e in
          let head : length (state_of jx n).samples ≡ length st.samples =
            same_length (state_of jx n) st (state_of-with_state ix id n st ∙ rw e refl) in
          let old : length (state_of ix id).samples ≡ length (state_of ix n).samples =
            ap (λ m. length (state_of ix m).samples) same in
          let rest : samples_in jx ids ≡ samples_in ix ids =
            same_samples ix jx ids
              (All-with_state ix id st ids (subst (λ m. All (λ y. m < y) ids) (sym same) s.0)) in
          omega (arith, head, old, rest, h)
      | inr e ↦
          let head : length (state_of jx n).samples ≡ length (state_of ix n).samples =
            same_length (state_of jx n) (state_of ix n)
              (state_of-with_state ix id n st ∙ rw e refl) in
          omega (arith, head, samples_in-with_state ix id st a b ids h l s.1)
    ]

append-counts :
    (xs : List Sample) (newest : Option ℕ) (gen n : ℕ) (s : Sample)
    → length
          (Series.append (record { samples = xs; newest = newest; logged_gen = gen }) s).0.samples
        + n
      ≡ length xs
        + (if (Series.append (record { samples = xs; newest = newest; logged_gen = gen }) s).1
            then n + 1
            else n)
unfolding Series.append Series.accepts
append-counts xs none gen n s = omega (arith, length-append xs (s ∷ []))
append-counts xs (some m) gen n s = elim (Bool-cases (ltb m s.timestamp)) [
  | inl e ↦ rw e (omega (arith, length-append xs (s ∷ [])))
  | inr e ↦ rw e refl
]

-- The number that the loop counts is that of the samples that it appends.
append_samples-counts :
    (ss : List Sample) (st : SeriesState) (n : ℕ)
    → length (append_samples ss (st, n)).0.samples + n
      ≡ length st.samples + (append_samples ss (st, n)).1
unfolding append_samples
append_samples-counts [] st n = refl
append_samples-counts (s ∷ ss) st n =
    let r = Series.append st s in
    let m = if r.1 then n + 1 else n in
    omega
      (arith, append_samples-counts ss r.0 m, append-counts st.samples st.newest st.logged_gen n s)

append_samples-le :
    (ss : List Sample) (st : SeriesState) (n : ℕ) → n ≤ (append_samples ss (st, n)).1
unfolding append_samples
append_samples-le [] st n = omega arith
append_samples-le (s ∷ ss) st n =
    let r = Series.append st s in
    let m = if r.1 then n + 1 else n in
    let step : n ≤ m = if_either (λ k. n ≤ k) r.1 (n + 1) n (λ b. omega arith) (λ b. omega arith) in
    omega (arith, step, append_samples-le ss r.0 m)

append_entries-counts :
    (es : List (SeriesId × List Sample)) (ix : Index) (n : ℕ) (ids : List SeriesId)
    → SortedIds ids
    → samples_in (append_entries es (ix, n)).0 ids + n
      ≤ samples_in ix ids + (append_entries es (ix, n)).1
unfolding append_entries
append_entries-counts [] ix n ids s = omega arith
append_entries-counts ((id, samples) ∷ es) ix n ids s =
    let r = append_samples samples (state_of ix id, n) in
    let one =
      samples_in-with_state ix id r.0 n r.1 ids
        (omega (arith, append_samples-counts samples (state_of ix id) n))
        (append_samples-le samples (state_of ix id) n) s in
    omega (arith, one, append_entries-counts es (with_state ix id r.0) r.1 ids s)

append_entries-all_ids :
    (es : List (SeriesId × List Sample)) (ix : Index) (n : ℕ)
    → (append_entries es (ix, n)).0.all_ids ≡ ix.all_ids
unfolding append_entries
append_entries-all_ids [] ix n = refl
append_entries-all_ids ((id, samples) ∷ es) ix n =
    let r = append_samples samples (state_of ix id, n) in
    append_entries-all_ids es (with_state ix id r.0) r.1

mark_all-all_ids :
    (g : ℕ) (ss : List Index.Series) (ix : Index) → (mark_all g ss ix).all_ids ≡ ix.all_ids
unfolding mark_all
mark_all-all_ids g [] ix = refl
mark_all-all_ids g (s ∷ ss) ix =
    mark_all-all_ids g ss (with_state ix s.id (Series.mark_logged (state_of ix s.id) g))

mark_all-counts :
    (g : ℕ) (ss : List Index.Series) (ix : Index) (ids : List SeriesId)
    → SortedIds ids
    → samples_in (mark_all g ss ix) ids ≤ samples_in ix ids
unfolding mark_all Series.mark_logged
mark_all-counts g [] ix ids s = omega arith
mark_all-counts g (x ∷ ss) ix ids s =
    let st = Series.mark_logged (state_of ix x.id) g in
    omega (
      arith,
      mark_all-counts g ss (with_state ix x.id st) ids s,
      samples_in-with_state ix x.id st 0 0 ids (omega arith) (omega arith) s,
    )

-- What the second half of a write adds is what it counts.
pub appended-counts :
    (g : ℕ) (ss : List Index.Series) (es : List (SeriesId × List Sample)) (ix : Index) (n : ℕ)
    → IsWellFormed ix
    → in_memory ix ≤ n
    → in_memory (append_entries es (mark_all g ss ix, n)).0
      ≤ (append_entries es (mark_all g ss ix, n)).1
appended-counts g ss es ix n w h =
    let jx = mark_all g ss ix in
    let after = (append_entries es (jx, n)).0 in
    let same : after.all_ids ≡ ix.all_ids =
      append_entries-all_ids es jx n ∙ mark_all-all_ids g ss ix in
    omega (
      arith,
      h,
      ap (samples_in after) same,
      append_entries-counts es jx n ix.all_ids w.ids_sorted,
      mark_all-counts g ss ix ix.all_ids w.ids_sorted,
    )

samples_in-append :
    (ix : Index) (ids js : List SeriesId)
    → samples_in ix (ids ++ js) ≡ samples_in ix ids + samples_in ix js
samples_in-append ix [] js = omega arith
samples_in-append ix (n ∷ ids) js = omega (arith, samples_in-append ix ids js)

add_series-all_ids :
    (ix : Index) (labels : LabelSet)
    → (add_series ix labels).0.all_ids ≡ ix.all_ids ++ ix.next_id ∷ []
unfolding add_series
add_series-all_ids ix labels = refl

add_series-counts :
    (ix : Index) (w : IsWellFormed ix) (labels : LabelSet)
    → in_memory (add_series ix labels).0 ≡ in_memory ix
add_series-counts ix w labels =
    let jx = (add_series ix labels).0 in
    let old : samples_in jx ix.all_ids ≡ samples_in ix ix.all_ids = same_samples ix jx ix.all_ids (
      All-mem ix.all_ids (λ n h.
        add_series-state_of ix labels n
        ∙ rw (ne→nat_beq ix.next_id n (omega (arith, w.ids_below n h))) refl)) in
    let new : length (state_of jx ix.next_id).samples ≡ 0 =
      same_length (state_of jx ix.next_id) default_state (
        add_series-state_of ix labels ix.next_id
        ∙ rw ((nat_beq_iff ix.next_id ix.next_id).1 refl) refl) in
    omega (
      arith,
      old,
      new,
      ap (samples_in jx) (add_series-all_ids ix labels),
      samples_in-append jx ix.all_ids (ix.next_id ∷ []),
    )

encode_as-counts :
    (ix : Index) (w : IsWellFormed ix) (labels : LabelSet) (o : Option Index.Series)
    → in_memory (encode_as ix labels o).0 ≡ in_memory ix
encode_as-counts ix w labels (some s) = refl
encode_as-counts ix w labels none = add_series-counts ix w labels

encode-counts :
    (ix : Index) (w : IsWellFormed ix) (labels : LabelSet)
    → in_memory (encode ix labels).0 ≡ in_memory ix
unfolding encode
encode-counts ix w labels = encode_as-counts ix w labels (HashMap.get ix.inverted labels)

-- The first half of a write adds series and no samples.
pub prepare-counts :
    (generation : ℕ) (batch : WriteBatch) (p : Prepared)
    → IsOrderly p.index
    → BatchSorted batch
    → p.index.next_id + length batch < 2 ^ 64
    → in_memory (prepare generation batch p).index ≡ in_memory p.index
unfolding prepare
prepare-counts generation [] p o s room = refl
prepare-counts generation ((labels, samples) ∷ batch) p o s room =
    elim (Bool-cases (is_empty samples)) [
      | inl e ↦ rw (e, prepare) (prepare-counts generation batch p o s.1 (omega arith))
      | inr e ↦
          rw (e, prepare)
            (prepare-counts generation batch
                (prepare_series generation p samples (encode p.index labels))
                (encode-IsOrderly p.index labels o s.0 (omega arith)) s.1
                (omega (arith, encode-next_id p.index labels))
              ∙ encode-counts p.index o.formed labels)
    ]

no_samples :
    (ix : Index) (ids : List SeriesId)
    → All (λ n. length (state_of ix n).samples ≡ 0) ids
    → samples_in ix ids ≡ 0
no_samples ix [] h = refl
no_samples ix (n ∷ ids) h = omega (arith, h.0, no_samples ix ids h.1)

-- A flush leaves no samples in memory.
pub take_table-counts : (ix : Index) → IsOrderly ix → in_memory (take_table ix.all_ids ix).1 ≡ 0
take_table-counts ix o =
    let (heap, taken, states) =
      take_table_lem ix.all_ids ix o.formed.ids_sorted (all_ids-All ix o.formed) in
    ap (λ (r : List (SeriesId × List Sample) × Index). in_memory r.1) taken
    ∙ no_samples (with_heap ix heap) ix.all_ids (
        All-mem ix.all_ids (λ n h.
          same_length (state_of (with_heap ix heap) n) (record (state_of ix n) { samples = [] })
            (states n ∙ rw h refl)))
