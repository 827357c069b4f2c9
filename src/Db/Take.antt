-- ===== src/Db/Take.antt =====
-- What `DbState::flush` takes out of the series: their samples, each once.
use rust_tsdb.Prelude.{
  ◌<◌, ◌≡◌, refl, ap, ap₂, ◌∙◌, Bool, true, false, some, List, [], ◌∷◌, ◌++◌, inl, inr, All,
  concat_map, is_empty, nat_beq, ne→nat_beq, nat_beq_iff, Bool-cases, arith, if◌then◌else◌,
}
use rust_tsdb.Prelude.Eq.{nat_eq}
use rust_tsdb.Prelude.HashMap.{HashMap, or_default, get-insert}
use rust_tsdb.Model.{SeriesId, Sample}
use rust_tsdb.LabelSet.{label_set_eq}
use rust_tsdb.Ids.Sets.{SortedIds, mem}
use rust_tsdb.Series
use rust_tsdb.Series.{SeriesState, default_state}
use rust_tsdb.Index
use rust_tsdb.Index.{Index}
use rust_tsdb.Index.Invariant.{IsWellFormed}
use rust_tsdb.Segments.Table.{Entry}
use rust_tsdb.Db.{state_of, with_state, take_table}
use rust_tsdb.Db.Query.{All-mem, known_id}

-- The same index with other series states.
abbrev pub with_heap : Index → HashMap SeriesId SeriesState → Index
with_heap ix heap = record ix { heap = heap }

pub with_heap-IsWellFormed :
    (ix : Index) (heap : HashMap SeriesId SeriesState)
    → IsWellFormed ix
    → IsWellFormed (with_heap ix heap)
with_heap-IsWellFormed ix heap w = record {
  ids_sorted = w.ids_sorted;
  ids_below = w.ids_below;
  ids_known = w.ids_known;
  forward_id = w.forward_id;
  forward_sorted = w.forward_sorted;
  forward_inverted = w.forward_inverted;
  inverted_labels = w.inverted_labels;
  inverted_forward = w.inverted_forward;
  posting_exact = w.posting_exact;
  posting_sorted = w.posting_sorted;
  values_unique = w.values_unique;
}

abbrev pub table_entry : SeriesId → List Sample → List Entry
table_entry id xs = if is_empty xs then [] else (id, xs) ∷ []

-- The table: the samples of every series that has any.
abbrev pub table_of : Index → List SeriesId → List Entry
table_of ix ids = concat_map (λ id. table_entry id (state_of ix id).samples) ids

pub state_of-with_state :
    (ix : Index) (id n : SeriesId) (st : SeriesState)
    → state_of (with_state ix id st) n ≡ (if nat_beq id n then st else state_of ix n)
state_of-with_state ix id n st =
    ap (λ o. or_default o default_state) (get-insert ix.heap id n st) ∙ ground arith

abbrev cleared : SeriesState → SeriesState
cleared st = record st { samples = [] }

same_table :
    (ix jx : Index) (ids : List SeriesId)
    → All (λ n. state_of ix n ≡ state_of jx n) ids
    → table_of ix ids ≡ table_of jx ids
same_table ix jx [] h = refl
same_table ix jx (id ∷ ids) h =
    ap₂ (λ a b. a ++ b) (ap (λ (s : SeriesState). table_entry id s.samples) h.0)
      (same_table ix jx ids h.1)

pub All-with_state :
    (ix : Index) (id : SeriesId) (st : SeriesState) (ids : List SeriesId)
    → All (λ n. id < n) ids
    → All (λ n. state_of (with_state ix id st) n ≡ state_of ix n) ids
All-with_state ix id st [] h = tt
All-with_state ix id st (n ∷ ids) h = (
  state_of-with_state ix id n st ∙ rw (ne→nat_beq id n (omega (arith, h.0))) refl,
  All-with_state ix id st ids h.1,
)

-- An id that the index has.
abbrev pub IsKnown : Index → SeriesId → Type 0
IsKnown ix n = (s : Index.Series) × (Index.get ix n ≡ some s)

take_table-some :
    (ix : Index) (id : SeriesId) (ids : List SeriesId)
    → IsKnown ix id
    → take_table (id ∷ ids) ix ≡ (
      table_entry id (state_of ix id).samples
          ++ (take_table ids (with_state ix id (cleared (state_of ix id)))).0,
      (take_table ids (with_state ix id (cleared (state_of ix id)))).1,
    )
unfolding take_table Series.take_samples
take_table-some ix id ids k = elim (Bool-cases (is_empty (state_of ix id).samples)) [
  | inl e ↦ rw (k.1, take_table, e) refl
  | inr e ↦ rw (k.1, take_table, e) refl
]

pub all_ids-All : (ix : Index) → IsWellFormed ix → All (IsKnown ix) ix.all_ids
unfolding Index.get
all_ids-All ix w = All-mem ix.all_ids (λ n m. known_id ix w n m)

pub All-IsKnown :
    (ix : Index) (heap : HashMap SeriesId SeriesState) (ids : List SeriesId)
    → All (IsKnown ix) ids
    → All (IsKnown (with_heap ix heap)) ids
unfolding Index.get
All-IsKnown ix heap [] k = tt
All-IsKnown ix heap (id ∷ ids) k = (k.0, All-IsKnown ix heap ids k.1)

same_branches : (b : Bool) (st : SeriesState) → (if b then st else st) ≡ st
same_branches true st = refl
same_branches false st = refl

cleared_steps :
    (ix : Index) (id n : SeriesId) (rest : Bool) (st : SeriesState)
    → st ≡ (if nat_beq id n then cleared (state_of ix id) else state_of ix n)
    → (if rest then cleared st else st)
      ≡ (if (if nat_beq id n then true else rest) then cleared (state_of ix n) else state_of ix n)
cleared_steps ix id n rest st = elim (Bool-cases (nat_beq id n)) [
  | inl e ↦ rw e (λ h.
      let here : st ≡ cleared (state_of ix n) =
        h ∙ ap (λ m. cleared (state_of ix m)) ((nat_beq_iff id n).0 e) in
      rw here (same_branches rest (cleared (state_of ix n))))
  | inr e ↦ rw e (λ h. rw h refl)
]

-- On ids in order that the index knows, the loop of `flush` gives the table, and leaves every one of these
-- series without samples, and all else as it was.
pub take_table_lem :
    (ids : List SeriesId) (ix : Index)
    → SortedIds ids
    → All (IsKnown ix) ids
    → (heap : HashMap SeriesId SeriesState) × (take_table ids ix
        ≡ (table_of ix ids, with_heap ix heap))
      × ((n : SeriesId)
          → state_of (with_heap ix heap) n
            ≡ (if mem n ids then cleared (state_of ix n) else state_of ix n))
take_table_lem [] ix s k = (ix.heap, unfold take_table in refl, λ n. refl)
take_table_lem (id ∷ ids) ix s k =
    let st = cleared (state_of ix id) in
    let jx = with_state ix id st in
    let (heap, e, states) = take_table_lem ids jx s.1 (All-IsKnown ix jx.heap ids k.1) in
    let entry = table_entry id (state_of ix id).samples in
    (
      heap,
      take_table-some ix id ids k.0
          ∙ ap (λ (r : List Entry × Index). (entry ++ r.0, r.1)) e
          ∙ ap (λ t. (entry ++ t, with_heap ix heap))
              (same_table jx ix ids (All-with_state ix id st ids s.0)),
      λ n.
          states n
          ∙ cleared_steps ix id n (mem n ids) (state_of jx n) (state_of-with_state ix id n st),
    )
