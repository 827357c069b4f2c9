-- ===== src/Api/Answered.antt =====
-- `read` refuses a request, or answers it with what is stored.
use rust_tsdb.Prelude.{
  ℕ, ◌<◌, ◌≤◌, ◌≡◌, refl, sym, subst, true, false, Option, none, some, List, ◌⊎◌, inl, inr, map,
  keep, ltb, Bool-cases, arith,
}
use rust_tsdb.Prelude.Bytes.{Str, str_eq}
use rust_tsdb.Prelude.Eq.{nat_eq}
use rust_tsdb.Prelude.HashMap
use rust_tsdb.Prelude.HashMap.{HashMap, UniqueKeys}
use rust_tsdb.Api.Parameters.{lower_bound, upper_bound, asked_matchers, both, read_params-both}
use rust_tsdb.Index.Resolve.{matches_all}
use rust_tsdb.Segments.{Segment}
use rust_tsdb.Wal.Record.{Bytes}
use rust_tsdb.Db.{DbState, SeriesResult, query, invalid_time_range}
use rust_tsdb.Db.Query.{IsSound, answer, query_lem}
use rust_tsdb.Api.{StatusCode, bad_request, Params, no_params, on_params, on_results, read}

-- What `read` gives for the bounds and matchers that the parameters mean: a refusal of the request when a bound
-- is no number or the range ends before it starts, or what is stored of the series that the matchers match.
pub data Answers (st : DbState) (gs : List Segment) (params : HashMap Str Str)
    : List SeriesResult ⊎ StatusCode → Type 0 where
  unreadable_start : lower_bound params ≡ none → Answers st gs params (inr bad_request)
  unreadable_end : upper_bound params ≡ none → Answers st gs params (inr bad_request)
  late :
      (a b : ℕ)
      → lower_bound params ≡ some a
      → upper_bound params ≡ some b
      → b < a
      → Answers st gs params (inr bad_request)
  answered :
      (a b : ℕ)
      → lower_bound params ≡ some a
      → upper_bound params ≡ some b
      → a ≤ b
      → Answers st gs params (
          inl (
            map (answer st.index gs (record { start = a; end = b })) (
              keep
                (λ n. matches_all (asked_matchers params) (HashMap.get st.index.forward n))
                st.index.all_ids)))

module _ (crc32 : Bytes → ℕ) (to_json : Segment → Bytes) (from_json : Bytes → Option Segment) where
  query-late :
      (st : DbState) (p : Params)
      → ltb p.end p.start ≡ true
      → query crc32 from_json st p.matchers (record { start = p.start; end = p.end })
        ≡ inr (invalid_time_range p.start p.end)
  unfolding query
  query-late st p l = rw l refl

  on_params-Answers :
      (st : DbState) (gs : List Segment) (params : HashMap Str Str) (a b : ℕ)
      → IsSound crc32 to_json from_json st gs
      → st.failed ≡ false
      → lower_bound params ≡ some a
      → upper_bound params ≡ some b
      → Answers st gs params (
          on_params crc32 from_json st
            (inl (record { start = a; end = b; matchers = asked_matchers params })))
  on_params-Answers st gs params a b sound ok e f =
      let p : Params = record { start = a; end = b; matchers = asked_matchers params } in
      elim (Bool-cases (ltb b a)) [
        | inl l ↦
            subst (λ r. Answers st gs params (on_results r)) (sym (query-late st p l))
              (late a b e f (ground (arith, l)))
        | inr l ↦
            let order : a ≤ b = ground (arith, l) in
            subst (λ r. Answers st gs params (on_results r))
              (sym (
                query_lem crc32 to_json from_json st gs p.matchers (record { start = a; end = b })
                  sound ok order))
              (answered a b e f order)
      ]

  both-Answers :
      (st : DbState) (gs : List Segment) (params : HashMap Str Str) (a b : Option ℕ)
      → IsSound crc32 to_json from_json st gs
      → st.failed ≡ false
      → lower_bound params ≡ a
      → upper_bound params ≡ b
      → Answers st gs params (on_params crc32 from_json st (both (asked_matchers params) a b))
  both-Answers st gs params none b sound ok e f = unreadable_start e
  both-Answers st gs params (some a) none sound ok e f = unreadable_end f
  both-Answers st gs params (some a) (some b) sound ok e f =
      on_params-Answers st gs params a b sound ok e f

  -- On a sound database that has not failed, for a map of parameters (no key stands twice), `read` gives one of
  -- three answers. When the value of "start" or "end" is there and is no number, or the range ends before it
  -- starts, the request is a bad one; the range is from 0 to 2^64 - 1 where a bound is not there. In all other
  -- cases `read` gives, for exactly the series that have the value of every other key as the label of that
  -- name, the metric's for "name", the labels and the stored samples in the range. It gives no server error.
  pub read-Answers :
      (st : DbState) (gs : List Segment) (params : HashMap Str Str)
      → IsSound crc32 to_json from_json st gs
      → st.failed ≡ false
      → UniqueKeys params
      → Answers st gs params (read crc32 from_json st params)
  unfolding read
  read-Answers st gs params sound ok unique =
      subst (λ r. Answers st gs params (on_params crc32 from_json st r))
        (sym (read_params-both params no_params unique))
        (both-Answers st gs params (lower_bound params) (upper_bound params) sound ok refl refl)
