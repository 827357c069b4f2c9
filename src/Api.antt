-- ===== src/Api.antt =====
-- src/api.rs: the handlers of the HTTP interface, as functions of the decoded request. The text of the
-- answer, axum and `db.wait` are not part of it.
pub mod Parameters
pub mod Answered
use rust_tsdb.Prelude.{
  ℕ, ◌-◌, ◌^◌, ◌<◌, ◌≤◌, ◌≡◌, refl, ap, ◌∙◌, Bool, true, false, Option, none, some, List, [], ◌∷◌,
  ◌++◌, ◌⊎◌, inl, inr, map, keep, ltb, ge→ltb, Bool-cases, arith, if◌then◌else◌,
}
use rust_tsdb.Prelude.Bytes.{Str, str_eq}
use rust_tsdb.Prelude.Decimal.{parse_u64}
use rust_tsdb.Prelude.Eq.{◌==◌, nat_eq}
use rust_tsdb.Prelude.HashMap
use rust_tsdb.Prelude.HashMap.{HashMap}
use rust_tsdb.Model.{Sample, TimeRange, Matcher, equal, Label}
use rust_tsdb.LabelSet.{LabelSet, metric_label, from_labels}
use rust_tsdb.Index.Resolve.{matches_all}
use rust_tsdb.Segments.{Segment, Fault, StorageError}
use rust_tsdb.Wal.Record.{Bytes}
use rust_tsdb.Wal.Writer.{Lsn, WalError}
use rust_tsdb.Wal.Reader.{ReplayError}
use rust_tsdb.Wal.Flusher.{WalConfig}
use rust_tsdb.Db.{
  DbState, DbError, SeriesResult, WriteBatch, write, query, storage, invalid_time_range,
  invalid_buffer_size, storage_failed, wal, wal_corrupt,
}
use rust_tsdb.Db.Query.{IsSound, answer, query_lem}

-- The codes of `StatusCode` that the handlers give.
pub data StatusCode : Type 0 where
  no_content bad_request internal_server_error : StatusCode

pub record SampleDto : Type 0 where
  pub t : ℕ
  pub v : ℕ

pub record WriteSeries : Type 0 where
  pub labels : HashMap Str Str
  pub samples : List SampleDto

abbrev pub to_entry : WriteSeries → LabelSet × List Sample
to_entry s = (
  from_labels (map (λ (p : Str × Str). record { name = p.0; value = p.1 }) s.labels),
  map (λ (d : SampleDto). record { timestamp = d.t; value = d.v }) s.samples,
)

abbrev pub to_batch : List WriteSeries → WriteBatch
to_batch = map to_entry

abbrev pub write_status : Lsn ⊎ DbError → StatusCode
write_status (inl lsn) = no_content
write_status (inr e) = internal_server_error

-- `write_json`, with the state that it leaves
unfoldable pub write_json :
    (Bytes → ℕ)
    → (Segment → Bytes)
    → WalConfig
    → Fault
    → DbState
    → List WriteSeries
    → StatusCode × DbState
write_json crc32 to_json cfg fault st body =
    let r = write crc32 to_json cfg fault st (to_batch body) in (write_status r.0, r.1)

-- "start", "end" and "name"
abbrev pub start_key : Str
start_key = b's' ∷ b't' ∷ b'a' ∷ b'r' ∷ b't' ∷ []

abbrev pub end_key : Str
end_key = b'e' ∷ b'n' ∷ b'd' ∷ []

abbrev pub name_key : Str
name_key = b'n' ∷ b'a' ∷ b'm' ∷ b'e' ∷ []

-- What the loop of `read` carries.
pub record Params : Type 0 where
  pub start : ℕ
  pub end : ℕ
  pub matchers : List Matcher

abbrev pub with_start : Params → Option ℕ → Params ⊎ StatusCode
with_start p none = inr bad_request
with_start p (some n) = inl (record p { start = n })

abbrev pub with_end : Params → Option ℕ → Params ⊎ StatusCode
with_end p none = inr bad_request
with_end p (some n) = inl (record p { end = n })

abbrev pub with_matcher : Params → Str → Str → Params ⊎ StatusCode
with_matcher p name value = inl (record p {
  matchers = p.matchers ++ record { name = name; value = value; operator = equal } ∷ [];
})

-- One round: the arms of `match k.as_str()`.
unfoldable pub read_param : Params → Str × Str → Params ⊎ StatusCode
read_param p (k, v) =
    if k == start_key
    then with_start p (parse_u64 v)
    else if k == end_key
    then with_end p (parse_u64 v)
    else if k == name_key
    then with_matcher p metric_label v
    else with_matcher p k v

unfoldable pub read_params : HashMap Str Str → Params → Params ⊎ StatusCode
unfolding read_param
read_params [] p = inl p
read_params (e ∷ es) p = elim (read_param p e) [ inr s ↦ inr s | inl q ↦ read_params es q ]

abbrev pub no_params : Params
no_params = record { start = 0; end = 2 ^ 64 - 1; matchers = [] }

abbrev pub query_status : DbError → StatusCode
query_status (storage e) = internal_server_error
query_status (invalid_time_range a b) = bad_request
query_status invalid_buffer_size = internal_server_error
query_status storage_failed = internal_server_error
query_status (wal e) = internal_server_error
query_status (wal_corrupt e) = internal_server_error

abbrev pub on_results : List SeriesResult ⊎ DbError → List SeriesResult ⊎ StatusCode
on_results (inl rs) = inl rs
on_results (inr e) = inr (query_status e)

module _ (crc32 : Bytes → ℕ) (from_json : Bytes → Option Segment) where
  abbrev pub on_params : DbState → Params ⊎ StatusCode → List SeriesResult ⊎ StatusCode
  on_params st (inr s) = inr s
  on_params st (inl p) =
      on_results (query crc32 from_json st p.matchers (record { start = p.start; end = p.end }))

  -- `read`, up to the text of the answer
  unfoldable pub read : DbState → HashMap Str Str → List SeriesResult ⊎ StatusCode
  unfolding read_params
  read st params = on_params st (read_params params no_params)
