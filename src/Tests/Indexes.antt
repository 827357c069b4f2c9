-- ===== src/Tests/Indexes.antt =====
-- The index at concrete inputs.
use rust_tsdb.Prelude.{ap, sym, ◌+◌, ◌^◌, ◌<◌, ◌≡◌, List, [], ◌∷◌, keep, arith}
use rust_tsdb.Prelude.HashMap
use rust_tsdb.Prelude.Eq.{nat_eq}
use rust_tsdb.Model.{Matcher, not_equal, equal}
use rust_tsdb.LabelSet.{LabelSet}
use rust_tsdb.LabelSet.Sorted.{IsSorted}
use rust_tsdb.Index.{Index, new, encode, resolve}
use rust_tsdb.Index.Invariant.{IsWellFormed, new-IsWellFormed}
use rust_tsdb.Index.Encode.{Encoded, encode-Encoded, encode-encode}
use rust_tsdb.Index.Resolve.{matches_all, resolve-keep}

-- `{job="1"}`, and no label at all.
abbrev pub job_one : LabelSet
job_one = record { labels = record { name = 106 ∷ []; value = 49 ∷ [] } ∷ [] }

abbrev no_label : LabelSet
no_label = record { labels = [] }

pub job_one-IsSorted : IsSorted job_one
job_one-IsSorted = (tt, tt)

no_label-IsSorted : IsSorted no_label
no_label-IsSorted = tt

new_room : new.next_id + 1 < 2 ^ 64
new_room = omega arith

encode-Encoded_example : Encoded new job_one (encode new job_one)
encode-Encoded_example = encode-Encoded new job_one new-IsWellFormed job_one-IsSorted new_room

-- An index with one series.
abbrev pub one_series : Index
one_series = (encode new job_one).0

pub one_series-IsWellFormed : IsWellFormed one_series
one_series-IsWellFormed =
    (encode-Encoded new job_one new-IsWellFormed job_one-IsSorted new_room).well_formed

one_room : one_series.next_id + 1 < 2 ^ 64
unfolding encode HashMap.get
one_room = omega arith

same_id : (encode new job_one).1.id ≡ (encode one_series job_one).1.id
same_id =
    ap (λ r. r.1.id) (sym (encode-encode new job_one new-IsWellFormed job_one-IsSorted new_room))

abbrev pub matchers : List Matcher
matchers =
    record { name = 106 ∷ []; value = 49 ∷ []; operator = equal }
    ∷ record { name = 104 ∷ []; value = []; operator = not_equal }
    ∷ []

resolve-keep_example :
    resolve one_series matchers
    ≡ keep (λ n. matches_all matchers (HashMap.get one_series.forward n)) one_series.all_ids
resolve-keep_example = resolve-keep one_series one_series-IsWellFormed matchers
