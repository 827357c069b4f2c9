-- ===== src/Model.antt =====
-- src/model.rs: labels, samples, time ranges and matchers (label sets are in LabelSet.antt). A `String` is the list of its
-- UTF-8 bytes, and an `f64` is its bit pattern, since the storage code only moves values around.
use rust_tsdb.Prelude.{ℕ, ◌≡◌, Bool, true, ◌&&◌, ◌↔◌, leb, arith}
use rust_tsdb.Prelude.Bytes.{Str, str_eq}
use rust_tsdb.Prelude.Eq.{KeyEq, ◌==◌, eq_iff}

pub record Label : Type 0 where
  pub name : Str
  pub value : Str

pub label_beq : Label → Label → Bool
label_beq a b = (a.name == b.name) && (a.value == b.value)

pub label_beq_iff : (a b : Label) → (label_beq a b ≡ true) ↔ (a ≡ b)
unfolding label_beq
label_beq_iff a b = ground (arith, eq_iff a.name b.name, eq_iff a.value b.value)

instance abbrev pub label_eq : KeyEq Label
label_eq = record { same = label_beq; same_iff = label_beq_iff }

-- `Sample`: milliseconds since the epoch, and the bits of the value.
pub record Sample : Type 0 where
  pub timestamp : ℕ
  pub value : ℕ

-- `TimeRange`: both ends belong to it.
pub record TimeRange : Type 0 where
  pub start : ℕ
  pub end : ℕ

-- `Sample::in_timerange`
unfoldable pub in_timerange : TimeRange → Sample → Bool
in_timerange range s = leb range.start s.timestamp && leb s.timestamp range.end

-- `SeriesId(pub u64)`
abbrev pub SeriesId : Type 0
SeriesId = ℕ

pub data MatcherOperator : Type 0 where
  equal not_equal : MatcherOperator

pub record Matcher : Type 0 where
  pub name : Str
  pub value : Str
  pub operator : MatcherOperator
