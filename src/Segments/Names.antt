-- ===== src/Segments/Names.antt =====
-- The names of segments tell them apart, and from the temporary files.
use rust_tsdb.Prelude.{
  ℕ, ◌<◌, ◌^◌, ◌≡◌, ◌≢◌, ap, sym, ◌∙◌, Option, none, some, [], ◌∷◌, ◌++◌, last?, last?-append,
  arith,
}
use rust_tsdb.Prelude.Bytes.{Str}
use rust_tsdb.Prelude.Decimal.{
  padded, parse_u64, strip_prefix, strip_suffix, strip_prefix-append, strip_suffix-append,
  parse_u64-padded,
}
use rust_tsdb.Segments.{segment_prefix, seg_suffix, segment_name, temporary_name}

abbrev and_then {ℓ κ} : {A : Type ℓ} {B : Type κ} → Option A → (A → Option B) → Option B
and_then none f = none
and_then (some a) f = f a

-- The number in a segment's name.
abbrev number_of : Str → Option ℕ
number_of name =
    and_then (strip_prefix segment_prefix name)
      (λ rest. and_then (strip_suffix seg_suffix rest) (λ digits. parse_u64 digits))

number_of-segment_name : (n : ℕ) → n < 2 ^ 64 → number_of (segment_name n) ≡ some n
unfolding segment_name
number_of-segment_name n h =
    rw
      (
        strip_prefix-append segment_prefix (padded 20 20 n ++ seg_suffix),
        strip_suffix-append (padded 20 20 n) seg_suffix,
      )
      (parse_u64-padded 20 n h)

some_eq : (n m : ℕ) → some n ≡ some m → n ≡ m
some_eq n m e = cc

-- Different numbers have different names.
pub segment_name-injective :
    (n m : ℕ) → n < 2 ^ 64 → m < 2 ^ 64 → segment_name n ≡ segment_name m → n ≡ m
segment_name-injective n m h k e =
    some_eq n m (sym (number_of-segment_name n h) ∙ ap number_of e ∙ number_of-segment_name m k)

differ : (n m : ℕ) → m < n → n ≢ m
differ n m h e = absurd (omega arith)

-- No temporary file has the name of a segment.
pub temporary_name-ne-segment_name : (n m : ℕ) → temporary_name n ≢ segment_name m
unfolding temporary_name segment_name
temporary_name-ne-segment_name n m e = differ 112 103 (omega arith) (
    some_eq 112 103 (
      sym (last?-append (segment_prefix ++ padded 20 20 n) b'.' (b't' ∷ b'm' ∷ b'p' ∷ []))
      ∙ ap last? e
      ∙ last?-append (segment_prefix ++ padded 20 20 m) b'.' (b's' ∷ b'e' ∷ b'g' ∷ [])))
