-- ===== src/Segments/Accepts.antt =====
-- What `SegmentStore::open` takes: the names that `flush` gives, and segments with samples in order.
use rust_tsdb.Prelude.{
  ℕ, ◌^◌, ◌<◌, ◌≡◌, refl, ap, ◌∙◌, Bool, true, false, Option, none, some, List, [], ◌∷◌, ◌++◌, ◌⊎◌,
  inl, inr, last?, Bool-cases, All, arith, if◌then◌else◌,
}
use rust_tsdb.Prelude.Bytes.{Str, str_eq}
use rust_tsdb.Prelude.Eq.{◌==◌, nat_eq, eq_iff}
use rust_tsdb.Prelude.Decimal.{
  padded, parse_u64, strip_prefix, strip_prefix-append, strip_suffix-append, parse_u64-padded,
}
use rust_tsdb.Segments.{
  DiskSeries, StorageError, corrupt_segment, panicked, segment_prefix, seg_suffix, segment_name,
}
use rust_tsdb.Segments.Open.{
  checked_number, raw_number, without_suffix, number_of, unordered, Indexing, on_samples,
  index_series, index_segment,
}

abbrev numbered : Option ℕ → Option ℕ ⊎ StorageError
numbered o = inl o

refused : (n : ℕ) → inr corrupt_segment ≡ numbered (some n) → ⊥
refused n h = cc

unnumbered : (n : ℕ) → numbered none ≡ numbered (some n) → ⊥
unnumbered n h = cc

number_same : (n m : ℕ) → numbered (some n) ≡ numbered (some m) → n ≡ m
number_same n m h = cc

chosen : (b : Bool) (x y : Option ℕ ⊎ StorageError) → b ≡ true → (if b then x else y) ≡ x
chosen b x y e = rw e refl

checked_number-name :
    (name : Str) (o : Option ℕ) (n : ℕ)
    → checked_number name o ≡ numbered (some n)
    → name ≡ segment_name n
checked_number-name name none n = λ h. absurd (refused n h)
checked_number-name name (some m) n = elim (Bool-cases (name == segment_name m)) [
  | inl e ↦ rw e (λ h. (eq_iff name (segment_name m)).0 e ∙ ap segment_name (number_same m n h))
  | inr e ↦ rw e (λ h. absurd (refused n h))
]

pub raw_number-name :
    (name : Str) (o : Option Str) (n : ℕ)
    → raw_number name o ≡ numbered (some n)
    → name ≡ segment_name n
raw_number-name name none n h = absurd (unnumbered n h)
raw_number-name name (some raw) n h = checked_number-name name (parse_u64 raw) n h

number_of-own : (n : ℕ) → n < 2 ^ 64 → number_of (segment_name n) ≡ inl (some n)
unfolding number_of segment_name
number_of-own n h =
    ap (λ o. raw_number (segment_name n) (without_suffix o))
      (strip_prefix-append segment_prefix (padded 20 20 n ++ seg_suffix))
    ∙ ap (raw_number (segment_name n)) (strip_suffix-append (padded 20 20 n) seg_suffix)
    ∙ ap (checked_number (segment_name n)) (parse_u64-padded 20 n h)
    ∙ chosen (segment_name n == segment_name n) (inl (some n)) (inr corrupt_segment)
        ((eq_iff (segment_name n) (segment_name n)).1 refl)

-- `open` takes the file of a name for the segment `n` below 2^64 exactly when the name is the one that
-- `flush` gives the segment `n`.
pub number_of-segment_name :
    (name : Str) (n : ℕ)
    → n < 2 ^ 64
    → (number_of name ≡ inl (some n) → name ≡ segment_name n)
      × (name ≡ segment_name n → number_of name ≡ inl (some n))
unfolding number_of
number_of-segment_name name n h = (
  raw_number-name name (without_suffix (strip_prefix segment_prefix name)) n,
  λ e. ap number_of e ∙ number_of-own n h,
)

-- At least one pair, and the timestamps go strictly up.
abbrev pub Ordered : List (ℕ × ℕ) → Type 0
Ordered [] = ⊥
Ordered (x ∷ []) = Unit
Ordered (x ∷ y ∷ rest) = (x.0 < y.0) × Ordered (y ∷ rest)

pub unordered-Ordered :
    (x : ℕ × ℕ) (rest : List (ℕ × ℕ)) → unordered (x ∷ rest) ≡ false → Ordered (x ∷ rest)
unfolding unordered
unordered-Ordered x [] h = tt
unordered-Ordered x (y ∷ rest) h = (ground (arith, h), unordered-Ordered y rest (ground (arith, h)))

abbrev indexed : Indexing → Indexing ⊎ StorageError
indexed st = inl st

no_index : (e : StorageError) (after : Indexing) → inr e ≡ indexed after → ⊥
no_index e after h = cc

pub Result-cases :
    (r : Indexing ⊎ StorageError)
    → ((e : StorageError) × (r ≡ inr e)) ⊎ ((st : Indexing) × (r ≡ inl st))
Result-cases (inl st) = inr (st, refl)
Result-cases (inr e) = inl (e, refl)

on_samples-Ordered :
    (st after : Indexing) (s : DiskSeries) (samples : List (ℕ × ℕ)) (last : Option (ℕ × ℕ))
    → on_samples st s samples last ≡ indexed after
    → Ordered samples
on_samples-Ordered st after s [] last = λ h. absurd (no_index corrupt_segment after h)
on_samples-Ordered st after s (first ∷ rest) none = λ h. absurd (no_index panicked after h)
on_samples-Ordered st after s (first ∷ rest) (some last) =
    elim (Bool-cases (unordered (first ∷ rest))) [
      | inl e ↦ rw e (λ h. absurd (no_index corrupt_segment after h))
      | inr e ↦ λ h. unordered-Ordered first rest e
    ]

-- `index_segment` gives a result only for a segment whose series all have a sample and timestamps that
-- go strictly up.
pub index_segment-Ordered :
    (series : List DiskSeries) (st after : Indexing)
    → index_segment series st ≡ inl after
    → All (λ (s : DiskSeries). Ordered s.samples) series
unfolding index_segment index_series
index_segment-Ordered [] st after = λ h. tt
index_segment-Ordered (s ∷ ss) st after = elim (Result-cases (index_series st s)) [
  | inl (k, e) ↦ rw (e, index_segment) (λ h. absurd (no_index k after h))
  | inr (next, e) ↦
      rw (e, index_segment)
        (λ h. (
          on_samples-Ordered st next s s.samples (last? s.samples) e,
          index_segment-Ordered ss next after h,
        ))
]
