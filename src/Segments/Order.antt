-- ===== src/Segments/Order.antt =====
-- The order in which `open` reads its files.
use rust_tsdb.Prelude.{
  ℕ, ◌+◌, ◌≤◌, ◌<◌, ◌^◌, ◌≡◌, refl, subst, Option, none, some, List, [], ◌∷◌, ◌⊎◌, inl, inr, last?,
  leb, ltb, All, Bool-cases, arith,
}
use rust_tsdb.Prelude.Bytes.{Str, str_eq}
use rust_tsdb.Prelude.Decimal.{strip_prefix}
use rust_tsdb.Segments.{StorageError, segment_name, segment_prefix}
use rust_tsdb.Segments.Open.{
  number_of, without_suffix, with_number, numbered_files, insert_file, sort_files, number_after,
}
use rust_tsdb.Segments.Accepts.{raw_number-name}

-- Every file of the list has the name of its number.
abbrev pub Named : List (ℕ × Str) → Type 0
Named fs = All (λ (f : ℕ × Str). f.1 ≡ segment_name f.0) fs

abbrev pub listed : List (ℕ × Str) → List (ℕ × Str) ⊎ StorageError
listed fs = inl fs

pub no_list : (e : StorageError) (fs : List (ℕ × Str)) → inr e ≡ listed fs → ⊥
no_list e fs h = cc

pub same_list : (fs gs : List (ℕ × Str)) → listed fs ≡ listed gs → fs ≡ gs
same_list fs gs h = cc

with_number-Named :
    (name : Str) (o : Option ℕ ⊎ StorageError) (rest : List (ℕ × Str) ⊎ StorageError)
    (fs : List (ℕ × Str))
    → ((n : ℕ) → o ≡ inl (some n) → name ≡ segment_name n)
    → ((gs : List (ℕ × Str)) → rest ≡ inl gs → Named gs)
    → with_number name o rest ≡ inl fs
    → Named fs
with_number-Named name (inr e) rest fs f g h = absurd (no_list e fs h)
with_number-Named name (inl none) rest fs f g h = g fs h
with_number-Named name (inl (some n)) (inl gs) fs f g h =
    subst Named (same_list ((n, name) ∷ gs) fs h) (f n refl, g gs refl)
with_number-Named name (inl (some n)) (inr e) fs f g h = absurd (no_list e fs h)

pub numbered_files-Named :
    (names : List Str) (fs : List (ℕ × Str)) → numbered_files names ≡ inl fs → Named fs
unfolding numbered_files number_of
numbered_files-Named [] fs h = subst Named (same_list [] fs h) tt
numbered_files-Named (name ∷ names) fs h =
    with_number-Named name (number_of name) (numbered_files names) fs
      (λ n. raw_number-name name (without_suffix (strip_prefix segment_prefix name)) n)
      (λ gs. numbered_files-Named names gs) h

-- In the order of their numbers.
abbrev pub InOrder : List (ℕ × Str) → Type 0
InOrder [] = Unit
InOrder (x ∷ xs) = All (λ (y : ℕ × Str). x.0 ≤ y.0) xs × InOrder xs

All-insert_file {ℓ} :
    (P : ℕ × Str → Type ℓ) (x : ℕ × Str) (xs : List (ℕ × Str))
    → P x
    → All P xs
    → All P (insert_file x xs)
unfolding insert_file
All-insert_file P x [] h k = (h, tt)
All-insert_file P x (y ∷ ys) h k = elim (Bool-cases (leb x.0 y.0)) [
  | inl e ↦ rw e (h, k)
  | inr e ↦ rw e (k.0, All-insert_file P x ys h k.1)
]

pub All-sort_files {ℓ} :
    (P : ℕ × Str → Type ℓ) (xs : List (ℕ × Str)) → All P xs → All P (sort_files xs)
unfolding sort_files
All-sort_files P [] h = tt
All-sort_files P (x ∷ xs) h = All-insert_file P x (sort_files xs) h.0 (All-sort_files P xs h.1)

All-le_trans :
    (n m : ℕ) (xs : List (ℕ × Str))
    → n ≤ m
    → All (λ (y : ℕ × Str). m ≤ y.0) xs
    → All (λ (y : ℕ × Str). n ≤ y.0) xs
All-le_trans n m [] h k = tt
All-le_trans n m (x ∷ xs) h k = (omega arith, All-le_trans n m xs h k.1)

insert_file-InOrder : (x : ℕ × Str) (xs : List (ℕ × Str)) → InOrder xs → InOrder (insert_file x xs)
unfolding insert_file
insert_file-InOrder x [] h = (tt, tt)
insert_file-InOrder x (y ∷ ys) h = elim (Bool-cases (leb x.0 y.0)) [
  | inl e ↦ rw e ((ground (arith, e), All-le_trans x.0 y.0 ys (ground (arith, e)) h.0), h)
  | inr e ↦ rw e (
    All-insert_file (λ (z : ℕ × Str). y.0 ≤ z.0) x ys (ground (arith, e)) h.0,
    insert_file-InOrder x ys h.1,
  )
]

pub sort_files-InOrder : (xs : List (ℕ × Str)) → InOrder (sort_files xs)
unfolding sort_files
sort_files-InOrder [] = tt
sort_files-InOrder (x ∷ xs) = insert_file-InOrder x (sort_files xs) (sort_files-InOrder xs)

same_number : (n m : ℕ) → some n ≡ some m → n ≡ m
same_number n m h = cc

no_number : (n : ℕ) → none ≡ some n → ⊥
no_number n h = cc

below_last :
    (next : ℕ) (x : ℕ × Str) (xs : List (ℕ × Str))
    → InOrder (x ∷ xs)
    → number_after (last? (x ∷ xs)) ≡ some next
    → All (λ (f : ℕ × Str). f.0 < next) (x ∷ xs)
unfolding number_after
below_last next x [] o = elim (Bool-cases (ltb (x.0 + 1) (2 ^ 64))) [
  | inl e ↦ rw e (λ h. (omega (arith, same_number (x.0 + 1) next h), tt))
  | inr e ↦ rw e (λ h. absurd (no_number next h))
]
below_last next x (y ∷ ys) o =
    λ h. let rest = below_last next y ys o.1 h in (omega (arith, o.0.0, rest.0), rest)

-- The number for the next file is above those of all files.
pub number_after-above :
    (next : ℕ) (xs : List (ℕ × Str))
    → InOrder xs
    → number_after (last? xs) ≡ some next
    → All (λ (f : ℕ × Str). f.0 < next) xs
number_after-above next [] o h = tt
number_after-above next (x ∷ xs) o h = below_last next x xs o h

pub number_after-below :
    (o : Option (ℕ × Str)) (next : ℕ) → number_after o ≡ some next → next < 2 ^ 64
unfolding number_after
number_after-below none next = λ h. omega (arith, same_number 0 next h)
number_after-below (some f) next = elim (Bool-cases (ltb (f.0 + 1) (2 ^ 64))) [
  | inl e ↦ rw e (λ h. subst (λ k. k < 2 ^ 64) (same_number (f.0 + 1) next h) (ground (arith, e)))
  | inr e ↦ rw e (λ h. absurd (no_number next h))
]
