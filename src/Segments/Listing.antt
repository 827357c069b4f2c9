-- ===== src/Segments/Listing.antt =====
-- What a flush does to the listing of the directory: `open` finds one file more, after all others.
use rust_tsdb.Prelude.{
  if◌then◌else◌, ◌+◌, ℕ, ◌-◌, ◌≤◌, ◌<◌, ◌^◌, ◌≡◌, refl, ap, sym, ◌∙◌, subst, true, false, Option,
  none, some, List, [], ◌∷◌, ◌++◌, ◌⊎◌, inl, inr, last?, length, length-append, drop-length-append,
  map, leb, le→leb, All, Bool-cases, arith,
}
use rust_tsdb.Prelude.Bytes.{Str, str_eq, str_beq}
use rust_tsdb.Prelude.Eq.{◌==◌, eq_iff}
use rust_tsdb.Prelude.Decimal.{padded, strip_suffix, strip_prefix-append}
use rust_tsdb.Prelude.HashMap
use rust_tsdb.Prelude.HashMap.{HashMap}
use rust_tsdb.Wal.Record.{Bytes}
use rust_tsdb.Segments.{
  Files, StorageError, segment_name, temporary_name, segment_prefix, seg_suffix, tmp_suffix,
}
use rust_tsdb.Segments.Open.{
  raw_number, without_suffix, number_of, with_number, numbered_files, insert_file, sort_files,
}
use rust_tsdb.Segments.Order.{listed, no_list, same_list}
use rust_tsdb.Segments.Accepts.{number_of-segment_name}

abbrev pub names_of : Files → List Str
names_of files = map (λ (f : Str × Bytes). f.0) files

same_end : (a b : ℕ) → some a ≡ some b → a ≡ b
same_end a b h = cc

last_differs : (a b : ℕ) → a < b → b ≡ a → ⊥
last_differs a b l h = absurd (omega arith)

suffixes_differ : tmp_suffix ≡ seg_suffix → ⊥
suffixes_differ h = last_differs 103 112 (omega arith) (same_end 112 103 (ap last? h))

other_suffix : str_beq tmp_suffix seg_suffix ≡ false
other_suffix = elim (Bool-cases (tmp_suffix == seg_suffix)) [
  | inl e ↦ absurd (suffixes_differ ((eq_iff tmp_suffix seg_suffix).0 e))
  | inr e ↦ e
]

-- A temporary file is none of the files that `open` reads.
strip_suffix-tmp : (p : Str) → strip_suffix seg_suffix (p ++ tmp_suffix) ≡ none
unfolding strip_suffix
strip_suffix-tmp p =
    let n : length (p ++ tmp_suffix) - length seg_suffix ≡ length p =
      omega (arith, length-append p tmp_suffix) in
    let fits : leb (length seg_suffix) (length (p ++ tmp_suffix)) ≡ true =
      le→leb (length seg_suffix) (length (p ++ tmp_suffix))
        (omega (arith, length-append p tmp_suffix)) in
    rw (fits, n, drop-length-append p tmp_suffix, other_suffix) refl

number_of-temporary_name : (n : ℕ) → number_of (temporary_name n) ≡ inl none
unfolding number_of temporary_name
number_of-temporary_name n =
    ap (λ o. raw_number (temporary_name n) (without_suffix o))
      (strip_prefix-append segment_prefix (padded 20 20 n ++ tmp_suffix))
    ∙ ap (raw_number (temporary_name n)) (strip_suffix-tmp (padded 20 20 n))

numbered_files-remove :
    (files : Files) (t : Str)
    → number_of t ≡ inl none
    → numbered_files (names_of (HashMap.remove files t)) ≡ numbered_files (names_of files)
unfolding numbered_files HashMap.remove
numbered_files-remove [] t e = refl
numbered_files-remove ((j, w) ∷ files) t e = elim (Bool-cases (j == t)) [
  | inl b ↦ rw b (
      numbered_files-remove files t e
      ∙ sym (
          ap (λ o. with_number j o (numbered_files (names_of files)))
            (ap number_of ((eq_iff j t).0 b) ∙ e)))
  | inr b ↦ rw b (ap (with_number j (number_of j)) (numbered_files-remove files t e))
]

-- All numbers of a list are below this one.
abbrev pub AllBelow : ℕ → List (ℕ × Str) → Type 0
AllBelow n fs = All (λ (f : ℕ × Str). f.0 < n) fs

-- What a listing of a name and more names is made of.
record Rest (name : Str) (n : ℕ) (o : Option ℕ ⊎ StorageError)
    (rest : List (ℕ × Str) ⊎ StorageError) : Type 0 where
  files : List (ℕ × Str)
  rest_is : rest ≡ inl files
  below : AllBelow n files
  other_number : (k : ℕ) → o ≡ inl (some k) → k < n

abbrev numbered : Option ℕ → Option ℕ ⊎ StorageError
numbered o = inl o

no_number : (k : ℕ) → numbered none ≡ numbered (some k) → ⊥
no_number k h = cc

same_number : (m k : ℕ) → numbered (some m) ≡ numbered (some k) → m ≡ k
same_number m k h = cc

with_number-Rest :
    (name : Str) (n : ℕ) (o : Option ℕ ⊎ StorageError) (rest : List (ℕ × Str) ⊎ StorageError)
    (fs : List (ℕ × Str))
    → with_number name o rest ≡ inl fs
    → AllBelow n fs
    → Rest name n o rest
with_number-Rest name n (inr e) rest fs h b = absurd (no_list e fs h)
with_number-Rest name n (inl none) rest fs h b = record {
  files = fs;
  rest_is = h;
  below = b;
  other_number = λ k e. absurd (no_number k e);
}
with_number-Rest name n (inl (some m)) (inr e) fs h b = absurd (no_list e fs h)
with_number-Rest name n (inl (some m)) (inl gs) fs h b =
    let all : AllBelow n ((m, name) ∷ gs) =
      subst (AllBelow n) (sym (same_list ((m, name) ∷ gs) fs h)) b in
    record {
      files = gs;
      rest_is = refl;
      below = all.1;
      other_number = λ k e. omega (arith, same_number m k e, all.0);
    }

irrefl : (n : ℕ) → n < n → ⊥
irrefl n h = absurd (omega arith)

-- When all numbers of the listing are below a number, its name is not there.
get-above :
    (files : Files) (n : ℕ) (fs : List (ℕ × Str))
    → n < 2 ^ 64
    → numbered_files (names_of files) ≡ inl fs
    → AllBelow n fs
    → HashMap.get files (segment_name n) ≡ none
unfolding HashMap.get numbered_files
get-above [] n fs l h b = refl
get-above ((j, w) ∷ files) n fs l h b =
    let r = with_number-Rest j n (number_of j) (numbered_files (names_of files)) fs h b in
    elim (Bool-cases (j == segment_name n)) [
      | inl e ↦ absurd (
          irrefl n
            (r.other_number n ((number_of-segment_name j n l).1 ((eq_iff j (segment_name n)).0 e))))
      | inr e ↦ rw e (get-above files n r.files l r.rest_is r.below)
    ]

abbrev entry : Bytes → Option Bytes
entry w = some w

no_entry : (w : Bytes) → entry w ≡ none → ⊥
no_entry w h = cc

names_of-insert :
    (files : Files) (name : Str) (image : Bytes)
    → HashMap.get files name ≡ none
    → names_of (HashMap.insert files name image) ≡ names_of files ++ name ∷ []
unfolding HashMap.get HashMap.insert
names_of-insert [] name image = λ h. refl
names_of-insert ((j, w) ∷ files) name image = elim (Bool-cases (j == name)) [
  | inl e ↦ rw e (λ h. absurd (no_entry w h))
  | inr e ↦ rw e (λ h. ap (λ xs. j ∷ xs) (names_of-insert files name image h))
]

with_number-snoc :
    (name : Str) (o : Option ℕ ⊎ StorageError) (gs fs : List (ℕ × Str)) (z : ℕ × Str)
    → with_number name o (inl gs) ≡ inl fs
    → with_number name o (inl (gs ++ z ∷ [])) ≡ inl (fs ++ z ∷ [])
with_number-snoc name (inr e) gs fs z h = absurd (no_list e fs h)
with_number-snoc name (inl none) gs fs z h = ap (λ xs. listed (xs ++ z ∷ [])) (same_list gs fs h)
with_number-snoc name (inl (some m)) gs fs z h =
    ap (λ xs. listed (xs ++ z ∷ [])) (same_list ((m, name) ∷ gs) fs h)

numbered_files-snoc :
    (names : List Str) (fs : List (ℕ × Str)) (n next : ℕ)
    → n < 2 ^ 64
    → AllBelow next fs
    → numbered_files names ≡ inl fs
    → numbered_files (names ++ segment_name n ∷ []) ≡ inl (fs ++ (n, segment_name n) ∷ [])
unfolding numbered_files
numbered_files-snoc [] fs n next l b h =
    ap (λ o. with_number (segment_name n) o (inl []))
      ((number_of-segment_name (segment_name n) n l).1 refl)
    ∙ ap (λ xs. listed (xs ++ (n, segment_name n) ∷ [])) (same_list [] fs h)
numbered_files-snoc (name ∷ names) fs n next l b h =
    let r = with_number-Rest name next (number_of name) (numbered_files names) fs h b in
    ap (with_number name (number_of name))
      (numbered_files-snoc names r.files n next l r.below r.rest_is)
    ∙ with_number-snoc name (number_of name) r.files fs (n, segment_name n)
        (ap (with_number name (number_of name)) (sym r.rest_is) ∙ h)

-- The directory's listing once a segment is flushed: the new file, and the others as they were.
pub numbered_files-flushed :
    (files : Files) (n : ℕ) (image : Bytes) (fs : List (ℕ × Str))
    → n < 2 ^ 64
    → numbered_files (names_of files) ≡ inl fs
    → AllBelow n fs
    → numbered_files
        (names_of (HashMap.insert (HashMap.remove files (temporary_name n)) (segment_name n) image))
      ≡ inl (fs ++ (n, segment_name n) ∷ [])
numbered_files-flushed files n image fs l h b =
    let left = HashMap.remove files (temporary_name n) in
    let same : numbered_files (names_of left) ≡ inl fs =
      numbered_files-remove files (temporary_name n) (number_of-temporary_name n) ∙ h in
    ap numbered_files (names_of-insert left (segment_name n) image (get-above left n fs l same b))
    ∙ numbered_files-snoc (names_of left) fs n n l b same

insert_file-snoc :
    (x z : ℕ × Str) (ys : List (ℕ × Str))
    → x.0 ≤ z.0
    → insert_file x (ys ++ z ∷ []) ≡ insert_file x ys ++ z ∷ []
unfolding insert_file
insert_file-snoc x z [] h = rw (le→leb x.0 z.0 h) refl
insert_file-snoc x z (y ∷ ys) h = elim (Bool-cases (leb x.0 y.0)) [
  | inl e ↦ rw e refl
  | inr e ↦ rw e (ap (λ xs. y ∷ xs) (insert_file-snoc x z ys h))
]

-- A file whose number is above all others comes last.
pub sort_files-snoc :
    (fs : List (ℕ × Str)) (z : ℕ × Str)
    → AllBelow z.0 fs
    → sort_files (fs ++ z ∷ []) ≡ sort_files fs ++ z ∷ []
unfolding sort_files insert_file
sort_files-snoc [] z b = refl
sort_files-snoc (x ∷ xs) z b =
    ap (insert_file x) (sort_files-snoc xs z b.1)
    ∙ insert_file-snoc x z (sort_files xs) (omega (arith, b.0))

-- How often a name is in a list.
abbrev pub count : Str → List Str → ℕ
count s [] = 0
count s (x ∷ xs) = (if x == s then 1 else 0) + count s xs

abbrev pub paths_of : List (ℕ × Str) → List Str
paths_of fs = map (λ (f : ℕ × Str). f.1) fs

other_file : (n : ℕ) → numbered none ≡ numbered (some n) → ⊥
other_file n h = cc

with_number-count :
    (name : Str) (names : List Str) (n : ℕ) (o : Option ℕ ⊎ StorageError)
    (rest : List (ℕ × Str) ⊎ StorageError) (fs : List (ℕ × Str))
    → n < 2 ^ 64
    → number_of name ≡ o
    → ((gs : List (ℕ × Str))
        → rest ≡ inl gs
        → count (segment_name n) (paths_of gs) ≡ count (segment_name n) names)
    → with_number name o rest ≡ inl fs
    → count (segment_name n) (paths_of fs) ≡ count (segment_name n) (name ∷ names)
with_number-count name names n (inr e) rest fs l h g w = absurd (no_list e fs w)
with_number-count name names n (inl none) rest fs l h g w =
    elim (Bool-cases (name == segment_name n)) [
      | inl e ↦ absurd (
          other_file n
            (sym h ∙ (number_of-segment_name name n l).1 ((eq_iff name (segment_name n)).0 e)))
      | inr e ↦ rw e (omega (arith, g fs w))
    ]
with_number-count name names n (inl (some m)) (inr e) fs l h g w = absurd (no_list e fs w)
with_number-count name names n (inl (some m)) (inl gs) fs l h g w =
    ap (λ xs. count (segment_name n) (paths_of xs)) (sym (same_list ((m, name) ∷ gs) fs w))
    ∙ ap (λ k. (if name == segment_name n then 1 else 0) + k) (g gs refl)

-- The listing has the name of every number as often as the directory has it.
pub numbered_files-count :
    (names : List Str) (fs : List (ℕ × Str)) (n : ℕ)
    → n < 2 ^ 64
    → numbered_files names ≡ inl fs
    → count (segment_name n) (paths_of fs) ≡ count (segment_name n) names
unfolding numbered_files
numbered_files-count [] fs n l h =
    ap (λ xs. count (segment_name n) (paths_of xs)) (sym (same_list [] fs h))
numbered_files-count (name ∷ names) fs n l h =
    with_number-count name names n (number_of name) (numbered_files names) fs l refl
      (λ gs e. numbered_files-count names gs n l e) h

insert_file-count :
    (s : Str) (x : ℕ × Str) (xs : List (ℕ × Str))
    → count s (paths_of (insert_file x xs)) ≡ count s (paths_of (x ∷ xs))
unfolding insert_file
insert_file-count s x [] = refl
insert_file-count s x (y ∷ ys) = elim (Bool-cases (leb x.0 y.0)) [
  | inl e ↦ rw e refl
  | inr e ↦ rw e (omega (arith, insert_file-count s x ys))
]

-- Sorting loses no name.
pub sort_files-count :
    (s : Str) (xs : List (ℕ × Str)) → count s (paths_of (sort_files xs)) ≡ count s (paths_of xs)
unfolding sort_files
sort_files-count s [] = refl
sort_files-count s (x ∷ xs) =
    omega (arith, insert_file-count s x (sort_files xs), sort_files-count s xs)
