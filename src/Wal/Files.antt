-- ===== src/Wal/Files.antt =====
-- src/storage/wal/segment.rs: the names of log files, and the listing of a directory. A directory is
-- the list of its file names, in the order that the system gives.
use rust_tsdb.Prelude.{
  ℕ, ◌≡◌, ◌^◌, ◌<◌, ◌≤◌, ◌∙◌, refl, Option, none, some, List, [], ◌∷◌, ◌++◌, All, leb,
  if◌then◌else◌, arith, Bool-cases, Option-cases, inl, inr, nat_beq, nat_beq_iff, Bool, false, map,
  keep, ap, ap₂,
}
use rust_tsdb.Prelude.Bytes.{Str}
use rust_tsdb.Prelude.Decimal.{
  padded, parse_u64, strip_prefix, strip_suffix, strip_prefix-append, strip_suffix-append,
  parse_u64-padded,
}

-- "wal-" and ".log"
abbrev pub wal_prefix : Str
wal_prefix = b'w' ∷ b'a' ∷ b'l' ∷ b'-' ∷ []

abbrev pub log_suffix : Str
log_suffix = b'.' ∷ b'l' ∷ b'o' ∷ b'g' ∷ []

-- `file_name`
unfoldable pub file_name : ℕ → Str
file_name id = wal_prefix ++ padded 8 20 id ++ log_suffix

abbrev and_then {ℓ κ} : {A : Type ℓ} {B : Type κ} → Option A → (A → Option B) → Option B
and_then none f = none
and_then (some a) f = f a

-- `parse_id`, on the last part of the path
unfoldable pub parse_id : Str → Option ℕ
parse_id name =
    and_then (strip_prefix wal_prefix name)
      (λ rest. and_then (strip_suffix log_suffix rest) (λ digits. parse_u64 digits))

pub record SegmentInfo : Type 0 where
  pub id : ℕ
  pub name : Str

-- `out.sort_by_key(|s| s.id)`: an entry goes behind those with the same id.
insert_by_id : SegmentInfo → List SegmentInfo → List SegmentInfo
insert_by_id x [] = x ∷ []
insert_by_id x (y ∷ ys) = if leb x.id y.id then x ∷ y ∷ ys else y ∷ insert_by_id x ys

sort_by_id : List SegmentInfo → List SegmentInfo
unfolding insert_by_id
sort_by_id [] = []
sort_by_id (x ∷ xs) = insert_by_id x (sort_by_id xs)

-- The entries that have an id.
with_ids : List Str → List SegmentInfo
with_ids [] = []
with_ids (name ∷ names) = elim (parse_id name) [
  | none ↦ with_ids names
  | some id ↦ record { id = id; name = name } ∷ with_ids names
]

-- `list`, of a directory that is there
unfoldable pub list : List Str → List SegmentInfo
unfolding sort_by_id with_ids
list names = sort_by_id (with_ids names)

-- The id of every file that the log creates is read back from its name.
pub parse_id-file_name : (id : ℕ) → id < 2 ^ 64 → parse_id (file_name id) ≡ some id
unfolding parse_id file_name
parse_id-file_name id h =
    rw
      (
        strip_prefix-append wal_prefix (padded 8 20 id ++ log_suffix),
        strip_suffix-append (padded 8 20 id) log_suffix,
      )
      (parse_u64-padded 8 id h)

-- In order of the ids, as `replay` reads them.
abbrev pub InOrder : List SegmentInfo → Type 0
InOrder [] = Unit
InOrder (x ∷ xs) = All (λ (y : SegmentInfo). x.id ≤ y.id) xs × InOrder xs

-- The entries with this id, and the entries of the names that are read as this id, in the order of the directory.
abbrev pub files_with : ℕ → List SegmentInfo → List SegmentInfo
files_with n xs = keep (λ x. nat_beq x.id n) xs

abbrev pub has_id : ℕ → Option ℕ → Bool
has_id n none = false
has_id n (some id) = nat_beq id n

abbrev pub is_file : ℕ → Str → Bool
is_file n name = has_id n (parse_id name)

abbrev pub files_named : ℕ → List Str → List SegmentInfo
files_named n names = map (λ name. record { id = n; name = name }) (keep (is_file n) names)

All-insert_by_id :
    (n : ℕ) (x : SegmentInfo) (xs : List SegmentInfo)
    → n ≤ x.id
    → All (λ y. n ≤ y.id) xs
    → All (λ y. n ≤ y.id) (insert_by_id x xs)
unfolding insert_by_id
All-insert_by_id n x [] h k = (h, tt)
All-insert_by_id n x (y ∷ ys) h k = ground (arith, All-insert_by_id n x ys)

All-le_trans :
    (n m : ℕ) (xs : List SegmentInfo) → n ≤ m → All (λ y. m ≤ y.id) xs → All (λ y. n ≤ y.id) xs
All-le_trans n m [] h k = tt
All-le_trans n m (x ∷ xs) h k = (omega arith, All-le_trans n m xs h k.1)

insert_by_id-InOrder :
    (x : SegmentInfo) (xs : List SegmentInfo) → InOrder xs → InOrder (insert_by_id x xs)
unfolding insert_by_id
insert_by_id-InOrder x [] h = (tt, tt)
insert_by_id-InOrder x (y ∷ ys) h = elim (Bool-cases (leb x.id y.id)) [
  | inl e ↦ rw e ((ground (arith, e), All-le_trans x.id y.id ys (ground (arith, e)) h.0), h)
  | inr e ↦ rw e (All-insert_by_id y.id x ys (ground (arith, e)) h.0, insert_by_id-InOrder x ys h.1)
]

sort_by_id-InOrder : (xs : List SegmentInfo) → InOrder (sort_by_id xs)
unfolding sort_by_id
sort_by_id-InOrder [] = tt
sort_by_id-InOrder (x ∷ xs) = insert_by_id-InOrder x (sort_by_id xs) (sort_by_id-InOrder xs)

-- An entry that goes in changes the entries with its id at the front only.
files_with-insert_by_id :
    (n : ℕ) (x : SegmentInfo) (xs : List SegmentInfo)
    → files_with n (insert_by_id x xs) ≡ files_with n (x ∷ xs)
unfolding insert_by_id
files_with-insert_by_id n x [] = refl
files_with-insert_by_id n x (y ∷ ys) = elim (Bool-cases (leb x.id y.id)) [
  | inl e ↦ rw e refl
  | inr e ↦ rw e (elim (Bool-cases (nat_beq y.id n)) [
    | inl f ↦
        let g : nat_beq x.id n ≡ false = ground (arith, e, f) in
        let rest = files_with-insert_by_id n x ys in
        rw (f, g) (ap (λ zs. y ∷ zs) (rest ∙ rw g refl))
    | inr f ↦ rw f (files_with-insert_by_id n x ys)
  ])
]

files_with-sort_by_id :
    (n : ℕ) (xs : List SegmentInfo) → files_with n (sort_by_id xs) ≡ files_with n xs
unfolding sort_by_id
files_with-sort_by_id n [] = refl
files_with-sort_by_id n (x ∷ xs) =
    files_with-insert_by_id n x (sort_by_id xs) ∙ elim (Bool-cases (nat_beq x.id n)) [
      | inl e ↦ rw e (ap (λ zs. x ∷ zs) (files_with-sort_by_id n xs))
      | inr e ↦ rw e (files_with-sort_by_id n xs)
    ]

files_with-with_ids :
    (n : ℕ) (names : List Str) → files_with n (with_ids names) ≡ files_named n names
unfolding with_ids
files_with-with_ids n [] = refl
files_with-with_ids n (name ∷ names) = elim (Option-cases (parse_id name)) [
  | inl e ↦ rw (e, with_ids) (files_with-with_ids n names)
  | inr (id, e) ↦
      rw (e, with_ids)
        (elim (Bool-cases (nat_beq id n)) [
          | inl f ↦ rw f (
              ap₂ (λ k zs. record { id = k; name = name } ∷ zs) ((nat_beq_iff id n).0 f)
                (files_with-with_ids n names))
          | inr f ↦ rw f (files_with-with_ids n names)
        ])
]

-- `list` is in the order of the ids, and its entries with an id are, for every id, exactly the names of the
-- directory that are read as that id, each under its own name and in the order of the directory.
pub list_lem :
    (names : List Str)
    → InOrder (list names) × ((n : ℕ) → files_with n (list names) ≡ files_named n names)
unfolding list
list_lem names = (
  sort_by_id-InOrder (with_ids names),
  λ n. files_with-sort_by_id n (with_ids names) ∙ files_with-with_ids n names,
)
