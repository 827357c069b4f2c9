-- ===== src/Index/Invariant.antt =====
-- What every index that `encode` builds satisfies.
use rust_tsdb.Prelude.{ℕ, ◌<◌, ◌≡◌, refl, Bool, true, false, Option, none, some}
use rust_tsdb.Prelude.Bytes.{Str, str_eq}
use rust_tsdb.Prelude.Eq.{nat_eq}
use rust_tsdb.Prelude.HashMap
use rust_tsdb.Prelude.HashMap.{HashMap, UniqueKeys}
use rust_tsdb.LabelSet
use rust_tsdb.LabelSet.{LabelSet, label_set_eq}
use rust_tsdb.LabelSet.Sorted.{IsSorted}
use rust_tsdb.Ids.Sets.{SortedIds, mem}
use rust_tsdb.Index.{Series, Index, new, values_of, posting}
use rust_tsdb.Index.Posting.{is_value}

abbrev pub is_some {ℓ} : {A : Type ℓ} → Option A → Bool
is_some none = false
is_some (some a) = true

-- The series has this value under this name.
abbrev pub carries : Option Series → Str → Str → Bool
carries none name value = false
carries (some s) name value = is_value (LabelSet.get s.labels name) value

pub record IsWellFormed (ix : Index) : Type 0 where
  pub ids_sorted : SortedIds ix.all_ids
  pub ids_below : (n : ℕ) → mem n ix.all_ids ≡ true → n < ix.next_id
  pub ids_known : (n : ℕ) → mem n ix.all_ids ≡ is_some (HashMap.get ix.forward n)
  pub forward_id : (n : ℕ) (s : Series) → HashMap.get ix.forward n ≡ some s → s.id ≡ n
  pub forward_sorted : (n : ℕ) (s : Series) → HashMap.get ix.forward n ≡ some s → IsSorted s.labels
  pub forward_inverted :
      (n : ℕ) (s : Series)
      → HashMap.get ix.forward n ≡ some s
      → HashMap.get ix.inverted s.labels ≡ some s
  pub inverted_labels :
      (ls : LabelSet) (s : Series) → HashMap.get ix.inverted ls ≡ some s → s.labels ≡ ls
  pub inverted_forward :
      (ls : LabelSet) (s : Series)
      → HashMap.get ix.inverted ls ≡ some s
      → HashMap.get ix.forward s.id ≡ some s
  pub posting_exact :
      (n : ℕ) (name value : Str)
      → mem n (posting ix.posting_index name value) ≡ carries (HashMap.get ix.forward n) name value
  pub posting_sorted : (name value : Str) → SortedIds (posting ix.posting_index name value)
  pub values_unique : (name : Str) → UniqueKeys (values_of ix.posting_index name)

pub new-IsWellFormed : IsWellFormed new
unfolding HashMap.get
new-IsWellFormed = record {
  ids_sorted = tt;
  ids_below = λ n e. cc;
  ids_known = λ n. refl;
  forward_id = λ n s e. cc;
  forward_sorted = λ n s e. absurd (cc);
  forward_inverted = λ n s e. cc;
  inverted_labels = λ ls s e. cc;
  inverted_forward = λ ls s e. cc;
  posting_exact = λ n name value. refl;
  posting_sorted = λ name value. tt;
  values_unique = λ name. tt;
}
