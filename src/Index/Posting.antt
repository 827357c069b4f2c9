-- ===== src/Index/Posting.antt =====
-- What a new series adds to the posting lists.
use rust_tsdb.Prelude.{
  ℕ, ◌<◌, ◌≡◌, refl, ap, sym, ◌∙◌, Bool, true, false, ◌&&◌, ◌||◌, Option, none, some, List, [], ◌∷◌,
  ◌++◌, All, map, nat_beq, arith, inl, inr, Bool-cases, if◌then◌else◌, subst,
}
use rust_tsdb.Prelude.Bytes.{Str, str_eq, str_beq-lt}
use rust_tsdb.Prelude.Eq.{◌==◌, eq_iff}
use rust_tsdb.Prelude.HashMap
use rust_tsdb.Prelude.HashMap.{HashMap, UniqueKeys, upsert-UniqueKeys, get-upsert, or_default}
use rust_tsdb.Model.{Label}
use rust_tsdb.LabelSet.Sorted.{Above, SortedLabels, find, find-Above}
use rust_tsdb.Ids.Sets.{SortedIds, mem, mem-snoc, SortedIds-snoc}
use rust_tsdb.Index.{PostingIndex, push_posting, post_labels, values_of, posting}

values_of-push :
    (p : PostingIndex) (name value : Str) (id : ℕ) (other : Str)
    → values_of (push_posting p name value id) other ≡ (
        if name == other
        then HashMap.upsert (values_of p name) value [] (λ ids. ids ++ id ∷ [])
        else values_of p other)
unfolding push_posting
values_of-push p name value id other =
    ap (λ o. or_default o [])
      (get-upsert p name other [] (λ vs. HashMap.upsert vs value [] (λ ids. ids ++ id ∷ [])))
    ∙ ground arith

pub posting-push :
    (p : PostingIndex) (name value : Str) (id : ℕ) (n v : Str)
    → posting (push_posting p name value id) n v
      ≡ (if (name == n) && (value == v) then posting p n v ++ id ∷ [] else posting p n v)
posting-push p name value id n v = elim (Bool-cases (name == n)) [
  | inl e ↦
      ap (λ m. or_default (HashMap.get m v) []) (values_of-push p name value id n)
      ∙ rw e (
          ap (λ o. or_default o [])
            (get-upsert (values_of p name) value v [] (λ ids. ids ++ id ∷ []))
          ∙ subst
              (λ z.
                or_default
                  (if value == v
                    then some (posting p name value ++ id ∷ [])
                    else HashMap.get (values_of p name) v)
                  []
                ≡ (if value == v then posting p z v ++ id ∷ [] else posting p z v))
              ((eq_iff name n).0 e) (ground (arith, eq_iff value v)))
  | inr e ↦ ap (λ m. or_default (HashMap.get m v) []) (values_of-push p name value id n) ∙ rw e
]

-- A label of the list has this name and this value.
abbrev pub lists : List Label → Str → Str → Bool
lists [] name value = false
lists (l ∷ ls) name value = ((l.name == name) && (l.value == value)) || lists ls name value

abbrev pub pairs : List Label → List (Str × Str)
pairs ls = map (λ l. (l.name, l.value)) ls

-- The id goes into the lists of its labels, and no other id moves.
pub mem-post_labels :
    (ls : List Label) (p : PostingIndex) (id n : ℕ) (name value : Str)
    → mem n (posting (post_labels p (pairs ls) id) name value)
      ≡ (mem n (posting p name value) || (nat_beq id n && lists ls name value))
unfolding post_labels
mem-post_labels [] p id n name value = ground arith
mem-post_labels (l ∷ ls) p id n name value = ground (
  arith,
  mem-post_labels ls (push_posting p l.name l.value id) id n name value,
  posting-push p l.name l.value id name value,
  mem-snoc n id (posting p name value),
)

-- No list under one of these names has an id that is not below the new one.
abbrev pub Fresh : PostingIndex → List Label → ℕ → Type 0
Fresh p ls id =
    All (λ (l : Label). (v : Str) (n : ℕ) → mem n (posting p l.name v) ≡ true → n < id) ls

push-Fresh :
    (p : PostingIndex) (name value : Str) (id : ℕ) (ls : List Label)
    → Above name ls
    → Fresh p ls id
    → Fresh (push_posting p name value id) ls id
push-Fresh p name value id [] a f = tt
push-Fresh p name value id (l ∷ ls) a f = (
  λ v n e.
      f.0 v n
        (ground (arith, e, posting-push p name value id l.name v, str_beq-lt name l.name a.0)),
  push-Fresh p name value id ls a.1 f.1,
)

push-SortedIds :
    (p : PostingIndex) (name value : Str) (id : ℕ)
    → ((n v : Str) → SortedIds (posting p n v))
    → ((v : Str) (n : ℕ) → mem n (posting p name v) ≡ true → n < id)
    → (n v : Str) → SortedIds (posting (push_posting p name value id) n v)
push-SortedIds p name value id s f n v = elim (Bool-cases ((name == n) && (value == v))) [
  | inl e ↦
      rw (posting-push p name value id n v, e)
        (SortedIds-snoc id (posting p n v) (s n v) (λ m h. f v m (
          subst (λ z. mem m (posting p z v) ≡ true) (sym ((eq_iff name n).0 (ground (arith, e))))
            h)))
  | inr e ↦ rw (posting-push p name value id n v, e) (s n v)
]

pub post_labels-SortedIds :
    (ls : List Label) (p : PostingIndex) (id : ℕ)
    → SortedLabels ls
    → ((n v : Str) → SortedIds (posting p n v))
    → Fresh p ls id
    → (n v : Str) → SortedIds (posting (post_labels p (pairs ls) id) n v)
unfolding post_labels
post_labels-SortedIds [] p id o s f n v = s n v
post_labels-SortedIds (l ∷ ls) p id o s f n v =
    post_labels-SortedIds ls (push_posting p l.name l.value id) id o.1
      (push-SortedIds p l.name l.value id s f.0) (push-Fresh p l.name l.value id ls o.0 f.1) n v

push-UniqueKeys :
    (p : PostingIndex) (name value : Str) (id : ℕ)
    → ((n : Str) → UniqueKeys (values_of p n))
    → (n : Str) → UniqueKeys (values_of (push_posting p name value id) n)
push-UniqueKeys p name value id u n = elim (Bool-cases (name == n)) [
  | inl e ↦
      rw (values_of-push p name value id n, e)
        (upsert-UniqueKeys (values_of p name) value [] (λ ids. ids ++ id ∷ []) (u name))
  | inr e ↦ rw (values_of-push p name value id n, e) (u n)
]

pub post_labels-UniqueKeys :
    (ls : List Label) (p : PostingIndex) (id : ℕ)
    → ((n : Str) → UniqueKeys (values_of p n))
    → (n : Str) → UniqueKeys (values_of (post_labels p (pairs ls) id) n)
unfolding post_labels
post_labels-UniqueKeys [] p id u n = u n
post_labels-UniqueKeys (l ∷ ls) p id u n =
    post_labels-UniqueKeys ls (push_posting p l.name l.value id) id
      (push-UniqueKeys p l.name l.value id u) n

-- A lookup answers a value.
abbrev pub is_value : Option Str → Str → Bool
is_value none value = false
is_value (some v) value = v == value

pub lists-find :
    (ls : List Label) (name value : Str)
    → SortedLabels ls
    → lists ls name value ≡ is_value (find ls name) value
unfolding find
lists-find [] name value o = refl
lists-find (l ∷ ls) name value o =
    ground (arith, lists-find ls name value o.1, find-Above l.name ls o.0, eq_iff l.name name)
