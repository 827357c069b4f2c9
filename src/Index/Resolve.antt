-- ===== src/Index/Resolve.antt =====
-- `resolve` answers with exactly the series that every matcher matches, in the order of their ids.
use rust_tsdb.Prelude.{
  ℕ, ◌≡◌, refl, ap, sym, ◌∙◌, subst, fun_ext, Bool, true, false, ◌&&◌, not, Option, none, some,
  List, [], ◌∷◌, keep, is_empty, arith, inl, inr, Bool-cases, Option-cases, if◌then◌else◌,
}
use rust_tsdb.Prelude.Bytes.{Str, str_eq}
use rust_tsdb.Prelude.Eq.{◌==◌, nat_eq, eq_iff}
use rust_tsdb.Prelude.HashMap
use rust_tsdb.Prelude.HashMap.{HashMap, or_default}
use rust_tsdb.Model.{Matcher, MatcherOperator, equal, not_equal}
use rust_tsdb.LabelSet
use rust_tsdb.Ids.{difference_sorted, intersect_in_place, union_all}
use rust_tsdb.Ids.Sets.{
  SortedIds, mem, intersect, mem-union_sorted, mem-difference_sorted, mem-intersect,
  union_sorted-SortedIds, difference_sorted-SortedIds, intersect-SortedIds, ids_ext, mem-keep,
  keep-SortedIds,
}
use rust_tsdb.Ids.InPlace.{intersect_in_place-intersect}
use rust_tsdb.Index.{
  Series, Index, values_of, posting, candidates_equal, candidates_not_equal, candidates, narrow,
  resolve, including_label,
}
use rust_tsdb.Index.Posting.{is_value}
use rust_tsdb.Index.Unions.{mem-union_all, in_some, in_some-get, get-in_some, union_all-SortedIds}
use rust_tsdb.Index.Invariant.{is_some, carries, IsWellFormed}

-- `!=` on a label's value; a missing label counts as the empty value.
abbrev pub differs : Option Str → Str → Bool
differs none value = not (is_empty value)
differs (some v) value = not (v == value)

-- What a matcher means for the value of its label.
abbrev pub value_matches : MatcherOperator → Option Str → Str → Bool
value_matches equal o value = is_value o value
value_matches not_equal o value = differs o value

-- What a matcher means for a series.
abbrev pub matches : Matcher → Option Series → Bool
matches m none = false
matches m (some s) = value_matches m.operator (LabelSet.get s.labels m.name) m.value

abbrev pub matches_all : List Matcher → Option Series → Bool
matches_all [] o = true
matches_all (m ∷ ms) o = matches m o && matches_all ms o

-- The series has a label of this name.
abbrev pub has_name : Option Series → Str → Bool
has_name none name = false
has_name (some s) name = is_some (LabelSet.get s.labels name)

module _ (ix : Index) (w : IsWellFormed ix) where
  posting_get :
      (n : ℕ) (name v : Str)
      → mem n (posting ix.posting_index name v) ≡ true
      → in_some n (values_of ix.posting_index name) ≡ true
  posting_get n name v e = elim (Option-cases (HashMap.get (values_of ix.posting_index name) v)) [
    | inl q ↦ cc (ap (λ o. mem n (or_default o [])) q, e)
    | inr (ids, q) ↦
        get-in_some n (values_of ix.posting_index name) v ids q
          (ap (λ o. mem n (or_default o [])) (sym q) ∙ e)
  ]

  has_name-in_some :
      (n : ℕ) (name : Str)
      → has_name (HashMap.get ix.forward n) name ≡ true
      → in_some n (values_of ix.posting_index name) ≡ true
  has_name-in_some n name h = elim (Option-cases (HashMap.get ix.forward n)) [
    | inl e ↦ cc (ap (λ o. has_name o name) e, h)
    | inr (s, e) ↦ elim (Option-cases (LabelSet.get s.labels name)) [
      | inl q ↦ cc (ap (λ o. has_name o name) e, h, ap (is_some {A = Str}) q)
      | inr (v, q) ↦
          posting_get n name v (w.posting_exact n name v ∙ rw (e, q) ((eq_iff v v).1 refl))
    ]
  ]

  in_some-has_name :
      (n : ℕ) (name : Str)
      → in_some n (values_of ix.posting_index name) ≡ true
      → has_name (HashMap.get ix.forward n) name ≡ true
  in_some-has_name n name h =
      let (v, ids, g, i) =
        in_some-get n (values_of ix.posting_index name) (w.values_unique name) h in
      let listed : mem n (posting ix.posting_index name v) ≡ true =
        ap (λ o. mem n (or_default o [])) g ∙ i in
      carries-has_name (HashMap.get ix.forward n) v (sym (w.posting_exact n name v) ∙ listed)
    where
      carries-has_name :
          (o : Option Series) (v : Str) → carries o name v ≡ true → has_name o name ≡ true
      carries-has_name none v e = cc
      carries-has_name (some s) v e = ground (arith, e)

  -- Who has a label of this name.
  mem-including :
      (n : ℕ) (name : Str)
      → mem n (union_all (values_of ix.posting_index name))
        ≡ has_name (HashMap.get ix.forward n) name
  mem-including n name = ground (
    arith,
    mem-union_all n (values_of ix.posting_index name),
    in_some-has_name n name,
    has_name-in_some n name,
  )

  including_sorted : (name : Str) → SortedIds (union_all (values_of ix.posting_index name))
  including_sorted name =
      union_all-SortedIds (values_of ix.posting_index name) (w.values_unique name)
        (λ v ids e. subst SortedIds (ap (λ o. or_default o []) e) (w.posting_sorted name v))

  -- `candidates` of each kind of matcher, by membership.
  mem-candidates :
      (n : ℕ) (name value : Str) (op : MatcherOperator)
      → mem n (candidates ix (record { name = name; value = value; operator = op }))
        ≡ matches (record { name = name; value = value; operator = op }) (HashMap.get ix.forward n)
  unfolding candidates candidates_equal candidates_not_equal
  mem-candidates n name value equal = ground (arith, w.posting_exact n name value)
  mem-candidates n name value not_equal = ground (
    arith,
    mem-including n name,
    w.posting_exact n name value,
    w.ids_known n,
    mem-difference_sorted n (union_all (values_of ix.posting_index name))
        (posting ix.posting_index name value) (including_sorted name) (w.posting_sorted name value),
    mem-difference_sorted n ix.all_ids (union_all (values_of ix.posting_index name)) w.ids_sorted
        (including_sorted name),
    mem-union_sorted n
        (difference_sorted (union_all (values_of ix.posting_index name))
          (posting ix.posting_index name value))
        (difference_sorted ix.all_ids (union_all (values_of ix.posting_index name))),
  )

  candidates-SortedIds :
      (name value : Str) (op : MatcherOperator)
      → SortedIds (candidates ix (record { name = name; value = value; operator = op }))
  unfolding candidates candidates_equal candidates_not_equal
  candidates-SortedIds name value equal = w.posting_sorted name value
  candidates-SortedIds name value not_equal = elim (Bool-cases (not (is_empty value))) [
    | inl e ↦ rw e (
        union_sorted-SortedIds _ _
          (difference_sorted-SortedIds _ (posting ix.posting_index name value)
            (including_sorted name))
          (difference_sorted-SortedIds ix.all_ids _ w.ids_sorted))
    | inr e ↦ rw e (
        difference_sorted-SortedIds _ (posting ix.posting_index name value) (including_sorted name))
  ]

  -- The ids that the matcher matches.
  candidates-keep :
      (m : Matcher) → candidates ix m ≡ keep (λ n. matches m (HashMap.get ix.forward n)) ix.all_ids
  candidates-keep m =
      ids_ext (candidates ix m) (keep (λ n. matches m (HashMap.get ix.forward n)) ix.all_ids)
        (candidates-SortedIds m.name m.value m.operator)
        (keep-SortedIds (λ n. matches m (HashMap.get ix.forward n)) ix.all_ids w.ids_sorted)
        (λ n. ground (
          arith,
          mem-candidates n m.name m.value m.operator,
          mem-keep (λ k. matches m (HashMap.get ix.forward k)) n ix.all_ids,
          w.ids_known n,
        ))

  keep_both :
      (p q : ℕ → Bool)
      → intersect_in_place (keep p ix.all_ids) (keep q ix.all_ids)
        ≡ keep (λ n. p n && q n) ix.all_ids
  keep_both p q =
      let all = ix.all_ids in
      let sp = keep-SortedIds p all w.ids_sorted in
      let sq = keep-SortedIds q all w.ids_sorted in
      intersect_in_place-intersect (keep p all) (keep q all)
      ∙ ids_ext (intersect (keep p all) (keep q all)) (keep (λ n. p n && q n) all)
          (intersect-SortedIds (keep p all) (keep q all) sp)
          (keep-SortedIds (λ n. p n && q n) all w.ids_sorted)
          (λ n. ground (
            arith,
            mem-intersect n (keep p all) (keep q all) sp sq,
            mem-keep p n all,
            mem-keep q n all,
            mem-keep (λ k. p k && q k) n all,
          ))

  narrow-nil : (ms : List Matcher) → narrow ix [] ms ≡ []
  unfolding narrow
  narrow-nil [] = refl
  narrow-nil (m ∷ ms) =
      rw (intersect_in_place-intersect [] (candidates ix m)) (unfold intersect in refl)

  -- Stopping early changes nothing.
  narrow-step :
      (ids : List ℕ) (m : Matcher) (ms : List Matcher)
      → narrow ix ids (m ∷ ms) ≡ narrow ix (intersect_in_place ids (candidates ix m)) ms
  unfolding narrow
  narrow-step ids m ms = empty_or (intersect_in_place ids (candidates ix m))
    where
      empty_or :
          (left : List ℕ) → (if is_empty left then [] else narrow ix left ms) ≡ narrow ix left ms
      empty_or [] = sym (narrow-nil ms)
      empty_or (x ∷ xs) = refl

  narrow-keep :
      (ms : List Matcher) (p : ℕ → Bool)
      → narrow ix (keep p ix.all_ids) ms
        ≡ keep (λ n. p n && matches_all ms (HashMap.get ix.forward n)) ix.all_ids
  narrow-keep [] p = (unfold narrow in ap (λ q. keep q ix.all_ids) (fun_ext (λ n. ground arith)))
  narrow-keep (m ∷ ms) p =
      let here = λ (n : ℕ). matches m (HashMap.get ix.forward n) in
      narrow-step (keep p ix.all_ids) m ms
      ∙ ap (λ c. narrow ix (intersect_in_place (keep p ix.all_ids) c) ms) (candidates-keep m)
      ∙ ap (λ ids. narrow ix ids ms) (keep_both p here)
      ∙ narrow-keep ms (λ n. p n && here n)
      ∙ ap (λ q. keep q ix.all_ids) (fun_ext (λ n. ground arith))

  keep_all : (xs : List ℕ) → keep (λ n. true) xs ≡ xs
  keep_all [] = refl
  keep_all (x ∷ xs) = ap (λ t. x ∷ t) (keep_all xs)

  -- On a well-formed index `resolve` answers with the ids of exactly the series that every matcher
  -- matches, in increasing order; with no matcher, with all ids.
  pub resolve-keep :
      (ms : List Matcher)
      → resolve ix ms ≡ keep (λ n. matches_all ms (HashMap.get ix.forward n)) ix.all_ids
  unfolding resolve
  resolve-keep [] = sym (keep_all ix.all_ids)
  resolve-keep (m ∷ ms) =
      ap (λ c. narrow ix c ms) (candidates-keep m)
      ∙ narrow-keep ms (λ n. matches m (HashMap.get ix.forward n))

  -- On a well-formed index `including_label` answers with the ids of exactly the series that have a label
  -- of the name, in increasing order.
  pub including_label-keep :
      (name : Str)
      → including_label ix name ≡ keep (λ n. has_name (HashMap.get ix.forward n) name) ix.all_ids
  unfolding including_label
  including_label-keep name =
      ids_ext (including_label ix name)
        (keep (λ n. has_name (HashMap.get ix.forward n) name) ix.all_ids) (including_sorted name)
        (keep-SortedIds (λ n. has_name (HashMap.get ix.forward n) name) ix.all_ids w.ids_sorted)
        (λ n. ground (
          arith,
          mem-including n name,
          mem-keep (λ k. has_name (HashMap.get ix.forward k) name) n ix.all_ids,
          w.ids_known n,
        ))
