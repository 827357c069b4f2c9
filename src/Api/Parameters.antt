-- ===== src/Api/Parameters.antt =====
-- What the parameters of `read` mean, described apart from the loop that reads them.
use rust_tsdb.Prelude.{
  ◌^◌, ◌-◌, ℕ, ◌≡◌, refl, ap, ap₂, sym, ◌∙◌, Bool, true, false, ◌||◌, not, Option, none, some, List,
  [], ◌∷◌, ◌++◌, ◌⊎◌, inl, inr, append-nil, append_assoc, map, keep, Bool-cases, arith,
  if◌then◌else◌,
}
use rust_tsdb.Prelude.Bytes.{Str, str_eq}
use rust_tsdb.Prelude.Decimal.{parse_u64}
use rust_tsdb.Prelude.Eq.{◌==◌, eq_iff}
use rust_tsdb.Prelude.HashMap
use rust_tsdb.Prelude.HashMap.{HashMap, UniqueKeys}
use rust_tsdb.Model.{Matcher, equal}
use rust_tsdb.LabelSet.{metric_label}
use rust_tsdb.Api.{
  StatusCode, bad_request, Params, start_key, end_key, name_key, with_start, with_end, read_param,
  read_params,
}

-- A bound: the default when its key is not there, else the number that its value is, if it is one.
abbrev pub bound_of : ℕ → Option Str → Option ℕ
bound_of default none = some default
bound_of default (some v) = parse_u64 v

abbrev pub bound : HashMap Str Str → Str → ℕ → Option ℕ
bound params key default = bound_of default (HashMap.get params key)

-- The least and the greatest timestamp asked for, by the values of "start" and "end".
abbrev pub lower_bound : HashMap Str Str → Option ℕ
lower_bound params = bound params (b's' ∷ b't' ∷ b'a' ∷ b'r' ∷ b't' ∷ []) 0

abbrev pub upper_bound : HashMap Str Str → Option ℕ
upper_bound params = bound params (b'e' ∷ b'n' ∷ b'd' ∷ []) (2 ^ 64 - 1)

-- Every key but those of the bounds asks for an equal label; "name" stands for the metric's.
abbrev pub asks : Str × Str → Bool
asks e = not (e.0 == (b's' ∷ b't' ∷ b'a' ∷ b'r' ∷ b't' ∷ []) || e.0 == (b'e' ∷ b'n' ∷ b'd' ∷ []))

abbrev pub asked : Str × Str → Matcher
asked (k, v) = record {
  name = if k == (b'n' ∷ b'a' ∷ b'm' ∷ b'e' ∷ []) then metric_label else k;
  value = v;
  operator = equal;
}

abbrev pub asked_matchers : HashMap Str Str → List Matcher
asked_matchers params = map asked (keep asks params)

-- Both bounds have to be numbers.
abbrev pub both : List Matcher → Option ℕ → Option ℕ → Params ⊎ StatusCode
both ms none b = inr bad_request
both ms (some a) none = inr bad_request
both ms (some a) (some b) = inl (record { start = a; end = b; matchers = ms })

both-none : (ms : List Matcher) (a : Option ℕ) → both ms a none ≡ inr bad_request
both-none ms none = refl
both-none ms (some a) = refl

abbrev pub meaning : HashMap Str Str → Params → Params ⊎ StatusCode
meaning es p =
    both (p.matchers ++ asked_matchers es) (bound es start_key p.start) (bound es end_key p.end)

abbrev first : Str → ℕ
first [] = 0
first (c ∷ s) = c

keys_apart : (k : Str) → (k == start_key) ≡ true → (k == end_key) ≡ false
keys_apart k e = elim (Bool-cases (k == end_key)) [
  | inl f ↦
      let same : first start_key ≡ first end_key =
        ap first (sym ((eq_iff k start_key).0 e) ∙ (eq_iff k end_key).0 f) in
      absurd (omega (arith, same))
  | inr f ↦ f
]

-- One more key that is not the one looked for.
skipped :
    (k v key : Str) (es : HashMap Str Str) (n : ℕ)
    → (k == key) ≡ false
    → bound ((k, v) ∷ es) key n ≡ bound es key n
unfolding HashMap.get
skipped k v key es n e = rw e refl

here :
    (k v key : Str) (es : HashMap Str Str) (n : ℕ)
    → (k == key) ≡ true
    → bound ((k, v) ∷ es) key n ≡ parse_u64 v
unfolding HashMap.get
here k v key es n e = rw e refl

absent :
    (k key : Str) (es : HashMap Str Str) (n : ℕ)
    → (k == key) ≡ true
    → HashMap.get es k ≡ none
    → bound es key n ≡ some n
absent k key es n e u = ap (bound_of n) (ap (HashMap.get es) (sym ((eq_iff k key).0 e)) ∙ u)

bound_key :
    (k v : Str) (es : HashMap Str Str)
    → ((k == start_key) || (k == end_key)) ≡ true
    → asked_matchers ((k, v) ∷ es) ≡ asked_matchers es
bound_key k v es e = rw e refl

other_key :
    (k v : Str) (es : HashMap Str Str)
    → ((k == start_key) || (k == end_key)) ≡ false
    → asked_matchers ((k, v) ∷ es) ≡ asked (k, v) ∷ asked_matchers es
other_key k v es e = rw e refl

-- The rest of the loop, once a round gave these parameters.
abbrev next : HashMap Str Str → Params ⊎ StatusCode → Params ⊎ StatusCode
next es (inr s) = inr s
next es (inl q) = read_params es q

Result-cases :
    (r : Params ⊎ StatusCode) → ((q : Params) × (r ≡ inl q)) ⊎ ((s : StatusCode) × (r ≡ inr s))
Result-cases (inl q) = inl (q, refl)
Result-cases (inr s) = inr (s, refl)

read_params-round :
    (e : Str × Str) (es : HashMap Str Str) (p : Params)
    → read_params (e ∷ es) p ≡ next es (read_param p e)
unfolding read_params
read_params-round e es p = elim (Result-cases (read_param p e)) [
  | inl (q, h) ↦ rw (h, read_params) refl
  | inr (s, h) ↦ rw (h, read_params) refl
]

read_params-start :
    (k v : Str) (es : HashMap Str Str) (p : Params) (o : Option ℕ)
    → (k == start_key) ≡ true
    → HashMap.get es k ≡ none
    → ((q : Params) → read_params es q ≡ meaning es q)
    → next es (with_start p o) ≡ both (p.matchers ++ asked_matchers es) o (bound es end_key p.end)
read_params-start k v es p none e u rest = refl
read_params-start k v es p (some n) e u rest =
    rest (record p { start = n })
    ∙ ap (λ a. both (p.matchers ++ asked_matchers es) a (bound es end_key p.end))
        (absent k start_key es n e u)

read_params-end :
    (k v : Str) (es : HashMap Str Str) (p : Params) (o : Option ℕ)
    → (k == end_key) ≡ true
    → HashMap.get es k ≡ none
    → ((q : Params) → read_params es q ≡ meaning es q)
    → next es (with_end p o) ≡ both (p.matchers ++ asked_matchers es) (bound es start_key p.start) o
read_params-end k v es p none e u rest =
    sym (both-none (p.matchers ++ asked_matchers es) (bound es start_key p.start))
read_params-end k v es p (some n) e u rest =
    rest (record p { end = n })
    ∙ ap (both (p.matchers ++ asked_matchers es) (bound es start_key p.start))
        (absent k end_key es n e u)

-- The arm of every other key.
read_param-other :
    (p : Params) (k v : Str)
    → (k == start_key) ≡ false
    → (k == end_key) ≡ false
    → read_param p (k, v) ≡ inl (record p { matchers = p.matchers ++ asked (k, v) ∷ [] })
unfolding read_param
read_param-other p k v e f = elim (Bool-cases (k == name_key)) [
  | inl g ↦ rw (e, f, g) refl
  | inr g ↦ rw (e, f, g) refl
]

read_param-start :
    (p : Params) (k v : Str)
    → (k == start_key) ≡ true
    → read_param p (k, v) ≡ with_start p (parse_u64 v)
unfolding read_param
read_param-start p k v e = rw e refl

read_param-end :
    (p : Params) (k v : Str)
    → (k == start_key) ≡ false
    → (k == end_key) ≡ true
    → read_param p (k, v) ≡ with_end p (parse_u64 v)
unfolding read_param
read_param-end p k v e f = rw (e, f) refl

-- The loop gives what the parameters mean, since no key stands twice in a map.
pub read_params-both :
    (es : HashMap Str Str) (p : Params) → UniqueKeys es → read_params es p ≡ meaning es p
unfolding read_params HashMap.get
read_params-both [] p u =
    ap (λ ms. both ms (some p.start) (some p.end)) (sym (append-nil p.matchers))
read_params-both ((k, v) ∷ es) p u =
    let rest : (q : Params) → read_params es q ≡ meaning es q = λ q. read_params-both es q u.1 in
    let ms = p.matchers ++ asked_matchers es in
    read_params-round (k, v) es p ∙ elim (Bool-cases (k == start_key)) [
      | inl e ↦
          let f = keys_apart k e in
          ap (next es) (read_param-start p k v e)
          ∙ read_params-start k v es p (parse_u64 v) e u.0 rest
          ∙ sym (
              ap
                (λ xs.
                  both (p.matchers ++ xs) (bound ((k, v) ∷ es) start_key p.start)
                    (bound ((k, v) ∷ es) end_key p.end))
                (bound_key k v es (rw e refl))
              ∙ ap₂ (both ms) (here k v start_key es p.start e) (skipped k v end_key es p.end f))
      | inr e ↦ elim (Bool-cases (k == end_key)) [
        | inl f ↦
            ap (next es) (read_param-end p k v e f)
            ∙ read_params-end k v es p (parse_u64 v) f u.0 rest
            ∙ sym (
                ap
                  (λ xs.
                    both (p.matchers ++ xs) (bound ((k, v) ∷ es) start_key p.start)
                      (bound ((k, v) ∷ es) end_key p.end))
                  (bound_key k v es (rw (e, f) refl))
                ∙ ap₂ (both ms) (skipped k v start_key es p.start e) (here k v end_key es p.end f))
        | inr f ↦
            let q : Params = record p { matchers = p.matchers ++ asked (k, v) ∷ [] } in
            ap (next es) (read_param-other p k v e f)
            ∙ rest q
            ∙ ap (λ xs. both xs (bound es start_key p.start) (bound es end_key p.end))
                (append_assoc p.matchers (asked (k, v) ∷ []) (asked_matchers es))
            ∙ sym (
                ap
                  (λ xs.
                    both (p.matchers ++ xs) (bound ((k, v) ∷ es) start_key p.start)
                      (bound ((k, v) ∷ es) end_key p.end))
                  (other_key k v es (rw (e, f) refl))
                ∙ ap₂ (both (p.matchers ++ asked (k, v) ∷ asked_matchers es))
                    (skipped k v start_key es p.start e) (skipped k v end_key es p.end f))
      ]
    ]
