-- ===== src/Prelude/Decimal.antt =====
-- What file names use of Rust's strings: `{:0w}` of a `u64`, `parse::<u64>`, `strip_prefix` and
-- `strip_suffix`.
use rust_tsdb.Prelude.Tests.{
  ltb, leb, if◌then◌else◌, nat_beq, nat_beq_iff, ne→nat_beq, Bool-cases, Option-cases,
}
use rust_tsdb.Prelude.Lists.{
  length, take, drop, is_empty, length-append, take-length-append, drop-length-append,
}
use rust_tsdb.Prelude.Bytes.{Str, str_beq, str_beq_refl}
use Prim.Native.Nat.{ℕ, zero, suc, ◌+◌, ◌-◌, ◌*◌, ◌/◌, ◌%◌, ◌^◌, ◌≤◌, ◌<◌}
use mathlib.Core.Path.{◌≡◌, refl, ap, ◌∙◌}
use mathlib.Core.Bool.{true, ◌&&◌}
use mathlib.Core.Logic.{inl, inr}
use mathlib.Core.Option.{Option, none, some}
use mathlib.Core.List.{[], ◌∷◌, ◌++◌}
use native.Mathlib.Nat.{pow-suc}
use native.Mathlib.Omega.{arith}

-- `{:0width}` of a number with at most `digits` decimal digits.
unfoldable pub padded : ℕ → ℕ → ℕ → Str
padded width zero n = []
padded width (suc digits) n =
    let front = padded (width - 1) digits (n / 10) in
    if ltb n 10 && leb width 1 then (b'0' + n) ∷ [] else front ++ (b'0' + n % 10) ∷ []

-- One more digit; `none` is an error, an overflow of `u64` included.
unfoldable pub push_digit : ℕ → ℕ → Option ℕ
push_digit acc c =
    if leb b'0' c && leb c b'9' && ltb (acc * 10 + (c - b'0')) (2 ^ 64)
    then some (acc * 10 + (c - b'0'))
    else none

unfoldable pub parse_digits : ℕ → Str → Option ℕ
parse_digits acc [] = some acc
parse_digits acc (c ∷ s) = elim (push_digit acc c) [ none ↦ none | some n ↦ parse_digits n s ]

-- `str::parse::<u64>`: one `+` may stand in front.
unfoldable pub parse_u64 : Str → Option ℕ
unfolding parse_digits
parse_u64 [] = none
parse_u64 (c ∷ s) =
    if nat_beq c b'+'
    then (if is_empty s then none else parse_digits 0 s)
    else parse_digits 0 (c ∷ s)

unfoldable pub strip_prefix : Str → Str → Option Str
strip_prefix [] s = some s
strip_prefix (p ∷ ps) [] = none
strip_prefix (p ∷ ps) (c ∷ s) = if nat_beq p c then strip_prefix ps s else none

unfoldable pub strip_suffix : Str → Str → Option Str
strip_suffix suffix s =
    if leb (length suffix) (length s) && str_beq (drop (length s - length suffix) s) suffix
    then some (take (length s - length suffix) s)
    else none

pub strip_prefix-append : (p s : Str) → strip_prefix p (p ++ s) ≡ some s
unfolding strip_prefix
strip_prefix-append [] s = refl
strip_prefix-append (p ∷ ps) s = rw ((nat_beq_iff p p).1 refl) (strip_prefix-append ps s)

pub strip_suffix-append : (s t : Str) → strip_suffix t (s ++ t) ≡ some s
unfolding strip_suffix
strip_suffix-append s t =
    let n : length (s ++ t) - length t ≡ length s = omega (arith, length-append s t) in
    let fits : leb (length t) (length (s ++ t)) ≡ true = ground (arith, length-append s t) in
    rw (fits, n, drop-length-append s t, str_beq_refl t, take-length-append s t)

push_digit-digit :
    (acc d : ℕ) → d < 10 → acc * 10 + d < 2 ^ 64 → push_digit acc (b'0' + d) ≡ some (acc * 10 + d)
unfolding push_digit
push_digit-digit acc d h k = ground arith

parse_digits-one : (acc c : ℕ) → parse_digits acc (c ∷ []) ≡ push_digit acc c
unfolding parse_digits
parse_digits-one acc c = elim (Option-cases (push_digit acc c)) [
  | inl e ↦ rw (e, parse_digits) refl
  | inr (n, e) ↦ rw (e, parse_digits) refl
]

some_eq : (a b : ℕ) → some a ≡ some b → a ≡ b
some_eq a b h = cc

parse_digits-snoc :
    (s : Str) (acc n c : ℕ)
    → parse_digits acc s ≡ some n
    → parse_digits acc (s ++ c ∷ []) ≡ push_digit n c
unfolding parse_digits
parse_digits-snoc [] acc n c =
    λ h. parse_digits-one acc c ∙ ap (λ a. push_digit a c) (some_eq acc n h)
parse_digits-snoc (x ∷ s) acc n c = elim (Option-cases (push_digit acc x)) [
  | inl e ↦ rw (e, parse_digits) (λ h. absurd (cc))
  | inr (m, e) ↦ rw (e, parse_digits) (parse_digits-snoc s m n c)
]

div_ten : (p n : ℕ) → n < p * 10 → n / 10 < p
div_ten p n h = omega arith

parse_digits-padded :
    (digits width n : ℕ)
    → n < 2 ^ 64
    → n < 10 ^ digits
    → parse_digits 0 (padded width digits n) ≡ some n
unfolding padded
parse_digits-padded zero width n h k =
    let none_left : 0 ≡ n = omega arith in unfold parse_digits in ap some none_left
parse_digits-padded (suc digits) width n h k =
    let front = padded (width - 1) digits (n / 10) in
    let small : n / 10 < 10 ^ digits = div_ten (10 ^ digits) n (rw (pow-suc 10 digits) at k) in
    let rest : parse_digits 0 front ≡ some (n / 10) =
      parse_digits-padded digits (width - 1) (n / 10) (omega arith) small in
    elim (Bool-cases (ltb n 10 && leb width 1)) [
      | inl e ↦
          rw (e, padded)
            (parse_digits-one 0 (b'0' + n)
              ∙ push_digit-digit 0 n (ground (arith, e)) (omega arith)
              ∙ ap some (omega arith))
      | inr e ↦
          rw (e, padded)
            (parse_digits-snoc front 0 (n / 10) (b'0' + n % 10) rest
              ∙ push_digit-digit (n / 10) (n % 10) (omega arith) (omega arith)
              ∙ ap some (omega arith))
    ]

-- A digit in front, so no sign.
abbrev StartsWithDigit : Str → Type 0
StartsWithDigit [] = ⊥
StartsWithDigit (c ∷ s) = b'0' ≤ c

-- A digit in front, if anything is there.
abbrev MayStartWithDigit : Str → Type 0
MayStartWithDigit [] = Unit {0}
MayStartWithDigit (c ∷ s) = b'0' ≤ c

StartsWithDigit-snoc :
    (s : Str) (d : ℕ) → MayStartWithDigit s → StartsWithDigit (s ++ (b'0' + d) ∷ [])
StartsWithDigit-snoc [] d h = omega arith
StartsWithDigit-snoc (c ∷ s) d h = h

StartsWithDigit-may : (s : Str) → StartsWithDigit s → MayStartWithDigit s
StartsWithDigit-may [] h = absurd h
StartsWithDigit-may (c ∷ s) h = h

padded-StartsWithDigit : (digits width n : ℕ) → StartsWithDigit (padded width (suc digits) n)
unfolding padded
padded-StartsWithDigit zero width n = elim (Bool-cases (ltb n 10 && leb width 1)) [
  | inl e ↦ rw e (omega arith)
  | inr e ↦ rw e (omega arith)
]
padded-StartsWithDigit (suc digits) width n = elim (Bool-cases (ltb n 10 && leb width 1)) [
  | inl e ↦ rw e (omega arith)
  | inr e ↦ rw e (
      StartsWithDigit-snoc (padded (width - 1) (suc digits) (n / 10)) (n % 10) (
        StartsWithDigit-may (padded (width - 1) (suc digits) (n / 10))
          (padded-StartsWithDigit digits (width - 1) (n / 10))))
]

parse_u64-digits :
    (s : Str) (n : ℕ) → StartsWithDigit s → parse_digits 0 s ≡ some n → parse_u64 s ≡ some n
unfolding parse_u64
parse_u64-digits [] n d h = absurd d
parse_u64-digits (c ∷ s) n d h = rw (ne→nat_beq c b'+' (omega arith)) h

-- A `u64` that is printed with zeros in front is parsed back.
pub parse_u64-padded : (width n : ℕ) → n < 2 ^ 64 → parse_u64 (padded width 20 n) ≡ some n
parse_u64-padded width n h =
    parse_u64-digits (padded width 20 n) n (padded-StartsWithDigit 19 width n)
      (parse_digits-padded 20 width n h (omega arith))
