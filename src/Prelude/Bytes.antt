-- ===== src/Prelude/Bytes.antt =====
-- Rust's `String` as the list of its UTF-8 bytes, compared as `str::cmp` does: byte by byte.
use rust_tsdb.Prelude.Eq.{KeyEq}
use Prim.Native.Nat.{ℕ, compare, Ordering}
use rust_tsdb.Prelude.Tests.{Ordering-cases}
use mathlib.Core.Path.{◌≡◌, refl, subst}
use mathlib.Core.Logic.{◌↔◌, ◌≢◌, inl, inr}
use mathlib.Core.Bool.{Bool, true, false}
use mathlib.Core.List.{List, [], ◌∷◌}
use native.Mathlib.Omega.{arith}

abbrev pub Str : Type 0
Str = List ℕ

unfoldable pub cmp : Str → Str → Ordering
cmp [] [] = Ordering.eq
cmp [] (b ∷ t) = Ordering.lt
cmp (a ∷ s) [] = Ordering.gt
cmp (a ∷ s) (b ∷ t) = elim (compare a b) [
  | Ordering.lt ↦ Ordering.lt
  | Ordering.eq ↦ cmp s t
  | Ordering.gt ↦ Ordering.gt
]

pub cmp_refl : (s : Str) → cmp s s ≡ Ordering.eq
unfolding cmp
cmp_refl [] = refl
cmp_refl (a ∷ s) = ground (arith, cmp_refl s)

pub cmp-eq : (s t : Str) → cmp s t ≡ Ordering.eq → s ≡ t
unfolding cmp
cmp-eq [] [] h = refl
cmp-eq [] (b ∷ t) h = cc
cmp-eq (a ∷ s) [] h = cc
cmp-eq (a ∷ s) (b ∷ t) h = ground (arith, cmp-eq s t)

pub cmp-lt_gt : (s t : Str) → cmp s t ≡ Ordering.lt → cmp t s ≡ Ordering.gt
unfolding cmp
cmp-lt_gt [] [] h = cc
cmp-lt_gt [] (b ∷ t) h = refl
cmp-lt_gt (a ∷ s) [] h = cc
cmp-lt_gt (a ∷ s) (b ∷ t) h = ground (arith, cmp-lt_gt s t)

pub cmp-gt_lt : (s t : Str) → cmp s t ≡ Ordering.gt → cmp t s ≡ Ordering.lt
unfolding cmp
cmp-gt_lt [] [] h = cc
cmp-gt_lt [] (b ∷ t) h = cc
cmp-gt_lt (a ∷ s) [] h = refl
cmp-gt_lt (a ∷ s) (b ∷ t) h = ground (arith, cmp-gt_lt s t)

pub cmp-lt_trans :
    (s t u : Str) → cmp s t ≡ Ordering.lt → cmp t u ≡ Ordering.lt → cmp s u ≡ Ordering.lt
unfolding cmp
cmp-lt_trans [] [] u h k = cc
cmp-lt_trans [] (b ∷ t) [] h k = cc
cmp-lt_trans [] (b ∷ t) (c ∷ u) h k = refl
cmp-lt_trans (a ∷ s) [] u h k = cc
cmp-lt_trans (a ∷ s) (b ∷ t) [] h k = cc
cmp-lt_trans (a ∷ s) (b ∷ t) (c ∷ u) h k = ground (arith, cmp-lt_trans s t u)

pub str_beq : Str → Str → Bool
str_beq s t = elim (cmp s t) [ Ordering.eq ↦ true | _ ↦ false ]

pub str_beq_iff : (s t : Str) → (str_beq s t ≡ true) ↔ (s ≡ t)
unfolding str_beq
str_beq_iff s t = (λ h. cmp-eq s t (ground arith), λ e. ground (arith, cmp_refl s))

pub str_beq-lt : (s t : Str) → cmp s t ≡ Ordering.lt → str_beq s t ≡ false
unfolding str_beq
str_beq-lt s t h = ground arith

pub str_beq-gt : (s t : Str) → cmp s t ≡ Ordering.gt → str_beq s t ≡ false
unfolding str_beq
str_beq-gt s t h = ground arith

pub str_beq-eq : (s t : Str) → cmp s t ≡ Ordering.eq → str_beq s t ≡ true
unfolding str_beq
str_beq-eq s t h = ground arith

pub str_beq_refl : (s : Str) → str_beq s s ≡ true
str_beq_refl s = str_beq-eq s s (cmp_refl s)

-- What is not below is equal or above.
pub cmp-gt_of :
    (s t u : Str) → cmp s u ≡ Ordering.lt → cmp s t ≢ Ordering.lt → cmp u t ≡ Ordering.gt
cmp-gt_of s t u h k = elim (Ordering-cases (cmp s t)) [
  | inl l ↦ absurd (k l)
  | inr (inl e) ↦ cmp-lt_gt t u (subst (λ z. cmp z u ≡ Ordering.lt) (cmp-eq s t e) h)
  | inr (inr g) ↦ cmp-lt_gt t u (cmp-lt_trans t s u (cmp-gt_lt s t g) h)
]

instance abbrev pub str_eq : KeyEq Str
str_eq = record { same = str_beq; same_iff = str_beq_iff }
