-- ===== src/Prelude/HashMap.antt =====
-- `std::collections::HashMap` as an association list. Iteration goes through the list; no theorem
-- depends on the order in which it does.
use rust_tsdb.Prelude.Tests.{if◌then◌else◌, Bool-cases}
use mathlib.Core.Logic.{◌⊎◌, inl, inr}
use rust_tsdb.Prelude.Eq.{KeyEq, ◌==◌, eq_iff}
use mathlib.Core.Path.{◌≡◌, refl, ◌∙◌}
use mathlib.Core.Option.{Option, none, some}
use mathlib.Core.List.{List, [], ◌∷◌}
use native.Mathlib.Omega.{arith}

abbrev pub HashMap {ℓ κ} : Type ℓ → Type κ → Type (ℓ ⊔ κ)
HashMap K V = List (K × V)

abbrev pub or_default {ℓ} : {V : Type ℓ} → Option V → V → V
or_default none d = d
or_default (some v) d = v

module _ {ℓ κ} {K : Type ℓ} {V : Type κ} ⦃e : KeyEq K⦄ where
  unfoldable pub get : HashMap K V → K → Option V
  get [] k = none
  get ((j, v) ∷ m) k = if j == k then some v else get m k

  unfoldable pub insert : HashMap K V → K → V → HashMap K V
  insert [] k v = (k, v) ∷ []
  insert ((j, w) ∷ m) k v = if j == k then (j, v) ∷ m else (j, w) ∷ insert m k v

  unfoldable pub remove : HashMap K V → K → HashMap K V
  remove [] k = []
  remove ((j, w) ∷ m) k = if j == k then remove m k else (j, w) ∷ remove m k

  -- `*map.entry(k).or_default() = f(..)`
  unfoldable pub upsert : HashMap K V → K → V → (V → V) → HashMap K V
  upsert [] k d f = (k, f d) ∷ []
  upsert ((j, w) ∷ m) k d f = if j == k then (j, f w) ∷ m else (j, w) ∷ upsert m k d f

  pub get-insert :
      (m : HashMap K V) (k j : K) (v : V)
      → get (insert m k v) j ≡ (if k == j then some v else get m j)
  unfolding get insert
  get-insert [] k j v = refl
  get-insert ((i, w) ∷ m) k j v =
      ground (arith, eq_iff k j, eq_iff i k, eq_iff i j, get-insert m k j v)

  pub get-remove :
      (m : HashMap K V) (k j : K) → get (remove m k) j ≡ (if k == j then none else get m j)
  unfolding get remove
  get-remove [] k j = ground arith
  get-remove ((i, w) ∷ m) k j = ground (arith, eq_iff k j, eq_iff i k, eq_iff i j, get-remove m k j)

  pub get-upsert :
      (m : HashMap K V) (k j : K) (d : V) (f : V → V)
      → get (upsert m k d f) j ≡ (if k == j then some (f (or_default (get m k) d)) else get m j)
  unfolding get upsert
  get-upsert [] k j d f = refl
  get-upsert ((i, w) ∷ m) k j d f =
      ground (arith, eq_iff k j, eq_iff i k, eq_iff i j, get-upsert m k j d f)

  -- What a lookup after an insertion finds is the new value, or was there before.
  pub insert-cases :
      (m : HashMap K V) (k j : K) {v w : V}
      → get (insert m k v) j ≡ some w
      → ((k ≡ j) × (v ≡ w)) ⊎ (get m j ≡ some w)
  insert-cases m k j {v} {w} e = elim (Bool-cases (k == j)) [
    | inl h ↦ inl ((eq_iff k j).0 h, ground (arith, e, h, get-insert m k j v))
    | inr h ↦ inr (ground (arith, e, h, get-insert m k j v))
  ]

  -- No key stands twice, so iteration meets what `get` finds.
  abbrev pub UniqueKeys : HashMap K V → Type κ
  UniqueKeys [] = Unit
  UniqueKeys ((k, v) ∷ m) = (get m k ≡ none) × UniqueKeys m

  pub upsert-UniqueKeys :
      (m : HashMap K V) (k : K) (d : V) (f : V → V) → UniqueKeys m → UniqueKeys (upsert m k d f)
  unfolding upsert
  upsert-UniqueKeys [] k d f u = (unfold get in refl, tt)
  upsert-UniqueKeys ((j, w) ∷ m) k d f u = elim (Bool-cases (j == k)) [
    | inl h ↦ rw h u
    | inr h ↦ rw h (
      get-upsert m k j d f ∙ ground (arith, eq_iff k j, eq_iff j k, u.0, h),
      upsert-UniqueKeys m k d f u.1,
    )
  ]
