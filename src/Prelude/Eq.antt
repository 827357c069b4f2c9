-- ===== src/Prelude/Eq.antt =====
-- Equality of keys, as `derive(PartialEq, Eq)` gives it: an interface with its law.
use rust_tsdb.Prelude.Tests.{nat_beq, nat_beq_iff}
use Prim.Native.Nat.{ℕ}
use mathlib.Core.Path.{◌≡◌}
use mathlib.Core.Logic.{◌↔◌}
use mathlib.Core.Bool.{Bool, true}

-- `K: PartialEq`, where the test is true of equal keys only, as it is of every derived one.
pub record KeyEq {ℓ} (K : Type ℓ) : Type ℓ where
  pub same : K → K → Bool
  pub same_iff : (j k : K) → (same j k ≡ true) ↔ (j ≡ k)

infix 50 ◌==◌
abbrev pub ◌==◌ {ℓ} : {K : Type ℓ} ⦃keys : KeyEq K⦄ (j k : K) → Bool
◌==◌ ⦃keys⦄ j k = keys.same j k

pub eq_iff {ℓ} : {K : Type ℓ} ⦃keys : KeyEq K⦄ (j k : K) → ((j == k) ≡ true) ↔ (j ≡ k)
eq_iff ⦃keys⦄ j k = keys.same_iff j k

instance abbrev pub nat_eq : KeyEq ℕ
nat_eq = record { same = nat_beq; same_iff = nat_beq_iff }
