-- ===== src/Series/Valid.antt =====
-- The buffered samples go strictly up in time and end at or before `newest`.
use rust_tsdb.Prelude.{
  ℕ, ◌≤◌, ◌<◌, ◌≡◌, refl, Option, none, some, List, [], ◌∷◌, ◌++◌, All, arith, max, inl, inr, ltb,
  ltb→lt, Bool-cases,
}
use rust_tsdb.Model.{Sample}
use rust_tsdb.Series.{SeriesState, default_state, append, mark_logged, take_samples, restore_newest}

-- Strictly increasing timestamps.
abbrev pub Ascending : List Sample → Type 0
Ascending [] = Unit
Ascending (x ∷ xs) = All (λ (y : Sample). x.timestamp < y.timestamp) xs × Ascending xs

-- No timestamp is above the newest that was accepted.
abbrev pub UpTo : Option ℕ → List Sample → Type 0
UpTo none xs = xs ≡ []
UpTo (some n) xs = All (λ (y : Sample). y.timestamp ≤ n) xs

pub record IsValid (st : SeriesState) : Type 0 where
  pub ascending : Ascending st.samples
  pub bounded : UpTo st.newest st.samples

pub UpTo-le : (n m : ℕ) (xs : List Sample) → n ≤ m → UpTo (some n) xs → UpTo (some m) xs
UpTo-le n m [] h k = tt
UpTo-le n m (x ∷ xs) h k = (omega arith, UpTo-le n m xs h k.1)

pub UpTo-snoc :
    (n : ℕ) (xs : List Sample) (s : Sample)
    → n ≤ s.timestamp
    → UpTo (some n) xs
    → UpTo (some s.timestamp) (xs ++ s ∷ [])
UpTo-snoc n [] s h k = (omega arith, tt)
UpTo-snoc n (x ∷ xs) s h k = (omega arith, UpTo-snoc n xs s h k.1)

below-snoc :
    (t n : ℕ) (xs : List Sample) (s : Sample)
    → t < s.timestamp
    → All (λ (y : Sample). t < y.timestamp) xs
    → All (λ (y : Sample). t < y.timestamp) (xs ++ s ∷ [])
below-snoc t n [] s h k = (h, tt)
below-snoc t n (x ∷ xs) s h k = (k.0, below-snoc t n xs s h k.1)

pub Ascending-snoc :
    (n : ℕ) (xs : List Sample) (s : Sample)
    → n < s.timestamp
    → UpTo (some n) xs
    → Ascending xs
    → Ascending (xs ++ s ∷ [])
Ascending-snoc n [] s h u a = (tt, tt)
Ascending-snoc n (x ∷ xs) s h u a =
    (below-snoc x.timestamp n xs s (omega arith) a.0, Ascending-snoc n xs s h u.1 a.1)

pub UpTo-nil : (newest : Option ℕ) → UpTo newest []
UpTo-nil none = refl
UpTo-nil (some n) = tt

append-IsValid_parts :
    (xs : List Sample) (newest : Option ℕ) (gen : ℕ) (s : Sample)
    → Ascending xs
    → UpTo newest xs
    → IsValid (append (record { samples = xs; newest = newest; logged_gen = gen }) s).0
unfolding append
append-IsValid_parts xs none gen s a u = record {
  ascending = rw u (tt, tt);
  bounded = rw u (omega arith, tt);
}
append-IsValid_parts xs (some n) gen s a u = elim (Bool-cases (ltb n s.timestamp)) [
  | inl e ↦ rw e (record {
    ascending = Ascending-snoc n xs s (ltb→lt n s.timestamp e) u a;
    bounded = UpTo-snoc n xs s (omega (arith, ltb→lt n s.timestamp e)) u;
  })
  | inr e ↦ rw e (record { ascending = a; bounded = u })
]

-- `append` keeps a state valid, whether it takes the sample or not.
pub append-IsValid : (st : SeriesState) (s : Sample) → IsValid st → IsValid (append st s).0
append-IsValid st s v =
    append-IsValid_parts st.samples st.newest st.logged_gen s v.ascending v.bounded

pub take_samples-IsValid : (st : SeriesState) → IsValid st → IsValid (take_samples st).0
unfolding take_samples
take_samples-IsValid st v = record { ascending = tt; bounded = UpTo-nil st.newest }

restore_newest-IsValid_parts :
    (xs : List Sample) (newest : Option ℕ) (gen n : ℕ)
    → Ascending xs
    → UpTo newest xs
    → IsValid (restore_newest (record { samples = xs; newest = newest; logged_gen = gen }) n)
unfolding restore_newest
restore_newest-IsValid_parts xs none gen n a u = record { ascending = a; bounded = rw u tt }
restore_newest-IsValid_parts xs (some m) gen n a u = record {
  ascending = a;
  bounded = UpTo-le m (max m n) xs (omega arith) u;
}

pub restore_newest-IsValid : (st : SeriesState) (n : ℕ) → IsValid st → IsValid (restore_newest st n)
restore_newest-IsValid st n v =
    restore_newest-IsValid_parts st.samples st.newest st.logged_gen n v.ascending v.bounded

pub mark_logged-IsValid : (st : SeriesState) (g : ℕ) → IsValid st → IsValid (mark_logged st g)
unfolding mark_logged
mark_logged-IsValid st g v = record { ascending = v.ascending; bounded = v.bounded }

pub default_state-IsValid : IsValid default_state
default_state-IsValid = record { ascending = tt; bounded = refl }
