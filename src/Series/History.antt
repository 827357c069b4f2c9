-- ===== src/Series/History.antt =====
-- A series over its whole life: appends, flushes that take the buffer, restored timestamps, marks.
use rust_tsdb.Prelude.{
  ℕ, ◌≡◌, refl, ap, sym, ◌∙◌, Option, none, some, List, [], ◌∷◌, ◌++◌, arith, max, append_assoc,
  append-nil, inl, inr, subst, ltb, ltb→lt, Bool-cases,
}
use rust_tsdb.Model.{Sample}
use rust_tsdb.Series.{SeriesState, default_state, append, mark_logged, take_samples, restore_newest}
use rust_tsdb.Series.Valid.{Ascending, UpTo, UpTo-le, UpTo-snoc, Ascending-snoc}

pub data Op : Type 0 where
  write : Sample → Op
  flush : Op
  restore : ℕ → Op
  mark : ℕ → Op

-- The state, and all that flushes have taken out of it.
pub record Life : Type 0 where
  pub state : SeriesState
  pub taken : List Sample

unfoldable pub step : Life → Op → Life
step l (write s) = record l { state = (append l.state s).0 }
step l flush = let (st, out) = take_samples l.state in record { state = st; taken = l.taken ++ out }
step l (restore n) = record l { state = restore_newest l.state n }
step l (mark g) = record l { state = mark_logged l.state g }

unfoldable pub live : Life → List Op → Life
unfolding step
live l [] = l
live l (o ∷ os) = live (step l o) os

abbrev pub born : Life
born = record { state = default_state; taken = [] }

-- All that the series has accepted.
abbrev pub accepted : Life → List Sample
accepted l = l.taken ++ l.state.samples

record IsSound (l : Life) : Type 0 where
  ascending : Ascending (accepted l)
  bounded : UpTo l.state.newest (accepted l)

write-IsSound :
    (out xs : List Sample) (newest : Option ℕ) (gen : ℕ) (s : Sample)
    → Ascending (out ++ xs)
    → UpTo newest (out ++ xs)
    → IsSound (
        step
          (record {
            state = record { samples = xs; newest = newest; logged_gen = gen };
            taken = out;
          })
          (write s))
unfolding step append
write-IsSound out xs none gen s a u = record {
  ascending = rw (← append_assoc out xs (s ∷ []), u) (tt, tt);
  bounded = rw (← append_assoc out xs (s ∷ []), u) (omega arith, tt);
}
write-IsSound out xs (some n) gen s a u = elim (Bool-cases (ltb n s.timestamp)) [
  | inl e ↦ rw e (record {
    ascending =
        rw (← append_assoc out xs (s ∷ []))
          (Ascending-snoc n (out ++ xs) s (ltb→lt n s.timestamp e) u a);
    bounded =
        rw (← append_assoc out xs (s ∷ []))
          (UpTo-snoc n (out ++ xs) s (omega (arith, ltb→lt n s.timestamp e)) u);
  })
  | inr e ↦ rw e (record { ascending = a; bounded = u })
]

restore-IsSound :
    (out xs : List Sample) (newest : Option ℕ) (gen n : ℕ)
    → Ascending (out ++ xs)
    → UpTo newest (out ++ xs)
    → IsSound (
        step
          (record {
            state = record { samples = xs; newest = newest; logged_gen = gen };
            taken = out;
          })
          (restore n))
unfolding step restore_newest
restore-IsSound out xs none gen n a u = record { ascending = a; bounded = rw u tt }
restore-IsSound out xs (some m) gen n a u = record {
  ascending = a;
  bounded = UpTo-le m (max m n) (out ++ xs) (omega arith) u;
}

step-IsSound : (l : Life) (o : Op) → IsSound l → IsSound (step l o)
unfolding step take_samples mark_logged
step-IsSound l (write s) v =
    write-IsSound l.taken l.state.samples l.state.newest l.state.logged_gen s v.ascending v.bounded
step-IsSound l flush v = record {
  ascending = rw (append-nil (l.taken ++ l.state.samples)) v.ascending;
  bounded = rw (append-nil (l.taken ++ l.state.samples)) v.bounded;
}
step-IsSound l (restore n) v =
    restore-IsSound l.taken l.state.samples l.state.newest l.state.logged_gen n v.ascending
      v.bounded
step-IsSound l (mark g) v = record { ascending = v.ascending; bounded = v.bounded }

live-IsSound : (l : Life) (os : List Op) → IsSound l → IsSound (live l os)
unfolding live
live-IsSound l [] v = v
live-IsSound l (o ∷ os) v = live-IsSound (step l o) os (step-IsSound l o v)

-- Whatever happens to a series, what its flushes took out, in their order, followed by what it
-- still holds is strictly increasing in time: no timestamp is accepted twice.
pub live-Ascending : (os : List Op) → Ascending (accepted (live born os))
live-Ascending os = (live-IsSound born os (record { ascending = tt; bounded = refl })).ascending

-- The same life with no flush in it.
unfoldable pub unflushed : List Op → List Op
unflushed [] = []
unflushed (write s ∷ os) = write s ∷ unflushed os
unflushed (flush ∷ os) = unflushed os
unflushed (restore n ∷ os) = restore n ∷ unflushed os
unflushed (mark g ∷ os) = mark g ∷ unflushed os

-- The two lives accepted the same, and will.
record Agree (l m : Life) : Type 0 where
  same : accepted l ≡ accepted m
  newest : l.state.newest ≡ m.state.newest

write-Agree :
    (out xs out' xs' : List Sample) (newest : Option ℕ) (g g' : ℕ) (s : Sample)
    → out ++ xs ≡ out' ++ xs'
    → Agree
        (step
          (record { state = record { samples = xs; newest = newest; logged_gen = g }; taken = out })
          (write s))
        (step
          (record {
            state = record { samples = xs'; newest = newest; logged_gen = g' };
            taken = out';
          })
          (write s))
unfolding step append
write-Agree out xs out' xs' none g g' s e = record {
  same =
      sym (append_assoc out xs (s ∷ [])) ∙ ap (λ t. t ++ s ∷ []) e ∙ append_assoc out' xs' (s ∷ []);
  newest = refl;
}
write-Agree out xs out' xs' (some n) g g' s e = elim (Bool-cases (ltb n s.timestamp)) [
  | inl t ↦ rw t (record {
    same =
        sym (append_assoc out xs (s ∷ []))
        ∙ ap (λ t. t ++ s ∷ []) e
        ∙ append_assoc out' xs' (s ∷ []);
    newest = refl;
  })
  | inr t ↦ rw t (record { same = e; newest = refl })
]

step-Agree-write :
    (l m : Life) (s : Sample) → Agree l m → Agree (step l (write s)) (step m (write s))
step-Agree-write l m s a =
    subst
      (λ z. Agree (step l (write s)) (
        step
          (record {
            state = record {
              samples = m.state.samples;
              newest = z;
              logged_gen = m.state.logged_gen;
            };
            taken = m.taken;
          })
          (write s)))
      a.newest
      (write-Agree l.taken l.state.samples m.taken m.state.samples l.state.newest l.state.logged_gen
        m.state.logged_gen s a.same)

step-Agree-flush : (l m : Life) → Agree l m → Agree (step l flush) m
unfolding step take_samples
step-Agree-flush l m a = record {
  same = append-nil (l.taken ++ l.state.samples) ∙ a.same;
  newest = a.newest;
}

step-Agree_restore :
    (l m : Life) (n : ℕ) → Agree l m → Agree (step l (restore n)) (step m (restore n))
unfolding step restore_newest
step-Agree_restore l m n a = ground (arith, a.same, a.newest)

step-Agree_mark : (l m : Life) (g : ℕ) → Agree l m → Agree (step l (mark g)) (step m (mark g))
unfolding step mark_logged
step-Agree_mark l m g a = record { same = a.same; newest = a.newest }

live-Agree : (os : List Op) (l m : Life) → Agree l m → Agree (live l os) (live m (unflushed os))
unfolding live unflushed
live-Agree [] l m a = a
live-Agree (write s ∷ os) l m a =
    live-Agree os (step l (write s)) (step m (write s)) (step-Agree-write l m s a)
live-Agree (flush ∷ os) l m a = live-Agree os (step l flush) m (step-Agree-flush l m a)
live-Agree (restore n ∷ os) l m a =
    live-Agree os (step l (restore n)) (step m (restore n)) (step-Agree_restore l m n a)
live-Agree (mark g ∷ os) l m a =
    live-Agree os (step l (mark g)) (step m (mark g)) (step-Agree_mark l m g a)

taken-unflushed : (os : List Op) (l : Life) → l.taken ≡ [] → (live l (unflushed os)).taken ≡ []
unfolding live unflushed step
taken-unflushed [] l h = h
taken-unflushed (write s ∷ os) l h = taken-unflushed os (step l (write s)) h
taken-unflushed (flush ∷ os) l h = taken-unflushed os l h
taken-unflushed (restore n ∷ os) l h = taken-unflushed os (step l (restore n)) h
taken-unflushed (mark g ∷ os) l h = taken-unflushed os (step l (mark g)) h

-- Flushes lose nothing and let nothing else in: what a life with flushes accepted is what the same
-- life with the flushes left out still holds at its end.
pub live-unflushed :
    (os : List Op) → accepted (live born os) ≡ (live born (unflushed os)).state.samples
live-unflushed os =
    (live-Agree os born born (record { same = refl; newest = refl })).same
    ∙ ap (λ t. t ++ (live born (unflushed os)).state.samples) (taken-unflushed os born refl)
