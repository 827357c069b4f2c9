-- ===== src/Tests/Texts.antt =====
-- A text of segments that is read back, in place of JSON: lists have their length in front.
use rust_tsdb.Prelude.{ℕ, zero, suc, ◌≡◌, refl, ap, Option, none, some, List, [], ◌∷◌, length}
use rust_tsdb.Model.{Label}
use rust_tsdb.LabelSet.{LabelSet}
use rust_tsdb.Wal.Record.{Bytes}
use rust_tsdb.Segments.{DiskSeries, Segment}
use rust_tsdb.Segments.Image.{ReadsBack}

-- A value in front of other bytes, and back.
pub record Format (A : Type 0) : Type 0 where
  pub put : A → Bytes → Bytes
  pub get : Bytes → Option (A × Bytes)
  pub law : (a : A) (rest : Bytes) → get (put a rest) ≡ some (a, rest)

abbrev number : Format ℕ
number = record {
  put = λ n rest. n ∷ rest;
  get = λ b. elim b [ [] ↦ none | n ∷ rest ↦ some (n, rest) ];
  law = λ n rest. refl;
}

abbrev bind {ℓ κ} : {A : Type ℓ} {B : Type κ} → Option A → (A → Option B) → Option B
bind none f = none
bind (some a) f = f a

abbrev both : {A B : Type 0} → Format A → Format B → Format (A × B)
both f g = record {
  put = λ p rest. f.put p.0 (g.put p.1 rest);
  get = λ b. bind (f.get b) (λ x. bind (g.get x.1) (λ y. some ((x.0, y.0), y.1)));
  law = λ p rest. rw (f.law p.0 (g.put p.1 rest), g.law p.1 rest) refl;
}

unfoldable pub put_all : {A : Type 0} → Format A → List A → Bytes → Bytes
put_all f [] rest = rest
put_all f (x ∷ xs) rest = f.put x (put_all f xs rest)

unfoldable pub get_all : {A : Type 0} → Format A → ℕ → Bytes → Option (List A × Bytes)
get_all f zero b = some ([], b)
get_all f (suc n) b = bind (f.get b) (λ x. bind (get_all f n x.1) (λ y. some (x.0 ∷ y.0, y.1)))

pub get_all-put_all :
    {A : Type 0} (f : Format A) (xs : List A) (rest : Bytes)
    → get_all f (length xs) (put_all f xs rest) ≡ some (xs, rest)
unfolding get_all put_all
get_all-put_all f [] rest = refl
get_all-put_all f (x ∷ xs) rest = rw (f.law x (put_all f xs rest), get_all-put_all f xs rest) refl

abbrev many : {A : Type 0} → Format A → Format (List A)
many f = record {
  put = λ xs rest. length xs ∷ put_all f xs rest;
  get = λ b. elim b [ [] ↦ none | n ∷ rest ↦ get_all f n rest ];
  law = λ xs rest. get_all-put_all f xs rest;
}

abbrev through :
    {A B : Type 0}
    → Format A
    → (there : B → A) (back : A → B) → ((b : B) → back (there b) ≡ b)
    → Format B
through f there back same = record {
  put = λ b rest. f.put (there b) rest;
  get = λ b. bind (f.get b) (λ x. some (back x.0, x.1));
  law = λ b rest. rw (f.law (there b) rest) (ap (λ a. some (a, rest)) (same b));
}

abbrev label_text : Format Label
label_text =
    through (both (many number) (many number)) (λ (l : Label). (l.name, l.value))
      (λ p. record { name = p.0; value = p.1 }) (λ l. refl)

abbrev labels_text : Format LabelSet
labels_text =
    through (many label_text) (λ (ls : LabelSet). ls.labels) (λ l. record { labels = l })
      (λ ls. refl)

abbrev series_text : Format DiskSeries
series_text =
    through (both labels_text (many (both number number)))
      (λ (s : DiskSeries). (s.labels, s.samples)) (λ p. record { labels = p.0; samples = p.1 })
      (λ s. refl)

abbrev segment_text : Format Segment
segment_text =
    through (many series_text) (λ (g : Segment). g.series) (λ s. record { series = s }) (λ g. refl)

abbrev pub to_text : Segment → Bytes
to_text g = segment_text.put g []

abbrev pub from_text : Bytes → Option Segment
from_text b = bind (segment_text.get b) (λ r. some r.0)

pub text-ReadsBack : ReadsBack to_text from_text
text-ReadsBack g = rw (segment_text.law g []) refl
