-- ===== src/Wal/Codec/Reads.antt =====
-- A read that consumes known bytes, and how such reads are put together.
use rust_tsdb.Prelude.{
  ℕ, zero, suc, ◌+◌, ◌-◌, ◌*◌, ◌/◌, ◌^◌, ◌≤◌, ◌<◌, ◌≡◌, refl, ap, sym, ◌∙◌, subst, List, [], ◌∷◌,
  ◌++◌, append_assoc, append-nil, length, length-append, take, drop, take-length-append,
  drop-length-append, length-drop, lt→ltb, concat_map, le→leb, ge→ltb, arith,
}
use native.Mathlib.Nat.{le-div_iff_mul-le, zero-add, add-zero}
use rust_tsdb.Wal.Record.{Bytes}
use rust_tsdb.Wal.Codec.{
  ok, Reader, Read, continue, ◌>>=◌, pure, take_bytes, remaining, check_remaining, read_many,
  check_end, at_end,
}

-- The position is in the buffer, and the buffer is one that a `usize` can measure.
pub record InBounds (r : Reader) : Type 0 where
  pub within : r.pos ≤ length r.buf
  pub small : length r.buf < 2 ^ 64

-- What has not been read.
abbrev pub unread : Reader → Bytes
unread r = drop r.pos r.buf

abbrev pub advance : Reader → ℕ → Reader
advance r n = record r { pos = r.pos + n }

-- `m` answers `a` wherever the bytes `bs` come next, and moves past them.
pub record Reads {ℓ} {A : Type ℓ} (m : Read A) (bs : Bytes) (a : A) : Type ℓ where
  pub run :
      (r : Reader) (t : Bytes)
      → InBounds r
      → unread r ≡ bs ++ t
      → m r ≡ ok (a, advance r (length bs))

drop-nil {ℓ} : {A : Type ℓ} (n : ℕ) → drop {A = A} n [] ≡ []
drop-nil zero = refl
drop-nil (suc n) = refl

suc_add : (n m : ℕ) → suc n + m ≡ suc (n + m)
suc_add n m = omega arith

bind-ok {ℓ κ} :
    {A : Type ℓ} {B : Type κ} (m : Read A) (f : A → Read B) (r : Reader) {a : A} {r' : Reader}
    → m r ≡ ok (a, r')
    → (m >>= f) r ≡ f a r'
unfolding ◌>>=◌
bind-ok m f r e = ap (λ z. continue z f) e

drop-drop {ℓ} : {A : Type ℓ} (n m : ℕ) (xs : List A) → drop (n + m) xs ≡ drop m (drop n xs)
drop-drop zero m xs = ap (λ k. drop k xs) (zero-add m)
drop-drop (suc n) m [] = drop-nil (suc n + m) ∙ sym (drop-nil m)
drop-drop {A} (suc n) m (x ∷ xs) = ap (λ k. drop k (x ∷ xs)) (suc_add n m) ∙ drop-drop n m xs

unread-advance :
    (r : Reader) (bs t : Bytes) → unread r ≡ bs ++ t → unread (advance r (length bs)) ≡ t
unread-advance r bs t e =
    drop-drop r.pos (length bs) r.buf ∙ ap (drop (length bs)) e ∙ drop-length-append bs t

length-unread :
    (r : Reader) (bs t : Bytes) → unread r ≡ bs ++ t → length r.buf - r.pos ≡ length bs + length t
length-unread r bs t e = sym (length-drop r.pos r.buf) ∙ ap length e ∙ length-append bs t

advance-InBounds :
    (r : Reader) (bs t : Bytes) → InBounds r → unread r ≡ bs ++ t → InBounds (advance r (length bs))
advance-InBounds r bs t b e = record {
  within = omega (arith, length-unread r bs t e, b.within);
  small = b.small;
}

advance-advance : (r : Reader) (n m k : ℕ) → k ≡ n + m → advance (advance r n) m ≡ advance r k
advance-advance r n m k e = ap (λ p. record r { pos = p }) (omega arith)

pub Reads-pure {ℓ} : {A : Type ℓ} (a : A) → Reads (pure a) [] a
unfolding pure
Reads-pure a = record {
  run = λ r t b e. ap (λ p. ok (a, record r { pos = p })) (sym (add-zero r.pos));
}

-- One read after the other consumes the bytes of both.
pub Reads-bind {ℓ κ} :
    {A : Type ℓ} {B : Type κ} {m : Read A} (f : A → Read B) {bs cs : Bytes} {a : A} {b : B}
    → Reads m bs a
    → Reads (f a) cs b
    → Reads (m >>= f) (bs ++ cs) b
Reads-bind {m} f {bs} {cs} {a} {b} hm hf = record {
  run = λ r t i e.
      let e' = e ∙ append_assoc bs cs t in
      bind-ok m f r (hm.run r (cs ++ t) i e')
      ∙ hf.run (advance r (length bs)) t (advance-InBounds r bs (cs ++ t) i e')
          (unread-advance r bs (cs ++ t) e')
      ∙ ap (λ q. ok (b, q))
          (advance-advance r (length bs) (length cs) (length (bs ++ cs)) (length-append bs cs));
}

-- The last read of a block, mapped over by what the block returns.
pub Reads-map {ℓ κ} :
    {A : Type ℓ} {B : Type κ} {m : Read A} (g : A → B) {bs : Bytes} {a : A}
    → Reads m bs a
    → Reads (m >>= λ x. pure (g x)) bs (g a)
unfolding pure
Reads-map {m} g hm = record { run = λ r t i e. bind-ok m (λ x. pure (g x)) r (hm.run r t i e) }

check_passes :
    (n size : ℕ) (r : Reader)
    → 0 < size
    → n * size ≤ length r.buf - r.pos
    → check_remaining n size r ≡ ok (tt, r)
unfolding check_remaining remaining
check_passes n size r h k =
    rw (ge→ltb ((length r.buf - r.pos) / size) n ((le-div_iff_mul-le h).1 k))

-- A check that enough bytes are left passes where they are.
pub Reads-check {ℓ} :
    {B : Type ℓ} (n size : ℕ) {m : Read B} {bs : Bytes} {b : B}
    → 0 < size
    → n * size ≤ length bs
    → Reads m bs b
    → Reads (check_remaining n size >>= λ _. m) bs b
Reads-check n size {m} {bs} h k hm = record {
  run = λ r t i e.
      bind-ok (check_remaining n size) (λ _. m) r
        (check_passes n size r h (omega (arith, length-unread r bs t e)))
      ∙ hm.run r t i e;
}

-- `take` on the bytes that come next.
pub Reads-take_bytes : (bs : Bytes) → Reads (take_bytes (length bs)) bs bs
unfolding take_bytes
Reads-take_bytes bs = record {
  run = λ r t i e.
      let l = length-unread r bs t e in
      let in_usize = lt→ltb (r.pos + length bs) (2 ^ 64) (omega (arith, l, i.small, i.within)) in
      let in_buf = le→leb (r.pos + length bs) (length r.buf) (omega (arith, l, i.within)) in
      rw (in_usize, in_buf)
        (ap (λ x. ok (x, advance r (length bs)))
          (ap (take (length bs)) e ∙ take-length-append bs t));
}

-- The last read of a block, when it consumes nothing.
pub Reads-last {ℓ κ} :
    {A : Type ℓ} {B : Type κ} {m : Read A} (f : A → Read B) {bs : Bytes} {a : A} {b : B}
    → Reads m bs a
    → Reads (f a) [] b
    → Reads (m >>= f) bs b
Reads-last {m} f {bs} {a} {b} hm hf =
    subst (λ x. Reads (m >>= f) x b) (append-nil bs) (Reads-bind f hm hf)

module _ {ℓ} {A : Type ℓ} (m : Read A) (enc : A → Bytes) where
  abbrev pub AllReads : List A → Type ℓ
  AllReads [] = Unit
  AllReads (x ∷ xs) = Reads m (enc x) x × AllReads xs

  -- As many reads as there are items give the items.
  pub Reads-read_many :
      (xs : List A) → AllReads xs → Reads (read_many (length xs) m) (concat_map enc xs) xs
  unfolding read_many
  Reads-read_many [] h = Reads-pure []
  Reads-read_many (x ∷ xs) h =
      Reads-bind (λ a. read_many (length xs) m >>= λ ys. pure (a ∷ ys)) h.0
        (Reads-map (λ ys. x ∷ ys) (Reads-read_many xs h.1))

-- `m` answers `a` where the bytes `bs` are all that is left.
pub record ReadsAll {ℓ} {A : Type ℓ} (m : Read A) (bs : Bytes) (a : A) : Type ℓ where
  pub run : (r : Reader) → InBounds r → unread r ≡ bs → (r' : Reader) × (m r ≡ ok (a, r'))

pub ReadsAll-bind {ℓ κ} :
    {A : Type ℓ} {B : Type κ} {m : Read A} (f : A → Read B) {bs cs : Bytes} {a : A} {b : B}
    → Reads m bs a
    → ReadsAll (f a) cs b
    → ReadsAll (m >>= f) (bs ++ cs) b
ReadsAll-bind {m} f {bs} {cs} hm hf = record {
  run = λ r i e.
      let (r', k) =
        hf.run (advance r (length bs)) (advance-InBounds r bs cs i e) (unread-advance r bs cs e) in
      (r', bind-ok m f r (hm.run r cs i e) ∙ k);
}

pub ReadsAll-check {ℓ} :
    {B : Type ℓ} (n size : ℕ) {m : Read B} {bs : Bytes} {b : B}
    → 0 < size
    → n * size ≤ length bs
    → ReadsAll m bs b
    → ReadsAll (check_remaining n size >>= λ _. m) bs b
ReadsAll-check n size {m} {bs} h k hm = record {
  run = λ r i e.
      let passes =
        check_passes n size r h (omega (arith, length-unread r bs [] (e ∙ sym (append-nil bs)))) in
      let (r', q) = hm.run r i e in (r', bind-ok (check_remaining n size) (λ _. m) r passes ∙ q);
}

-- At the end of the buffer the check for trailing bytes passes.
pub ReadsAll-end {ℓ} : {A : Type ℓ} (a : A) → ReadsAll (check_end >>= λ _. pure a) [] a
unfolding check_end at_end pure
ReadsAll-end a = record {
  run = λ r i e.
      let done = le→leb (length r.buf) r.pos (omega (arith, length-unread r [] [] e, i.within)) in
      (r, bind-ok check_end (λ _. pure a) r (rw done));
}

pub ReadsAll-last {ℓ κ} :
    {A : Type ℓ} {B : Type κ} {m : Read A} (f : A → Read B) {bs : Bytes} {a : A} {b : B}
    → Reads m bs a
    → ReadsAll (f a) [] b
    → ReadsAll (m >>= f) bs b
ReadsAll-last {m} f {bs} {b} hm hf =
    subst (λ x. ReadsAll (m >>= f) x b) (append-nil bs) (ReadsAll-bind f hm hf)
