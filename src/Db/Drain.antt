-- ===== src/Db/Drain.antt =====
-- What the flusher gets done when it takes its next steps and nothing is appended.
use rust_tsdb.Prelude.{
  false-true, ℕ, ◌<◌, ◌^◌, ◌≡◌, refl, ap, ap₂, sym, ◌∙◌, subst, true, List, [], ◌∷◌, ◌++◌, inl, inr,
  append-nil, length, leb, is_empty, Bool-cases, arith,
}
use rust_tsdb.Wal.Record.{Bytes}
use rust_tsdb.Wal.Writer.{Inner, buffer_take}
use rust_tsdb.Wal.Flusher.{
  WalConfig, Phase, idle, found_nothing, holding, wrote, Log, opened, rotate, rotate_if_full,
  on_take, take_batch, write_batch, publish, Event, happen, run,
}
use rust_tsdb.Wal.Flusher.Loop.{put_out}
use rust_tsdb.Wal.Flusher.Published.{Caught, run-Caught}
use rust_tsdb.Wal.Flusher.Durable.{
  on_disk, in_hand, accepted, accepted_at, Durable, opened-Durable, run-Durable_lem,
}
use rust_tsdb.Segments.{Segment}
use rust_tsdb.Db.{drain}

-- Nothing is in the buffer, and `take` has found so.
pub record Drained (l : Log) : Type 0 where
  pub nothing_left : l.inner.buf ≡ []
  pub found : l.phase ≡ found_nothing

-- The flusher holds no batch.
abbrev pub IsFree : Phase → Type 0
IsFree idle = Unit
IsFree found_nothing = Unit
IsFree (holding spare end) = ⊥
IsFree (wrote end) = ⊥

pub record Freed (l m : Log) : Type 0 where
  pub free : IsFree m.phase
  pub inner_same : m.inner ≡ l.inner

rotate_if_full-inner : (cfg : WalConfig) (l : Log) → (rotate_if_full cfg l).inner ≡ l.inner
unfolding rotate_if_full rotate
rotate_if_full-inner cfg l = elim (Bool-cases (leb cfg.segment_max_bytes (length l.active.bytes))) [
  | inl t ↦ rw t refl
  | inr t ↦ rw t refl
]

pub put_out-Freed_at :
    (cfg : WalConfig) (l : Log) (p : Phase)
    → l.phase ≡ p
    → Freed l (publish (write_batch cfg l p) (write_batch cfg l p).phase)
unfolding write_batch publish
put_out-Freed_at cfg l idle e =
    subst (λ q. Freed l (publish l q)) (sym e)
      (record { free = subst IsFree (sym e) tt; inner_same = refl })
put_out-Freed_at cfg l found_nothing e =
    subst (λ q. Freed l (publish l q)) (sym e)
      (record { free = subst IsFree (sym e) tt; inner_same = refl })
put_out-Freed_at cfg l (holding spare end) e = record {
  free = tt;
  inner_same = rotate_if_full-inner cfg l;
}
put_out-Freed_at cfg l (wrote end) e =
    subst (λ q. Freed l (publish l q)) (sym e) (record { free = tt; inner_same = refl })

-- A `take` empties the buffer, and knows when there was nothing in it.
record Emptied (l m : Log) : Type 0 where
  empty : m.inner.buf ≡ []
  knows : l.inner.buf ≡ [] → m.phase ≡ found_nothing

empty_buffer : (bytes : Bytes) → is_empty bytes ≡ true → bytes ≡ []
empty_buffer [] e = refl
empty_buffer (b ∷ bytes) e = absurd (false-true e)

on_take-Emptied : (l : Log) → Emptied l (on_take l (buffer_take l.inner []))
unfolding buffer_take
on_take-Emptied l = elim (Bool-cases (is_empty l.inner.buf)) [
  | inl t ↦ rw t (record { empty = empty_buffer l.inner.buf t; knows = λ e. refl })
  | inr t ↦ rw t (record { empty = refl; knows = λ e. absurd (false-true (sym t ∙ ap is_empty e)) })
]

take_batch-Emptied : (l : Log) (p : Phase) → IsFree p → Emptied l (take_batch l p)
unfolding take_batch
take_batch-Emptied l idle f = on_take-Emptied l
take_batch-Emptied l found_nothing f = on_take-Emptied l
take_batch-Emptied l (holding spare end) f = absurd f
take_batch-Emptied l (wrote end) f = absurd f

-- Six steps of the flusher, during which nothing is appended, are enough to empty the buffer.
pub run-drain-Drained :
    (crc32 : Bytes → ℕ) (to_json : Segment → Bytes) (cfg : WalConfig) (l : Log)
    → Drained (run crc32 cfg l (drain crc32 to_json cfg))
unfolding run happen
run-drain-Drained crc32 to_json cfg l =
    let one = put_out cfg l in
    let f = put_out-Freed_at cfg l l.phase refl in
    let two = take_batch one one.phase in
    let t = take_batch-Emptied one one.phase f.free in
    let three = put_out cfg two in
    let g = put_out-Freed_at cfg two two.phase refl in
    let u = take_batch-Emptied three three.phase g.free in
    record {
      nothing_left = u.empty;
      found = u.knows (ap (λ (i : Inner). i.buf) g.inner_same ∙ t.empty);
    }

accepted-drain :
    (crc32 : Bytes → ℕ) (to_json : Segment → Bytes) (cfg : WalConfig) (l : Log)
    → accepted crc32 cfg l (drain crc32 to_json cfg) ≡ []
unfolding accepted accepted_at
accepted-drain crc32 to_json cfg l = refl

-- A log with nothing left to write: the files hold these bytes, and all of them are published.
pub record Settled (all : Bytes) (l : Log) : Type 0 where
  pub buffer_empty : l.inner.buf ≡ []
  pub none_held : in_hand l.phase ≡ []
  pub in_files : on_disk l ≡ all
  pub published : l.written ≡ length all
  pub position : l.inner.end ≡ length all

Caught-found :
    (l : Log) (p : Phase) → p ≡ found_nothing → Caught l p → l.written ≡ length (on_disk l)
Caught-found l p e c = subst (Caught l) e c

Drained-Settled :
    (all : Bytes) (l : Log) → Drained l → Durable all l → Caught l l.phase → Settled all l
Drained-Settled all l r d c =
    let held : in_hand l.phase ≡ [] = ap in_hand r.found in
    let whole : on_disk l ≡ all =
      sym (append-nil (on_disk l))
      ∙ sym (append-nil (on_disk l ++ []))
      ∙ ap₂ (λ x y. (on_disk l ++ x) ++ y) (sym held) (sym r.nothing_left)
      ∙ d.whole in
    record {
      buffer_empty = r.nothing_left;
      none_held = held;
      in_files = whole;
      published = Caught-found l l.phase r.found c ∙ ap length whole;
      position = d.end_is;
    }

-- The flusher's six next steps write out and publish what there is.
pub drain-Settled :
    (crc32 : Bytes → ℕ) (to_json : Segment → Bytes) (cfg : WalConfig) (all : Bytes) (l : Log)
    → length all < 2 ^ 64
    → Durable all l
    → Caught l l.phase
    → Settled all (run crc32 cfg l (drain crc32 to_json cfg))
drain-Settled crc32 to_json cfg all l h d c =
    let steps = drain crc32 to_json cfg in
    let same : all ++ accepted crc32 cfg l steps ≡ all =
      ap (λ b. all ++ b) (accepted-drain crc32 to_json cfg l) ∙ append-nil all in
    let fits : length (all ++ accepted crc32 cfg l steps) < 2 ^ 64 =
      omega (arith, h, ap length same) in
    Drained-Settled all (run crc32 cfg l steps) (run-drain-Drained crc32 to_json cfg l)
      (subst (λ b. Durable b (run crc32 cfg l steps)) same
        (run-Durable_lem crc32 cfg all l steps fits d))
      (run-Caught crc32 cfg all l steps fits d c)

-- After any sequence of appends, flusher steps, cuts and a close, on a log whose accepted bytes are fewer than
-- 2^64, wherever the flusher stands: once it takes its six next steps with no append between them, the
-- buffer is empty, no batch is held, the files hold exactly the accepted bytes in order, and the published
-- position is the end of the last accepted record.
pub run-drain-Settled :
    (crc32 : Bytes → ℕ) (to_json : Segment → Bytes) (cfg : WalConfig) (id : ℕ) (es : List Event)
    → length (accepted crc32 cfg (opened id) es) < 2 ^ 64
    → Settled
        (accepted crc32 cfg (opened id) es)
        (run crc32 cfg (run crc32 cfg (opened id) es) (drain crc32 to_json cfg))
run-drain-Settled crc32 to_json cfg id es h =
    drain-Settled crc32 to_json cfg (accepted crc32 cfg (opened id) es)
      (run crc32 cfg (opened id) es) h
      (run-Durable_lem crc32 cfg [] (opened id) es h (opened-Durable id))
      (run-Caught crc32 cfg [] (opened id) es h (opened-Durable id) refl)
