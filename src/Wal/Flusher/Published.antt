-- ===== src/Wal/Flusher/Published.antt =====
-- How far the published position is: at the end of the files, but for a batch that was just written.
use rust_tsdb.Prelude.{
  ℕ, ◌+◌, ◌<◌, ◌≤◌, ◌^◌, ◌≡◌, refl, ap, sym, ◌∙◌, subst, List, [], ◌∷◌, ◌++◌, inl, inr,
  append_assoc, length, length-append, leb, is_empty, concat_map, Bool-cases, arith,
}
use rust_tsdb.Wal.Record.{Bytes}
use rust_tsdb.Wal.Reader.{SegmentFile}
use rust_tsdb.Wal.Writer.{
  Lsn, Inner, buffer_take, buffer_close, publish_written, advance, append_with,
}
use rust_tsdb.Wal.Flusher.{
  WalConfig, Phase, idle, found_nothing, holding, wrote, Log, rotate, rotate_if_full, segment_write,
  on_take, take_batch, write_batch, publish, cut, Event, appending, taking, writing, publishing,
  cutting, closing, happen, run,
}
use rust_tsdb.Wal.Flusher.Durable.{
  on_disk, accepted, accepted_at, on_disk-rotate, DurableAt, Durable, happen-Durable,
}

-- What is published is all that is in the files, but for a batch that was just written.
abbrev pub Caught : Log → Phase → Type 0
Caught l idle = l.written ≡ length (on_disk l)
Caught l found_nothing = l.written ≡ length (on_disk l)
Caught l (holding spare end) = l.written ≡ length (on_disk l)
Caught l (wrote end) = end ≡ length (on_disk l)

on_take-Caught :
    (l : Log)
    → l.written ≡ length (on_disk l)
    → Caught (on_take l (buffer_take l.inner [])) (on_take l (buffer_take l.inner [])).phase
unfolding buffer_take
on_take-Caught l c = elim (Bool-cases (is_empty l.inner.buf)) [ inl t ↦ rw t c | inr t ↦ rw t c ]

take_batch-Caught :
    (l : Log) (p : Phase)
    → l.phase ≡ p
    → Caught l p
    → Caught (take_batch l p) (take_batch l p).phase
unfolding take_batch
take_batch-Caught l idle e c = on_take-Caught l c
take_batch-Caught l found_nothing e c = on_take-Caught l c
take_batch-Caught l (holding spare end) e c = subst (Caught l) (sym e) c
take_batch-Caught l (wrote end) e c = subst (Caught l) (sym e) c

length-on_disk-rotate_if_full :
    (cfg : WalConfig) (l : Log) → length (on_disk (rotate_if_full cfg l)) ≡ length (on_disk l)
unfolding rotate_if_full
length-on_disk-rotate_if_full cfg l =
    elim (Bool-cases (leb cfg.segment_max_bytes (length l.active.bytes))) [
      | inl t ↦ rw t (ap length (on_disk-rotate l))
      | inr t ↦ rw t refl
    ]

length-on_disk-write :
    (l : Log) (spare : Bytes) (end : Lsn)
    → length (on_disk (record l { active = segment_write l.active spare; phase = wrote end }))
      ≡ length (on_disk l) + length spare
unfolding segment_write
length-on_disk-write l spare end =
    let full = concat_map (λ (f : SegmentFile). f.bytes) l.full in
    sym (ap length (append_assoc full l.active.bytes spare)) ∙ length-append (on_disk l) spare

write_batch-Caught :
    (cfg : WalConfig) (all : Bytes) (l : Log) (p : Phase)
    → l.phase ≡ p
    → DurableAt all l p
    → Caught l p
    → Caught (write_batch cfg l p) (write_batch cfg l p).phase
unfolding write_batch
write_batch-Caught cfg all l idle e d c = subst (Caught l) (sym e) c
write_batch-Caught cfg all l found_nothing e d c = subst (Caught l) (sym e) c
write_batch-Caught cfg all l (holding spare end) e d c =
    d.in_step
    ∙ length-append (on_disk l) spare
    ∙ ap (λ n. n + length spare) (sym (length-on_disk-rotate_if_full cfg l))
    ∙ sym (length-on_disk-write (rotate_if_full cfg l) spare end)
write_batch-Caught cfg all l (wrote end) e d c = subst (Caught l) (sym e) c

publish_written-end : (written end n : ℕ) → written ≤ n → end ≡ n → publish_written written end ≡ n
unfolding publish_written advance
publish_written-end written end n h k = ground arith

publish-Caught :
    (all : Bytes) (l : Log) (p : Phase)
    → l.phase ≡ p
    → DurableAt all l p
    → Caught l p
    → Caught (publish l p) (publish l p).phase
unfolding publish
publish-Caught all l idle e d c = subst (Caught l) (sym e) c
publish-Caught all l found_nothing e d c = subst (Caught l) (sym e) c
publish-Caught all l (holding spare end) e d c = subst (Caught l) (sym e) c
publish-Caught all l (wrote end) e d c =
    publish_written-end l.written end (length (on_disk l)) d.covered c

cut-Caught : (l : Log) (p : Phase) → l.phase ≡ p → Caught l p → Caught (cut l p) (cut l p).phase
unfolding cut rotate
cut-Caught l idle e c = subst (Caught l) (sym e) c
cut-Caught l found_nothing e c = c ∙ ap length (sym (on_disk-rotate l))
cut-Caught l (holding spare end) e c = subst (Caught l) (sym e) c
cut-Caught l (wrote end) e c = subst (Caught l) (sym e) c

pub Caught-inner :
    (l : Log) (g : Inner) (p : Phase) → Caught l p → Caught (record l { inner = g }) p
Caught-inner l g idle c = c
Caught-inner l g found_nothing c = c
Caught-inner l g (holding spare end) c = c
Caught-inner l g (wrote end) c = c

happen-Caught :
    (crc32 : Bytes → ℕ) (cfg : WalConfig) (all : Bytes) (l : Log) (e : Event)
    → Durable all l
    → Caught l l.phase
    → Caught (happen crc32 cfg l e) (happen crc32 cfg l e).phase
unfolding happen buffer_close
happen-Caught crc32 cfg all l (appending rec) d c =
    Caught-inner l (append_with crc32 cfg.flush_threshold rec l.inner).1 l.phase c
happen-Caught crc32 cfg all l taking d c = take_batch-Caught l l.phase refl c
happen-Caught crc32 cfg all l writing d c = write_batch-Caught cfg all l l.phase refl d c
happen-Caught crc32 cfg all l publishing d c = publish-Caught all l l.phase refl d c
happen-Caught crc32 cfg all l cutting d c = cut-Caught l l.phase refl c
happen-Caught crc32 cfg all l closing d c = Caught-inner l (buffer_close l.inner) l.phase c

pub run-Caught :
    (crc32 : Bytes → ℕ) (cfg : WalConfig) (all : Bytes) (l : Log) (es : List Event)
    → length (all ++ accepted crc32 cfg l es) < 2 ^ 64
    → Durable all l
    → Caught l l.phase
    → Caught (run crc32 cfg l es) (run crc32 cfg l es).phase
unfolding run accepted
run-Caught crc32 cfg all l [] h d c = c
run-Caught crc32 cfg all l (e ∷ es) h d c =
    let now = accepted_at crc32 l e in
    let next = happen crc32 cfg l e in
    let later = accepted crc32 cfg next es in
    let same = append_assoc all now later in
    let fits : length (all ++ now) < 2 ^ 64 =
      omega (arith, h, ap length same, length-append (all ++ now) later) in
    run-Caught crc32 cfg (all ++ now) next es (omega (arith, h, ap length same))
      (happen-Durable crc32 cfg all l e fits d) (happen-Caught crc32 cfg all l e d c)
