-- ===== src/Wal/Flusher/Durable.antt =====
-- What the published position promises: the bytes below it are in the files.
use rust_tsdb.Prelude.{
  ℕ, ◌+◌, ◌%◌, ◌^◌, ◌≤◌, ◌<◌, ◌≡◌, refl, ap, ap₂, sym, ◌∙◌, subst, true, false, List, [], ◌∷◌, ◌++◌,
  inl, inr, append_assoc, append-nil, length, length-append, leb, ltb, is_empty, concat_map,
  concat_map-append, Bool-cases, arith, if◌then◌else◌,
}
use native.Mathlib.Nat.{add-zero, mod-eq_of_lt}
use rust_tsdb.Wal.Record.{Bytes, max_record_bytes, WalRecord}
use rust_tsdb.Wal.Codec.{encode_record}
use rust_tsdb.Wal.Reader.{SegmentFile}
use rust_tsdb.Wal.Writer.{
  Lsn, Inner, buffer_append, buffer_take, buffer_close, publish_written, advance, append_with,
}
use rust_tsdb.Wal.Flusher.{
  WalConfig, Phase, idle, found_nothing, holding, wrote, Log, opened, rotate, rotate_if_full,
  segment_write, on_take, take_batch, write_batch, publish, cut, Event, appending, taking, writing,
  publishing, cutting, closing, happen, run,
}

-- The bytes in the files, in the order of the files.
abbrev pub on_disk : Log → Bytes
on_disk l = concat_map (λ (f : SegmentFile). f.bytes) l.full ++ l.active.bytes

-- The batch that the flusher holds.
abbrev pub in_hand : Phase → Bytes
in_hand idle = []
in_hand found_nothing = []
in_hand (holding spare end) = spare
in_hand (wrote end) = []

-- The bytes of a record that the log accepts: none when it is closed, or the record is empty or too large.
unfoldable pub accepted_bytes : (Bytes → ℕ) → WalRecord → Inner → Bytes
accepted_bytes crc32 rec g =
    let f = encode_record crc32 rec in
    if f.empty
    then []
    else if ltb max_record_bytes f.payload_len
    then []
    else if g.closed
    then []
    else f.out

unfoldable pub accepted_at : (Bytes → ℕ) → Log → Event → Bytes
accepted_at crc32 l (appending rec) = accepted_bytes crc32 rec l.inner
accepted_at crc32 l taking = []
accepted_at crc32 l writing = []
accepted_at crc32 l publishing = []
accepted_at crc32 l cutting = []
accepted_at crc32 l closing = []

-- All bytes that the log accepts on the way, in order.
unfoldable pub accepted : (Bytes → ℕ) → WalConfig → Log → List Event → Bytes
accepted crc32 cfg l [] = []
accepted crc32 cfg l (e ∷ es) =
    accepted_at crc32 l e ++ accepted crc32 cfg (happen crc32 cfg l e) es

-- The batch ends at the position that came with it.
abbrev InStep : Bytes → Phase → Type 0
InStep disk idle = Unit
InStep disk found_nothing = Unit
InStep disk (holding spare end) = end ≡ length (disk ++ spare)
InStep disk (wrote end) = end ≤ length disk

pub record DurableAt (all : Bytes) (l : Log) (p : Phase) : Type 0 where
  pub whole : on_disk l ++ in_hand p ++ l.inner.buf ≡ all
  pub end_is : l.inner.end ≡ length all
  pub covered : l.written ≤ length (on_disk l)
  pub in_step : InStep (on_disk l) p

abbrev pub Durable : Bytes → Log → Type 0
Durable all l = DurableAt all l l.phase

-- The buffer with these bytes behind it.
abbrev grown : Inner → Bytes → Inner
grown g bytes = record g { buf = g.buf ++ bytes; end = g.end + length bytes }

grown-nil : (g : Inner) → g ≡ grown g []
grown-nil g = sym (ap₂ (λ b n. record g { buf = b; end = n }) (append-nil g.buf) (add-zero g.end))

append_with-grown :
    (crc32 : Bytes → ℕ) (n : ℕ) (rec : WalRecord) (g : Inner)
    → g.end + length (accepted_bytes crc32 rec g) < 2 ^ 64
    → (append_with crc32 n rec g).1 ≡ grown g (accepted_bytes crc32 rec g)
unfolding append_with accepted_bytes buffer_append
append_with-grown crc32 n rec g h =
    let f = encode_record crc32 rec in
    elim (Bool-cases f.empty) [
      | inl t ↦ rw t (grown-nil g)
      | inr t ↦ elim (Bool-cases (ltb max_record_bytes f.payload_len)) [
        | inl u ↦ rw (t, u) (grown-nil g)
        | inr u ↦ elim (Bool-cases g.closed) [
          | inl v ↦ rw (t, u, v) (grown-nil (record g { closed = true }))
          | inr v ↦
              let acc : accepted_bytes crc32 rec g ≡ f.out = rw (t, u, v) refl in
              let fits : (g.end + length f.out) % 2 ^ 64 ≡ g.end + length f.out =
                mod-eq_of_lt (omega (arith, h, ap length acc)) in
              rw (t, u, v) (ap (λ e. record { buf = g.buf ++ f.out; end = e; closed = false }) fits)
        ]
      ]
    ]

taken-Durable :
    (all : Bytes) (l : Log) (p : Phase)
    → in_hand p ≡ []
    → DurableAt all l p
    → Durable all (on_take l (buffer_take l.inner []))
unfolding buffer_take
taken-Durable all l p e d =
    let empty : on_disk l ++ [] ++ l.inner.buf ≡ all =
      ap (λ b. on_disk l ++ b ++ l.inner.buf) (sym e) ∙ d.whole in
    let here : on_disk l ++ l.inner.buf ≡ all =
      ap (λ b. b ++ l.inner.buf) (sym (append-nil (on_disk l))) ∙ empty in
    elim (Bool-cases (is_empty l.inner.buf)) [
      | inl t ↦
          rw t (record { whole = empty; end_is = d.end_is; covered = d.covered; in_step = tt })
      | inr t ↦ rw t (record {
        whole = append-nil (on_disk l ++ l.inner.buf) ∙ here;
        end_is = d.end_is;
        covered = d.covered;
        in_step = d.end_is ∙ ap length (sym here);
      })
    ]

take_batch-Durable :
    (all : Bytes) (l : Log) (p : Phase)
    → l.phase ≡ p
    → DurableAt all l p
    → Durable all (take_batch l p)
unfolding take_batch
take_batch-Durable all l idle e d = taken-Durable all l idle refl d
take_batch-Durable all l found_nothing e d = taken-Durable all l found_nothing refl d
take_batch-Durable all l (holding spare end) e d = subst (DurableAt all l) (sym e) d
take_batch-Durable all l (wrote end) e d = subst (DurableAt all l) (sym e) d

pub on_disk-rotate : (l : Log) → on_disk (rotate l) ≡ on_disk l
unfolding rotate
on_disk-rotate l =
    let bytes : SegmentFile → Bytes = λ f. f.bytes in
    append-nil (concat_map bytes (l.full ++ l.active ∷ []))
    ∙ concat_map-append bytes l.full (l.active ∷ [])
    ∙ ap (λ b. concat_map bytes l.full ++ b) (append-nil l.active.bytes)

rotate-DurableAt :
    (all : Bytes) (l : Log) (p : Phase) → DurableAt all l p → DurableAt all (rotate l) p
unfolding rotate
rotate-DurableAt all l p d =
    let same : on_disk l ≡ on_disk (rotate l) = sym (on_disk-rotate l) in
    record {
      whole = ap (λ b. b ++ in_hand p ++ l.inner.buf) (sym same) ∙ d.whole;
      end_is = d.end_is;
      covered = subst (λ b. l.written ≤ length b) same d.covered;
      in_step = subst (λ b. InStep b p) same d.in_step;
    }

rotate_if_full-DurableAt :
    (cfg : WalConfig) (all : Bytes) (l : Log) (p : Phase)
    → DurableAt all l p
    → DurableAt all (rotate_if_full cfg l) p
unfolding rotate_if_full
rotate_if_full-DurableAt cfg all l p d =
    elim (Bool-cases (leb cfg.segment_max_bytes (length l.active.bytes))) [
      | inl t ↦ rw t (rotate-DurableAt all l p d)
      | inr t ↦ rw t d
    ]

-- The batch goes behind what is in the files.
written-Durable :
    (all : Bytes) (l : Log) (spare : Bytes) (end : Lsn)
    → DurableAt all l (holding spare end)
    → Durable all (record l { active = segment_write l.active spare; phase = wrote end })
unfolding segment_write
written-Durable all l spare end d =
    let full = concat_map (λ (f : SegmentFile). f.bytes) l.full in
    let same : on_disk l ++ spare ≡ full ++ (l.active.bytes ++ spare) =
      append_assoc full l.active.bytes spare in
    record {
      whole =
          ap (λ b. b ++ l.inner.buf) (append-nil (full ++ (l.active.bytes ++ spare)) ∙ sym same)
          ∙ d.whole;
      end_is = d.end_is;
      covered = omega (arith, d.covered, length-append (on_disk l) spare, ap length same);
      in_step = omega (arith, d.in_step, ap length same);
    }

write_batch-Durable :
    (cfg : WalConfig) (all : Bytes) (l : Log) (p : Phase)
    → l.phase ≡ p
    → DurableAt all l p
    → Durable all (write_batch cfg l p)
unfolding write_batch
write_batch-Durable cfg all l idle e d = subst (DurableAt all l) (sym e) d
write_batch-Durable cfg all l found_nothing e d = subst (DurableAt all l) (sym e) d
write_batch-Durable cfg all l (holding spare end) e d =
    written-Durable all (rotate_if_full cfg l) spare end
      (rotate_if_full-DurableAt cfg all l (holding spare end) d)
write_batch-Durable cfg all l (wrote end) e d = subst (DurableAt all l) (sym e) d

publish_written-le : (written end n : ℕ) → written ≤ n → end ≤ n → publish_written written end ≤ n
unfolding publish_written advance
publish_written-le written end n h k = ground arith

publish-Durable :
    (all : Bytes) (l : Log) (p : Phase)
    → l.phase ≡ p
    → DurableAt all l p
    → Durable all (publish l p)
unfolding publish
publish-Durable all l idle e d = subst (DurableAt all l) (sym e) d
publish-Durable all l found_nothing e d = subst (DurableAt all l) (sym e) d
publish-Durable all l (holding spare end) e d = subst (DurableAt all l) (sym e) d
publish-Durable all l (wrote end) e d = record {
  whole = d.whole;
  end_is = d.end_is;
  covered = publish_written-le l.written end (length (on_disk l)) d.covered d.in_step;
  in_step = tt;
}

cut-Durable :
    (all : Bytes) (l : Log) (p : Phase) → l.phase ≡ p → DurableAt all l p → Durable all (cut l p)
unfolding cut
cut-Durable all l idle e d = subst (DurableAt all l) (sym e) d
cut-Durable all l found_nothing e d =
    let r = rotate-DurableAt all l found_nothing d in
    record { whole = r.whole; end_is = r.end_is; covered = r.covered; in_step = tt }
cut-Durable all l (holding spare end) e d = subst (DurableAt all l) (sym e) d
cut-Durable all l (wrote end) e d = subst (DurableAt all l) (sym e) d

pub happen-Durable :
    (crc32 : Bytes → ℕ) (cfg : WalConfig) (all : Bytes) (l : Log) (e : Event)
    → length (all ++ accepted_at crc32 l e) < 2 ^ 64
    → Durable all l
    → Durable (all ++ accepted_at crc32 l e) (happen crc32 cfg l e)
unfolding happen accepted_at buffer_close
happen-Durable crc32 cfg all l (appending rec) h d =
    let bytes = accepted_bytes crc32 rec l.inner in
    let fits : l.inner.end + length bytes < 2 ^ 64 =
      omega (arith, d.end_is, length-append all bytes) in
    rw (append_with-grown crc32 cfg.flush_threshold rec l.inner fits) (record {
      whole =
          sym (append_assoc (on_disk l ++ in_hand l.phase) l.inner.buf bytes)
          ∙ ap (λ b. b ++ bytes) d.whole;
      end_is = omega (arith, d.end_is, length-append all bytes);
      covered = d.covered;
      in_step = d.in_step;
    })
happen-Durable crc32 cfg all l taking h d =
    rw (append-nil all) (take_batch-Durable all l l.phase refl d)
happen-Durable crc32 cfg all l writing h d =
    rw (append-nil all) (write_batch-Durable cfg all l l.phase refl d)
happen-Durable crc32 cfg all l publishing h d =
    rw (append-nil all) (publish-Durable all l l.phase refl d)
happen-Durable crc32 cfg all l cutting h d = rw (append-nil all) (cut-Durable all l l.phase refl d)
happen-Durable crc32 cfg all l closing h d =
    rw (append-nil all)
      (record { whole = d.whole; end_is = d.end_is; covered = d.covered; in_step = d.in_step })

pub run-Durable_lem :
    (crc32 : Bytes → ℕ) (cfg : WalConfig) (all : Bytes) (l : Log) (es : List Event)
    → length (all ++ accepted crc32 cfg l es) < 2 ^ 64
    → Durable all l
    → Durable (all ++ accepted crc32 cfg l es) (run crc32 cfg l es)
unfolding run accepted
run-Durable_lem crc32 cfg all l [] h d = rw (append-nil all) d
run-Durable_lem crc32 cfg all l (e ∷ es) h d =
    let now = accepted_at crc32 l e in
    let next = happen crc32 cfg l e in
    let later = accepted crc32 cfg next es in
    let same = append_assoc all now later in
    let fits : length (all ++ now) < 2 ^ 64 =
      omega (arith, h, ap length same, length-append (all ++ now) later) in
    subst (λ b. Durable b (run crc32 cfg next es)) same
      (run-Durable_lem crc32 cfg (all ++ now) next es (omega (arith, h, ap length same))
        (happen-Durable crc32 cfg all l e fits d))

pub opened-Durable : (id : ℕ) → Durable [] (opened id)
opened-Durable id = record { whole = refl; end_is = refl; covered = omega arith; in_step = tt }

-- The buffer's position is the number of bytes that the log has accepted.
pub run-end :
    (crc32 : Bytes → ℕ) (cfg : WalConfig) (id : ℕ) (es : List Event)
    → length (accepted crc32 cfg (opened id) es) < 2 ^ 64
    → (run crc32 cfg (opened id) es).inner.end ≡ length (accepted crc32 cfg (opened id) es)
run-end crc32 cfg id es h =
    (run-Durable_lem crc32 cfg [] (opened id) es h (opened-Durable id)).end_is

-- After any sequence of appends, flusher steps, cuts and a close, in any interleaving, on a log whose
-- accepted bytes are fewer than 2^64: the files in order, the batch that the flusher holds and the
-- buffer are together exactly the accepted bytes, in the order of their appends, and the
-- published position is not beyond the bytes in the files.
pub run-accepted :
    (crc32 : Bytes → ℕ) (cfg : WalConfig) (id : ℕ) (es : List Event)
    → length (accepted crc32 cfg (opened id) es) < 2 ^ 64
    → (on_disk (run crc32 cfg (opened id) es)
          ++ in_hand (run crc32 cfg (opened id) es).phase
          ++ (run crc32 cfg (opened id) es).inner.buf
        ≡ accepted crc32 cfg (opened id) es)
      × ((run crc32 cfg (opened id) es).written ≤ length (on_disk (run crc32 cfg (opened id) es)))
run-accepted crc32 cfg id es h =
    let d = run-Durable_lem crc32 cfg [] (opened id) es h (opened-Durable id) in
    (d.whole, d.covered)
