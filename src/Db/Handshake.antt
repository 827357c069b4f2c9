-- ===== src/Db/Handshake.antt =====
-- The rounds of the flusher that serve a cut, against the cut in one step that the database makes.
use rust_tsdb.Prelude.{
  ℕ, zero, suc, ◌≡◌, refl, ap, sym, ◌∙◌, subst, Bool, true, false, none, some, [], inl, inr,
  is_empty, Bool-cases,
}
use rust_tsdb.Wal.Record.{Bytes}
use rust_tsdb.Wal.Writer.{Inner, buffer_take}
use rust_tsdb.Wal.Flusher.{
  WalConfig, Phase, idle, found_nothing, holding, wrote, Log, take_batch, write_batch, publish, cut,
  happen, run, on_take,
}
use rust_tsdb.Wal.Flusher.Loop.{
  CutState, Server, cut_finish, cut_request, on_taken, serve, answer_cut, await_cut, put_out,
}
use rust_tsdb.Segments.{Segment}
use rust_tsdb.Db.{cut_log, drain}
use rust_tsdb.Db.Drain.{IsFree, put_out-Freed_at}

-- Once the id is there, no more rounds are waited for.
await_cut-done :
    (cfg : WalConfig) (waiting : ℕ → Bool) (fuel : ℕ) (s : Server) (id : ℕ)
    → s.handshake.closed ≡ some id
    → await_cut cfg waiting fuel s ≡ some (answer_cut s id)
unfolding await_cut
await_cut-done cfg waiting zero s id h = rw h refl
await_cut-done cfg waiting (suc fuel) s id h = rw h refl

-- The log after a cut, with the handshake at rest.
abbrev pub answered : Log × ℕ → ℕ × Server
answered (l, closed) =
    (closed, record { log = l; handshake = record { requested = false; closed = none } })

-- The log once `take` has found nothing, and the log once it has taken the buffer.
abbrev pub resting : Log → Log
resting l = record l { phase = found_nothing }

abbrev pub taken : Log → Log
taken l = record l { inner = record l.inner { buf = [] }; phase = holding l.inner.buf l.inner.end }

take_batch-free :
    (l : Log) (p : Phase) → IsFree p → take_batch l p ≡ on_take l (buffer_take l.inner [])
unfolding take_batch
take_batch-free l idle f = refl
take_batch-free l found_nothing f = refl
take_batch-free l (holding spare end) f = absurd f
take_batch-free l (wrote end) f = absurd f

take_batch-empty :
    (l : Log) → IsFree l.phase → is_empty l.inner.buf ≡ true → take_batch l l.phase ≡ resting l
unfolding buffer_take
take_batch-empty l f t = take_batch-free l l.phase f ∙ rw t refl

take_batch-full :
    (l : Log) → IsFree l.phase → is_empty l.inner.buf ≡ false → take_batch l l.phase ≡ taken l
unfolding buffer_take
take_batch-full l f t = take_batch-free l l.phase f ∙ rw t refl

put_out-free :
    (cfg : WalConfig) (l : Log) (p : Phase)
    → l.phase ≡ p
    → IsFree p
    → publish (write_batch cfg l p) (write_batch cfg l p).phase ≡ l
unfolding write_batch publish
put_out-free cfg l idle e f = subst (λ q. publish l q ≡ l) (sym e) refl
put_out-free cfg l found_nothing e f = subst (λ q. publish l q ≡ l) (sym e) refl
put_out-free cfg l (holding spare end) e f = absurd f
put_out-free cfg l (wrote end) e f = absurd f

serve-empty :
    (cfg : WalConfig) (closing waiting : Bool) (l : Log) (h : CutState)
    → is_empty l.inner.buf ≡ true
    → (serve cfg closing true waiting (record { log = l; handshake = h })).1
      ≡ record { log = cut (resting l) found_nothing; handshake = cut_finish l.active.id }
unfolding serve on_taken buffer_take
serve-empty cfg closing waiting l h t = rw t refl

serve-full :
    (cfg : WalConfig) (closing cutting waiting : Bool) (l : Log) (h : CutState)
    → is_empty l.inner.buf ≡ false
    → (serve cfg closing cutting waiting (record { log = l; handshake = h })).1
      ≡ record { log = put_out cfg (taken l); handshake = h }
unfolding serve on_taken buffer_take
serve-full cfg closing cutting waiting l h t = rw t refl

-- The batch that was taken is out: the buffer is empty, and the flusher is free.
pub put_out-taken :
    (cfg : WalConfig) (l : Log)
    → IsFree (put_out cfg (taken l)).phase × (is_empty (put_out cfg (taken l)).inner.buf ≡ true)
put_out-taken cfg l =
    let f = put_out-Freed_at cfg (taken l) (taken l).phase refl in
    (f.free, ap (λ (i : Inner). is_empty i.buf) f.inner_same)

module _ (crc32 : Bytes → ℕ) (to_json : Segment → Bytes) (cfg : WalConfig) where
  abbrev take_step : Log → Log
  take_step l = take_batch l l.phase

  run-drain :
      (l : Log)
      → IsFree l.phase
      → run crc32 cfg l (drain crc32 to_json cfg) ≡ take_step (put_out cfg (take_step l))
  unfolding run happen
  run-drain l f =
      ap (λ m. take_step (put_out cfg (take_step m))) (put_out-free cfg l l.phase refl f)

  pub run-drain-empty :
      (l : Log)
      → IsFree l.phase
      → is_empty l.inner.buf ≡ true
      → run crc32 cfg l (drain crc32 to_json cfg) ≡ resting l
  run-drain-empty l f t =
      run-drain l f
      ∙ ap (λ m. take_step (put_out cfg m)) (take_batch-empty l f t)
      ∙ ap take_step (put_out-free cfg (resting l) found_nothing refl tt)
      ∙ take_batch-empty (resting l) tt t

  pub run-drain-full :
      (l : Log)
      → IsFree l.phase
      → is_empty l.inner.buf ≡ false
      → run crc32 cfg l (drain crc32 to_json cfg) ≡ resting (put_out cfg (taken l))
  run-drain-full l f t =
      run-drain l f
      ∙ ap (λ m. take_step (put_out cfg m)) (take_batch-full l f t)
      ∙ take_batch-empty (put_out cfg (taken l)) (put_out-taken cfg l).0 (put_out-taken cfg l).1

  -- What a cut leaves when the flusher was at rest.
  abbrev cut_off : Log → Log × ℕ
  cut_off l = (cut (resting l) found_nothing, l.active.id)

  cut_log-resting :
      (l m : Log)
      → run crc32 cfg l (drain crc32 to_json cfg) ≡ resting m
      → cut_log crc32 to_json cfg l ≡ cut_off m
  unfolding cut_log run happen
  cut_log-resting l m h = ap (λ (d : Log). (cut d d.phase, d.active.id)) h

  -- When the flusher holds no batch, a cut that is asked for is served in two rounds of `flush_loop`, whoever waits: the
  -- caller gets the id of the closed file, and the id and the log are those of the cut in one step,
  -- whether there was something in the buffer or not, and whether the file was full or not; the
  -- handshake is at rest again.
  pub await_cut-cut_log :
      (waiting : ℕ → Bool) (fuel : ℕ) (l : Log)
      → IsFree l.phase
      → await_cut cfg waiting (suc (suc fuel)) (record { log = l; handshake = cut_request })
        ≡ some (answered (cut_log crc32 to_json cfg l))
  unfolding await_cut cut_request cut_finish
  await_cut-cut_log waiting fuel l f = elim (Bool-cases (is_empty l.inner.buf)) [
    | inl t ↦
        ap (await_cut cfg waiting (suc fuel))
          (serve-empty cfg l.inner.closed (waiting (suc fuel)) l cut_request t)
        ∙ ap some (ap answered (sym (cut_log-resting l l (run-drain-empty l f t))))
    | inr t ↦
        let m = put_out cfg (taken l) in
        ap (await_cut cfg waiting (suc fuel))
          (serve-full cfg l.inner.closed true (waiting (suc fuel)) l cut_request t)
        ∙ ap (await_cut cfg waiting fuel)
            (serve-empty cfg m.inner.closed (waiting fuel) m cut_request (put_out-taken cfg l).1)
        ∙ await_cut-done cfg waiting fuel
            (record { log = cut (resting m) found_nothing; handshake = cut_finish m.active.id })
            m.active.id refl
        ∙ ap some (ap answered (sym (cut_log-resting l m (run-drain-full l f t))))
  ]
