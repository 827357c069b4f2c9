-- ===== src/Db/Closing.antt =====
-- The end of `flush_loop` after the log is closed. `close` owns the log, so that no cut is asked for.
use rust_tsdb.Prelude.{
  ℕ, suc, ◌<◌, ◌^◌, ◌≡◌, refl, ap, sym, ◌∙◌, Bool, true, false, Option, some, List, [], inl, inr,
  is_empty, length, Bool-cases,
}
use rust_tsdb.Wal.Record.{Bytes}
use rust_tsdb.Wal.Writer.{Inner, buffer_take, buffer_close}
use rust_tsdb.Wal.Flusher.{WalConfig, Log, opened, Event, run}
use rust_tsdb.Wal.Flusher.Loop.{
  CutState, Server, Next, again, ended, on_taken, serve, on_round, await_end, wal_close, put_out,
}
use rust_tsdb.Wal.Flusher.Durable.{accepted, Durable, opened-Durable, run-Durable_lem}
use rust_tsdb.Segments.{Segment}
use rust_tsdb.Db.{drain}
use rust_tsdb.Wal.Flusher.Published.{Caught-inner, run-Caught}
use rust_tsdb.Db.Drain.{IsFree, put_out-Freed_at, Settled, drain-Settled}
use rust_tsdb.Db.Handshake.{resting, taken, put_out-taken, run-drain-empty, run-drain-full}

-- Nothing to write, and the log is closed: the loop ends.
serve-ended :
    (cfg : WalConfig) (waiting : Bool) (l : Log) (h : CutState)
    → is_empty l.inner.buf ≡ true
    → serve cfg true false waiting (record { log = l; handshake = h })
      ≡ (ended, record { log = resting l; handshake = h })
unfolding serve on_taken buffer_take
serve-ended cfg waiting l h t = rw t refl

-- A batch to write, and the log is closed: one more round.
serve-again :
    (cfg : WalConfig) (waiting : Bool) (l : Log) (h : CutState)
    → is_empty l.inner.buf ≡ false
    → serve cfg true false waiting (record { log = l; handshake = h })
      ≡ (again, record { log = put_out cfg (taken l); handshake = h })
unfolding serve on_taken buffer_take
serve-again cfg waiting l h t = rw t refl

abbrev follows : WalConfig → (ℕ → Bool) → ℕ → Next × Server → Option Server
follows cfg waiting fuel r = on_round r.0 r.1 (await_end cfg waiting fuel r.1)

await_end-round :
    (cfg : WalConfig) (waiting : ℕ → Bool) (fuel : ℕ) (l : Log) (h : CutState)
    → l.inner.closed ≡ true
    → h.requested ≡ false
    → await_end cfg waiting (suc fuel) (record { log = l; handshake = h })
      ≡ follows cfg waiting fuel
          (serve cfg true false (waiting fuel) (record { log = l; handshake = h }))
unfolding await_end
await_end-round cfg waiting fuel l h c r =
    ap
      (λ x.
        follows cfg waiting fuel
          (serve cfg x h.requested (waiting fuel) (record { log = l; handshake = h })))
      c
    ∙ ap
        (λ x.
          follows cfg waiting fuel
            (serve cfg true x (waiting fuel) (record { log = l; handshake = h })))
        r

module _ (crc32 : Bytes → ℕ) (to_json : Segment → Bytes) (cfg : WalConfig)
    (waiting : ℕ → Bool) where
  await_end-drain :
      (fuel : ℕ) (l : Log) (h : CutState)
      → IsFree l.phase
      → l.inner.closed ≡ true
      → h.requested ≡ false
      → await_end cfg waiting (suc (suc fuel)) (record { log = l; handshake = h })
        ≡ some (record { log = run crc32 cfg l (drain crc32 to_json cfg); handshake = h })
  await_end-drain fuel l h f c r = elim (Bool-cases (is_empty l.inner.buf)) [
    | inl t ↦
        await_end-round cfg waiting (suc fuel) l h c r
        ∙ ap (follows cfg waiting (suc fuel)) (serve-ended cfg (waiting (suc fuel)) l h t)
        ∙ ap (λ d. some (record { log = d; handshake = h }))
            (sym (run-drain-empty crc32 to_json cfg l f t))
    | inr t ↦
        let m = put_out cfg (taken l) in
        let same = (put_out-Freed_at cfg (taken l) (taken l).phase refl).inner_same in
        await_end-round cfg waiting (suc fuel) l h c r
        ∙ ap (follows cfg waiting (suc fuel)) (serve-again cfg (waiting (suc fuel)) l h t)
        ∙ await_end-round cfg waiting fuel m h (ap (λ (i : Inner). i.closed) same ∙ c) r
        ∙ ap (follows cfg waiting fuel) (serve-ended cfg (waiting fuel) m h (put_out-taken cfg l).1)
        ∙ ap (λ d. some (record { log = d; handshake = h }))
            (sym (run-drain-full crc32 to_json cfg l f t))
  ]

  -- After any sequence of appends, flusher steps and cuts, on a log whose accepted bytes are fewer than 2^64, when
  -- the flusher holds no batch and no cut is asked for: `close` ends the loop of the flusher in two rounds,
  -- whoever waits, and then the buffer is empty, the files hold exactly the accepted bytes in order, and
  -- all of them are published. No accepted record is lost by a close.
  pub close-Settled :
      (fuel id : ℕ) (es : List Event) (h : CutState)
      → IsFree (run crc32 cfg (opened id) es).phase
      → h.requested ≡ false
      → length (accepted crc32 cfg (opened id) es) < 2 ^ 64
      → (s : Server) × (wal_close cfg waiting
            (suc (suc fuel))
            (record { log = run crc32 cfg (opened id) es; handshake = h })
          ≡ some s)
        × Settled (accepted crc32 cfg (opened id) es) s.log
  unfolding buffer_close
  close-Settled fuel id es h f r n =
      let l = run crc32 cfg (opened id) es in
      let all = accepted crc32 cfg (opened id) es in
      let m : Log = record l { inner = buffer_close l.inner } in
      let d = run-Durable_lem crc32 cfg [] (opened id) es n (opened-Durable id) in
      let d' : Durable all m = record {
        whole = d.whole;
        end_is = d.end_is;
        covered = d.covered;
        in_step = d.in_step;
      } in
      let c =
        Caught-inner l m.inner l.phase
          (run-Caught crc32 cfg [] (opened id) es n (opened-Durable id) refl) in
      (
        record { log = run crc32 cfg m (drain crc32 to_json cfg); handshake = h },
        await_end-drain fuel m h f refl r,
        drain-Settled crc32 to_json cfg all m n d' c,
      )
