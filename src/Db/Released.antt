-- ===== src/Db/Released.antt =====
-- What ends the wait of a writer, and what `backlog_bytes` counts.
use rust_tsdb.Prelude.{
  ℕ, ◌+◌, ◌<◌, ◌≤◌, ◌^◌, ◌≡◌, refl, ap, true, some, List, [], ◌∷◌, ◌++◌, inl, length, length-append,
  le→leb, arith,
}
use rust_tsdb.Wal.Record.{Bytes, WalRecord}
use rust_tsdb.Wal.Writer.{Lsn, append_with}
use rust_tsdb.Wal.Waiting.{Durability, unwaited, written, wait_returns, backlog_bytes}
use rust_tsdb.Wal.Flusher.{
  WalConfig, Phase, idle, found_nothing, holding, wrote, Log, opened, Event, appending, run,
}
use rust_tsdb.Wal.Flusher.Durable.{
  on_disk, in_hand, accepted, accepted_bytes, opened-Durable, run-Durable_lem,
}
use rust_tsdb.Wal.Flusher.Acked.{append-position}
use rust_tsdb.Segments.{Segment}
use rust_tsdb.Db.{drain}
use rust_tsdb.Wal.Flusher.Published.{Caught, run-Caught}
use rust_tsdb.Db.Drain.{run-drain-Settled}

wait_returns-at : (level : Durability) (lsn n : Lsn) → lsn ≤ n → wait_returns level lsn n ≡ true
unfolding wait_returns
wait_returns-at unwaited lsn n h = refl
wait_returns-at written lsn n h = le→leb lsn n h

-- When `append` gave a position to a writer, then after any further appends, flusher steps, cuts and a close
-- (fewer than 2^64 bytes are accepted in all), wherever the flusher stands, its six next steps publish a
-- position at which every `wait` for that position returns, at either level of durability.
pub drain-wait_returns :
    (crc32 : Bytes → ℕ) (to_json : Segment → Bytes) (cfg : WalConfig) (id : ℕ) (before : List Event)
    (rec : WalRecord) (after : List Event) (lsn : Lsn) (level : Durability)
    → length (accepted crc32 cfg (opened id) (before ++ appending rec ∷ after)) < 2 ^ 64
    → (append_with crc32 cfg.flush_threshold rec (run crc32 cfg (opened id) before).inner).0
      ≡ inl lsn
    → wait_returns level lsn
        (run crc32 cfg
          (run crc32 cfg (opened id) (before ++ appending rec ∷ after))
          (drain crc32 to_json cfg)).written
      ≡ true
drain-wait_returns crc32 to_json cfg id before rec after lsn level h e =
    let es = before ++ appending rec ∷ after in
    let s = run-drain-Settled crc32 to_json cfg id es h in
    let first = accepted crc32 cfg (opened id) before in
    let bytes = accepted_bytes crc32 rec (run crc32 cfg (opened id) before).inner in
    let (at, (later, split)) = append-position crc32 cfg id before rec after lsn h e in
    wait_returns-at level lsn _
      (omega (arith, at, s.published, ap length split, length-append (first ++ bytes) later))

backlog_bytes-above :
    (end published n : ℕ) → end ≡ published + n → backlog_bytes end published ≡ some n
unfolding backlog_bytes
backlog_bytes-above end published n h = grind arith

unpublished :
    (all disk hand buf : Bytes) (n end : ℕ)
    → disk ++ hand ++ buf ≡ all
    → n ≡ length disk
    → end ≡ length all
    → end ≡ n + (length hand + length buf)
unpublished all disk hand buf n end w c e =
    omega (arith, ap length w, length-append (disk ++ hand) buf, length-append disk hand)

-- A flusher that is not between a batch's write and its publishing.
abbrev pub IsPublished : Phase → Type 0
IsPublished idle = Unit
IsPublished found_nothing = Unit
IsPublished (holding spare end) = Unit
IsPublished (wrote end) = ⊥

Caught-IsPublished :
    (l : Log) (p : Phase) → IsPublished p → Caught l p → l.written ≡ length (on_disk l)
Caught-IsPublished l idle f c = c
Caught-IsPublished l found_nothing f c = c
Caught-IsPublished l (holding spare end) f c = c
Caught-IsPublished l (wrote end) f c = absurd f

-- After any sequence of appends, flusher steps, cuts and a close, on a log whose accepted bytes are fewer than
-- 2^64, when the flusher is not between a batch's write and its publishing, `backlog_bytes`, when nothing
-- happens between its two reads, does not go below 0 and counts the bytes of the batch in hand and of the buffer.
pub run-backlog_bytes :
    (crc32 : Bytes → ℕ) (cfg : WalConfig) (id : ℕ) (es : List Event)
    → length (accepted crc32 cfg (opened id) es) < 2 ^ 64
    → IsPublished (run crc32 cfg (opened id) es).phase
    → backlog_bytes (run crc32 cfg (opened id) es).inner.end (run crc32 cfg (opened id) es).written
      ≡ some (
          length (in_hand (run crc32 cfg (opened id) es).phase)
          + length (run crc32 cfg (opened id) es).inner.buf)
run-backlog_bytes crc32 cfg id es h f =
    let l = run crc32 cfg (opened id) es in
    let all = accepted crc32 cfg (opened id) es in
    let d = run-Durable_lem crc32 cfg [] (opened id) es h (opened-Durable id) in
    let c = run-Caught crc32 cfg [] (opened id) es h (opened-Durable id) refl in
    backlog_bytes-above l.inner.end l.written (length (in_hand l.phase) + length l.inner.buf) (
      unpublished all (on_disk l) (in_hand l.phase) l.inner.buf l.written l.inner.end d.whole
        (Caught-IsPublished l l.phase f c) d.end_is)
