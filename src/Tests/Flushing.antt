-- ===== src/Tests/Flushing.antt =====
-- The log's threads at a concrete run.
use rust_tsdb.Prelude.{
  Bool, true, false, ℕ, none, some, List, [], arith, inl, keep, leb, length, ltb, refl, take, ◌++◌,
  ◌+◌, ◌<◌, ◌^◌, ◌||◌, ◌∷◌, ◌≡◌, ◌≤◌,
}
use rust_tsdb.Wal.Record.{to_le_bytes, header_encode}
use rust_tsdb.Wal.Codec.{
  put_u32, put_u64, put_f64, put_bytes, put_labels, put_samples, label_set_encode, encoder_series,
  encoder_samples, encoder_finish, encode_series, encode_samples, fill, encode_record,
}
use rust_tsdb.Wal.Writer.{
  append_with, buffer_append, buffer_take, buffer_close, advance, publish_written,
}
use rust_tsdb.Wal.Flusher.{
  WalConfig, opened, Event, appending, taking, writing, publishing, closing, rotate, rotate_if_full,
  segment_write, take_batch, write_batch, publish, cut, happen, run,
}
use rust_tsdb.Wal.Flusher.Durable.{
  on_disk, in_hand, accepted_bytes, accepted_at, accepted, run-accepted,
}
use rust_tsdb.Wal.Flusher.Acked.{append-on_disk}
use rust_tsdb.Wal.Reader.{SegmentFile}
use rust_tsdb.Wal.Flusher.Removal.{remove_through, remove_through_lem}
use rust_tsdb.Wal.Flusher.Loop.{CutState, Server, cut_request, await_cut, wal_close}
use rust_tsdb.Wal.Waiting.{written, wait_returns, backlog_bytes}
use rust_tsdb.Db.{drain, cut_log}
use rust_tsdb.Db.Drain.{IsFree, Settled}
use rust_tsdb.Db.Handshake.{answered, await_cut-cut_log}
use rust_tsdb.Db.Closing.{close-Settled}
use rust_tsdb.Db.Released.{IsPublished, drain-wait_returns, run-backlog_bytes}
use rust_tsdb.Tests.Texts.{to_text}
use rust_tsdb.Tests.Logs.{check_sum, logged_once}

abbrev small_files : WalConfig
small_files = record { segment_max_bytes = 16; flush_threshold = 8 }

abbrev flushing : List Event
flushing = taking ∷ writing ∷ publishing ∷ appending logged_once ∷ taking ∷ closing ∷ []

abbrev all_events : List Event
all_events = [] ++ appending logged_once ∷ flushing

few_bytes : length (accepted check_sum small_files (opened 1) all_events) ≡ 134
unfolding accepted accepted_at accepted_bytes happen append_with buffer_append take_batch
    buffer_take write_batch rotate_if_full rotate segment_write publish publish_written advance cut
    buffer_close encode_record fill encode_series encode_samples encoder_series encoder_samples
    encoder_finish label_set_encode put_labels put_samples put_u32 put_u64 put_f64 put_bytes
    to_le_bytes header_encode
few_bytes = refl

enough_room : length (accepted check_sum small_files (opened 1) all_events) < 2 ^ 64
enough_room = omega (arith, few_bytes)

run-accepted_example :
    (on_disk (run check_sum small_files (opened 1) all_events)
        ++ in_hand (run check_sum small_files (opened 1) all_events).phase
        ++ (run check_sum small_files (opened 1) all_events).inner.buf
      ≡ accepted check_sum small_files (opened 1) all_events)
    × ((run check_sum small_files (opened 1) all_events).written
        ≤ length (on_disk (run check_sum small_files (opened 1) all_events)))
run-accepted_example = run-accepted check_sum small_files 1 all_events enough_room

first_answer :
    (append_with check_sum 8 logged_once (run check_sum small_files (opened 1) []).inner).0 ≡ inl 67
unfolding run append_with buffer_append encode_record fill encode_series encode_samples
    encoder_series encoder_samples encoder_finish label_set_encode put_labels put_samples put_u32
    put_u64 put_f64 put_bytes to_le_bytes header_encode
first_answer = refl

published : (run check_sum small_files (opened 1) all_events).written ≡ 67
unfolding run happen append_with buffer_append take_batch buffer_take write_batch rotate_if_full
    rotate segment_write publish publish_written advance cut buffer_close encode_record fill
    encode_series encode_samples encoder_series encoder_samples encoder_finish label_set_encode
    put_labels put_samples put_u32 put_u64 put_f64 put_bytes to_le_bytes header_encode
published = refl

append-on_disk_example :
    take 67 (on_disk (run check_sum small_files (opened 1) all_events))
    ≡ accepted check_sum small_files (opened 1) []
      ++ accepted_bytes check_sum logged_once (run check_sum small_files (opened 1) []).inner
append-on_disk_example =
    append-on_disk check_sum small_files 1 [] logged_once flushing 67 enough_room first_answer
      (omega (arith, published))

abbrev three_files : List SegmentFile
three_files =
    record { id = 1; bytes = [] }
    ∷ record { id = 2; bytes = [] }
    ∷ record { id = 3; bytes = [] }
    ∷ []

remove_through_lem_example :
    ((remove_through 3 1 three_files).1 ≡ keep (λ f. leb 3 f.id || ltb 1 f.id) three_files)
    × ((remove_through 3 1 three_files).0 + length (remove_through 3 1 three_files).1 ≡ 3)
remove_through_lem_example = remove_through_lem 3 1 three_files (omega arith)

drain-wait_returns_example :
    wait_returns written 67
      (run check_sum small_files
        (run check_sum small_files (opened 1) all_events)
        (drain check_sum to_text small_files)).written
    ≡ true
drain-wait_returns_example =
    drain-wait_returns check_sum to_text small_files 1 [] logged_once flushing 67 written
      enough_room first_answer

abbrev always : ℕ → Bool
always n = true

abbrev appended : List Event
appended = appending logged_once ∷ []

abbrev at_rest : CutState
at_rest = record { requested = false; closed = none }

no_batch : IsFree (run check_sum small_files (opened 1) appended).phase
unfolding run happen
no_batch = tt

appended_bytes : length (accepted check_sum small_files (opened 1) appended) ≡ 67
unfolding accepted accepted_at accepted_bytes encode_record fill encode_series encode_samples
    encoder_series encoder_samples encoder_finish label_set_encode put_labels put_samples put_u32
    put_u64 put_f64 put_bytes to_le_bytes header_encode
appended_bytes = refl

await_cut-cut_log_example :
    await_cut small_files always 2
      (record { log = run check_sum small_files (opened 1) appended; handshake = cut_request })
    ≡ some (
        answered
          (cut_log check_sum to_text small_files (run check_sum small_files (opened 1) appended)))
await_cut-cut_log_example =
    await_cut-cut_log check_sum to_text small_files always 0
      (run check_sum small_files (opened 1) appended) no_batch

close-Settled_example :
    (s : Server) × (wal_close small_files always 2
        (record { log = run check_sum small_files (opened 1) appended; handshake = at_rest })
      ≡ some s)
    × Settled (accepted check_sum small_files (opened 1) appended) s.log
close-Settled_example =
    close-Settled check_sum to_text small_files always 0 1 appended at_rest no_batch refl
      (omega (arith, appended_bytes))

is_published : IsPublished (run check_sum small_files (opened 1) appended).phase
unfolding run happen
is_published = tt

run-backlog_bytes_example :
    backlog_bytes
      (run check_sum small_files (opened 1) appended).inner.end
      (run check_sum small_files (opened 1) appended).written
    ≡ some (
        length (in_hand (run check_sum small_files (opened 1) appended).phase)
        + length (run check_sum small_files (opened 1) appended).inner.buf)
run-backlog_bytes_example =
    run-backlog_bytes check_sum small_files 1 appended (omega (arith, appended_bytes)) is_published

-- Between the two reads of `backlog_bytes` a record is appended, written and published.
overtaken :
    backlog_bytes
      (run check_sum small_files (opened 1) []).inner.end
      (run check_sum small_files
        (opened 1)
        (appending logged_once ∷ taking ∷ writing ∷ publishing ∷ [])).written
    ≡ none
unfolding backlog_bytes run happen append_with buffer_append take_batch buffer_take write_batch
    rotate_if_full rotate segment_write publish publish_written advance encode_record fill
    encode_series encode_samples encoder_series encoder_samples encoder_finish label_set_encode
    put_labels put_samples put_u32 put_u64 put_f64 put_bytes to_le_bytes header_encode
overtaken = refl
