-- ===== src/Wal/Flusher/Loop.antt =====
-- src/storage/wal/flusher.rs: the rounds of `flush_loop`, and the handshake of a cut. A round reads the two flags
-- at its start; what happens between that and its `take` is in the log that `serve` starts from. The
-- pause for a group commit and the parking of the thread change no state.
use rust_tsdb.Prelude.{
  ℕ, zero, suc, Bool, true, false, ◌||◌, Option, none, some, [], length, leb, if◌then◌else◌,
}
use mathlib.Core.Option
use rust_tsdb.Wal.Record.{Bytes}
use rust_tsdb.Wal.Writer.{Lsn, Inner, buffer_take, buffer_close}
use rust_tsdb.Wal.Flusher.{WalConfig, Log, on_take, write_batch, publish, cut}

-- `CutState`
pub record CutState : Type 0 where
  pub requested : Bool
  pub closed : Option ℕ

pub record Server : Type 0 where
  pub log : Log
  pub handshake : CutState

-- Where a round leaves `flush_loop`: at its start again, parked, or out of the loop.
pub data Next : Type 0 where
  again parked ended : Next

-- `Cut::finish`
unfoldable pub cut_finish : ℕ → CutState
cut_finish closed = record { requested = false; closed = some closed }

-- The first half of `Cut::request`, before it waits.
unfoldable pub cut_request : CutState
cut_request = record { requested = true; closed = none }

-- `write_batch` of flusher.rs, with its publishing.
abbrev pub put_out : WalConfig → Log → Log
put_out cfg l = let m = write_batch cfg l l.phase in publish m m.phase

-- The `match` on what `take` gave, with the flags of the round.
unfoldable pub on_taken :
    WalConfig → Bool → Bool → Bool → Server → Option Lsn × Inner × Bytes → Next × Server
unfolding cut_finish
on_taken cfg closing cutting waiting s (some end, g, spare) = (
  (if closing || cutting || leb cfg.flush_threshold (length spare) || waiting
      then again
      else parked),
  record s { log = put_out cfg (on_take s.log (some end, g, spare)) },
)
on_taken cfg closing cutting waiting s (none, g, spare) =
    let l = on_take s.log (none, g, spare) in
    if cutting
    then (again, record { log = cut l l.phase; handshake = cut_finish s.log.active.id })
    else if closing
    then (ended, record s { log = l })
    else (parked, record s { log = l })

-- The rest of a round of `flush_loop` after the flags are read.
unfoldable pub serve : WalConfig → Bool → Bool → Bool → Server → Next × Server
unfolding on_taken
serve cfg closing cutting waiting s =
    on_taken cfg closing cutting waiting s (buffer_take s.log.inner [])

-- A round between whose flags and `take` nothing else happens; `waiting` says if a writer waits.
abbrev pub round : WalConfig → Bool → Server → Next × Server
round cfg waiting s = serve cfg s.log.inner.closed s.handshake.requested waiting s

abbrev pub answer_cut : Server → ℕ → ℕ × Server
answer_cut s id = (id, record s { handshake = record s.handshake { closed = none } })

-- The second half of `Cut::request`: rounds until the closed file's id is there, which is then taken.
unfoldable pub await_cut : WalConfig → (ℕ → Bool) → ℕ → Server → Option (ℕ × Server)
unfolding serve
await_cut cfg waiting zero s = Option.map (answer_cut s) s.handshake.closed
await_cut cfg waiting (suc fuel) s =
    let rest = await_cut cfg waiting fuel (round cfg (waiting fuel) s).1 in
    elim s.handshake.closed [ none ↦ rest | some id ↦ some (answer_cut s id) ]

abbrev pub on_round : Next → Server → Option Server → Option Server
on_round again s rest = rest
on_round parked s rest = rest
on_round ended s rest = some s

-- `Threads::join` after a close: rounds until the loop ends.
unfoldable pub await_end : WalConfig → (ℕ → Bool) → ℕ → Server → Option Server
unfolding serve
await_end cfg waiting zero s = none
await_end cfg waiting (suc fuel) s =
    let r = round cfg (waiting fuel) s in on_round r.0 r.1 (await_end cfg waiting fuel r.1)

-- `Wal::close`, up to the end of the loop.
abbrev pub wal_close : WalConfig → (ℕ → Bool) → ℕ → Server → Option Server
wal_close cfg waiting fuel s =
    await_end cfg waiting fuel
      (record s { log = record s.log { inner = buffer_close s.log.inner } })
