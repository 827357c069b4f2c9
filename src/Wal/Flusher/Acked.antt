-- ===== src/Wal/Flusher/Acked.antt =====
-- What a writer may rely on when the published position has reached the one that `append` gave it.
use rust_tsdb.Prelude.{
  ℕ, ◌+◌, ◌%◌, ◌^◌, ◌≤◌, ◌<◌, ◌≡◌, refl, ap, sym, ◌∙◌, subst, List, [], ◌∷◌, ◌++◌, ◌⊎◌, inl, inr,
  Bool-cases, append_assoc, length, length-append, take, ltb, arith,
}
use native.Mathlib.Nat.{mod-eq_of_lt, add-zero}
use rust_tsdb.Wal.Record.{Bytes, max_record_bytes, WalRecord}
use rust_tsdb.Wal.Codec.{encode_record}
use rust_tsdb.Wal.Writer.{
  Lsn, WalError, record_too_large, log_closed, Inner, buffer_append, append_with,
}
use rust_tsdb.Wal.Flusher.{WalConfig, Log, opened, Event, appending, happen, run}
use rust_tsdb.Wal.Flusher.Durable.{
  on_disk, in_hand, accepted_bytes, accepted_at, accepted, run-accepted, run-end,
}

take-prefix : (x y u v : Bytes) → x ++ y ≡ u ++ v → length u ≤ length x → take (length u) x ≡ u
take-prefix x y [] v e h = refl
take-prefix [] y (b ∷ u) v e h = absurd (omega arith)
take-prefix (a ∷ x) y (b ∷ u) v e h =
    let tails : x ++ y ≡ u ++ v = cc in
    let heads : a ≡ b = cc in let rest = take-prefix x y u v tails (omega arith) in cc

run-append :
    (crc32 : Bytes → ℕ) (cfg : WalConfig) (l : Log) (xs ys : List Event)
    → run crc32 cfg l (xs ++ ys) ≡ run crc32 cfg (run crc32 cfg l xs) ys
unfolding run
run-append crc32 cfg l [] ys = refl
run-append crc32 cfg l (e ∷ es) ys = run-append crc32 cfg (happen crc32 cfg l e) es ys

accepted-append :
    (crc32 : Bytes → ℕ) (cfg : WalConfig) (l : Log) (xs ys : List Event)
    → accepted crc32 cfg l (xs ++ ys)
      ≡ accepted crc32 cfg l xs ++ accepted crc32 cfg (run crc32 cfg l xs) ys
unfolding run accepted
accepted-append crc32 cfg l [] ys = refl
accepted-append crc32 cfg l (e ∷ es) ys =
    let next = happen crc32 cfg l e in
    ap (λ b. accepted_at crc32 l e ++ b) (accepted-append crc32 cfg next es ys)
    ∙ sym (
        append_assoc (accepted_at crc32 l e) (accepted crc32 cfg next es)
          (accepted crc32 cfg (run crc32 cfg next es) ys))

abbrev lsn_or_zero : Lsn ⊎ WalError → ℕ
lsn_or_zero (inl n) = n
lsn_or_zero (inr e) = 0

abbrev answered : Lsn → Lsn ⊎ WalError
answered n = inl n

abbrev failed : WalError → Lsn ⊎ WalError
failed r = inr r

left_eq : (a b : Lsn) → answered a ≡ answered b → a ≡ b
left_eq a b e = ap lsn_or_zero e

left-right : {P : Type 0} (b : Lsn) (r : WalError) → failed r ≡ answered b → P
left-right b r e = absurd (cc)

append_with-lsn :
    (crc32 : Bytes → ℕ) (n : ℕ) (rec : WalRecord) (g : Inner) (lsn : Lsn)
    → g.end + length (accepted_bytes crc32 rec g) < 2 ^ 64
    → (append_with crc32 n rec g).0 ≡ inl lsn
    → g.end + length (accepted_bytes crc32 rec g) ≡ lsn
unfolding append_with accepted_bytes buffer_append
append_with-lsn crc32 n rec g lsn =
    let f = encode_record crc32 rec in
    elim (Bool-cases f.empty) [
      | inl t ↦ rw t (λ h e. add-zero g.end ∙ left_eq g.end lsn e)
      | inr t ↦ elim (Bool-cases (ltb max_record_bytes f.payload_len)) [
        | inl u ↦ rw (t, u) (λ h e. left-right lsn (record_too_large f.payload_len) e)
        | inr u ↦ elim (Bool-cases g.closed) [
          | inl v ↦ rw (t, u, v) (λ h e. left-right lsn log_closed e)
          | inr v ↦
              rw (t, u, v)
                (λ h e. sym (mod-eq_of_lt h) ∙ left_eq ((g.end + length f.out) % 2 ^ 64) lsn e)
        ]
      ]
    ]

-- The position that `append` gives is where its record ends, among all that is accepted.
pub append-position :
    (crc32 : Bytes → ℕ) (cfg : WalConfig) (id : ℕ) (before : List Event) (rec : WalRecord)
    → (after : List Event) (lsn : Lsn)
    → length (accepted crc32 cfg (opened id) (before ++ appending rec ∷ after)) < 2 ^ 64
    → (append_with crc32 cfg.flush_threshold rec (run crc32 cfg (opened id) before).inner).0
      ≡ inl lsn
    → (length (
          accepted crc32 cfg (opened id) before
          ++ accepted_bytes crc32 rec (run crc32 cfg (opened id) before).inner)
        ≡ lsn)
      × ((later : Bytes) × (accepted crc32 cfg (opened id) (before ++ appending rec ∷ after)
            ≡ (accepted crc32 cfg (opened id) before
                ++ accepted_bytes crc32 rec (run crc32 cfg (opened id) before).inner)
              ++ later))
unfolding accepted accepted_at
append-position crc32 cfg id before rec after lsn h e =
    let start = opened id in
    let first = accepted crc32 cfg start before in
    let mid = run crc32 cfg start before in
    let bytes = accepted_bytes crc32 rec mid.inner in
    let later = accepted crc32 cfg (happen crc32 cfg mid (appending rec)) after in
    let es = before ++ appending rec ∷ after in
    let split : accepted crc32 cfg start es ≡ (first ++ bytes) ++ later =
      accepted-append crc32 cfg start before (appending rec ∷ after)
      ∙ sym (append_assoc first bytes later) in
    let sizes : length (first ++ bytes) ≤ length (accepted crc32 cfg start es) =
      omega (arith, ap length split, length-append (first ++ bytes) later) in
    let ends : mid.inner.end ≡ length first =
      run-end crc32 cfg id before (omega (arith, h, sizes, length-append first bytes)) in
    (
      length-append first bytes
          ∙ ap (λ n. n + length bytes) (sym ends)
          ∙ append_with-lsn crc32 cfg.flush_threshold rec mid.inner lsn
              (omega (arith, h, sizes, ends, length-append first bytes)) e,
      (later, split),
    )

-- If `append` of a record gave the position `lsn`, and the published position is not below `lsn` after
-- any further events, then the first `lsn` bytes in the files are what was accepted before, followed by
-- the whole record (fewer than 2^64 bytes are accepted in all).
pub append-on_disk :
    (crc32 : Bytes → ℕ) (cfg : WalConfig) (id : ℕ) (before : List Event) (rec : WalRecord)
    → (after : List Event) (lsn : Lsn)
    → length (accepted crc32 cfg (opened id) (before ++ appending rec ∷ after)) < 2 ^ 64
    → (append_with crc32 cfg.flush_threshold rec (run crc32 cfg (opened id) before).inner).0
      ≡ inl lsn
    → lsn ≤ (run crc32 cfg (opened id) (before ++ appending rec ∷ after)).written
    → take lsn (on_disk (run crc32 cfg (opened id) (before ++ appending rec ∷ after)))
      ≡ accepted crc32 cfg (opened id) before
        ++ accepted_bytes crc32 rec (run crc32 cfg (opened id) before).inner
append-on_disk crc32 cfg id before rec after lsn h e w =
    let last = run crc32 cfg (opened id) (before ++ appending rec ∷ after) in
    let record_end =
      accepted crc32 cfg (opened id) before
      ++ accepted_bytes crc32 rec (run crc32 cfg (opened id) before).inner in
    let d = run-accepted crc32 cfg id (before ++ appending rec ∷ after) h in
    let (at, (later, split)) = append-position crc32 cfg id before rec after lsn h e in
    subst (λ n. take n (on_disk last) ≡ record_end) at
      (take-prefix (on_disk last) (in_hand last.phase ++ last.inner.buf) record_end later
        (sym (append_assoc (on_disk last) (in_hand last.phase) last.inner.buf) ∙ d.0 ∙ split)
        (omega (arith, at, w, d.1)))
