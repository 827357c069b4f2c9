-- ===== src/Wal/Codec/Words.antt =====
-- Little-endian words: what `to_le_bytes` writes, `from_le_bytes` and the readers give back.
use rust_tsdb.Prelude.{ℕ, zero, suc, ◌*◌, ◌/◌, ◌^◌, ◌<◌, ◌≡◌, refl, ap, subst, length, arith}
use native.Mathlib.Nat.{pow-suc}
use rust_tsdb.Wal.Record.{to_le_bytes, from_le_bytes}
use rust_tsdb.Wal.Codec.{◌>>=◌, pure, take_bytes, read_u32, read_u64, read_f64}
use rust_tsdb.Wal.Codec.Reads.{Reads, Reads-map, Reads-take_bytes}

pub length-to_le_bytes : (n v : ℕ) → length (to_le_bytes n v) ≡ n
unfolding to_le_bytes
length-to_le_bytes zero v = refl
length-to_le_bytes (suc n) v = ap suc (length-to_le_bytes n (v / 256))

div_bound : (p v : ℕ) → v < p * 256 → v / 256 < p
div_bound p v h = omega arith

-- A number of `n` bytes survives the trip through its bytes.
pub from_le_bytes-to_le_bytes : (n v : ℕ) → v < 256 ^ n → from_le_bytes (to_le_bytes n v) ≡ v
unfolding to_le_bytes from_le_bytes
from_le_bytes-to_le_bytes zero v h = omega arith
from_le_bytes-to_le_bytes (suc n) v h =
    omega (
      arith,
      from_le_bytes-to_le_bytes n (v / 256) (div_bound (256 ^ n) v (rw (pow-suc 256 n) at h)),
    )

take_word : (n v : ℕ) → Reads (take_bytes n) (to_le_bytes n v) (to_le_bytes n v)
take_word n v =
    subst (λ k. Reads (take_bytes k) (to_le_bytes n v) (to_le_bytes n v)) (length-to_le_bytes n v)
      (Reads-take_bytes (to_le_bytes n v))

word :
    (n v : ℕ)
    → v < 256 ^ n
    → Reads (take_bytes n >>= λ b. pure (from_le_bytes b)) (to_le_bytes n v) v
word n v h =
    subst (λ a. Reads (take_bytes n >>= λ b. pure (from_le_bytes b)) (to_le_bytes n v) a)
      (from_le_bytes-to_le_bytes n v h) (Reads-map from_le_bytes (take_word n v))

pub Reads-read_u32 : (v : ℕ) → v < 2 ^ 32 → Reads read_u32 (to_le_bytes 4 v) v
unfolding read_u32
Reads-read_u32 v h = word 4 v (omega arith)

pub Reads-read_u64 : (v : ℕ) → v < 2 ^ 64 → Reads read_u64 (to_le_bytes 8 v) v
unfolding read_u64
Reads-read_u64 v h = word 8 v (omega arith)

pub Reads-read_f64 : (v : ℕ) → v < 2 ^ 64 → Reads read_f64 (to_le_bytes 8 v) v
unfolding read_f64
Reads-read_f64 v h = word 8 v (omega arith)
