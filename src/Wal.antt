-- ===== src/Wal.antt =====
-- src/storage/wal: the write-ahead log.
pub mod Record
pub mod Files
pub mod Codec
pub mod Replay
pub mod Reader
pub mod Writer
pub mod Waiting
pub mod Flusher
