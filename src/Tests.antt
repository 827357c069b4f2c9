-- ===== src/Tests.antt =====
-- The theorems at concrete inputs.
mod LabelSets
mod Indexes
mod SeriesLives
mod Logs
mod Flushing
mod Replays
mod Texts
mod Stores
mod Databases
mod Histories
mod Reopened
