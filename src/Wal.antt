-- ===== src/Wal.antt =====
-- include/coredb/wal and src/wal: the records of the log, and how they are written and read.
pub mod WalRecordType
pub mod Record
pub mod Decode
pub mod RoundTrip
pub mod Writer
pub mod Reader
pub mod Frames
pub mod Crash
pub mod Calm
pub mod Total
pub mod Durability
pub mod Tests
