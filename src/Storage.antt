-- ===== src/Storage.antt =====
-- include/coredb/storage and src/storage: cell values, dictionaries, columns and segments.
pub mod Types
pub mod Dictionary
pub mod Segment
pub mod Pruning
pub mod File
pub mod Tests
