-- ===== src/Mvcc.antt =====
-- include/coredb/mvcc and src/mvcc: transactions, visibility and the delta layer.
pub mod Transaction
pub mod Delta
pub mod History
pub mod Snapshot
pub mod Tests
