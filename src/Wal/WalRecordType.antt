-- ===== src/Wal/WalRecordType.antt =====
-- `WalRecordType` of include/coredb/wal/record.h: the type bytes.
use coredb.Prelude.{ℕ}

abbrev pub begin : ℕ
begin = 1

abbrev pub insert : ℕ
insert = 2

abbrev pub update : ℕ
update = 3

abbrev pub delete : ℕ
delete = 4

abbrev pub commit : ℕ
commit = 5

abbrev pub abort : ℕ
abort = 6
