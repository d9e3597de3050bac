-- ===== src/Table/Tests.antt =====
-- Instances of the theorems about src/table at concrete tables.
use coredb.Prelude.{◌≡◌, ◌==◌, if◌then◌else◌, refl, true, [], ◌∷◌, some, arith}
use coredb.Storage.Types.{Value, Row}
use coredb.Mvcc.Transaction.{Transaction, TransactionManager, init, begin, get_status}
use coredb.Mvcc.Transaction.Invariant.{init-IsValid, begin-IsValid}
use coredb.Mvcc.Delta
use coredb.Mvcc.Delta.{claim_or_insert_base_tombstone, scan, look, is_visible}
use coredb.Table.{Table, create, insert, update, delete, claim, row_id_exists_in_base}
use coredb.Table.View.{version, scanned, read, scanned-read}
use coredb.Table.View.Own.{insert_refines, update_refines}
use coredb.Table.Isolation.{Concurrent, view_of, insert_isolated, update_isolated, delete_isolated}

abbrev two_begun : TransactionManager
two_begun = (begin (begin init).0).0

abbrev first : Transaction
first = (begin init).1

abbrev second : Transaction
second = (begin (begin init).0).1

concurrent : Concurrent two_begun first second
unfolding begin get_status
concurrent = record {
  valid =
      begin-IsValid (begin init).0 (begin-IsValid init init-IsValid (omega arith))
        (unfold begin in omega arith);
  real = omega arith;
  real_reader = omega arith;
  apart = λ e. absurd (omega (arith, e));
  writing = refl;
  reading = refl;
}

abbrev word : Row
word = Value.string (0x68 ∷ 0x69 ∷ []) ∷ []

abbrev one_row : Table
one_row = (insert (record (create []) { txn_mgr = two_begun }) first word).0

insert_isolated_example :
    view_of one_row second ≡ view_of (record (create []) { txn_mgr = two_begun }) second
insert_isolated_example =
    insert_isolated (record (create []) { txn_mgr = two_begun }) first second concurrent word

abbrev other_word : Row
other_word = Value.string (0x6F ∷ 0x6B ∷ []) ∷ []

-- The first transaction updates and deletes its own row.
updated : (t' : Table) × (update one_row first 1 other_word ≡ some (t', true))
unfolding update claim row_id_exists_in_base insert claim_or_insert_base_tombstone scan Delta.insert
    look begin is_visible
updated = (_, refl)

update_isolated_example : view_of updated.0 second ≡ view_of one_row second
unfolding insert
update_isolated_example =
    update_isolated one_row first second concurrent updated.0 1 other_word true updated.1

deleted : (t' : Table) × (delete one_row first 1 ≡ some (t', true))
unfolding delete claim row_id_exists_in_base insert claim_or_insert_base_tombstone scan Delta.insert
    look begin is_visible
deleted = (_, refl)

delete_isolated_example : view_of deleted.0 second ≡ view_of one_row second
unfolding insert
delete_isolated_example = delete_isolated one_row first second concurrent deleted.0 1 true deleted.1

-- The first transaction reads what it wrote, and what it has not written as before.
scanned-read_example : scanned one_row first 1 ≡ read one_row first 1
scanned-read_example = scanned-read one_row first 1

insert_refines_example : scanned one_row first 1 ≡ (
    if 1 == 1 then version word else scanned (record (create []) { txn_mgr = two_begun }) first 1)
insert_refines_example =
    insert_refines (record (create []) { txn_mgr = two_begun }) first concurrent.real word 1

update_refines_example :
    scanned updated.0 first 2 ≡ (if 1 == 2 then version other_word else scanned one_row first 2)
update_refines_example =
    update_refines one_row first concurrent.real other_word updated.0 1 2 updated.1
