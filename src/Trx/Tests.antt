-- ===== src/Trx/Tests.antt =====
-- Runs of transactions on a small table, and the theorems about transactions applied to them.
use oceanbase.Base.{ℕ, ◌+◌, ◌^◌, ◌≡◌, refl, true, none, some, [], ◌∷◌, arith}
use oceanbase.Rc.{success, generic_error}
use oceanbase.RecordPage.{Rid}
use oceanbase.Trx.{
  Row, Tables, insert, delete, World, put_row, put_table, is_visible, find_in, find_operation,
  insert_record, insert_into_table, commit, rollback,
}
use oceanbase.Trx.Sets.{AreDistinct}
use oceanbase.Trx.Finish.{commit-committed, rollback-rolled_back}
use oceanbase.Trx.Insert.{insert_into_table-ends, insert_into_table-not_started}

abbrev rid_at : ℕ → Rid
rid_at slot = record { page_num = 1; slot_num = slot }

abbrev row_of : ℕ → ℕ → Row
row_of word byte = record { trx_field = word; bytes = byte ∷ [] }

abbrev other_id : ℕ
other_id = 9

abbrev no_tables : Tables
no_tables table r = none

-- Transaction 7 has inserted record 0 of table 3 and deleted record 1 of it.
abbrev open_world : World
open_world = record {
  trx = record {
    trx_id = 7;
    operations =
        (
          3,
          record { kind = insert; rid = rid_at 0 } ∷ record { kind = delete; rid = rid_at 1 } ∷ [],
        )
        ∷ [];
  };
  counter = 7;
  tables = put_table no_tables 3 (
      put_row (put_row (no_tables 3) (rid_at 0) (some (row_of 7 10))) (rid_at 1)
        (some (row_of (2 ^ 31 + 7) 11)));
}

abbrev fresh_world : World
fresh_world = record {
  trx = record { trx_id = 0; operations = [] };
  counter = 7;
  tables = no_tables;
}

open_world-AreDistinct : AreDistinct open_world.trx.operations
open_world-AreDistinct = (refl, (unfold find_in in refl, (unfold find_in in refl, tt)), tt)

insert_twice : (insert_into_table open_world 3 (rid_at 0) (9 ∷ [])).0 ≡ generic_error
unfolding insert_into_table insert_record find_operation find_in
insert_twice = refl

commit-committed_example :
    ((commit open_world).1.tables 3 (rid_at 0) ≡ some (row_of 0 10))
    × ((commit open_world).1.trx ≡ record { trx_id = 0; operations = [] })
unfolding find_operation find_in
commit-committed_example = commit-committed open_world 3 (rid_at 0) open_world-AreDistinct

rollback-rolled_back_example :
    ((rollback open_world).1.tables 3 (rid_at 1) ≡ some (row_of 0 11))
    × ((rollback open_world).1.trx ≡ record { trx_id = 0; operations = [] })
unfolding find_operation find_in
rollback-rolled_back_example = rollback-rolled_back open_world 3 (rid_at 1) open_world-AreDistinct

insert_into_table-ends_example :
    ((insert_into_table open_world 3 (rid_at 2) (12 ∷ [])).0 ≡ success)
    × ((rollback (insert_into_table open_world 3 (rid_at 2) (12 ∷ [])).1).1.tables 3 (rid_at 2)
        ≡ none)
    × ((commit (insert_into_table open_world 3 (rid_at 2) (12 ∷ [])).1).1.tables 3 (rid_at 2)
        ≡ some (row_of 0 12))
insert_into_table-ends_example =
    insert_into_table-ends open_world 3 (rid_at 2) (12 ∷ []) 3 (rid_at 2) open_world-AreDistinct
      (unfold find_operation find_in in refl) (omega arith)

insert_into_table-not_started_example :
    ((insert_into_table fresh_world 3 (rid_at 2) (12 ∷ [])).0 ≡ success)
    × ((insert_into_table fresh_world 3 (rid_at 2) (12 ∷ [])).1.tables 3 (rid_at 2)
        ≡ some (row_of 0 12))
    × (is_visible open_world.trx (row_of 0 12) ≡ true)
insert_into_table-not_started_example =
    insert_into_table-not_started fresh_world 3 (rid_at 2) (12 ∷ []) open_world.trx
      (unfold find_operation in refl) refl
