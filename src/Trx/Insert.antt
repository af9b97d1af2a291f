-- ===== src/Trx/Insert.antt =====
-- Insertions and deletions of a transaction, up to its end.
use oceanbase.Base.{
  ℕ, ◌≡◌, ◌≢◌, refl, ap, ◌∙◌, Bool, true, false, ◌&&◌, Option, none, some, List, ◌==◌,
  if◌then◌else◌, arith, ==_refl, ne→==,
}
use oceanbase.Rc.{success}
use oceanbase.RecordPage.{Rid}
use oceanbase.Trx.{
  Row, Tables, insert, Operation, Trx, World, rid_eq, put_row, put_table, set_record_trx_id,
  get_record_trx_id, is_visible, find_operation, insert_operation, start_if_not_started,
  with_operations, insert_record, insert_into_table, commit, rollback,
}
use oceanbase.Trx.Sets.{
  rid_eq_refl, AreDistinct, find_operation-insert_operation, insert_operation-AreDistinct,
}
use oceanbase.Trx.Finish.{committed, rolled_back, commit-committed, rollback-rolled_back}

-- The test for one record of one table.
abbrev is_at : ℕ → Rid → ℕ → Rid → Bool
is_at table rid t r = table == t && rid_eq rid r

put_at :
    (ts : Tables) (table : ℕ) (rid : Rid) (row : Option Row) (t : ℕ) (r : Rid)
    → put_table ts table (put_row (ts table) rid row) t r
      ≡ (if is_at table rid t r then row else ts t r)
put_at ts table rid row t r = ground arith

pub start_if_not_started-started : (w : World) → w.trx.trx_id ≢ 0 → start_if_not_started w ≡ w
unfolding start_if_not_started
start_if_not_started-started w started = rw (ne→== w.trx.trx_id 0 started) refl

start_if_not_started-tables : (w : World) → (start_if_not_started w).tables ≡ w.tables
unfolding start_if_not_started
start_if_not_started-tables w = ground arith

insert_record-new :
    (w : World) (table : ℕ) (rid : Rid)
    → find_operation w.trx.operations table rid ≡ none
    → insert_record w table rid ≡ (
      success,
      with_operations (start_if_not_started w) (
          insert_operation
            (start_if_not_started w).trx.operations
            table
            (record { kind = insert; rid = rid })),
    )
unfolding insert_record
insert_record-new w table rid none_yet = rw (none_yet, insert_record)

pub inserted_world :
    (w : World) (table : ℕ) (rid : Rid) (bytes : List ℕ)
    → find_operation w.trx.operations table rid ≡ none
    → w.trx.trx_id ≢ 0
    → insert_into_table w table rid bytes ≡ (
      success,
      record w {
        trx = record w.trx {
          operations =
              insert_operation w.trx.operations table (record { kind = insert; rid = rid });
        };
        tables = put_table w.tables table (
            put_row
              (w.tables table)
              rid
              (some (record { trx_field = w.trx.trx_id; bytes = bytes })));
      },
    )
unfolding insert_into_table set_record_trx_id
inserted_world w table rid bytes none_yet started =
    let row : Row = record { trx_field = w.trx.trx_id; bytes = bytes } in
    let w1 : World = record w {
      tables = put_table w.tables table (put_row (w.tables table) rid (some row));
    } in
    rw (insert_record-new w1 table rid none_yet, start_if_not_started-started w1 started) refl

-- A world in which one more operation is recorded, and the record it is for is `row`.
abbrev with_operation : World → ℕ → Operation → Row → World
with_operation w table o row = record w {
  trx = record w.trx { operations = insert_operation w.trx.operations table o };
  tables = put_table w.tables table (put_row (w.tables table) o.rid (some row));
}

commit-with_operation :
    (w : World) (table : ℕ) (o : Operation) (row : Row) (t : ℕ) (r : Rid)
    → AreDistinct w.trx.operations
    → find_operation w.trx.operations table o.rid ≡ none
    → (commit (with_operation w table o row)).1.tables t r
      ≡ (if is_at table o.rid t r then committed (some o) (some row) else (commit w).1.tables t r)
commit-with_operation w table o row t r d none_yet =
    let w' : World = with_operation w table o row in
    (commit-committed w' t r (insert_operation-AreDistinct w.trx.operations table o d)).0
    ∙ rw
        (
          find_operation-insert_operation w.trx.operations table o t r none_yet,
          put_at w.tables table o.rid (some row) t r,
          (commit-committed w t r d).0,
        )
        (ground arith)

rollback-with_operation :
    (w : World) (table : ℕ) (o : Operation) (row : Row) (t : ℕ) (r : Rid)
    → AreDistinct w.trx.operations
    → find_operation w.trx.operations table o.rid ≡ none
    → (rollback (with_operation w table o row)).1.tables t r ≡ (
        if is_at table o.rid t r
        then rolled_back (some o) (some row)
        else (rollback w).1.tables t r)
rollback-with_operation w table o row t r d none_yet =
    let w' : World = with_operation w table o row in
    (rollback-rolled_back w' t r (insert_operation-AreDistinct w.trx.operations table o d)).0
    ∙ rw
        (
          find_operation-insert_operation w.trx.operations table o t r none_yet,
          put_at w.tables table o.rid (some row) t r,
          (rollback-rolled_back w t r d).0,
        )
        (ground arith)

-- On tables without an index, a record that a started transaction inserts, and for which it has recorded no operation before, is
-- gone after a rollback, and after a commit it is there without a stamp; every other record is as if
-- the transaction had ended without the insertion. The insertion succeeds.
pub insert_into_table-ends :
    (w : World) (table : ℕ) (rid : Rid) (bytes : List ℕ) (t : ℕ) (r : Rid)
    → AreDistinct w.trx.operations
    → find_operation w.trx.operations table rid ≡ none
    → w.trx.trx_id ≢ 0
    → ((insert_into_table w table rid bytes).0 ≡ success)
      × ((rollback (insert_into_table w table rid bytes).1).1.tables t r
          ≡ (if is_at table rid t r then none else (rollback w).1.tables t r))
      × ((commit (insert_into_table w table rid bytes).1).1.tables t r ≡ (
          if is_at table rid t r
          then some (record { trx_field = 0; bytes = bytes })
          else (commit w).1.tables t r))
insert_into_table-ends w table rid bytes t r d none_yet started =
    let o : Operation = record { kind = insert; rid = rid } in
    let row : Row = record { trx_field = w.trx.trx_id; bytes = bytes } in
    rw (inserted_world w table rid bytes none_yet started) (
      refl,
      rollback-with_operation w table o row t r d none_yet,
      commit-with_operation w table o row t r d none_yet,
    )

-- A record that a transaction inserts before it has started is stored without a stamp: the insertion
-- succeeds and starts the transaction, but every transaction sees the record although it is not
-- committed.
pub insert_into_table-not_started :
    (w : World) (table : ℕ) (rid : Rid) (bytes : List ℕ) (reader : Trx)
    → find_operation w.trx.operations table rid ≡ none
    → w.trx.trx_id ≡ 0
    → ((insert_into_table w table rid bytes).0 ≡ success)
      × ((insert_into_table w table rid bytes).1.tables table rid
          ≡ some (record { trx_field = 0; bytes = bytes }))
      × (is_visible reader (record { trx_field = 0; bytes = bytes }) ≡ true)
unfolding insert_into_table
insert_into_table-not_started w table rid bytes reader none_yet fresh =
    let row : Row =
      set_record_trx_id (record { trx_field = 0; bytes = bytes }) w.trx.trx_id false in
    let w1 : World = record w {
      tables = put_table w.tables table (put_row (w.tables table) rid (some row));
    } in
    let stored : row ≡ record { trx_field = 0; bytes = bytes } =
      unfold set_record_trx_id in rw fresh refl in
    let put = put_at w.tables table rid (some row) table rid in
    (
      rw (insert_record-new w1 table rid none_yet) refl,
      rw (insert_record-new w1 table rid none_yet) (
          ap (λ ts. ts table rid) (start_if_not_started-tables w1)
          ∙ put
          ∙ rw (==_refl table, rid_eq_refl rid) (ap some stored)),
      unfold is_visible get_record_trx_id in ground arith,
    )
