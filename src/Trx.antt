-- ===== src/Trx.antt =====
-- src/observer/storage/trx/trx.cpp with the functions of src/observer/storage/common/table.cpp that
-- it calls back: transactions that stamp the records of tables with their number.
--
-- A `Row` is a record: the word at `trx_field`, and the other bytes. `Tables` holds the records of
-- each table by rid, as the record handler returns them, for tables that have no index. The two
-- masks of trx.cpp are those of the top bit of a 32-bit word, so `|=` and `&` are written with
-- `/` and `%`. A hash map of hash sets is a list of lists, in the order in which the container goes
-- through its entries. Log output is left out.
pub mod Words
pub mod Sets
pub mod Finish
pub mod Insert
pub mod Own
mod Tests
use oceanbase.Base.{
  ℕ, ◌+◌, ◌%◌, ◌^◌, Bool, true, false, not, ◌&&◌, ◌||◌, Option, none, some, List, [], ◌∷◌, ◌==◌,
  leb, if◌then◌else◌,
}
use oceanbase.Rc.{Rc, success, is_success, generic_error, record_record_not_exist}
use oceanbase.RecordPage.{Rid}

pub record Row : Type 0 where
  pub trx_field : ℕ
  pub bytes : List ℕ

abbrev pub Table : Type 0
Table = Rid → Option Row

abbrev pub Tables : Type 0
Tables = ℕ → Table

abbrev pub deleted_flag : ℕ
deleted_flag = 2 ^ 31

-- RID::operator==, and OperationEqualer
abbrev pub rid_eq : Rid → Rid → Bool
rid_eq a b = a.page_num == b.page_num && a.slot_num == b.slot_num

abbrev pub put_row : Table → Rid → Option Row → Table
put_row t rid row r = if rid_eq rid r then row else t r

abbrev pub put_table : Tables → ℕ → Table → Tables
put_table ts table t i = if table == i then t else ts i

pub data Kind : Type 0 where
  insert update delete undefined : Kind

pub record Operation : Type 0 where
  pub kind : Kind
  pub rid : Rid

-- A transaction; `trx_id` 0 says that it has not started.
pub record Trx : Type 0 where
  pub trx_id : ℕ
  pub operations : List (ℕ × List Operation)

-- A transaction, the counter of `next_trx_id`, and the tables.
pub record World : Type 0 where
  pub trx : Trx
  pub counter : ℕ
  pub tables : Tables

unfoldable pub set_record_trx_id : Row → ℕ → Bool → Row
set_record_trx_id row trx_id deleted = record row {
  trx_field = if deleted then trx_id % deleted_flag + deleted_flag else trx_id;
}

-- The number of the transaction, and the mark of a deletion.
unfoldable pub get_record_trx_id : Row → ℕ × Bool
get_record_trx_id row = (row.trx_field % deleted_flag, leb deleted_flag row.trx_field)

unfoldable pub is_visible : Trx → Row → Bool
unfolding get_record_trx_id
is_visible trx row =
    let (record_trx_id, record_deleted) = get_record_trx_id row in
    if record_trx_id == 0 || record_trx_id == trx.trx_id then not record_deleted else record_deleted

unfoldable pub find_in : List Operation → Rid → Option Operation
find_in [] rid = none
find_in (o ∷ os) rid = if rid_eq o.rid rid then some o else find_in os rid

unfoldable pub find_operation : List (ℕ × List Operation) → ℕ → Rid → Option Operation
find_operation [] table rid = none
find_operation ((t, os) ∷ rest) table rid =
    if t == table then find_in os rid else find_operation rest table rid

-- `emplace` leaves a set that holds an equal element as it is.
unfoldable pub emplace : List Operation → Operation → List Operation
emplace os o = elim (find_in os o.rid) [ none ↦ o ∷ os | some _ ↦ os ]

unfoldable pub insert_operation :
    List (ℕ × List Operation) → ℕ → Operation → List (ℕ × List Operation)
insert_operation [] table o = (table, o ∷ []) ∷ []
insert_operation ((t, os) ∷ rest) table o =
    if t == table then (t, emplace os o) ∷ rest else (t, os) ∷ insert_operation rest table o

unfoldable pub erase : List Operation → Rid → List Operation
erase [] rid = []
erase (o ∷ os) rid = if rid_eq o.rid rid then os else o ∷ erase os rid

unfoldable pub delete_operation : List (ℕ × List Operation) → ℕ → Rid → List (ℕ × List Operation)
delete_operation [] table rid = []
delete_operation ((t, os) ∷ rest) table rid =
    if t == table then (t, erase os rid) ∷ rest else (t, os) ∷ delete_operation rest table rid

-- `++trx_id` of an atomic 32-bit counter.
unfoldable pub start_if_not_started : World → World
start_if_not_started w =
    if w.trx.trx_id == 0
    then record w {
      trx = record w.trx { trx_id = (w.counter + 1) % 2 ^ 32 };
      counter = (w.counter + 1) % 2 ^ 32;
    }
    else w

abbrev pub with_operations : World → List (ℕ × List Operation) → World
with_operations w ops = record w { trx = record w.trx { operations = ops } }

-- Trx::insert_record
unfoldable pub insert_record : World → ℕ → Rid → Rc × World
insert_record w table rid = elim (find_operation w.trx.operations table rid) [
  | some old ↦ (generic_error, w)
  | none ↦
      let w' = start_if_not_started w in
      (
        success,
        with_operations w'
            (insert_operation w'.trx.operations table (record { kind = insert; rid = rid })),
      )
]

-- What `Trx::delete_record` does with an operation that the transaction has recorded for the record.
unfoldable pub delete_again : World → ℕ → Rid → Kind → Rc × World
delete_again w table rid insert =
    (success, with_operations w (delete_operation w.trx.operations table rid))
delete_again w table rid _ = (generic_error, w)

-- Trx::delete_record, of the record `row` of a table: the stamp is written to the record in place.
unfoldable pub delete_record : World → ℕ → Rid → Row → Rc × World
unfolding delete_again
delete_record w table rid row =
    let w' = start_if_not_started w in
    elim (find_operation w'.trx.operations table rid) [
      | some old ↦ delete_again w' table rid old.kind
      | none ↦ (
        success,
        record w' {
          trx = record w'.trx {
            operations =
                insert_operation w'.trx.operations table (record { kind = delete; rid = rid });
          };
          tables =
              put_table w'.tables table
                (put_row (w'.tables table) rid (some (set_record_trx_id row w'.trx.trx_id true)));
        },
      )
    ]

-- Table::insert_record with a transaction up to the entries of the indexes, which `Table` adds, of a
-- record that the record handler puts at `rid`.
unfoldable pub insert_into_table : World → ℕ → Rid → List ℕ → Rc × World
insert_into_table w table rid bytes =
    let row = set_record_trx_id (record { trx_field = 0; bytes = bytes }) w.trx.trx_id false in
    let w1 = record w {
      tables = put_table w.tables table (put_row (w.tables table) rid (some row));
    } in
    let (rc, w2) = insert_record w1 table rid in
    if is_success rc
    then (rc, w2)
    else (rc, record w2 { tables = put_table w2.tables table (put_row (w2.tables table) rid none) })

-- What becomes of the record that an operation names, and the code: Table::commit_insert,
-- Table::commit_delete; the other kinds are a panic of the log and change nothing.
unfoldable pub commit_row : Rc → Kind → Option Row → Rc × Option Row
commit_row rc insert none = (record_record_not_exist, none)
commit_row rc insert (some row) = (success, some (set_record_trx_id row 0 false))
commit_row rc delete none = (record_record_not_exist, none)
commit_row rc delete (some row) = (success, none)
commit_row rc _ row = (rc, row)

-- Table::rollback_insert, Table::rollback_delete, of a table without an index; `Table` has the first one
-- with indexes.
unfoldable pub rollback_row : Rc → Kind → Option Row → Rc × Option Row
rollback_row rc insert none = (record_record_not_exist, none)
rollback_row rc insert (some row) = (success, none)
rollback_row rc delete none = (record_record_not_exist, none)
rollback_row rc delete (some row) = (success, some (set_record_trx_id row 0 false))
rollback_row rc _ row = (rc, row)

-- The two loops of `commit` and `rollback`.
unfoldable pub finish_set :
    (Rc → Kind → Option Row → Rc × Option Row) → Rc → Table → List Operation → Rc × Table
finish_set f rc t [] = (rc, t)
finish_set f rc t (o ∷ os) =
    let (rc', row) = f rc o.kind (t o.rid) in finish_set f rc' (put_row t o.rid row) os

unfoldable pub finish_all :
    (Rc → Kind → Option Row → Rc × Option Row)
    → Rc
    → Tables
    → List (ℕ × List Operation)
    → Rc × Tables
unfolding finish_set
finish_all f rc ts [] = (rc, ts)
finish_all f rc ts ((table, os) ∷ rest) =
    let (rc', t) = finish_set f rc (ts table) os in finish_all f rc' (put_table ts table t) rest

unfoldable pub finish : (Rc → Kind → Option Row → Rc × Option Row) → World → Rc × World
unfolding finish_all
finish f w =
    let (rc, ts) = finish_all f success w.tables w.trx.operations in
    (rc, record w { trx = record { trx_id = 0; operations = [] }; tables = ts })

unfoldable pub commit : World → Rc × World
unfolding finish
commit = finish commit_row

unfoldable pub rollback : World → Rc × World
unfolding finish
rollback = finish rollback_row
