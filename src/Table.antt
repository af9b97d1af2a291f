-- ===== src/Table.antt =====
-- src/observer/storage/common/table.cpp: a table with its indexes, and the scan of its records.
--
-- The transaction and the records are those of `Trx`. An index is an interface, `IndexOps`: its state
-- and its two operations, each of which may fail. The record handler puts a new record at the rid that
-- is an argument. A scanner is the list of the records it gives one after another, and the code that
-- ends it, and the reader of a scan does not change the transaction. Log output is left out.
pub mod Insertion
pub mod Scanning
mod Tests
use oceanbase.Base.{
  ℕ, zero, suc, ◌+◌, ◌-◌, Bool, true, false, not, ◌&&◌, ◌||◌, Option, none, some, List, [], ◌∷◌,
  ◌==◌, ltb, if◌then◌else◌,
}
use oceanbase.Base.Int.{ℤ, pos, negsuc}
use oceanbase.Rc.{Rc, success, is_success, record_invalid_key, record_record_not_exist, record_eof}
use oceanbase.RecordPage.{Rid}
use oceanbase.Trx.{World, Row, Trx, put_row, put_table, insert_into_table, is_visible}

-- Index, and what it does
pub record IndexOps : Type 1 where
  pub State : Type 0
  pub insert_entry : State → List ℕ → Rid → Rc × State
  pub delete_entry : State → List ℕ → Rid → Rc × State

abbrev pub is_invalid_key : Rc → Bool
is_invalid_key record_invalid_key = true
is_invalid_key _ = false

abbrev pub is_end : Rc → Bool
is_end record_eof = true
is_end _ = false

abbrev pub remove_row : World → ℕ → Rid → World
remove_row w table rid = record w {
  tables = put_table w.tables table (put_row (w.tables table) rid none);
}

module _ (ops : IndexOps) where
  open ops use {State, insert_entry, delete_entry}

  abbrev pub behind : State → Rc × List State → Rc × List State
  behind s (rc, states) = (rc, s ∷ states)

  -- Table::insert_entry_of_indexes
  unfoldable pub insert_entry_of_indexes : List State → List ℕ → Rid → Rc × List State
  insert_entry_of_indexes [] bytes rid = (success, [])
  insert_entry_of_indexes (s ∷ states) bytes rid =
      let rest = insert_entry_of_indexes states bytes rid in
      let (rc, s') = insert_entry s bytes rid in
      if is_success rc then behind s' rest else (rc, s' ∷ states)

  -- The loop of Table::delete_entry_of_indexes with the code so far
  unfoldable pub delete_entries : Rc → List State → List ℕ → Rid → Bool → Rc × List State
  delete_entries rc [] bytes rid error_on_not_exists = (rc, [])
  delete_entries rc (s ∷ states) bytes rid error_on_not_exists =
      let (rc', s') = delete_entry s bytes rid in
      let rest = delete_entries rc' states bytes rid error_on_not_exists in
      if not (is_success rc') && (not (is_invalid_key rc') || not error_on_not_exists)
      then (rc', s' ∷ states)
      else behind s' rest

  -- Table::delete_entry_of_indexes
  unfoldable pub delete_entry_of_indexes : List State → List ℕ → Rid → Bool → Rc × List State
  unfolding delete_entries
  delete_entry_of_indexes = delete_entries success

  -- What Table::insert_record does once the indexes have been told.
  abbrev pub after_entries : World → ℕ → List ℕ → Rid → Rc × List State → Rc × World × List State
  after_entries w table bytes rid (rc, states) =
      if is_success rc
      then (rc, w, states)
      else (rc, remove_row w table rid, (delete_entry_of_indexes states bytes rid true).1)

  -- Table::insert_record with a transaction
  unfoldable pub insert_record : World → List State → ℕ → Rid → List ℕ → Rc × World × List State
  unfolding insert_entry_of_indexes delete_entry_of_indexes
  insert_record w states table rid bytes =
      let (rc, w') = insert_into_table w table rid bytes in
      if is_success rc
      then after_entries w' table bytes rid (insert_entry_of_indexes states bytes rid)
      else (rc, w', states)

  -- The record goes only if its entries went.
  abbrev pub after_removal : World → ℕ → Rid → Rc × List State → Rc × World × List State
  after_removal w table rid (rc, states) =
      if is_success rc then (success, remove_row w table rid, states) else (rc, w, states)

  -- Table::rollback_insert
  unfoldable pub rollback_insert : World → List State → ℕ → Rid → Rc × World × List State
  unfolding delete_entry_of_indexes
  rollback_insert w states table rid = elim (w.tables table rid) [
    | none ↦ (record_record_not_exist, w, states)
    | some row ↦ after_removal w table rid (delete_entry_of_indexes states row.bytes rid false)
  ]

  -- Table::commit_delete, which removes the record whatever becomes of its entries
  unfoldable pub commit_delete : World → List State → ℕ → Rid → Rc × World × List State
  unfolding delete_entry_of_indexes
  commit_delete w states table rid = elim (w.tables table rid) [
    | none ↦ (record_record_not_exist, w, states)
    | some row ↦
        (success, remove_row w table rid, (delete_entry_of_indexes states row.bytes rid false).1)
  ]

abbrev pub int_max : ℕ
int_max = 2147483647

module _ {S : Type 0} where
  -- The loop of Table::scan_record: the records to come, the code that ends them, how many may still be
  -- read, and the reader with its state. The code of the loop and the state come out.
  unfoldable pub scan_loop : Trx → (Rid × Row → S → Rc × S) → List (Rid × Row) → Rc → ℕ → S → Rc × S
  scan_loop trx reader [] last limit s = (last, s)
  scan_loop trx reader (r ∷ records) last zero s = (success, s)
  scan_loop trx reader (r ∷ records) last (suc limit) s =
      let (rc, s') = reader r s in
      let read = scan_loop trx reader records last limit s' in
      let skipped = scan_loop trx reader records last (suc limit) s in
      if is_visible trx r.1 then if is_success rc then read else (rc, s') else skipped

  abbrev pub scan_code : Rc × S → Rc × S
  scan_code (rc, s) = ((if is_end rc then success else rc), s)

  -- Table::scan_record, with a transaction
  unfoldable pub scan_record :
      Trx → (Rid × Row → S → Rc × S) → List (Rid × Row) → Rc → ℤ → S → Rc × S
  unfolding scan_loop
  scan_record trx reader records last (pos zero) s = (success, s)
  scan_record trx reader records last (pos (suc limit)) s =
      scan_code (scan_loop trx reader records last (suc limit) s)
  scan_record trx reader records last (negsuc n) s =
      scan_code (scan_loop trx reader records last int_max s)
