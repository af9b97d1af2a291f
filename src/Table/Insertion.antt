-- ===== src/Table/Insertion.antt =====
-- Table::insert_record with indexes: what becomes of the record.
use oceanbase.Base.{
  ◌&&◌, if◌then◌else◌, ℕ, ◌≡◌, ◌≢◌, refl, sym, ap, ◌∙◌, true, false, Option, none, some, List,
  Bool-cases, inl, inr, ◌==◌, ==_refl, ==_iff,
}
use oceanbase.Rc.{is_success, generic_error}
use oceanbase.RecordPage.{Rid}
use oceanbase.Trx.{
  World, Row, Operation, insert, rid_eq, put_row, put_table, find_operation, insert_operation,
  insert_into_table,
}
use oceanbase.Trx
use oceanbase.Trx.Sets.{rid_eq_refl, rid_eq→eq, find_operation-insert_operation}
use oceanbase.Trx.Insert.{inserted_world}
use oceanbase.Table.{
  IndexOps, insert_entry_of_indexes, delete_entry_of_indexes, insert_record, remove_row,
}

-- A record that is put where there was none and removed again leaves all as it was.
pub put_twice :
    (ts : ℕ → Rid → Option Row) (table : ℕ) (rid : Rid) (row : Option Row) (t : ℕ) (r : Rid)
    → ts table rid ≡ none
    → let ts' = put_table ts table (put_row (ts table) rid row) in
      put_table ts' table (put_row (ts' table) rid none) t r ≡ ts t r
put_twice ts table rid row t r free = elim (Bool-cases (table == t)) [
  | inl here ↦ elim (Bool-cases (rid_eq rid r)) [
    | inl this ↦
        rw (here, this)
          (sym (
            ap (λ u. ts u r) (sym ((==_iff table t).0 here))
            ∙ (ap (ts table) (sym (rid_eq→eq rid r this)) ∙ free)))
    | inr other ↦
        rw (here, other, ==_refl table) (rw other (ap (λ u. ts u r) ((==_iff table t).0 here)))
  ]
  | inr there ↦ rw (there) refl
]

-- A record for which the transaction has recorded an operation is refused and removed.
insert_into_table-recorded :
    (w : World) (table : ℕ) (rid : Rid) (bytes : List ℕ) {o : Operation}
    → find_operation w.trx.operations table rid ≡ some o
    → ((insert_into_table w table rid bytes).0 ≡ generic_error)
      × ((insert_into_table w table rid bytes).1.tables table rid ≡ none)
unfolding insert_into_table Trx.insert_record
insert_into_table-recorded w table rid bytes recorded =
    rw (recorded, Trx.insert_record) (rw (==_refl table, rid_eq_refl rid) (refl, refl))

module _ (ops : IndexOps) where
  open ops use {State}

  -- The world after an insertion that the transaction has recorded and an index has refused.
  abbrev refused_world : World → ℕ → Rid → List ℕ → World
  refused_world w table rid bytes =
      remove_row
        (record w {
          trx = record w.trx {
            operations =
                insert_operation w.trx.operations table (record { kind = insert; rid = rid });
          };
          tables = put_table w.tables table (
              put_row (w.tables table) rid
                (some (record { trx_field = w.trx.trx_id; bytes = bytes })));
        })
        table rid

  refused_lem :
      (w : World) (states : List State) (table : ℕ) (rid : Rid) (bytes : List ℕ)
      → find_operation w.trx.operations table rid ≡ none
      → w.trx.trx_id ≢ 0
      → is_success (insert_entry_of_indexes ops states bytes rid).0 ≡ false
      → insert_record ops w states table rid bytes ≡ (
        (insert_entry_of_indexes ops states bytes rid).0,
        refused_world w table rid bytes,
        (delete_entry_of_indexes ops
            (insert_entry_of_indexes ops states bytes rid).1
            bytes
            rid
            true).1,
      )
  unfolding insert_record
  refused_lem w states table rid bytes none_yet started refused =
      rw (inserted_world w table rid bytes none_yet started) (rw refused refl)

  -- The table holds a new record, and every other place of each table is as before.
  abbrev pub with_record : World → ℕ → Rid → List ℕ → ℕ → Rid → Option Row
  with_record w table rid bytes t r =
      if table == t && rid_eq rid r
      then some (record { trx_field = w.trx.trx_id; bytes = bytes })
      else w.tables t r

  again :
      (w : World) (states : List State) (table : ℕ) (rid : Rid) (bytes : List ℕ) {o : Operation}
      → find_operation w.trx.operations table rid ≡ some o
      → ((insert_record ops w states table rid bytes).0 ≡ generic_error)
        × ((insert_record ops w states table rid bytes).1.tables table rid ≡ none)
  unfolding insert_record
  again w states table rid bytes recorded =
      let (code, gone) = insert_into_table-recorded w table rid bytes recorded in
      rw code (refl, gone)

  -- But the transaction keeps the insertion on record, so the next one that is given the same place
  -- fails with GENERIC_ERROR and stores nothing, whatever the indexes say.
  pub insert_record-blocked :
      (w : World) (states : List State) (table : ℕ) (rid : Rid) (bytes later : List ℕ)
      → find_operation w.trx.operations table rid ≡ none
      → w.trx.trx_id ≢ 0
      → is_success (insert_entry_of_indexes ops states bytes rid).0 ≡ false
      → let (rc, w', states') = insert_record ops w states table rid bytes in
        ((insert_record ops w' states' table rid later).0 ≡ generic_error)
        × ((insert_record ops w' states' table rid later).1.tables table rid ≡ none)
  insert_record-blocked w states table rid bytes later none_yet started refused =
      let w' = refused_world w table rid bytes in
      let states' =
        (delete_entry_of_indexes ops (insert_entry_of_indexes ops states bytes rid).1 bytes rid
          true).1 in
      rw (refused_lem w states table rid bytes none_yet started refused) (
        again w' states' table rid later {o = record { kind = insert; rid = rid }} (
          find_operation-insert_operation w.trx.operations table
            (record { kind = insert; rid = rid }) table rid none_yet
          ∙ rw (==_refl table, rid_eq_refl rid) refl))
