-- ===== src/Table/Tests.antt =====
-- A table with unique indexes on its first byte, and the theorems about tables applied to it.
use oceanbase.Base.{
  ℕ, ◌≡◌, ◌≢◌, refl, Bool, true, false, ◌&&◌, Option, none, some, List, [], ◌∷◌, arith,
  if◌then◌else◌, ◌==◌, get_or, take,
}
use oceanbase.Base.Int.{pos, negsuc}
use oceanbase.Rc.{Rc, success, generic_error, record_duplicate_key, record_invalid_key, record_eof}
use oceanbase.RecordPage.{Rid}
use oceanbase.Trx.{World, Row, rid_eq, find_operation, is_visible}
use oceanbase.Table.{IndexOps, insert_record, insert_entry_of_indexes, scan_record, scan_code}
use oceanbase.Table.Insertion.{insert_record-blocked}
use oceanbase.Table.Scanning.{visible, read_all, scan_record-read_all}

abbrev Entries : Type 0
Entries = ℕ → Option Rid

abbrev key_of : List ℕ → ℕ
key_of bytes = get_or bytes 0 0

abbrev is_rid : Option Rid → Rid → Bool
is_rid none rid = false
is_rid (some r) rid = rid_eq r rid

abbrev put_entry : Entries → ℕ → Option Rid → Entries
put_entry s key r k = if key == k then r else s k

-- A unique index: at most one record for each key.
abbrev insert_unique : Entries → ℕ → Rid → Option Rid → Rc × Entries
insert_unique s key rid none = (success, put_entry s key (some rid))
insert_unique s key rid (some r) = (record_duplicate_key, s)

abbrev delete_unique : Entries → ℕ → Bool → Rc × Entries
delete_unique s key true = (success, put_entry s key none)
delete_unique s key false = (record_invalid_key, s)

abbrev unique : IndexOps
unique = record {
  State = Entries;
  insert_entry = λ s bytes rid. insert_unique s (key_of bytes) rid (s (key_of bytes));
  delete_entry = λ s bytes rid. delete_unique s (key_of bytes) (is_rid (s (key_of bytes)) rid);
}

abbrev rid_at : ℕ → Rid
rid_at slot = record { page_num = 1; slot_num = slot }

abbrev no_entries : Entries
no_entries k = none

-- Record 0 has the key 5.
abbrev one_entry : Entries
one_entry = put_entry no_entries 5 (some (rid_at 0))

-- Transaction 7, which has done nothing yet, and a table 3 with record 0.
abbrev open_world : World
open_world = record {
  trx = record { trx_id = 7; operations = [] };
  counter = 7;
  tables = λ table r.
      if table == 3 && rid_eq (rid_at 0) r
      then some (record { trx_field = 0; bytes = 5 ∷ [] })
      else none;
}

seven-ne-zero : open_world.trx.trx_id ≢ 0
seven-ne-zero e = absurd (omega arith)

insert_record-blocked_example :
    let (rc, w, states) = insert_record unique open_world (one_entry ∷ []) 3 (rid_at 1) (5 ∷ []) in
    ((insert_record unique w states 3 (rid_at 1) (6 ∷ [])).0 ≡ generic_error)
    × ((insert_record unique w states 3 (rid_at 1) (6 ∷ [])).1.tables 3 (rid_at 1) ≡ none)
unfolding find_operation insert_entry_of_indexes
insert_record-blocked_example =
    insert_record-blocked unique open_world (one_entry ∷ []) 3 (rid_at 1) (5 ∷ []) (6 ∷ []) refl
      seven-ne-zero refl

-- Record 1 is marked as deleted.
abbrev records : List (Rid × Row)
records =
    (rid_at 0, record { trx_field = 0; bytes = 5 ∷ [] })
    ∷ (rid_at 1, record { trx_field = 2147483648; bytes = 6 ∷ [] })
    ∷ (rid_at 2, record { trx_field = 7; bytes = 7 ∷ [] })
    ∷ []

abbrev first_byte : Rid × Row → List ℕ → Rc × List ℕ
first_byte (rid, row) bytes = (success, key_of row.bytes ∷ bytes)

two_seen :
    scan_record open_world.trx first_byte records record_eof (negsuc 0) [] ≡ (success, 7 ∷ 5 ∷ [])
unfolding scan_record is_visible
two_seen = refl

scan_record-read_all_example :
    scan_record open_world.trx first_byte records record_eof (pos 1) []
    ≡ scan_code (read_all first_byte (take 1 (visible open_world.trx records)) [])
scan_record-read_all_example = scan_record-read_all open_world.trx first_byte records (pos 1) []
