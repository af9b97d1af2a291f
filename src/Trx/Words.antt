-- ===== src/Trx/Words.antt =====
-- The word that a transaction writes to a record, and who sees the record.
use oceanbase.Base.{◌↔◌, ℕ, ◌<◌, ◌≡◌, ◌≢◌, ◌⊎◌, Bool, true, false, arith}
use oceanbase.Trx.{Row, Trx, deleted_flag, set_record_trx_id, get_record_trx_id, is_visible}

-- A record stamped by a transaction carries its number and the mark of a deletion.
pub get-set_record_trx_id :
    (row : Row) (trx_id : ℕ) (deleted : Bool)
    → trx_id < deleted_flag
    → get_record_trx_id (set_record_trx_id row trx_id deleted) ≡ (trx_id, deleted)
unfolding get_record_trx_id set_record_trx_id
get-set_record_trx_id row trx_id deleted h = ground arith

-- Who sees a record that was stamped with a number and a mark: of a committed record (number 0) and
-- of its own records a transaction sees those that are not marked as deleted, and of the records of
-- other open transactions those that are marked, since these deletions are not committed.
pub is_visible-set_record_trx_id :
    (trx : Trx) (row : Row) (trx_id : ℕ) (deleted : Bool)
    → trx_id < deleted_flag
    → (is_visible trx (set_record_trx_id row trx_id deleted) ≡ true) ↔ (
        (((trx_id ≡ 0) ⊎ (trx_id ≡ trx.trx_id)) × (deleted ≡ false))
        ⊎ ((trx_id ≢ 0) × (trx_id ≢ trx.trx_id) × (deleted ≡ true)))
unfolding is_visible set_record_trx_id
is_visible-set_record_trx_id trx row trx_id deleted h = (ground arith, ground arith)
