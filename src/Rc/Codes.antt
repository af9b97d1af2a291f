-- ===== src/Rc/Codes.antt =====
-- The codes of src/observer/rc.h can be told apart by their numbers and by their names.
use text.Mathlib.Text.{◌==◌ as str_eq}
use oceanbase.Base.{◌≡◌, refl, ap, Bool, Option, none, some, List, [], ◌∷◌, ◌==◌, if◌then◌else◌}
use oceanbase.Rc.{
  Rc, code, strrc, success, generic_error, invalid_argument, sql_syntax, bufferpool, record_failed,
  internal, perm, abort, busy, locked, nomem, readonly, interrupt, ioerr, corrupt, notfound, full,
  cantopen, protocol, empty, schema, toobig, constraint, mismatch, misuse, nolfs, auth, format,
  range, notadb, notice, bufferpool_exist, bufferpool_fileerr, bufferpool_invalidname,
  bufferpool_windows, bufferpool_closed, bufferpool_open, bufferpool_nobuf, bufferpool_eof,
  bufferpool_invalid_page_num, bufferpool_notinbuf, bufferpool_page_pinned,
  bufferpool_open_too_many_files, bufferpool_illegal_file_id, record_closed, record_openned,
  record_invalidrecsize, record_invalidrid, record_nomorerecinmem, record_open,
  record_no_more_idx_in_mem, record_invalid_key, record_duplicate_key, record_nomem,
  record_scanclosed, record_scanopenned, record_eof, record_record_not_exist, schema_db_exist,
  schema_db_not_exist, schema_db_not_opened, schema_table_not_exist, schema_table_exist,
  schema_table_name_illegal, schema_field_not_exist, schema_field_exist, schema_field_name_illegal,
  schema_field_missing, schema_field_redundan, schema_field_type_mismatch, schema_index_name_repeat,
  schema_index_exist, schema_index_not_exist, schema_index_name_illegal, ioerr_read,
  ioerr_short_read, ioerr_write, ioerr_fsync, ioerr_dir_fsync, ioerr_truncate, ioerr_fstat,
  ioerr_delete, ioerr_blocked, ioerr_access, ioerr_checkreservedlock, ioerr_close, ioerr_dir_close,
  ioerr_shmopen, ioerr_shmsize, ioerr_shmlock, ioerr_shmmap, ioerr_seek, ioerr_delete_noent,
  ioerr_mmap, ioerr_gettemppath, ioerr_convpath, ioerr_vnode, ioerr_begin_atomic,
  ioerr_commit_atomic, ioerr_rollback_atomic, ioerr_data, ioerr_corruptfs,
  ioerr_open_too_many_files, locked_lock, locked_unlock, locked_sharedcache, locked_virt,
  locked_need_wait, locked_resource_deleted, busy_recovery, busy_snapshot, busy_timeout,
  cantopen_notempdir, cantopen_isdir, cantopen_fullpath, cantopen_convpath, cantopen_dirtywal,
  cantopen_symlink, readonly_recovery, readonly_cantlock, readonly_rollback, readonly_dbmoved,
  readonly_cantinit, readonly_directory, abort_rollback, constraint_check, constraint_commithook,
  constraint_foreignkey, constraint_function, constraint_notnull, constraint_primarykey,
  constraint_trigger, constraint_unique, constraint_virt, constraint_rowid, constraint_pinned,
  notice_recover_wal, notice_recover_rollback, notice_autoindex, auth_user,
}

-- Every code, in the order of the enumeration.
abbrev all_codes : List Rc
all_codes =
    success ∷ generic_error ∷ invalid_argument ∷ sql_syntax ∷ bufferpool ∷ record_failed ∷ internal
    ∷ perm ∷ abort ∷ busy ∷ locked ∷ nomem ∷ readonly ∷ interrupt ∷ ioerr ∷ corrupt ∷ notfound
    ∷ full ∷ cantopen ∷ protocol ∷ empty ∷ schema ∷ toobig ∷ constraint ∷ mismatch ∷ misuse ∷ nolfs
    ∷ auth ∷ format ∷ range ∷ notadb ∷ notice ∷ bufferpool_exist ∷ bufferpool_fileerr
    ∷ bufferpool_invalidname ∷ bufferpool_windows ∷ bufferpool_closed ∷ bufferpool_open
    ∷ bufferpool_nobuf ∷ bufferpool_eof ∷ bufferpool_invalid_page_num ∷ bufferpool_notinbuf
    ∷ bufferpool_page_pinned ∷ bufferpool_open_too_many_files ∷ bufferpool_illegal_file_id
    ∷ record_closed ∷ record_openned ∷ record_invalidrecsize ∷ record_invalidrid
    ∷ record_nomorerecinmem ∷ record_open ∷ record_no_more_idx_in_mem ∷ record_invalid_key
    ∷ record_duplicate_key ∷ record_nomem ∷ record_scanclosed ∷ record_scanopenned ∷ record_eof
    ∷ record_record_not_exist ∷ schema_db_exist ∷ schema_db_not_exist ∷ schema_db_not_opened
    ∷ schema_table_not_exist ∷ schema_table_exist ∷ schema_table_name_illegal
    ∷ schema_field_not_exist ∷ schema_field_exist ∷ schema_field_name_illegal ∷ schema_field_missing
    ∷ schema_field_redundan ∷ schema_field_type_mismatch ∷ schema_index_name_repeat
    ∷ schema_index_exist ∷ schema_index_not_exist ∷ schema_index_name_illegal ∷ ioerr_read
    ∷ ioerr_short_read ∷ ioerr_write ∷ ioerr_fsync ∷ ioerr_dir_fsync ∷ ioerr_truncate ∷ ioerr_fstat
    ∷ ioerr_delete ∷ ioerr_blocked ∷ ioerr_access ∷ ioerr_checkreservedlock ∷ ioerr_close
    ∷ ioerr_dir_close ∷ ioerr_shmopen ∷ ioerr_shmsize ∷ ioerr_shmlock ∷ ioerr_shmmap ∷ ioerr_seek
    ∷ ioerr_delete_noent ∷ ioerr_mmap ∷ ioerr_gettemppath ∷ ioerr_convpath ∷ ioerr_vnode
    ∷ ioerr_begin_atomic ∷ ioerr_commit_atomic ∷ ioerr_rollback_atomic ∷ ioerr_data
    ∷ ioerr_corruptfs ∷ ioerr_open_too_many_files ∷ locked_lock ∷ locked_unlock ∷ locked_sharedcache
    ∷ locked_virt ∷ locked_need_wait ∷ locked_resource_deleted ∷ busy_recovery ∷ busy_snapshot
    ∷ busy_timeout ∷ cantopen_notempdir ∷ cantopen_isdir ∷ cantopen_fullpath ∷ cantopen_convpath
    ∷ cantopen_dirtywal ∷ cantopen_symlink ∷ readonly_recovery ∷ readonly_cantlock
    ∷ readonly_rollback ∷ readonly_dbmoved ∷ readonly_cantinit ∷ readonly_directory ∷ abort_rollback
    ∷ constraint_check ∷ constraint_commithook ∷ constraint_foreignkey ∷ constraint_function
    ∷ constraint_notnull ∷ constraint_primarykey ∷ constraint_trigger ∷ constraint_unique
    ∷ constraint_virt ∷ constraint_rowid ∷ constraint_pinned ∷ notice_recover_wal
    ∷ notice_recover_rollback ∷ notice_autoindex ∷ auth_user ∷ []

find_code : (Rc → Bool) → List Rc → Option Rc
find_code p [] = none
find_code p (r ∷ rs) = if p r then some r else find_code p rs

find_code-code : (r : Rc) → find_code (λ s. code s == code r) all_codes ≡ some r
unfolding find_code code
find_code-code success = refl
find_code-code _ = refl

find_code-strrc : (r : Rc) → find_code (λ s. str_eq (strrc s) (strrc r)) all_codes ≡ some r
unfolding find_code strrc
find_code-strrc success = refl
find_code-strrc _ = refl

-- No two return codes share a number, and no two share a name.
pub code-strrc-injective : (r s : Rc) → (code r ≡ code s → r ≡ s) × (strrc r ≡ strrc s → r ≡ s)
code-strrc-injective r s = (
  λ e. cc (find_code-code r, find_code-code s, ap (λ n. find_code (λ t. code t == n) all_codes) e),
  λ e. cc (
    find_code-strrc r,
    find_code-strrc s,
    ap (λ n. find_code (λ t. str_eq (strrc t) n) all_codes) e,
  ),
)
