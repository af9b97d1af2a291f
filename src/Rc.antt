-- ===== src/Rc.antt =====
-- src/observer/rc.h and src/observer/rc.cpp: the return codes, their numbers and their names. The
-- constructor of RECORD is `record_failed`, since `record` is a reserved word.

pub mod Codes
mod Tests
use Prim.Native.Nat.{bit_or}
use Prim.Native.String.{String}
use oceanbase.Base.{Bool, true, false, ℕ, ◌*◌, ◌^◌}

pub data Rc : Type 0 where
  success generic_error invalid_argument sql_syntax bufferpool record_failed internal perm : Rc
  abort busy locked nomem readonly interrupt ioerr corrupt notfound full cantopen protocol : Rc
  empty schema toobig constraint mismatch misuse nolfs auth format range notadb notice : Rc
  bufferpool_exist bufferpool_fileerr bufferpool_invalidname bufferpool_windows : Rc
  bufferpool_closed bufferpool_open bufferpool_nobuf bufferpool_eof : Rc
  bufferpool_invalid_page_num bufferpool_notinbuf bufferpool_page_pinned : Rc
  bufferpool_open_too_many_files bufferpool_illegal_file_id record_closed record_openned : Rc
  record_invalidrecsize record_invalidrid record_nomorerecinmem record_open : Rc
  record_no_more_idx_in_mem record_invalid_key record_duplicate_key record_nomem : Rc
  record_scanclosed record_scanopenned record_eof record_record_not_exist schema_db_exist : Rc
  schema_db_not_exist schema_db_not_opened schema_table_not_exist schema_table_exist : Rc
  schema_table_name_illegal schema_field_not_exist schema_field_exist : Rc
  schema_field_name_illegal schema_field_missing schema_field_redundan : Rc
  schema_field_type_mismatch schema_index_name_repeat schema_index_exist : Rc
  schema_index_not_exist schema_index_name_illegal ioerr_read ioerr_short_read ioerr_write : Rc
  ioerr_fsync ioerr_dir_fsync ioerr_truncate ioerr_fstat ioerr_delete ioerr_blocked : Rc
  ioerr_access ioerr_checkreservedlock ioerr_close ioerr_dir_close ioerr_shmopen : Rc
  ioerr_shmsize ioerr_shmlock ioerr_shmmap ioerr_seek ioerr_delete_noent ioerr_mmap : Rc
  ioerr_gettemppath ioerr_convpath ioerr_vnode ioerr_begin_atomic ioerr_commit_atomic : Rc
  ioerr_rollback_atomic ioerr_data ioerr_corruptfs ioerr_open_too_many_files locked_lock : Rc
  locked_unlock locked_sharedcache locked_virt locked_need_wait locked_resource_deleted : Rc
  busy_recovery busy_snapshot busy_timeout cantopen_notempdir cantopen_isdir : Rc
  cantopen_fullpath cantopen_convpath cantopen_dirtywal cantopen_symlink readonly_recovery : Rc
  readonly_cantlock readonly_rollback readonly_dbmoved readonly_cantinit readonly_directory : Rc
  abort_rollback constraint_check constraint_commithook constraint_foreignkey : Rc
  constraint_function constraint_notnull constraint_primarykey constraint_trigger : Rc
  constraint_unique constraint_virt constraint_rowid constraint_pinned notice_recover_wal : Rc
  notice_recover_rollback notice_autoindex auth_user : Rc

-- (CLASS | (DETAIL << 8)) of the enumeration
detail : ℕ → ℕ → ℕ
detail family number = bit_or family (number * 2 ^ 8)

-- The number of a code.
pub code : Rc → ℕ
unfolding detail
code success = 0
code generic_error = 1
code invalid_argument = 2
code sql_syntax = 3
code bufferpool = 4
code record_failed = 5
code internal = 6
code perm = 7
code abort = 8
code busy = 9
code locked = 10
code nomem = 11
code readonly = 12
code interrupt = 13
code ioerr = 14
code corrupt = 15
code notfound = 16
code full = 17
code cantopen = 18
code protocol = 19
code empty = 20
code schema = 21
code toobig = 22
code constraint = 23
code mismatch = 24
code misuse = 25
code nolfs = 26
code auth = 27
code format = 28
code range = 29
code notadb = 30
code notice = 100
code bufferpool_exist = detail 4 1
code bufferpool_fileerr = detail 4 2
code bufferpool_invalidname = detail 4 3
code bufferpool_windows = detail 4 4
code bufferpool_closed = detail 4 5
code bufferpool_open = detail 4 6
code bufferpool_nobuf = detail 4 7
code bufferpool_eof = detail 4 8
code bufferpool_invalid_page_num = detail 4 9
code bufferpool_notinbuf = detail 4 10
code bufferpool_page_pinned = detail 4 11
code bufferpool_open_too_many_files = detail 4 12
code bufferpool_illegal_file_id = detail 4 13
code record_closed = detail 5 1
code record_openned = detail 5 2
code record_invalidrecsize = detail 5 3
code record_invalidrid = detail 5 4
code record_nomorerecinmem = detail 5 5
code record_open = detail 5 6
code record_no_more_idx_in_mem = detail 5 7
code record_invalid_key = detail 5 8
code record_duplicate_key = detail 5 9
code record_nomem = detail 5 10
code record_scanclosed = detail 5 11
code record_scanopenned = detail 5 12
code record_eof = detail 5 13
code record_record_not_exist = detail 5 14
code schema_db_exist = detail 21 1
code schema_db_not_exist = detail 21 2
code schema_db_not_opened = detail 21 3
code schema_table_not_exist = detail 21 4
code schema_table_exist = detail 21 5
code schema_table_name_illegal = detail 21 6
code schema_field_not_exist = detail 21 7
code schema_field_exist = detail 21 8
code schema_field_name_illegal = detail 21 9
code schema_field_missing = detail 21 10
code schema_field_redundan = detail 21 11
code schema_field_type_mismatch = detail 21 12
code schema_index_name_repeat = detail 21 13
code schema_index_exist = detail 21 14
code schema_index_not_exist = detail 21 15
code schema_index_name_illegal = detail 21 16
code ioerr_read = detail 14 1
code ioerr_short_read = detail 14 2
code ioerr_write = detail 14 3
code ioerr_fsync = detail 14 4
code ioerr_dir_fsync = detail 14 5
code ioerr_truncate = detail 14 6
code ioerr_fstat = detail 14 7
code ioerr_delete = detail 14 8
code ioerr_blocked = detail 14 9
code ioerr_access = detail 14 10
code ioerr_checkreservedlock = detail 14 11
code ioerr_close = detail 14 12
code ioerr_dir_close = detail 14 13
code ioerr_shmopen = detail 14 14
code ioerr_shmsize = detail 14 15
code ioerr_shmlock = detail 14 16
code ioerr_shmmap = detail 14 17
code ioerr_seek = detail 14 18
code ioerr_delete_noent = detail 14 19
code ioerr_mmap = detail 14 20
code ioerr_gettemppath = detail 14 21
code ioerr_convpath = detail 14 22
code ioerr_vnode = detail 14 23
code ioerr_begin_atomic = detail 14 24
code ioerr_commit_atomic = detail 14 25
code ioerr_rollback_atomic = detail 14 26
code ioerr_data = detail 14 27
code ioerr_corruptfs = detail 14 28
code ioerr_open_too_many_files = detail 14 29
code locked_lock = detail 10 1
code locked_unlock = detail 10 2
code locked_sharedcache = detail 10 3
code locked_virt = detail 10 4
code locked_need_wait = detail 10 5
code locked_resource_deleted = detail 10 6
code busy_recovery = detail 9 1
code busy_snapshot = detail 9 2
code busy_timeout = detail 9 3
code cantopen_notempdir = detail 18 1
code cantopen_isdir = detail 18 2
code cantopen_fullpath = detail 18 3
code cantopen_convpath = detail 18 4
code cantopen_dirtywal = detail 18 5
code cantopen_symlink = detail 18 6
code readonly_recovery = detail 12 1
code readonly_cantlock = detail 12 2
code readonly_rollback = detail 12 3
code readonly_dbmoved = detail 12 4
code readonly_cantinit = detail 12 5
code readonly_directory = detail 12 6
code abort_rollback = detail 8 1
code constraint_check = detail 23 1
code constraint_commithook = detail 23 2
code constraint_foreignkey = detail 23 3
code constraint_function = detail 23 4
code constraint_notnull = detail 23 5
code constraint_primarykey = detail 23 6
code constraint_trigger = detail 23 7
code constraint_unique = detail 23 8
code constraint_virt = detail 23 9
code constraint_rowid = detail 23 10
code constraint_pinned = detail 23 11
code notice_recover_wal = detail 100 1
code notice_recover_rollback = detail 100 2
code notice_autoindex = detail 100 3
code auth_user = detail 27 1

-- `strrc`
pub strrc : Rc → String
strrc success = "SUCCESS"
strrc generic_error = "GENERIC_ERROR"
strrc invalid_argument = "INVALID_ARGUMENT"
strrc sql_syntax = "SQL_SYNTAX"
strrc bufferpool = "BUFFERPOOL"
strrc record_failed = "RECORD"
strrc internal = "INTERNAL"
strrc perm = "PERM"
strrc abort = "ABORT"
strrc busy = "BUSY"
strrc locked = "LOCKED"
strrc nomem = "NOMEM"
strrc readonly = "READONLY"
strrc interrupt = "INTERRUPT"
strrc ioerr = "IOERR"
strrc corrupt = "CORRUPT"
strrc notfound = "NOTFOUND"
strrc full = "FULL"
strrc cantopen = "CANTOPEN"
strrc protocol = "PROTOCOL"
strrc empty = "EMPTY"
strrc schema = "SCHEMA"
strrc toobig = "TOOBIG"
strrc constraint = "CONSTRAINT"
strrc mismatch = "MISMATCH"
strrc misuse = "MISUSE"
strrc nolfs = "NOLFS"
strrc auth = "AUTH"
strrc format = "FORMAT"
strrc range = "RANGE"
strrc notadb = "NOTADB"
strrc notice = "NOTICE"
strrc bufferpool_exist = "BUFFERPOOL_EXIST"
strrc bufferpool_fileerr = "BUFFERPOOL_FILEERR"
strrc bufferpool_invalidname = "BUFFERPOOL_INVALIDNAME"
strrc bufferpool_windows = "BUFFERPOOL_WINDOWS"
strrc bufferpool_closed = "BUFFERPOOL_CLOSED"
strrc bufferpool_open = "BUFFERPOOL_OPEN"
strrc bufferpool_nobuf = "BUFFERPOOL_NOBUF"
strrc bufferpool_eof = "BUFFERPOOL_EOF"
strrc bufferpool_invalid_page_num = "BUFFERPOOL_INVALID_PAGE_NUM"
strrc bufferpool_notinbuf = "BUFFERPOOL_NOTINBUF"
strrc bufferpool_page_pinned = "BUFFERPOOL_PAGE_PINNED"
strrc bufferpool_open_too_many_files = "BUFFERPOOL_OPEN_TOO_MANY_FILES"
strrc bufferpool_illegal_file_id = "BUFFERPOOL_ILLEGAL_FILE_ID"
strrc record_closed = "RECORD_CLOSED"
strrc record_openned = "RECORD_OPENNED"
strrc record_invalidrecsize = "RECORD_INVALIDRECSIZE"
strrc record_invalidrid = "RECORD_INVALIDRID"
strrc record_nomorerecinmem = "RECORD_NOMORERECINMEM"
strrc record_open = "RECORD_OPEN"
strrc record_no_more_idx_in_mem = "RECORD_NO_MORE_IDX_IN_MEM"
strrc record_invalid_key = "RECORD_INVALID_KEY"
strrc record_duplicate_key = "RECORD_DUPLICATE_KEY"
strrc record_nomem = "RECORD_NOMEM"
strrc record_scanclosed = "RECORD_SCANCLOSED"
strrc record_scanopenned = "RECORD_SCANOPENNED"
strrc record_eof = "RECORD_EOF"
strrc record_record_not_exist = "RECORD_RECORD_NOT_EXIST"
strrc schema_db_exist = "SCHEMA_DB_EXIST"
strrc schema_db_not_exist = "SCHEMA_DB_NOT_EXIST"
strrc schema_db_not_opened = "SCHEMA_DB_NOT_OPENED"
strrc schema_table_not_exist = "SCHEMA_TABLE_NOT_EXIST"
strrc schema_table_exist = "SCHEMA_TABLE_EXIST"
strrc schema_table_name_illegal = "SCHEMA_TABLE_NAME_ILLEGAL"
strrc schema_field_not_exist = "SCHEMA_FIELD_NOT_EXIST"
strrc schema_field_exist = "SCHEMA_FIELD_EXIST"
strrc schema_field_name_illegal = "SCHEMA_FIELD_NAME_ILLEGAL"
strrc schema_field_missing = "SCHEMA_FIELD_MISSING"
strrc schema_field_redundan = "SCHEMA_FIELD_REDUNDAN"
strrc schema_field_type_mismatch = "SCHEMA_FIELD_TYPE_MISMATCH"
strrc schema_index_name_repeat = "SCHEMA_INDEX_NAME_REPEAT"
strrc schema_index_exist = "SCHEMA_INDEX_EXIST"
strrc schema_index_not_exist = "SCHEMA_INDEX_NOT_EXIST"
strrc schema_index_name_illegal = "SCHEMA_INDEX_NAME_ILLEGAL"
strrc ioerr_read = "IOERR_READ"
strrc ioerr_short_read = "IOERR_SHORT_READ"
strrc ioerr_write = "IOERR_WRITE"
strrc ioerr_fsync = "IOERR_FSYNC"
strrc ioerr_dir_fsync = "IOERR_DIR_FSYNC"
strrc ioerr_truncate = "IOERR_TRUNCATE"
strrc ioerr_fstat = "IOERR_FSTAT"
strrc ioerr_delete = "IOERR_DELETE"
strrc ioerr_blocked = "IOERR_BLOCKED"
strrc ioerr_access = "IOERR_ACCESS"
strrc ioerr_checkreservedlock = "IOERR_CHECKRESERVEDLOCK"
strrc ioerr_close = "IOERR_CLOSE"
strrc ioerr_dir_close = "IOERR_DIR_CLOSE"
strrc ioerr_shmopen = "IOERR_SHMOPEN"
strrc ioerr_shmsize = "IOERR_SHMSIZE"
strrc ioerr_shmlock = "IOERR_SHMLOCK"
strrc ioerr_shmmap = "IOERR_SHMMAP"
strrc ioerr_seek = "IOERR_SEEK"
strrc ioerr_delete_noent = "IOERR_DELETE_NOENT"
strrc ioerr_mmap = "IOERR_MMAP"
strrc ioerr_gettemppath = "IOERR_GETTEMPPATH"
strrc ioerr_convpath = "IOERR_CONVPATH"
strrc ioerr_vnode = "IOERR_VNODE"
strrc ioerr_begin_atomic = "IOERR_BEGIN_ATOMIC"
strrc ioerr_commit_atomic = "IOERR_COMMIT_ATOMIC"
strrc ioerr_rollback_atomic = "IOERR_ROLLBACK_ATOMIC"
strrc ioerr_data = "IOERR_DATA"
strrc ioerr_corruptfs = "IOERR_CORRUPTFS"
strrc ioerr_open_too_many_files = "IOERR_OPEN_TOO_MANY_FILES"
strrc locked_lock = "LOCKED_LOCK"
strrc locked_unlock = "LOCKED_UNLOCK"
strrc locked_sharedcache = "LOCKED_SHAREDCACHE"
strrc locked_virt = "LOCKED_VIRT"
strrc locked_need_wait = "LOCKED_NEED_WAIT"
strrc locked_resource_deleted = "LOCKED_RESOURCE_DELETED"
strrc busy_recovery = "BUSY_RECOVERY"
strrc busy_snapshot = "BUSY_SNAPSHOT"
strrc busy_timeout = "BUSY_TIMEOUT"
strrc cantopen_notempdir = "CANTOPEN_NOTEMPDIR"
strrc cantopen_isdir = "CANTOPEN_ISDIR"
strrc cantopen_fullpath = "CANTOPEN_FULLPATH"
strrc cantopen_convpath = "CANTOPEN_CONVPATH"
strrc cantopen_dirtywal = "CANTOPEN_DIRTYWAL"
strrc cantopen_symlink = "CANTOPEN_SYMLINK"
strrc readonly_recovery = "READONLY_RECOVERY"
strrc readonly_cantlock = "READONLY_CANTLOCK"
strrc readonly_rollback = "READONLY_ROLLBACK"
strrc readonly_dbmoved = "READONLY_DBMOVED"
strrc readonly_cantinit = "READONLY_CANTINIT"
strrc readonly_directory = "READONLY_DIRECTORY"
strrc abort_rollback = "ABORT_ROLLBACK"
strrc constraint_check = "CONSTRAINT_CHECK"
strrc constraint_commithook = "CONSTRAINT_COMMITHOOK"
strrc constraint_foreignkey = "CONSTRAINT_FOREIGNKEY"
strrc constraint_function = "CONSTRAINT_FUNCTION"
strrc constraint_notnull = "CONSTRAINT_NOTNULL"
strrc constraint_primarykey = "CONSTRAINT_PRIMARYKEY"
strrc constraint_trigger = "CONSTRAINT_TRIGGER"
strrc constraint_unique = "CONSTRAINT_UNIQUE"
strrc constraint_virt = "CONSTRAINT_VIRT"
strrc constraint_rowid = "CONSTRAINT_ROWID"
strrc constraint_pinned = "CONSTRAINT_PINNED"
strrc notice_recover_wal = "NOTICE_RECOVER_WAL"
strrc notice_recover_rollback = "NOTICE_RECOVER_ROLLBACK"
strrc notice_autoindex = "NOTICE_AUTOINDEX"
strrc auth_user = "AUTH_USER"

-- rc == RC::SUCCESS
abbrev pub is_success : Rc → Bool
is_success success = true
is_success _ = false
