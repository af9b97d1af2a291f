-- ===== src/Lib.antt =====
-- The storage engine of the observer, the database server of this repository, and the join, sort
-- and aggregation of its results: a model of the code, definition by definition, and what is
-- proved about it.
--
-- A table's records lie in pages of one file. A page starts with a header and a bitmap of the
-- slots in use, then come the slots. The buffer pool loads pages into a fixed set of frames, pins
-- them while they are used, and writes dirty ones back. A transaction stamps the records that it
-- inserts or deletes with its number, and its end goes over these records again. Every operation
-- gives back a return code. The files:
--
-- - Base: names that the parts share. Memory holds byte arrays with memcpy and memset, First the
--   search for the first index that passes a test, Table a check of a test on all numbers below a
--   bound.
-- - Rc: src/observer/rc.h and rc.cpp, the return codes and strrc.
-- - Bitmap: deps/common/lang/bitmap.cpp. A bitmap is a memory of bytes, and -1 is none. Search
--   goes through the bytes, Bits is about single bits, Next about both searches.
-- - RecordPage: RecordPageHandler of src/observer/storage/common/record_manager.cpp, on the
--   memory of one page behind its header, bitmap and slots at the addresses that the code
--   computes. Layout is about these addresses; Count, Invariant, Records, Update and Scan are
--   about the operations.
-- - BufferPool: DiskBufferPool of src/observer/storage/default/disk_buffer_pool.cpp. Files is the
--   interface of the operating system; Blocks is about allocate_block, Pins about get_this_page,
--   Release about flush_all_pages, Dispose about dispose_page.
-- - Trx: src/observer/storage/trx/trx.cpp, with insert_record, commit_insert, rollback_insert,
--   commit_delete and rollback_delete of src/observer/storage/common/table.cpp. Words is about
--   the stamp of a record, Sets about the recorded operations, Finish about commit and rollback,
--   Insert and Own about whole transactions.
-- - Table: src/observer/storage/common/table.cpp, records with the entries of their indexes.
--   Insertion is about insertions and indexes that refuse them, Scanning about scan_record.
-- - TableMeta: TableMeta::init of src/observer/storage/common/table_meta.cpp, FieldMeta::init of
--   field_meta.cpp and make_record of table.cpp, the columns of a record. Layout is about their
--   offsets, Copied about the loop that copies values, Texts about TEXTS fields, Stored about
--   make_record.
-- - Tuples: src/observer/sql/executor/tuple.cpp with value.h, the order of the tuples of a
--   result. Compare is about tuple_cmp, tuple_compare and IntValue, Columns about the columns to
--   order by, Bubble about the sort of order_by.
-- - Dates: value_init_dates of src/observer/sql/parser/parse.cpp, check_dates of
--   src/observer/storage/common/table.cpp and int_to_char of src/observer/sql/executor/tuple.cpp.
--   Calendar is about check_dates, Printed about dates printed and read.
-- - Groups: src/observer/sql/executor/tuple.cpp, group_by. Ids is about the numbers of the
--   groups, Aggregates about the aggregation functions, Rows about the new tuples.
-- - Select: src/observer/sql/executor/execute_stage.cpp, the join of tables. Product is about
--   dfs_cartesian, Arbiters about conditions between tables, Steps and Join about the loop over
--   the tables, Scopes about Resolve_Attr_Scope.
-- - Filter: src/observer/storage/common/condition_filter.cpp. Strings is about strcmp, Compare
--   about the filter of one condition.
-- - Pages: what record files and indexes see of the buffer pool: the pages of one file with their
--   contents and pin counts, and operations that end with a value or a code. It stands for the
--   pool of BufferPool and is not derived from it. Laws is about requests for pages that are in
--   use, which the pool may refuse.
-- - Bplus: src/observer/storage/common/bplus_tree.cpp with bplus_tree.h, BplusTreeHandler and
--   BplusTreeScanner. Compare is CompareKey, Create is create, Find has the searches, Insert and
--   Delete the changes, Scanner the scan of an index, with one function for each method and one
--   for what it does to a node. Order is about keys, Arrays about the loops over the arrays of a
--   node, Entries and Paths say what a sorted node and a tree of pages are. Find/Route and
--   Find/Descent are about find_leaf, Find/Lookup about get_entry; Insert/Inserted, Insert/Leaf,
--   Insert/Split, Insert/Halves and Insert/Room about insertion; Delete/Entry, Delete/Merge,
--   Delete/Neighbours and Delete/Plenty about deletion; Scanner/NextEntry about next_entry.
-- - RecordFile: RecordFileHandler and RecordFileScanner of
--   src/observer/storage/common/record_manager.cpp, over Pages. Moves is about the handle that
--   goes from page to page, Scan about the rest of a page, NextRecord about the loop over the
--   pages.
-- - The modules named Tests hold runs at concrete inputs and the theorems applied to them.
--
-- Numbers are natural numbers; a wrap-around of 32 bits is written as a remainder where the code
-- counts in an int or unsigned int that can wrap. Bytes are numbers below 256. A pointer into a
-- page is an address in its memory, and a pointer to a frame is the index of the frame. Undefined
-- behaviour is none where it can occur.
--
-- The values of tuples are an interface, whose laws are those of an order, and IntValue of 31
-- bits is one of them; the attributes of an index are values of the same interface, and
-- CompareKey on ints is another one. The operating system is a parameter of the pool: seeks,
-- reads and writes of whole pages may each fail, and what succeeds moves the bytes of one page.
-- The time is an argument of each operation of the pool. Loops over frames take the number of
-- frames as their rounds, and the loops of the bitmap the number of bytes that the code goes
-- through, the sort the rounds of its two loops, strcmp 4096 rounds, which is the size of a page,
-- so no loop stops early; the theorem on strings asks for one string that ends before them;
-- scan_page, the caller's loop over a page, takes rounds that exceed the number of slots. The
-- operations on a B+ tree take the rounds of their way down and up, for which any number greater
-- than the height of the tree is enough; out_of_rounds is told apart from every code. A scan of a
-- file takes rounds for the slots of the pages that are left, and two more for each page.
--
-- The arithmetic of floats is an interface, Floats, without laws. Log output is left out. Not
-- modelled: opening and closing files and indexes, creating the files of tables, metadata as
-- JSON, the grammar, statements other than SELECT over several tables, sessions, the network and
-- the library of helpers.
mod Base
pub mod Rc
pub mod Bitmap
pub mod RecordPage
pub mod BufferPool
pub mod Trx
pub mod Table
pub mod TableMeta
pub mod Dates
pub mod Tuples
pub mod Groups
pub mod Select
pub mod Filter
pub mod Pages
pub mod Bplus
pub mod RecordFile
