-- ===== src/Lib.antt =====
-- A verification library for two parts of vsql: the runtime of SQL-client modules, which is the C code
-- that vsql compiles into a module (vsql/*.c) and whose procedures execute the statements of embedded
-- SQL through the SQL/CLI, and, at the other end, the database file of the engine (vsql/*.v): its
-- write-ahead log, its pages, and what transactions see of them.
--
-- The parts and how they interact. Most procedures call vsql_m_begin and then one function of
-- the runtime; those of GET DESCRIPTOR and SET DESCRIPTOR VALUE call more, and that of GET DIAGNOSTICS
-- does not call vsql_m_begin. The functions share the SQL-agent: its environment, its linked list of
-- SQL-connections, the current one and the first diagnostics area. A condition is raised by
-- vsql_m_status or vsql_m_diag, which set the status parameter too. GET DIAGNOSTICS sets the status
-- parameter alone, by vsql_m_sqlstate, and leaves the area. The cursors, prepared statements and SQL
-- descriptor areas of a module belong to an SQL-connection, and go with it.
--
-- Behind the CLI, a statement of the engine fetches pages from the pager, changes their objects, and
-- stores them in the pager again. wal_commit writes the changed pages to the log and then to the
-- database file, and wal_recover does the latter again when a process has stopped. An object has the
-- transaction that created it and the one that expired it, and the transactions that are active decide
-- who sees it.
--
--   Runtime, Cli, Action   the structs of std_2_13_1_sql_client_module_definition.c, the CLI of
--                          libvsql/libvsql.h, and actions on the state
--   Agent                  the agent that modules share (std_2_13_1)
--   Diagnostics            the diagnostics area (std_2_13_1, std_2_23_1, std_2_21_2)
--   Session, Connect       SQL-connections, vsql_m_close to vsql_m_disconnect (std_2_13_1)
--   Statement              binding, executing, transactions (std_2_13_1)
--   Text.Name              vsql_m_name (std_2_13_1)
--   Text.Put, Target       CHARACTER targets and rows (std_2_14_7_select_statement_single_row.c)
--   Cursor                 cursors (std_2_14_1_declare_cursor.c)
--   Text.Scan              vsql_m_scan (std_2_20_1_description_of_sql_descriptor_areas.c)
--   Descriptor, Item       SQL descriptor areas and their items (std_2_20_1)
--   Prepared, Using,       prepared statements, using clauses and the statements of dynamic SQL
--   Dynamic                (std_2_20_7_prepare_statement.c)
--   Program                the statements that are one function of the runtime, and the states that a
--                          program reaches
--   Program.Procedures     GET DESCRIPTOR, SET DESCRIPTOR VALUE and GET DIAGNOSTICS
--                          (vsql/std_2_20_1_description_of_sql_descriptor_areas.v,
--                          vsql/std_2_23_1_get_diagnostics_statement.v), and the checks of host
--                          parameters
--   Agreement, Sound       the lemmas that each statement has for the invariants of Program
--   Storage.Wal, Commit    the log, wal_commit, wal_checkpoint and wal_recover (vsql/wal.v)
--   Storage.Disk           the files on the disk, and a process that stops in the middle of them
--   Storage.Pager          FilePager and the pages that it keeps in memory (vsql/pager.v)
--   Storage.Page           objects, and the operations on the bytes of a page (vsql/page.v); what a
--                          write (vsql/btree.v), COMMIT and ROLLBACK
--                          (vsql/std_2_17_7_commit_statement.v, vsql/std_2_17_8_rollback_statement.v)
--                          do to it, and what is read from it (vsql/storage.v)
--   Storage.Mvcc           the active transactions, and object_is_visible (vsql/mvcc.v)
--   Storage.Numbers        numbers in bytes (vsql/bytes.v)
--   Tests                  runs at concrete inputs
--
-- How the code is read. A function that changes the state is an `Action`: it takes the module and the
-- state, and returns a result and the state. A linked list is a List; a pointer to an SQL-connection
-- is its address, a number that is not used again, and a pointer that may be NULL is an Option. A
-- handle is a number, and SQL_NULL_HANDLE in the slot of a cursor is `none`. Strings are their bytes
-- before the null character. The CLI, and malloc, calloc and realloc, are a parameter: a function of
-- the calls so far, of which nothing is assumed. SQLINTEGER conversions
-- wrap around (`narrow`); a return code and a size are numbers without a bound.
--
-- In the engine, an operation on a page is a function to a Result: the page, SQLSTATE 40001, or a
-- panic, which an access outside of the bytes of a page is. A V map is an association list in the order
-- of its keys. The operations of wal_commit on the disk are a list, of which a process does the first
-- ones and maybe a part of the next one (Storage.Disk.crash). The operations of the operating system
-- succeed, and reach the disk in their order. The salt of the log and the bytes of the header of the
-- database file are parameters. sort_with_compare keeps equal keys in their order. An offset into a
-- page or into the log has no bound: in wal_read, the end of a frame is not above 2^31 - 1, which holds
-- unless the length of a frame is damaged. Reading from an empty log is an error. The file of a pager
-- is the same until the pager discards what it keeps, and may be another one after that.
--
-- Bounds and fuel. The scan of a text has its length as fuel, since a round takes at least one byte
-- (Text.Scan.Rounds). The loop that closes the SQL-connections has as many rounds as there are of
-- them, since a round takes the first one out of the list (Session.Closed). The loops over a value in
-- pieces, which go on as long as the CLI says that there is more, stop at `pieces`, a field of Module.
-- wal_read has the length of the log as fuel, since a frame has at least 16 bytes, and Page.objects one
-- more than the bytes in use, since an object has at least 23 bytes.
--
-- Agent stands beside the other parts, which start from the agent that a module has found.
--
-- Not modelled: memory that is freed, the routines of the CLI, and the compiler that generates the
-- procedures. A copy of a string that has no memory is `none`, except for COMMAND_FUNCTION and
-- DYNAMIC_FUNCTION, which are arrays. Of the engine (V code): the parser, the planner, execution, values,
-- blobs, the search for a page and its split in the B-tree, a transaction on more than one page, the
-- header of the file, locks, MemoryPager, and the faults that tests arm in the log.
pub mod Base
pub mod Text
pub mod Cli
pub mod Item
pub mod Runtime
pub mod Action
pub mod Diagnostics
pub mod Session
pub mod Connect
pub mod Statement
pub mod Target
pub mod Cursor
pub mod Descriptor
pub mod Prepared
pub mod Using
pub mod Dynamic
pub mod Agreement
pub mod Sound
pub mod Agent
pub mod Storage
pub mod Program
pub mod Tests
