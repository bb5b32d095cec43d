-- ===== src/Lib.antt =====
-- Kitchen Sync makes the tables of one database (the 'to' end) equal to those of another (the 'from'
-- end), sending hashes of ranges of rows to find the ranges that differ. Source files are named by
-- their paths from the repository's root.
--
-- The parts and their files:
-- - Table: what the queries of a range of keys return at either end (src/query_functions.h,
--   src/sql_functions.h, src/row_serialization.h). A key is a position in the order that the
--   database gives the primary key, counted from 1, and 0 is the empty key of the code.
-- - Sync: one table's job and what the 'to' end does when it sends and receives a hash
--   (src/sync_to_algorithm.h, src/sync_queue.h), and the answers of the 'from' end
--   (src/sync_from.h). Sync/Range is the start of a table, Sync/Run the steps of any number of
--   workers, in any order in which commands can be sent, answered and applied, and Sync/Loop what
--   a worker does next. A worker that does not write sees what is committed; Sync/Committed says
--   what is asked of that, and Sync/Range/Views when it is so: for the writer alone, and for others
--   where the target had no row before the source's first. Where it had, workers that read what is
--   committed can ask for rows of a range before all the source's, and the table is emptied.
-- - Replacer: the rows to delete and to insert, batched in statements (src/row_replacer.h,
--   src/unique_key_clearer.h, src/base_sql.h).
-- - Applier: making a range of the target's rows what a response holds (src/row_range_applier.h),
--   by comparing the rows received with those of the target and applying the differences.
-- - Schema: tables, columns and keys (src/schema.h, src/column_types.h) and what is done to make the
--   target's tables like the source's (src/schema_matcher.h). Schema/PrimaryKey chooses the key by which
--   a table without a primary key is compared (src/substitute_primary_key.h). Texts of statements and
--   clauses are kept as what they do.
-- - MessagePack: the encoding of what the ends send each other and of the rows that are hashed
--   (src/message_pack). Copying and skipping an object recurse on fuel; the length of the stream
--   is enough, as each object has a byte of its own.
-- - Rows: the batches in which the 'from' end sends the rows of a range (src/sync_from.h).
-- - Subdivision: the estimate of a key halfway between two keys (src/subdivision.cpp,
--   src/basic_uint128_t.h).
-- - Session: how the two ends agree on a protocol version and prepare to read the tables
--   (src/sync_to.h, src/sync_from.h). What the database has for the accepted types is a parameter.
-- - Filters: what a user's filters do to the tables (src/filters.cpp).
-- - SyncQueue: the queue from which the workers take and borrow their tables (src/sync_queue.h).
-- - DbUrl: the URL of a database (src/db_url.cpp).
-- - Barrier: where the workers meet (src/abortable_barrier.h, src/abortable_barrier.cpp).
--
-- The digest is a parameter: what is shown of it needs that no two inputs have the same digest, as
-- the program assumes of its hashes. The choice of a midpoint between two keys is a parameter too.
-- Keys, row counts and counters are natural numbers; products of counts wrap at 64 bits.
--
-- In the steps of Sync a response to the ROWS command replaces the target's rows in its range at once,
-- or removes all of the table for a range without a start that the source has no rows in; Applier models
-- how it comes to that. Replacer and Applier take a table whose one unique key is its
-- primary key, whose columns are not NULL; statements are kept as lists, with the lengths of their
-- texts. Batches of the comparison recurse on fuel, one for each key that is left and one more.
--
-- Not modelled: the databases themselves, pipes and processes, rows that secondary unique keys of the
-- target displace, and tables without a usable key.
pub mod Applier
pub mod Barrier
pub mod Common
pub mod DbUrl
pub mod Filters
pub mod MessagePack
pub mod Replacer
pub mod Rows
pub mod Schema
pub mod Session
pub mod Subdivision
pub mod Sync
pub mod SyncQueue
pub mod Table
