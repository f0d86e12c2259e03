-- ===== src/SqliteWriter.antt =====
-- `class SQLiteWriter` (sqlwriter.hh, sqlwriter.cc): typed rows into tables that grow as needed,
-- batched in transactions; and queries.
pub mod Writer
pub mod Insert
pub mod Query
pub mod Lifetime
pub mod Spec
pub mod Frame
pub mod Loop
pub mod Cache
pub mod CacheKept
pub mod RowCalls
pub mod Signature
pub mod Row
pub mod Columns
pub mod Steady
pub mod Turn
pub mod Program
pub mod Returns
pub mod Answer
pub mod Known
pub mod Tests
pub mod Lives
pub mod Follows
pub mod Typed
