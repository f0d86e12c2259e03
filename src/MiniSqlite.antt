-- ===== src/MiniSqlite.antt =====
-- `class MiniSQLite` (sqlwriter.hh, sqlwriter.cc): a connection, its schema queries, its prepared
-- statements, and its transactions.
pub mod Alive
pub mod Owned
pub mod Db
pub mod Names
pub mod Schema
pub mod Deadline
pub mod Statement
pub mod Lifetime
pub mod Frame
pub mod Prepare
pub mod Calls
pub mod Execution
pub mod TimeLimit
pub mod QuotedNames
pub mod RowValues
pub mod Returns
pub mod Tests
pub mod Sorted
pub mod Words
pub mod Known
