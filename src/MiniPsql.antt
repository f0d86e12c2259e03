-- ===== src/MiniPsql.antt =====
-- `class MiniPSQL` (minipsql.hh, minipsql.cc): a connection to PostgreSQL. The library libpq is a
-- parameter, as SQLite is for `MiniSQLite`.
pub mod Db
pub mod Schema
pub mod Statement
pub mod Bound
pub mod Tests
pub mod Rows
pub mod Turn
pub mod Frame
pub mod Cleared
pub mod Requests
pub mod Returns
