-- ===== src/SqliteWriter/Program.antt =====
-- A writer in a program: calls of its functions from any thread, each under the lock, and rounds of
-- the commit thread, in any order.
pub mod Batched
pub mod Ordered
pub mod Log
pub mod Tests
pub mod Closed
pub mod Owned
pub mod Released
pub mod Texts
pub mod ReadOnly
use sqlitewrite.Base.{ℕ, ◌≡◌, Bool, true, List}
use sqlitewrite.Base.Exec.{ok}
use sqlitewrite.Text.{Text}
use sqlitewrite.Text.Dict.{Dict}
use sqlitewrite.Value.{Var}
use sqlitewrite.Sqlite.{Engine}
use sqlitewrite.MiniSqlite.Lifetime.{Flag}
use sqlitewrite.SqliteWriter.Writer.{Writer}
use sqlitewrite.SqliteWriter.Insert.{Values, add_value_generic}
use sqlitewrite.SqliteWriter.Query.{query_gen}
use sqlitewrite.SqliteWriter.Lifetime.{construct, new_writer, thread_round}

-- What happens to a writer. An exception that reaches the caller leaves the writer usable. One in
-- the commit thread ends the process, so only rounds that return are steps.
pub data Step (e : Engine) : Writer → Writer → Type 0 where
  add_value :
      (w : Writer) (table : Text) (values : Values) (replace : Bool)
      → Step e w (add_value_generic e table values replace w).1
  query :
      (w : Writer) (q : Text) (values : List Var) (msec : ℕ)
      → Step e w (query_gen e q values msec w).1
  round :
      (w : Writer) (n : ℕ)
      → w.thread ≡ true
      → (thread_round e n w).0 ≡ ok tt
      → Step e w (thread_round e n w).1

-- The states of a writer that was constructed.
pub data Reach (e : Engine) (fname : Text) (meta : Dict (Dict Text)) (flag : Flag)
    : Writer → Type 0 where
  start :
      (construct e fname meta flag (new_writer flag)).0 ≡ ok tt
      → Reach e fname meta flag (construct e fname meta flag (new_writer flag)).1
  next : {w w' : Writer} → Reach e fname meta flag w → Step e w w' → Reach e fname meta flag w'
