-- ===== src/SqliteWriter/Writer.antt =====
-- The members of a `SQLiteWriter`. Each public member function holds `d_mutex` from its first access
-- to its last, so a call is one step of the whole program.
use sqlitewrite.Base.{Bool, List}
use sqlitewrite.Base.Exec.{Exec}
use sqlitewrite.Text.{Text}
use sqlitewrite.Text.Dict.{Dict}
use sqlitewrite.MiniSqlite.Db.{Db}
use sqlitewrite.MiniSqlite.Schema.{Columns}
use sqlitewrite.MiniSqlite.Lifetime.{Flag}

-- `thread` says whether the commit thread runs.
pub record Writer : Type 0 where
  pub db : Db
  pub flag : Flag
  pub columns : Dict Columns
  pub lastsig : Dict (List Text)
  pub lastreplace : Dict Bool
  pub meta : Dict (Dict Text)
  pub please_quit : Bool
  pub thread : Bool

-- A member function of `d_db`.
unfoldable pub on_db : {A : Type 0} → Exec Db A → Exec Writer A
on_db m w = let (r, db') = m w.db in (r, record w { db = db' })
