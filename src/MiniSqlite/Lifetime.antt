-- ===== src/MiniSqlite/Lifetime.antt =====
-- The constructor, the destructor and the transactions of `MiniSQLite`.
use sqlitewrite.Base.{ℕ, true, false, Option, none, some, [], ◌∷◌, ◌++◌, eqb, if◌then◌else◌}
use sqlitewrite.Base.Exec.{Exec, runtime_error, pure, raise, gets, modify, ◌>>=◌, ◌>>◌}
use sqlitewrite.Text.{Text, codes}
use sqlitewrite.Text.Dict.{Dict}
use sqlitewrite.Sqlite.{Stmt, Call, Engine}
use sqlitewrite.MiniSqlite.Db.{Db, send, ask, exec}

-- `enum class SQLWFlag`
pub data Flag : Type 0 where
  no_flag read_only no_transactions : Flag

-- SQLITE_OPEN_READONLY is 1, SQLITE_OPEN_READWRITE is 2 and SQLITE_OPEN_CREATE is 4.
abbrev pub open_flags : Flag → ℕ
open_flags Flag.read_only = 1
open_flags _ = 6

module _ (e : Engine) where
  -- `begin()`
  unfoldable pub begin : Exec Db (Unit {0})
  begin = do modify (λ db. record db { in_transaction = true }); _ ← exec e (codes "begin"); pure tt

  -- `commit()`
  unfoldable pub commit : Exec Db (Unit {0})
  commit = do
    modify (λ db. record db { in_transaction = false })
    _ ← exec e (codes "commit")
    pure tt

  -- `cycle()`
  unfoldable pub cycle : Exec Db (Unit {0})
  cycle = do _ ← exec e (codes "commit;begin"); pure tt

  -- What the constructor does once the file is open.
  unfoldable pub configure : Exec Db (Unit {0})
  configure = do
    send (Call.extended_result_codes true)
    _ ← exec e (codes "PRAGMA journal_mode='wal'")
    _ ← exec e (codes "PRAGMA foreign_keys=ON")
    send Call.no_double_quoted_ddl
    send Call.no_double_quoted_dml
    send (Call.busy_timeout 60000)

  -- The constructor, on a fresh object.
  unfoldable pub open_db : Text → Flag → Exec Db (Unit {0})
  unfolding configure
  open_db fname flag = do
    rc ← ask (Call.open_v2 fname (open_flags flag)) (λ h. e.open_v2 h fname (open_flags flag))
    if eqb rc 0
        then configure
        else raise (runtime_error (codes "Unable to open " ++ (fname ++ codes " for sqlite")))

  -- The loop over `d_stmts` in the destructor, in an order that C++ leaves open.
  unfoldable pub finalize_all : Dict (Option Stmt) → Exec Db (Unit {0})
  finalize_all [] = pure tt
  finalize_all ((_, none) ∷ rest) = finalize_all rest
  finalize_all ((_, some stmt) ∷ rest) = send (Call.finalize stmt) >> finalize_all rest

  -- The destructor. An exception that `commit` throws here ends the process.
  unfoldable pub destroy_db : Exec Db (Unit {0})
  unfolding finalize_all
  destroy_db = do
    open_transaction ← gets (λ db. db.in_transaction)
    if open_transaction then commit else pure tt
    stmts ← gets (λ db. db.stmts)
    finalize_all stmts
    send Call.close
