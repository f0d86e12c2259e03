-- ===== src/MiniSqlite/Db.antt =====
-- The state of a `MiniSQLite`, calls of the C interface, and `MiniSQLite::exec`.
use sqlitewrite.Base.{ℕ, Bool, false, Option, none, some, List, [], ◌∷◌, ◌++◌, eqb, if◌then◌else◌}
use sqlitewrite.Base.Exec.{
  ok, Exec, undefined, runtime_error, pure, raise, gets, modify, ◌>>=◌, ◌>>◌,
}
use sqlitewrite.Text.{Text, codes}
use sqlitewrite.Text.Dict.{Dict, at}
use sqlitewrite.Sqlite.{Stmt, Call, History, Engine}

-- `calls` are the calls made on the C interface so far, the connection `d_sqlite` with its
-- statements as the outside world sees it. The four counters are the static members; they are
-- shared by all connections, and other connections are left out.
pub record Db : Type 0 where
  pub calls : History
  pub stmts : Dict (Option Stmt)
  pub rows : List (List Text)
  pub in_transaction : Bool
  pub execs : ℕ
  pub sorts : ℕ
  pub fullscans : ℕ
  pub autoindexes : ℕ

abbrev pub new_db : Db
new_db = record {
  calls = [];
  stmts = [];
  rows = [];
  in_transaction = false;
  execs = 0;
  sorts = 0;
  fullscans = 0;
  autoindexes = 0;
}

-- A call with no result, or whose result is dropped.
unfoldable pub send : Call → Exec Db (Unit {0})
send c db = (ok tt, record db { calls = db.calls ++ (c ∷ []) })

-- A call and its result.
unfoldable pub ask : {A : Type 0} → Call → (History → A) → Exec Db A
ask c reply db = (ok (reply db.calls), record db { calls = db.calls ++ (c ∷ []) })

-- `d_stmts[table]`
unfoldable pub stmt_of : Text → Db → Option Stmt
stmt_of table db = at none table db.stmts

-- `helperFunc` builds a `std::string` from each column, also from a null pointer.
abbrev pub text_row : List (Option Text) → Option (List Text)
text_row [] = some []
text_row (none ∷ cols) = none
text_row (some c ∷ cols) = elim (text_row cols) [ none ↦ none | some r ↦ some (c ∷ r) ]

unfoldable pub push_row : Option (List Text) → Exec Db (Unit {0})
push_row none = raise undefined
push_row (some texts) = modify λ db. record db { rows = db.rows ++ (texts ∷ []) }

-- The calls of `helperFunc`, one for each row.
unfoldable pub push_rows : List (List (Option Text)) → Exec Db (Unit {0})
unfolding push_row
push_rows [] = pure tt
push_rows (r ∷ rest) = push_row (text_row r) >> push_rows rest

module _ (e : Engine) where
  unfoldable pub exec : Text → Exec Db (List (List Text))
  unfolding push_rows
  exec sql = do
    modify (λ db. record db { rows = [] })
    reply ← ask (Call.exec sql) (λ h. e.exec h sql)
    push_rows reply.rows
    if eqb reply.rc 0
        then gets (λ db. db.rows)
        else raise (
            runtime_error
              (codes "Error executing sqlite3 query '" ++ (sql ++ (codes "': " ++ reply.errmsg))))
