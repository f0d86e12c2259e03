-- ===== src/MiniPsql/Db.antt =====
-- The calls on libpq, the state of a `MiniPSQL`, and `exec`.
use sqlitewrite.Base.{ℕ, Bool, false, Option, List, [], ◌∷◌, ◌++◌}
use sqlitewrite.Base.Exec.{Exec, ok, runtime_error, pure, raise, ◌>>=◌, ◌>>◌}
use sqlitewrite.Text.{Text, codes}
use sqlitewrite.Text.Dict.{Dict}

-- The calls that run something on the server, and `PQclear` of the result that the last of them gave.
pub data Call : Type 0 where
  pq_connectdb : Text → Call
  pq_exec : Text → Call
  pq_exec_params : Text → List (Option Text) → Call
  pq_prepare : Text → Text → ℕ → Call
  pq_exec_prepared : Text → List Text → Call
  pq_clear : Call
  pq_finish : Call

abbrev pub History : Type 0
History = List Call

-- A result: `PGRES_COMMAND_OK`, `PGRES_TUPLES_OK` with the tuples, or another status with the error
-- message of the connection.
pub data Reply : Type 0 where
  command_ok : Reply
  tuples : List (List Text) → Reply
  error : Text → Reply

-- libpq with the server: each reply may depend on all calls before.
pub record Server : Type 0 where
  pub reply : History → Call → Reply

-- `calls` stands for `d_conn`.
pub record Db : Type 0 where
  pub calls : History
  pub stmts : Dict Text
  pub params : Dict (List Text)
  pub in_transaction : Bool

abbrev pub new_db : Db
new_db = record { calls = []; stmts = []; params = []; in_transaction = false }

module _ (s : Server) where
  unfoldable pub ask : Call → Exec Db Reply
  ask c db = (ok (s.reply db.calls c), record db { calls = db.calls ++ (c ∷ []) })

  -- The destructor of `QueryResult`, where it holds a result.
  unfoldable pub clear_result : Exec Db (Unit {0})
  clear_result = do _ ← ask Call.pq_clear; pure tt

  -- What the constructors of `QueryResult` have in common: the tuples, or an exception.
  unfoldable pub result_of : Text → Reply → Exec Db (List (List Text))
  unfolding clear_result
  result_of what Reply.command_ok = pure []
  result_of what (Reply.tuples rows) = pure rows
  result_of what (Reply.error msg) = clear_result >> raise (runtime_error (what ++ msg))

  -- The loop over `getRow`, which ends at the first empty row.
  unfoldable pub rows_until_empty : List (List Text) → List (List Text)
  rows_until_empty [] = []
  rows_until_empty ([] ∷ rows) = []
  rows_until_empty ((x ∷ xs) ∷ rows) = (x ∷ xs) ∷ rows_until_empty rows

  -- The constructor of `QueryResult` that runs a query
  unfoldable pub query_result : Text → Exec Db (List (List Text))
  unfolding result_of
  query_result query = do reply ← ask (Call.pq_exec query); result_of (codes "query error: ") reply

  -- The one for a query with parameters, where `none` is a null pointer
  unfoldable pub query_result_params : Text → List (Option Text) → Exec Db (List (List Text))
  unfolding result_of
  query_result_params query params = do
    reply ← ask (Call.pq_exec_params query params)
    result_of (codes "parameter query error: ") reply

  -- The one for a prepared statement
  unfoldable pub query_result_prepared : Text → List Text → Exec Db (List (List Text))
  unfolding result_of
  query_result_prepared table params = do
    reply ← ask (Call.pq_exec_prepared (codes "procedure_" ++ table) params)
    result_of (codes "prepared query error: ") reply

  -- `exec` of a query
  unfoldable pub exec : Text → Exec Db (List (List Text))
  unfolding query_result rows_until_empty clear_result
  exec query = do rows ← query_result query; clear_result; pure (rows_until_empty rows)

  -- `exec` of a query with parameters, as libpq reads them
  unfoldable pub exec_params : Text → List (Option Text) → Exec Db (List (List Text))
  unfolding query_result_params rows_until_empty clear_result
  exec_params query params = do
    rows ← query_result_params query params
    clear_result
    pure (rows_until_empty rows)
