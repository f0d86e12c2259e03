-- ===== src/MiniPsql/Statement.antt =====
-- Prepared statements, transactions, the constructor and the destructor of `MiniPSQL`.
use sqlitewrite.SqliteWriter.Query.{signed_to_string}
use sqlitewrite.Base.Int.{ℤ}
use sqlitewrite.Base.{
  ℕ, zero, suc, Bool, true, false, none, some, List, [], ◌∷◌, ◌++◌, if◌then◌else◌,
}
use sqlitewrite.Base.Exec.{Exec, undefined, runtime_error, pure, raise, gets, modify, ◌>>=◌, ◌>>◌}
use sqlitewrite.Text.{Text, codes}
use sqlitewrite.Text.Dict.{lookup, insert, at}
use sqlitewrite.MiniPsql.Db.{
  Db, Server, Call, Reply, ask, exec, query_result_prepared, clear_result,
}
use sqlitewrite.MiniSqlite.Schema.{not_empty}

-- `isPrepared`
unfoldable pub has_statement : Text → Db → Bool
has_statement table db = elim (lookup table db.stmts) [ none ↦ false | some str ↦ true ]

-- `d_params[table]`
unfoldable pub params_of : Text → Db → List Text
params_of table db = at [] table db.params

-- `resize(pos+1)` where the vector is too short, and the assignment at `pos`.
unfoldable pub put : List Text → ℕ → Text → List Text
put [] zero value = value ∷ []
put [] (suc pos) value = [] ∷ put [] pos value
put (x ∷ xs) zero value = value ∷ xs
put (x ∷ xs) (suc pos) value = x ∷ put xs pos value

-- `bindPrep`, from 1. At 0 the code writes before the start of the vector.
unfoldable pub bind_param : Text → ℕ → Text → Exec Db (Unit {0})
bind_param table zero value = raise undefined
bind_param table (suc pos) value =
    modify λ db. record db { params = insert table (put (params_of table db) pos value) db.params }

-- `bindPrep` of a number, for the integral types
unfoldable pub bind_number : Text → ℕ → ℤ → Exec Db (Unit {0})
unfolding bind_param
bind_number table idx value = bind_param table idx (signed_to_string value)

unfoldable pub clear_params : Text → Exec Db (Unit {0})
clear_params table = modify (λ db. record db { params = insert table [] db.params })

module _ (s : Server) where
  -- The constructor of `QueryResult` that prepares.
  unfoldable pub prepare_reply : Reply → Exec Db (Unit {0})
  unfolding clear_result
  prepare_reply Reply.command_ok = clear_result s
  prepare_reply (Reply.tuples rows) =
      clear_result s >> raise (runtime_error (codes "prepare error: "))
  prepare_reply (Reply.error msg) =
      clear_result s >> raise (runtime_error (codes "prepare error: " ++ msg))

  -- `prepare`
  unfoldable pub prepare_statement : Text → Text → ℕ → Exec Db (Unit {0})
  unfolding prepare_reply
  prepare_statement table str paramsize = do
    old ← gets (λ db. at [] table db.stmts)
    _ ← if not_empty old then exec s (codes "deallocate procedure_" ++ table) else pure []
    modify (λ db. record db { stmts = insert table str db.stmts })
    clear_params table
    reply ← ask s (Call.pq_prepare (codes "procedure_" ++ table) str paramsize)
    prepare_reply reply

  -- `execPrep`
  unfoldable pub exec_prepared : Text → Exec Db (Unit {0})
  unfolding clear_result
  exec_prepared table = do
    params ← gets (params_of table)
    _ ← query_result_prepared s table params
    clear_params table
    clear_result s

  -- `begin`, `commit` and `cycle`
  unfoldable pub begin_work : Exec Db (Unit {0})
  begin_work = do
    modify (λ db. record db { in_transaction = true })
    _ ← exec s (codes "begin")
    pure tt

  unfoldable pub commit_work : Exec Db (Unit {0})
  commit_work = do
    modify (λ db. record db { in_transaction = false })
    _ ← exec s (codes "commit")
    pure tt

  unfoldable pub cycle_work : Exec Db (Unit {0})
  cycle_work = do _ ← exec s (codes "commit;begin"); pure tt

  -- The constructor; an error is any status of the connection but `CONNECTION_OK`.
  unfoldable pub connect_reply : Reply → Exec Db (Unit {0})
  connect_reply (Reply.error msg) =
      raise (runtime_error (codes "Error connecting to postgresql: " ++ msg))
  connect_reply _ = pure tt

  unfoldable pub connect : Text → Exec Db (Unit {0})
  unfolding connect_reply
  connect fname = do reply ← ask s (Call.pq_connectdb fname); connect_reply reply

  -- The destructor
  unfoldable pub disconnect : Exec Db (Unit {0})
  disconnect = do
    open_ ← gets (λ db. db.in_transaction)
    if open_ then commit_work else pure tt
    _ ← ask s Call.pq_finish
    pure tt
