-- ===== src/MiniPsql/Cleared.antt =====
-- The results of libpq: each is cleared once, before the next call.
use sqlitewrite.MiniSqlite.Schema.{not_empty}
use sqlitewrite.MiniPsql.Statement.{
  prepare_statement, connect, connect_reply, prepare_reply, exec_prepared, begin_work, disconnect,
  commit_work, clear_params,
}
use sqlitewrite.MiniPsql.Frame.{add_table_column-Ensures, table_schema-Ensures}
use sqlitewrite.MiniSqlite.Words.{word_of_text, Word}
use sqlitewrite.MiniPsql.Schema.{add_table_column, table_schema}
use mathlib.Core.List.{foldl, foldl-append}
use sqlitewrite.Base.Exec.{◌>>=◌, ◌>>◌, modify, pure}
use sqlitewrite.Base.{◌≡◌, ◌∙◌, Bool, true, false, Option, some, none, List, [], ◌∷◌, refl, ap, ℕ}
use sqlitewrite.Base.Hoare.{
  Ensures, Keeps, Keeps-bind, Keeps-pure, Keeps-raise, Keeps-gets, Keeps-modify, Keeps-if,
  ensures_bind, ensures_pure, ensures_raise, ensures_modify,
}
use sqlitewrite.Text.{Text}
use sqlitewrite.MiniPsql.Db.{
  Db, Server, Call, History, Reply, ask, exec, exec_params, result_of, query_result,
  query_result_params, query_result_prepared, clear_result,
}

-- Whether a result is held after a call; `none` where a result is lost, or cleared twice.
abbrev pub hold : Option Bool → Call → Option Bool
hold none c = none
hold (some true) Call.pq_clear = some false
hold (some true) c = none
hold (some false) (Call.pq_connectdb fname) = some false
hold (some false) (Call.pq_exec query) = some true
hold (some false) (Call.pq_exec_params query params) = some true
hold (some false) (Call.pq_prepare name query n) = some true
hold (some false) (Call.pq_exec_prepared name params) = some true
hold (some false) Call.pq_clear = none
hold (some false) Call.pq_finish = some false

-- From the start of the connection.
abbrev pub held : History → Option Bool
held h = foldl hold (some false) h

abbrev pub Holds : Bool → Db → Type 0
Holds b db = held db.calls ≡ some b

-- No result is held.
abbrev pub Cleared : Db → Type 0
Cleared = Holds false

module _ (s : Server) where
  ask-Holds :
      (c : Call) (a b : Bool) {E : Db → Type 0}
      → hold (some a) c ≡ some b
      → Ensures (Holds a) (ask s c) (λ _. Holds b) E
  unfolding ask
  ask-Holds c a b move = record {
    at = λ db h. foldl-append hold (some false) db.calls (c ∷ []) ∙ ap (λ t. hold t c) h ∙ move;
  }

  clear-Cleared : {E : Db → Type 0} → Ensures (Holds true) (clear_result s) (λ _. Cleared) E
  unfolding clear_result
  clear-Cleared =
      ensures_bind (ask-Holds Call.pq_clear true false refl) (λ _. ensures_pure tt (λ db h. h))

  -- The constructors of `QueryResult`: a result is held where they return.
  result_of-Holds :
      (what : Text) (r : Reply)
      → Ensures (Holds true) (result_of s what r) (λ _. Holds true) Cleared
  unfolding result_of
  result_of-Holds what Reply.command_ok = ensures_pure _ (λ db h. h)
  result_of-Holds what (Reply.tuples rows) = ensures_pure _ (λ db h. h)
  result_of-Holds what (Reply.error msg) =
      ensures_bind clear-Cleared (λ _. ensures_raise _ (λ db h. h))

  asks-Holds :
      (c : Call) (what : Text)
      → hold (some false) c ≡ some true
      → Ensures Cleared (ask s c >>= result_of s what) (λ _. Holds true) Cleared
  asks-Holds c what move = ensures_bind (ask-Holds c false true move) (λ r. result_of-Holds what r)

  pub exec-Cleared : (query : Text) → Keeps Cleared (exec s query)
  unfolding exec query_result
  exec-Cleared query =
      ensures_bind (asks-Holds (Call.pq_exec query) _ refl)
        λ rows. ensures_bind clear-Cleared (λ _. ensures_pure _ (λ db h. h))

  pub exec_params-Cleared :
      (query : Text) (params : List (Option Text)) → Keeps Cleared (exec_params s query params)
  unfolding exec_params query_result_params
  exec_params-Cleared query params =
      ensures_bind (asks-Holds (Call.pq_exec_params query params) _ refl)
        λ rows. ensures_bind clear-Cleared (λ _. ensures_pure _ (λ db h. h))

  quiet_exec : (sql : Text) → word_of_text sql ≡ Word.other → Keeps Cleared (exec s sql)
  quiet_exec sql quiet = exec-Cleared sql

  pub table_schema-Cleared : (table : Text) → Keeps Cleared (table_schema s table)
  table_schema-Cleared = table_schema-Ensures s Cleared Cleared (λ db h. h) quiet_exec

  pub add_table_column-Cleared :
      (table name type : Text) → Keeps Cleared (add_table_column s table name type)
  add_table_column-Cleared = add_table_column-Ensures s Cleared Cleared (λ db h. h) quiet_exec

  connect_reply-Cleared : (r : Reply) → Keeps Cleared (connect_reply s r)
  unfolding connect_reply
  connect_reply-Cleared Reply.command_ok = Keeps-pure tt
  connect_reply-Cleared (Reply.tuples rows) = Keeps-pure tt
  connect_reply-Cleared (Reply.error msg) = Keeps-raise _

  pub connect-Cleared : (fname : Text) → Keeps Cleared (connect s fname)
  unfolding connect
  connect-Cleared fname =
      ensures_bind (ask-Holds (Call.pq_connectdb fname) false false refl)
        (λ r. connect_reply-Cleared r)

  transaction-Cleared :
      (b : Bool) (sql : Text)
      → Keeps Cleared (do modify (λ db. record db { in_transaction = b }); _ ← exec s sql; pure tt)
  transaction-Cleared b sql =
      Keeps-bind (Keeps-modify _ (λ db h. h))
        λ _. Keeps-bind (exec-Cleared sql) (λ _. Keeps-pure tt)

  pub begin_work-Cleared : Keeps Cleared (begin_work s)
  unfolding begin_work
  begin_work-Cleared = transaction-Cleared true _

  pub commit_work-Cleared : Keeps Cleared (commit_work s)
  unfolding commit_work
  commit_work-Cleared = transaction-Cleared false _

  pub disconnect-Cleared : Keeps Cleared (disconnect s)
  unfolding disconnect
  disconnect-Cleared = Keeps-bind (Keeps-gets _) λ open_.
      Keeps-bind (Keeps-if open_ commit_work-Cleared (Keeps-pure tt))
        λ _. ensures_bind (ask-Holds Call.pq_finish false false refl) (λ _. Keeps-pure tt)

  prepare_reply-Cleared :
      (r : Reply) → Ensures (Holds true) (prepare_reply s r) (λ _. Cleared) Cleared
  unfolding prepare_reply
  prepare_reply-Cleared Reply.command_ok = clear-Cleared
  prepare_reply-Cleared (Reply.tuples rows) = ensures_bind clear-Cleared (λ _. Keeps-raise _)
  prepare_reply-Cleared (Reply.error msg) = ensures_bind clear-Cleared (λ _. Keeps-raise _)

  pub prepare_statement-Cleared :
      (table str : Text) (paramsize : ℕ) → Keeps Cleared (prepare_statement s table str paramsize)
  unfolding prepare_statement clear_params
  prepare_statement-Cleared table str paramsize = Keeps-bind (Keeps-gets _) λ old.
      Keeps-bind (Keeps-if (not_empty old) (exec-Cleared _) (Keeps-pure [])) λ _.
        Keeps-bind (Keeps-modify _ (λ db h. h)) λ _.
          Keeps-bind (Keeps-modify _ (λ db h. h))
            λ _. ensures_bind (ask-Holds _ false true refl) (λ r. prepare_reply-Cleared r)

  pub exec_prepared-Cleared : (table : Text) → Keeps Cleared (exec_prepared s table)
  unfolding exec_prepared query_result_prepared clear_params
  exec_prepared-Cleared table = Keeps-bind (Keeps-gets _) λ params.
      ensures_bind (asks-Holds (Call.pq_exec_prepared _ params) _ refl)
        λ _. ensures_bind (ensures_modify _ (λ db h. h)) (λ _. clear-Cleared)
