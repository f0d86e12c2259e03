-- ===== src/MiniPsql/Requests.antt =====
-- The statements with parameters among the calls on libpq.
use sqlitewrite.Base.Hoare.{
  Ensures, ensures_pure, ensures_bind, ensures_raise, ensures_modify, ensures_gets, ensures_weaken,
  ensures_if, Anything,
}
use sqlitewrite.Text.{Text}
use sqlitewrite.Base.{
  List, ◌++◌, Option, ◌≡◌, ◌∷◌, [], ap, refl, ◌∙◌, sym, ap₂, append-nil, append_assoc,
}
use sqlitewrite.MiniPsql.Statement.{connect, connect_reply, disconnect, commit_work}
use sqlitewrite.MiniPsql.Frame.{add_table_column-Ensures, table_schema-Ensures}
use sqlitewrite.MiniPsql.Schema.{table_schema, add_table_column}
use sqlitewrite.MiniSqlite.Words.{word_of_text, Word}
use sqlitewrite.MiniPsql.Db.{
  Db, Server, Call, History, Reply, ask, exec, exec_params, result_of, query_result,
  query_result_params, clear_result,
}

abbrev pub Request : Type 0
Request = Text × List (Option Text)

abbrev pub request : Call → List Request
request (Call.pq_exec_params query params) = (query, params) ∷ []
request c = []

-- In the order of the calls.
abbrev pub requests : History → List Request
requests [] = []
requests (c ∷ h) = request c ++ requests h

requests-append : (h k : History) → requests (h ++ k) ≡ requests h ++ requests k
requests-append [] k = refl
requests-append (c ∷ h) k =
    ap (λ rs. request c ++ rs) (requests-append h k)
    ∙ sym (append_assoc (request c) (requests h) (requests k))

-- These have been asked for.
abbrev pub Requested : List Request → Db → Type 0
Requested rs db = requests db.calls ≡ rs

module _ (s : Server) where
  ask-Requested :
      (c : Call) (rs : List Request)
      → Ensures (Requested rs) (ask s c) (λ _. Requested (rs ++ request c)) Anything
  unfolding ask
  ask-Requested c rs = record {
    at = λ db h. requests-append db.calls (c ∷ []) ∙ ap₂ ◌++◌ h (append-nil (request c));
  }

  -- The other calls leave the requests as they are.
  ask-other :
      (c : Call) (rs : List Request)
      → request c ≡ []
      → Ensures (Requested rs) (ask s c) (λ _. Requested rs) Anything
  ask-other c rs none =
      ensures_weaken (λ db h. h) (λ r db h. h ∙ ap (λ x. rs ++ x) none ∙ append-nil rs) (λ db h. h)
        (ask-Requested c rs)

  clear-Requested :
      (rs : List Request) → Ensures (Requested rs) (clear_result s) (λ _. Requested rs) Anything
  unfolding clear_result
  clear-Requested rs =
      ensures_bind (ask-other Call.pq_clear rs refl) (λ _. ensures_pure tt (λ db h. h))

  result_of-Requested :
      (rs : List Request) (what : Text) (r : Reply)
      → Ensures (Requested rs) (result_of s what r) (λ _. Requested rs) Anything
  unfolding result_of
  result_of-Requested rs what Reply.command_ok = ensures_pure _ (λ db h. h)
  result_of-Requested rs what (Reply.tuples rows) = ensures_pure _ (λ db h. h)
  result_of-Requested rs what (Reply.error msg) =
      ensures_bind (clear-Requested rs) (λ _. ensures_raise _ (λ db h. tt))

  pub exec-Requested :
      (rs : List Request) (query : Text)
      → Ensures (Requested rs) (exec s query) (λ _. Requested rs) Anything
  unfolding exec query_result
  exec-Requested rs query =
      ensures_bind
        (ensures_bind (ask-other (Call.pq_exec query) rs refl) (λ r. result_of-Requested rs _ r))
        λ rows. ensures_bind (clear-Requested rs) (λ _. ensures_pure _ (λ db h. h))

  pub exec_params-Requested :
      (rs : List Request) (query : Text) (params : List (Option Text))
      → Ensures
          (Requested rs)
          (exec_params s query params)
          (λ _. Requested (rs ++ ((query, params) ∷ [])))
          Anything
  unfolding exec_params query_result_params
  exec_params-Requested rs query params =
      ensures_bind
        (ensures_bind (ask-Requested (Call.pq_exec_params query params) rs)
          (λ r. result_of-Requested _ _ r))
        λ rows. ensures_bind (clear-Requested _) (λ _. ensures_pure _ (λ db h. h))

  pub connect-Requested :
      (rs : List Request) (fname : Text)
      → Ensures (Requested rs) (connect s fname) (λ _. Requested rs) Anything
  unfolding connect connect_reply
  connect-Requested rs fname = ensures_bind (ask-other (Call.pq_connectdb fname) rs refl) go
    where
      go : (r : Reply) → Ensures (Requested rs) (connect_reply s r) (λ _. Requested rs) Anything
      go Reply.command_ok = ensures_pure tt (λ db h. h)
      go (Reply.tuples rows) = ensures_pure tt (λ db h. h)
      go (Reply.error msg) = ensures_raise _ (λ db h. tt)

  commit_work-Requested :
      (rs : List Request) → Ensures (Requested rs) (commit_work s) (λ _. Requested rs) Anything
  unfolding commit_work
  commit_work-Requested rs =
      ensures_bind {R = λ _. Requested rs} (ensures_modify _ (λ db h. h))
        λ _. ensures_bind (exec-Requested rs _) (λ _. ensures_pure tt (λ db h. h))

  pub disconnect-Requested :
      (rs : List Request) → Ensures (Requested rs) (disconnect s) (λ _. Requested rs) Anything
  unfolding disconnect
  disconnect-Requested rs =
      ensures_bind {R = λ _. Requested rs} (ensures_gets _ (λ db h. h)) λ open_.
        ensures_bind
          (ensures_if open_ (λ _. commit_work-Requested rs) (λ _. ensures_pure tt (λ db h. h)))
          λ _. ensures_bind (ask-other Call.pq_finish rs refl) (λ _. ensures_pure tt (λ db h. h))

  quiet_exec :
      (rs : List Request) (sql : Text)
      → word_of_text sql ≡ Word.other
      → Ensures (Requested rs) (exec s sql) (λ _. Requested rs) Anything
  quiet_exec rs sql other = exec-Requested rs sql

  pub table_schema-Requested :
      (rs : List Request) (table : Text)
      → Ensures (Requested rs) (table_schema s table) (λ _. Requested rs) Anything
  table_schema-Requested rs =
      table_schema-Ensures s (Requested rs) Anything (λ db h. tt) (quiet_exec rs)

  pub add_table_column-Requested :
      (rs : List Request) (table name type : Text)
      → Ensures (Requested rs) (add_table_column s table name type) (λ _. Requested rs) Anything
  add_table_column-Requested rs =
      add_table_column-Ensures s (Requested rs) Anything (λ db h. tt) (quiet_exec rs)
