-- ===== src/MiniPsql/Returns.antt =====
-- The calls return where the server reports no failure.
use sqlitewrite.Base.{Option, List, [], ◌∷◌, ◌++◌}
use sqlitewrite.Base.Exec.{Exec, ◌>>=◌, ◌>>◌, pure}
use sqlitewrite.Base.Hoare.{
  Ensures, ensures_bind, ensures_pure, ensures_gets, ensures_modify, ensures_if, Anything, Never,
  Returns,
}
use sqlitewrite.Base.Lists.{All}
use sqlitewrite.Text.{Text, codes}
use sqlitewrite.MiniPsql.Db.{
  Db, Server, Call, History, Reply, ask, exec, exec_params, result_of, query_result,
  query_result_params, clear_result, rows_until_empty,
}
use sqlitewrite.MiniPsql.Schema.{name_and_udt, table_schema, table_exists, add_table_column}
use sqlitewrite.MiniPsql.Statement.{connect, connect_reply, disconnect, commit_work}

-- At least two values.
abbrev pub IsWide : List Text → Type 0
IsWide [] = ⊥
IsWide (x ∷ []) = ⊥
IsWide (x ∷ y ∷ row) = Unit

-- The reply is no failure, and its rows have `Q`.
abbrev pub Answers : (List (List Text) → Type 0) → Reply → Type 0
Answers Q Reply.command_ok = Q []
Answers Q (Reply.tuples rows) = Q rows
Answers Q (Reply.error msg) = ⊥

abbrev pub schema_text : Text → Text
schema_text table =
    codes "SELECT column_name, udt_name FROM information_schema.columns where table_name='"
    ++ (table ++ codes "'")

-- A server that reports no failure, and that answers the query for the names and the types of
-- columns with rows of two values or more.
pub record IsObliging (s : Server) : Type 0 where
  pub answers : (h : History) (c : Call) → Answers Anything (s.reply h c)
  pub schema_rows :
      (h : History) (table : Text)
      → Answers (All IsWide) (s.reply h (Call.pq_exec (schema_text table)))

-- `m` returns from every state, and what it returns has `Q`.
abbrev pub Gives : {A : Type 0} → (A → Type 0) → Exec Db A → Type 0
Gives Q m = Ensures Anything m (λ a _. Q a) Never

name_and_udt-Returns : (rows : List (List Text)) → All IsWide rows → Returns (name_and_udt rows)
unfolding name_and_udt
name_and_udt-Returns [] h = ensures_pure _ (λ db p. tt)
name_and_udt-Returns ((name ∷ type ∷ cells) ∷ rest) (p, h) =
    ensures_bind (name_and_udt-Returns rest h) (λ cols. ensures_pure _ (λ db p. tt))
name_and_udt-Returns ((name ∷ []) ∷ rest) (p, h) = absurd p
name_and_udt-Returns ([] ∷ rest) (p, h) = absurd p

module _ (s : Server) where
  rows_until_empty-IsWide :
      (rows : List (List Text)) → All IsWide rows → All IsWide (rows_until_empty s rows)
  unfolding rows_until_empty
  rows_until_empty-IsWide [] h = tt
  rows_until_empty-IsWide ([] ∷ rows) h = tt
  rows_until_empty-IsWide ((x ∷ []) ∷ rows) (p, h) = absurd p
  rows_until_empty-IsWide ((x ∷ y ∷ xs) ∷ rows) (p, h) = (p, rows_until_empty-IsWide rows h)

module _ (s : Server) (o : IsObliging s) where
  ask-Gives :
      (c : Call) (Q : List (List Text) → Type 0)
      → ((h : History) → Answers Q (s.reply h c))
      → Gives (Answers Q) (ask s c)
  unfolding ask
  ask-Gives c Q q = record { at = λ db p. q db.calls }

  -- A call whose reply is not looked at.
  clear-Returns : Returns (clear_result s)
  unfolding clear_result ask
  clear-Returns =
      ensures_bind {R = λ _. Anything} (record { at = λ db p. tt })
        (λ _. ensures_pure tt (λ db h. tt))

  result_of-Gives :
      (Q : List (List Text) → Type 0) (what : Text) (r : Reply)
      → Ensures (λ _. Answers Q r) (result_of s what r) (λ rows _. Q rows) Never
  unfolding result_of
  result_of-Gives Q what Reply.command_ok = ensures_pure _ (λ db h. h)
  result_of-Gives Q what (Reply.tuples rows) = ensures_pure _ (λ db h. h)
  result_of-Gives Q what (Reply.error msg) = record { at = λ db h. absurd h }

  -- The rows, up to the first one without values.
  rows-Gives :
      (c : Call) (what : Text) (Q : List (List Text) → Type 0)
      → ((h : History) → Answers Q (s.reply h c))
      → ((rows : List (List Text)) → Q rows → Q (rows_until_empty s rows))
      → Gives Q
          (do rows ← ask s c >>= result_of s what; clear_result s; pure (rows_until_empty s rows))
  rows-Gives c what Q q prefix =
      ensures_bind (ensures_bind (ask-Gives c Q q) (λ r. result_of-Gives Q what r))
        λ rows. ensures_given_rows rows
    where
      ensures_given_rows :
          (rows : List (List Text))
          → Ensures
              (λ _. Q rows)
              (do clear_result s; pure (rows_until_empty s rows))
              (λ rows _. Q rows)
              Never
      ensures_given_rows rows = record {
        at = λ db h.
            (ensures_bind clear-Returns (λ _. ensures_pure _ (λ db p. prefix rows h))).at db tt;
      }

  pub exec-Returns : (sql : Text) → Returns (exec s sql)
  unfolding exec query_result
  exec-Returns sql = rows-Gives (Call.pq_exec sql) _ Anything (λ h. o.answers h _) (λ rows h. tt)

  pub exec_params-Returns :
      (query : Text) (params : List (Option Text)) → Returns (exec_params s query params)
  unfolding exec_params query_result_params
  exec_params-Returns query params =
      rows-Gives (Call.pq_exec_params query params) _ Anything (λ h. o.answers h _) (λ rows h. tt)

  pub table_schema-Returns : (table : Text) → Returns (table_schema s table)
  unfolding table_schema exec query_result
  table_schema-Returns table =
      ensures_bind
        (rows-Gives (Call.pq_exec (schema_text table)) _ (All IsWide) (λ h. o.schema_rows h table)
          (rows_until_empty-IsWide s))
        λ rows. record {
          at = λ db h.
              (ensures_bind (name_and_udt-Returns rows h) (λ cols. ensures_pure _ (λ db p. tt))).at
                db tt;
        }

  pub add_table_column-Returns :
      (table name type : Text) → Returns (add_table_column s table name type)
  unfolding add_table_column table_exists
  add_table_column-Returns table name type =
      ensures_bind (ensures_bind (table_schema-Returns table) (λ cols. ensures_pure _ (λ db p. tt)))
        λ there. ensures_bind (exec-Returns _) (λ _. ensures_pure tt (λ db p. tt))

  pub connect-Returns : (fname : Text) → Returns (connect s fname)
  unfolding connect connect_reply
  connect-Returns fname =
      ensures_bind (ask-Gives (Call.pq_connectdb fname) Anything (λ h. o.answers h _)) go
    where
      go : (r : Reply) → Ensures (λ _. Answers Anything r) (connect_reply s r) (λ _. Anything) Never
      go Reply.command_ok = ensures_pure tt (λ db h. tt)
      go (Reply.tuples rows) = ensures_pure tt (λ db h. tt)
      go (Reply.error msg) = record { at = λ db h. absurd h }

  commit_work-Returns : Returns (commit_work s)
  unfolding commit_work
  commit_work-Returns =
      ensures_bind {R = λ _. Anything} (ensures_modify _ (λ db p. tt))
        λ _. ensures_bind (exec-Returns _) (λ _. ensures_pure tt (λ db p. tt))

  pub disconnect-Returns : Returns (disconnect s)
  unfolding disconnect ask
  disconnect-Returns = ensures_bind {R = λ _. Anything} (ensures_gets _ (λ db p. tt)) λ open_.
      ensures_bind (ensures_if open_ (λ _. commit_work-Returns) (λ _. ensures_pure tt (λ db p. tt)))
        λ _.
          ensures_bind {R = λ _. Anything} (record { at = λ db p. tt })
            (λ _. ensures_pure tt (λ db p. tt))
