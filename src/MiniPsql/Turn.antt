-- ===== src/MiniPsql/Turn.antt =====
-- The transaction statements that a connection of `MiniPSQL` sends.
use sqlitewrite.MiniPsql.Frame.{table_schema-Ensures, add_table_column-Ensures}
use sqlitewrite.Base.{◌≡◌, ◌∙◌, Bool, false, Option, some, List, [], ◌∷◌, ◌++◌, refl, ap}
use sqlitewrite.Base.Hoare.{
  Ensures, ensures_bind, ensures_gets, ensures_given, ensures_pure, ensures_raise, Anything,
}
use sqlitewrite.Text.{Text}
use sqlitewrite.MiniSqlite.Words.{Word, word_of_text, advance}
use sqlitewrite.MiniPsql.Db.{
  Db, Server, Call, History, Reply, ask, exec, exec_params, result_of, query_result,
  query_result_params, clear_result,
}
use sqlitewrite.MiniPsql.Schema.{table_schema, add_table_column}
use sqlitewrite.MiniPsql.Statement.{connect, connect_reply, disconnect}

abbrev pub word : Call → Word
word (Call.pq_exec sql) = word_of_text sql
word _ = Word.other

-- Whether a transaction is open; `none` where a statement came out of turn.
abbrev pub transaction_after : Option Bool → History → Option Bool
transaction_after s [] = s
transaction_after s (c ∷ h) = transaction_after (advance s (word c)) h

transaction_after-snoc :
    (s : Option Bool) (h : History) (c : Call)
    → transaction_after s (h ++ (c ∷ [])) ≡ advance (transaction_after s h) (word c)
transaction_after-snoc s [] c = refl
transaction_after-snoc s (d ∷ h) c = transaction_after-snoc (advance s (word d)) h c

-- The statements came in turn and leave a transaction open or not; `begin` and `commit` of the class
-- have not been used.
abbrev pub Turn : Bool → Db → Type 0
Turn b db = (transaction_after (some false) db.calls ≡ some b) × (db.in_transaction ≡ false)

module _ (s : Server) where
  ask-Turn :
      (c : Call) (a b : Bool)
      → advance (some a) (word c) ≡ some b
      → Ensures (Turn a) (ask s c) (λ _. Turn b) Anything
  unfolding ask
  ask-Turn c a b move = record {
    at = λ db (sent, flag). (
      transaction_after-snoc (some false) db.calls c ∙ ap (λ t. advance t (word c)) sent ∙ move,
      flag,
    );
  }

  clear_result-Turn : (b : Bool) → Ensures (Turn b) (clear_result s) (λ _. Turn b) Anything
  unfolding clear_result
  clear_result-Turn b =
      ensures_bind (ask-Turn Call.pq_clear b b refl) (λ _. ensures_pure tt (λ db p. p))

  result_of-Turn :
      (b : Bool) (what : Text) (r : Reply)
      → Ensures (Turn b) (result_of s what r) (λ _. Turn b) Anything
  unfolding result_of
  result_of-Turn b what Reply.command_ok = ensures_pure _ (λ db p. p)
  result_of-Turn b what (Reply.tuples rows) = ensures_pure _ (λ db p. p)
  result_of-Turn b what (Reply.error msg) =
      ensures_bind (clear_result-Turn b) (λ _. ensures_raise _ (λ db p. tt))

  -- A statement that takes the state from `a` to `b`.
  pub exec-Turn :
      (sql : Text) (a b : Bool)
      → advance (some a) (word_of_text sql) ≡ some b
      → Ensures (Turn a) (exec s sql) (λ _. Turn b) Anything
  unfolding exec query_result
  exec-Turn sql a b move =
      ensures_bind
        (ensures_bind (ask-Turn (Call.pq_exec sql) a b move) (λ reply. result_of-Turn b _ reply))
        (λ rows. ensures_bind (clear_result-Turn b) (λ _. ensures_pure _ (λ db p. p)))

  pub exec_params-Turn :
      (b : Bool) (query : Text) (params : List (Option Text))
      → Ensures (Turn b) (exec_params s query params) (λ _. Turn b) Anything
  unfolding exec_params query_result_params
  exec_params-Turn b query params =
      ensures_bind
        (ensures_bind (ask-Turn (Call.pq_exec_params query params) b b refl)
          (λ reply. result_of-Turn b _ reply))
        (λ rows. ensures_bind (clear_result-Turn b) (λ _. ensures_pure _ (λ db p. p)))

  quiet-Turn :
      (b : Bool) (sql : Text)
      → word_of_text sql ≡ Word.other
      → Ensures (Turn b) (exec s sql) (λ _. Turn b) Anything
  quiet-Turn b sql quiet = exec-Turn sql b b (ap (advance (some b)) quiet)

  pub table_schema-Turn :
      (b : Bool) (table : Text) → Ensures (Turn b) (table_schema s table) (λ _. Turn b) Anything
  table_schema-Turn b = table_schema-Ensures s (Turn b) Anything (λ db p. tt) (quiet-Turn b)

  pub add_table_column-Turn :
      (b : Bool) (table name type : Text)
      → Ensures (Turn b) (add_table_column s table name type) (λ _. Turn b) Anything
  add_table_column-Turn b = add_table_column-Ensures s (Turn b) Anything (λ db p. tt) (quiet-Turn b)

  connect_reply-Turn :
      (b : Bool) (r : Reply) → Ensures (Turn b) (connect_reply s r) (λ _. Turn b) Anything
  unfolding connect_reply
  connect_reply-Turn b Reply.command_ok = ensures_pure tt (λ db p. p)
  connect_reply-Turn b (Reply.tuples rows) = ensures_pure tt (λ db p. p)
  connect_reply-Turn b (Reply.error msg) = ensures_raise _ (λ db p. tt)

  pub connect-Turn :
      (fname : Text) → Ensures (Turn false) (connect s fname) (λ _. Turn false) Anything
  unfolding connect
  connect-Turn fname =
      ensures_bind (ask-Turn (Call.pq_connectdb fname) false false refl)
        (λ reply. connect_reply-Turn false reply)

  -- The destructor finds nothing to commit.
  pub disconnect-Turn : Ensures (Turn false) (disconnect s) (λ _. Turn false) Anything
  unfolding disconnect
  disconnect-Turn =
      ensures_bind {R = λ open_ db. (open_ ≡ false) × Turn false db}
        (ensures_gets _ (λ db p. (p.1, p)))
        λ open_. ensures_given λ closed. rw closed (
          ensures_bind (ensures_pure tt (λ db p. p)) λ _.
            ensures_bind (ask-Turn Call.pq_finish false false refl)
              (λ _. ensures_pure tt (λ db p. p)))
