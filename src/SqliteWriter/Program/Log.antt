-- ===== src/SqliteWriter/Program/Log.antt =====
-- A writer implements a log of the rows that are written.
use sqlitewrite.Base.{ℕ, ◌≡◌, ◌≢◌, ◌%◌, Bool, true, none, some, List, [], ◌∷◌, ◌++◌, eqb, map, refl}
use sqlitewrite.Base.Exec.{ok}
use sqlitewrite.Base.Hoare.{
  Ensures, Keeps, Keeps-if, Keeps-pure, Keeps-raise, Keeps-modify, ensures_bind, Keeps-bind,
  ensures_weaken, keeps_always, at_ok, Anything,
}
use sqlitewrite.Text.{Text, codes}
use sqlitewrite.Text.Dict.{Dict}
use sqlitewrite.Sqlite.{Stmt, History, Engine, PrepareReply}
use sqlitewrite.MiniSqlite.Lifetime.{Flag, open_db, configure, begin, cycle}
use sqlitewrite.SqliteWriter.Frame.{ensures_on_db_only}
use sqlitewrite.SqliteWriter.Writer.{Writer}
use sqlitewrite.SqliteWriter.Insert.{Values, add_value_generic}
use sqlitewrite.SqliteWriter.Lifetime.{
  new_writer, construct, constructor_body, start_batching, thread_round,
}
use sqlitewrite.SqliteWriter.Spec.{insert_text, names_of}
use sqlitewrite.SqliteWriter.RowCalls.{row_calls}
use sqlitewrite.SqliteWriter.Row.{add_value_generic-Follows}
use sqlitewrite.SqliteWriter.Follows.{
  Follows, FollowsDb, FollowsWriter, send-Follows, ask-Follows, exec-Follows,
}
use sqlitewrite.SqliteWriter.Program.{Step, Reach}
use sqlitewrite.SqliteWriter.Program.Batched.{unwind-Ensures}
use sqlitewrite.SqliteWriter.Program.Ordered.{Reach-IsOrdered}

-- A row in the log: the arguments of a write.
pub record Entry : Type 0 where
  pub table : Text
  pub values : Values
  pub replace : Bool

abbrev pub statement_of : Entry → Text
statement_of r = insert_text r.table r.replace (names_of r.values)

-- The calls execute the rows of the log in order, each by one step of its insert statement with its
-- values bound; they step no other statement, and give `sqlite3_exec` no text that may change rows.
pub data Executes : List Entry → History → Type 0 where
  start : Executes [] []
  quiet : {log : List Entry} {h k : History} → Executes log h → Follows h k → Executes log k
  row :
      {log after : List Entry} {h k : History} (r : Entry) (stmt : Stmt)
      → Executes log h
      → stmt.sql ≡ statement_of r
      → k ≡ h ++ row_calls (some stmt) (map (λ (_, v). v) r.values)
      → after ≡ log ++ (r ∷ [])
      → Executes after k

module _ (e : Engine) (fname : Text) (meta : Dict (Dict Text)) (flag : Flag) where
  -- The states of a writer, with the rows written so far: a write that returns adds its row, and a
  -- round of the commit thread none. A table has a name, and SQLite finds a statement in the text
  -- of an insert statement.
  pub data Logs : List Entry → Writer → Type 0 where
    opened :
        (construct e fname meta flag (new_writer flag)).0 ≡ ok tt
        → Logs [] (construct e fname meta flag (new_writer flag)).1
    write :
        {log after : List Entry} {w : Writer} (r : Entry)
        → Logs log w
        → r.table ≢ []
        → ((h : History) → e.prepare_v2 h (statement_of r) ≢ PrepareReply.prepared none)
        → (add_value_generic e r.table r.values r.replace w).0 ≡ ok tt
        → after ≡ log ++ (r ∷ [])
        → Logs after (add_value_generic e r.table r.values r.replace w).1
    round :
        {log : List Entry} {w : Writer} (n : ℕ)
        → Logs log w
        → w.thread ≡ true
        → (thread_round e n w).0 ≡ ok tt
        → Logs log (thread_round e n w).1

  Logs-Reach : {log : List Entry} {w : Writer} → Logs log w → Reach e fname meta flag w
  Logs-Reach (Logs.opened h) = Reach.start h
  Logs-Reach (Logs.write r l ne compiles h a) =
      Reach.next (Logs-Reach l) (Step.add_value _ r.table r.values r.replace)
  Logs-Reach (Logs.round n l runs h) = Reach.next (Logs-Reach l) (Step.round _ n runs h)

  module _ (h : History) where
    configure-Follows : Keeps (FollowsDb h) (configure e)
    unfolding configure codes
    configure-Follows = Keeps-bind (send-Follows h _ refl) λ _.
        Keeps-bind (exec-Follows h e _ refl) λ _. Keeps-bind (exec-Follows h e _ refl) λ _.
          Keeps-bind (send-Follows h _ refl)
            λ _. Keeps-bind (send-Follows h _ refl) λ _. send-Follows h _ refl

    open_db-Follows : Keeps (FollowsDb h) (open_db e fname flag)
    unfolding open_db
    open_db-Follows =
        Keeps-bind (ask-Follows h _ _ refl)
          λ rc. Keeps-if (eqb rc 0) configure-Follows (Keeps-raise _)

    begin-Follows : Keeps (FollowsDb h) (begin e)
    unfolding begin codes
    begin-Follows =
        Keeps-bind (Keeps-modify _ (λ db p. p))
          λ _. Keeps-bind (exec-Follows h e _ refl) (λ _. Keeps-pure tt)

    start_batching-Follows : (flag : Flag) → Keeps (FollowsWriter h) (start_batching e flag)
    unfolding start_batching codes
    start_batching-Follows Flag.no_flag =
        Keeps-bind (ensures_on_db_only begin-Follows) (λ _. Keeps-modify _ (λ w p. p))
    start_batching-Follows Flag.read_only = Keeps-pure tt
    start_batching-Follows Flag.no_transactions = Keeps-pure tt

    body-Follows : Keeps (FollowsWriter h) (constructor_body e meta flag)
    unfolding constructor_body codes
    body-Follows =
        Keeps-bind (ensures_on_db_only (exec-Follows h e _ refl))
          λ _. Keeps-bind (start_batching-Follows flag) (λ _. Keeps-modify _ (λ w p. p))

    construct-Follows :
        Ensures (FollowsWriter h) (construct e fname meta flag) (λ _. FollowsWriter h) Anything
    unfolding construct
    construct-Follows =
        ensures_bind
          (ensures_weaken (λ w p. p) (λ _ w p. p) (λ w p. tt) (ensures_on_db_only open_db-Follows))
          λ _. unwind-Ensures e _ (ensures_weaken (λ w p. p) (λ _ w p. p) (λ w p. tt) body-Follows)

    thread_round-Follows : (n : ℕ) → Keeps (FollowsWriter h) (thread_round e n)
    unfolding thread_round cycle codes
    thread_round-Follows n =
        Keeps-if (eqb (n % 20) 0)
          (ensures_on_db_only (Keeps-bind (exec-Follows h e _ refl) (λ _. Keeps-pure tt)))
          (Keeps-pure tt)

  -- A writer refines the log. Over every sequence of writes that return, to tables whose names are
  -- not empty, and of rounds of the commit thread, on an engine that finds a statement in the text
  -- of each insert statement: the prepared statements that the connection has stepped are the insert
  -- statements of the rows that were written, each once, with its values and in order, whichever
  -- statements were cached; no text given to `sqlite3_exec` begins like one that changes rows.
  pub Logs-Executes : {log : List Entry} {w : Writer} → Logs log w → Executes log w.db.calls
  Logs-Executes (Logs.opened h) =
      Executes.quiet Executes.start
        (at_ok (new_writer flag) (construct-Follows []) (Follows.same refl) h)
  Logs-Executes (Logs.write r l ne compiles h a) =
      let (before, later, done) =
        add_value_generic-Follows e r.table r.values r.replace compiles _ ne
          (Reach-IsOrdered e fname meta flag (Logs-Reach l)).cached h in
      Executes.row r done.stmt (Executes.quiet (Logs-Executes l) later) done.text done.calls a
  Logs-Executes (Logs.round {w = w} n l runs h) = Executes.quiet (Logs-Executes l) (
      keeps_always (FollowsWriter w.db.calls) _ _
        ((thread_round-Follows w.db.calls n).at w (Follows.same refl)))
