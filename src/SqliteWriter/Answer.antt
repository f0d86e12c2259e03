-- ===== src/SqliteWriter/Answer.antt =====
-- What a query answers.
use sqlitewrite.SqliteWriter.Follows.{Follows, FollowsWriter, prepare-Follows}
use mathlib.Core.Path.{subst}
use sqlitewrite.SqliteWriter.Frame.{ensures_on_db_only, ensures_on_db, may_time_out-Keeps}
use sqlitewrite.MiniSqlite.Prepare.{Compiled, prepare_lem}
use sqlitewrite.Base.{ℕ, ◌≡◌, ◌≢◌, true, List, [], ◌++◌, map, none, some, Option, refl}
use sqlitewrite.Base.Exec.{ok, ◌>>◌}
use sqlitewrite.Base.Hoare.{
  Ensures, ensures_bind, ensures_weaken, at_ok, Ends, Anything, ensures_also,
}
use sqlitewrite.Text.{Text}
use sqlitewrite.Text.Dict.{at, Dict}
use sqlitewrite.Value.{Var}
use sqlitewrite.Sqlite.{Engine, Stmt, Column, History, PrepareReply}
use sqlitewrite.MiniSqlite.Db.{Db, stmt_of}
use sqlitewrite.MiniSqlite.Calls.{
  complete, row_of, start_calls, step_calls, closing_calls, stop_calls,
}
use sqlitewrite.MiniSqlite.Execution.{exec_prep-At}
use sqlitewrite.MiniSqlite.Statement.{Row, exec_prep, prepare}
use sqlitewrite.SqliteWriter.Writer.{Writer, on_db}
use sqlitewrite.SqliteWriter.Query.{query_gen}
use sqlitewrite.SqliteWriter.Insert.{bind_loop}
use sqlitewrite.SqliteWriter.RowCalls.{bind_calls, bind_loop_at, AtDb}

module _ (e : Engine) (q : Text) (values : List Var) (msec : ℕ) where
  -- What a query that returns `out` has done with its statement `p`: after the calls `before`, which
  -- step no statement beyond those of `start`, the
  -- values were bound and the statement was executed once; the engine answered `rows` and then that
  -- there are no more; these rows, in their order, are the answer.
  pub record Answered (start : History) (p : Option Stmt) (out : List Row) (w' : Writer)
      : Type 0 where
    pub before : History
    pub later : Follows start before
    pub rows : List (List Column)
    pub ended :
        complete (
          e.steps
            (before
              ++ bind_calls p 1 values
              ++ start_calls e (before ++ bind_calls p 1 values) msec)
            p)
        ≡ some rows
    pub out_eq : out ≡ map row_of rows
    pub calls :
        w'.db.calls
        ≡ before
          ++ bind_calls p 1 values
          ++ (start_calls e (before ++ bind_calls p 1 values) msec
              ++ (step_calls p rows ++ (closing_calls p ++ stop_calls msec)))

  abbrev pub HasAnswer : History → List Row → Writer → Type 0
  HasAnswer start out w' = (stmt : Stmt) × (stmt.sql ≡ q) × Answered start (some stmt) out w'

  execute-Answered :
      (start : History) (stmts : Dict (Option Stmt)) (before : History)
      → Follows start before
      → Ensures
          (AtDb stmts before)
          (bind_loop e [] 1 values >> on_db (exec_prep e [] true msec))
          (Answered start (at none [] stmts))
          Anything
  execute-Answered start stmts before later =
      ensures_bind (bind_loop_at e [] stmts before 1 values) λ _.
        ensures_weaken (λ w k. k)
          (λ out w c. record {
            before = before;
            later = later;
            rows = c.rows;
            ended = c.ended;
            out_eq = c.out_eq;
            calls = c.state.calls_eq;
          })
          (λ w k. k) (ensures_on_db_only (exec_prep-At e [] stmts _ true msec))

  run-HasAnswer :
      (start : History)
      → ((h : History) → e.prepare_v2 h q ≢ PrepareReply.prepared none)
      → Ensures {S = Writer}
          (FollowsWriter start)
          (on_db (prepare e [] q) >> (bind_loop e [] 1 values >> on_db (exec_prep e [] true msec)))
          (HasAnswer start)
          Anything
  unfolding stmt_of
  run-HasAnswer start compiles =
      ensures_bind
        {R = λ _ v. ((before : Db) × Compiled [] before e q v.db) × FollowsWriter start v}
        (ensures_weaken (λ w p. (tt, p)) (λ _ w k. k) (λ w k. tt)
          (ensures_also {E = Anything} {E' = FollowsWriter start}
            (ensures_on_db λ w p.
              ensures_weaken (λ db same. same) (λ _ db c. (w.db, c)) (λ db k. tt)
                (prepare_lem [] w.db e q))
            (ensures_on_db_only (prepare-Follows start e [] q))))
        λ _. record { at = λ v ((before, c), later). go v before c later }
    where
      go :
          (v : Writer) (before : Db)
          → Compiled [] before e q v.db
          → FollowsWriter start v
          → Ends
              (HasAnswer start)
              Anything
              ((bind_loop e [] 1 values >> on_db (exec_prep e [] true msec)) v)
      go v before (Compiled.empty h empty k) later = absurd (compiles h empty)
      go v before (Compiled.compiled a k) later =
          (ensures_weaken (λ w k. k)
              (λ out w r. (
                record { address = a; sql = q },
                refl,
                subst (λ p. Answered start p out w) k.here r,
              ))
              (λ w k. k) (execute-Answered start v.db.stmts v.db.calls later)).at
            v (record { stmts_eq = refl; calls_eq = refl })

  -- On an engine that finds a statement in the text, a query that returns has stepped no statement
  -- before its own; then it has bound its values as parameters 1, 2, and so on, and has executed its
  -- own text once, and its answer is all rows of that execution in order.
  pub query_gen-HasAnswer :
      (w : Writer) (out : List Row)
      → ((h : History) → e.prepare_v2 h q ≢ PrepareReply.prepared none)
      → (query_gen e q values msec w).0 ≡ ok out
      → HasAnswer w.db.calls out (query_gen e q values msec w).1
  unfolding query_gen
  query_gen-HasAnswer w out compiles h =
      at_ok {P = FollowsWriter w.db.calls} w
        (ensures_bind {R = λ _. FollowsWriter w.db.calls} {E = Anything}
          (ensures_weaken (λ v p. p) (λ _ v p. p) (λ v p. tt)
            (may_time_out-Keeps (FollowsWriter w.db.calls) msec w.flag))
          λ _. run-HasAnswer w.db.calls compiles)
        (Follows.same refl) h
