-- ===== src/SqliteWriter/Program/Owned.antt =====
-- Every step of a program keeps the connection the owner of its prepared statements.
use sqlitewrite.SqliteWriter.Program.Batched.{unwind-Ensures}
use sqlitewrite.MiniSqlite.Owned.Prepared.{prepare-OwnsAll}
use sqlitewrite.SqliteWriter.Loop.{column_loop-Keeps}
use sqlitewrite.MiniSqlite.Owned.Opened.{begin-OwnsAll, cycle-OwnsAll, open_db-OwnsAll}
use sqlitewrite.Value.{Var}
use sqlitewrite.Text.Dict.{Dict}
use sqlitewrite.Text.{Text}
use sqlitewrite.MiniSqlite.Lifetime.{Flag}
use sqlitewrite.MiniSqlite.Owned.{
  OwnsAll, IsSafe, OwnsUse-framed, exec_prep-OwnsAll, bind_prep-OwnsAll, exec-OwnsAll,
}
use sqlitewrite.SqliteWriter.Query.{query_gen}
use sqlitewrite.SqliteWriter.Frame.{
  IsFramedWriterFor, ensures_on_db_only, may_time_out-Keeps, guarded-Keeps, bind_loop-Keeps_by,
}
use sqlitewrite.SqliteWriter.Writer.{Writer}
use sqlitewrite.SqliteWriter.Insert.{
  bind_loop, insert_row, new_statement, add_value_generic, write_row, Values,
}
use sqlitewrite.SqliteWriter.Lifetime.{construct, start_batching, thread_round, constructor_body}
use sqlitewrite.Base.{refl, ℕ, none, List, eqb, ◌%◌, Bool, true, false, []}
use sqlitewrite.Base.Hoare.{
  Keeps, Keeps-if, Keeps-bind, Ensures, Keeps-gets, Keeps-pure, Keeps-modify, ensures_bind,
  ensures_weaken, Anything,
}
use sqlitewrite.Sqlite.{Engine}

module _ (e : Engine) where
  abbrev pub OwnsWriter : Writer → Type 0
  OwnsWriter w = OwnsAll e w.db

  pub OwnsWriter-framed : IsFramedWriterFor (IsSafe e none) OwnsWriter
  OwnsWriter-framed = record { on_db = λ w. OwnsUse-framed e none; on_columns = λ columns w o. o }

  bind_loop-OwnsWriter :
      (table : Text) (n : ℕ) (values : List Var) → Keeps OwnsWriter (bind_loop e table n values)
  bind_loop-OwnsWriter table =
      bind_loop-Keeps_by OwnsWriter e table
        λ n v. ensures_on_db_only (bind_prep-OwnsAll e table n v)

  new_statement-OwnsWriter :
      (table : Text) (values : Values) (replace : Bool)
      → Keeps OwnsWriter (new_statement e table values replace)
  unfolding new_statement
  new_statement-OwnsWriter table values replace =
      Keeps-bind
        (column_loop-Keeps OwnsWriter OwnsWriter-framed (λ sql q h live k. refl) e table values true
          _ _)
        λ _.
          Keeps-bind (ensures_on_db_only (prepare-OwnsAll e table _))
            (λ _. Keeps-modify _ (λ w o. o))

  insert_row-OwnsWriter :
      (table : Text) (values : Values) (replace : Bool)
      → Keeps OwnsWriter (insert_row e table values replace)
  unfolding insert_row write_row
  insert_row-OwnsWriter table values replace = Keeps-bind (Keeps-gets _) λ reuse.
      Keeps-bind (Keeps-if reuse (Keeps-pure tt) (new_statement-OwnsWriter table values replace))
        λ _. Keeps-bind (bind_loop-OwnsWriter table 1 _) λ _.
          Keeps-bind (ensures_on_db_only (exec_prep-OwnsAll e table false 0)) (λ _. Keeps-pure tt)

  pub add_value_generic-OwnsWriter :
      (table : Text) (values : Values) (replace : Bool)
      → Keeps OwnsWriter (add_value_generic e table values replace)
  unfolding add_value_generic
  add_value_generic-OwnsWriter table values replace = record {
    at = λ w o. (guarded-Keeps w.flag _ (insert_row-OwnsWriter table values replace)).at w o;
  }

  pub query_gen-OwnsWriter :
      (q : Text) (values : List Var) (msec : ℕ) → Keeps OwnsWriter (query_gen e q values msec)
  unfolding query_gen
  query_gen-OwnsWriter q values msec = record {
    at = λ w o.
        (Keeps-bind (may_time_out-Keeps OwnsWriter msec w.flag) λ _.
            Keeps-bind (ensures_on_db_only (prepare-OwnsAll e [] q)) λ _.
              Keeps-bind (bind_loop-OwnsWriter [] 1 values)
                λ _. ensures_on_db_only (exec_prep-OwnsAll e [] true msec)).at
          w o;
  }

  pub thread_round-OwnsWriter : (n : ℕ) → Keeps OwnsWriter (thread_round e n)
  unfolding thread_round
  thread_round-OwnsWriter n =
      Keeps-if (eqb (n % 20) 0) (ensures_on_db_only (cycle-OwnsAll e)) (Keeps-pure tt)

  start_batching-OwnsWriter : (flag : Flag) → Keeps OwnsWriter (start_batching e flag)
  unfolding start_batching
  start_batching-OwnsWriter Flag.no_flag =
      Keeps-bind (ensures_on_db_only (begin-OwnsAll e)) (λ _. Keeps-modify _ (λ w o. o))
  start_batching-OwnsWriter Flag.read_only = Keeps-pure tt
  start_batching-OwnsWriter Flag.no_transactions = Keeps-pure tt

  pub construct-OwnsWriter :
      (fname : Text) (meta : Dict (Dict Text)) (flag : Flag)
      → Ensures OwnsWriter (construct e fname meta flag) (λ _. OwnsWriter) Anything
  unfolding construct constructor_body
  construct-OwnsWriter fname meta flag =
      ensures_bind {R = λ _. OwnsWriter}
        (ensures_weaken (λ w o. o) (λ _ w o. o) (λ w o. tt)
          (ensures_on_db_only (open_db-OwnsAll e fname flag)))
        λ _. unwind-Ensures e _ (
          ensures_weaken (λ w o. o) (λ _ w o. o) (λ w o. tt)
            (Keeps-bind (ensures_on_db_only (exec-OwnsAll e _))
              λ _. Keeps-bind (start_batching-OwnsWriter flag) (λ _. Keeps-modify _ (λ w o. o))))
