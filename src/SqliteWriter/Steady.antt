-- ===== src/SqliteWriter/Steady.antt =====
-- A whole write and a whole query keep every property that prepared statements and signatures do not
-- touch: the open transaction, the flag and the commit thread.
use sqlitewrite.SqliteWriter.Loop.{column_loop-Keeps}
use sqlitewrite.MiniSqlite.Frame.{send-Keeps, exec_prep-Keeps, ask-Keeps}
use sqlitewrite.SqliteWriter.Query.{query_gen}
use sqlitewrite.SqliteWriter.Insert.{Values, add_value_generic, insert_row, new_statement}
use sqlitewrite.MiniSqlite.Statement.{prepare, finalize_old, prepare_result, set_stmt}
use sqlitewrite.Base.{ℕ, Bool, Option, List, none, some, [], true, refl}
use sqlitewrite.Base.Hoare.{
  Keeps, Keeps-modify, ensures_bind, Keeps-pure, Keeps-if, Keeps-gets, Keeps-raise,
}
use sqlitewrite.Text.{Text}
use sqlitewrite.Text.Dict.{Dict}
use sqlitewrite.Sqlite.{Stmt, PrepareReply, Engine, Call}
use sqlitewrite.Value.{Var}
use sqlitewrite.SqliteWriter.Writer.{Writer, on_db}
use sqlitewrite.SqliteWriter.Frame.{
  IsFramedWriter, guarded-Keeps, bind_loop-Keeps, Keeps-on_db, write_row-Keeps, may_time_out-Keeps,
}

pub record IsSteady (P : Writer → Type 0) : Type 0 where
  pub framed : IsFramedWriter P
  pub on_stmts :
      (stmts : Dict (Option Stmt)) (w : Writer)
      → P w
      → P (record w { db = record (w.db) { stmts = stmts } })
  pub on_signature :
      (lastsig : Dict (List Text)) (lastreplace : Dict Bool) (w : Writer)
      → P w
      → P (record w { lastsig = lastsig; lastreplace = lastreplace })

module _ (P : Writer → Type 0) (f : IsSteady P) where
  set_stmt-Keeps :
      (w : Writer) (table : Text) (p : Option Stmt)
      → Keeps (λ db. P (record w { db = db })) (set_stmt table p)
  unfolding set_stmt
  set_stmt-Keeps w table p = Keeps-modify _ (λ db h. f.on_stmts _ (record w { db = db }) h)

  finalize_old-Keeps :
      (w : Writer) (table : Text) (old : Option Stmt)
      → Keeps (λ db. P (record w { db = db })) (finalize_old table old)
  unfolding finalize_old
  finalize_old-Keeps w table none = Keeps-pure tt
  finalize_old-Keeps w table (some old) =
      ensures_bind (send-Keeps _ (f.framed.on_db w) (Call.finalize old) refl)
        (λ _. set_stmt-Keeps w table none)

  prepare_result-Keeps :
      (w : Writer) (table sql : Text) (reply : PrepareReply)
      → Keeps (λ db. P (record w { db = db })) (prepare_result table sql reply)
  unfolding prepare_result
  prepare_result-Keeps w table sql (PrepareReply.prepared none) = set_stmt-Keeps w table none
  prepare_result-Keeps w table sql (PrepareReply.prepared (some a)) = set_stmt-Keeps w table _
  prepare_result-Keeps w table sql (PrepareReply.refused m) =
      ensures_bind (set_stmt-Keeps w table none) (λ _. Keeps-raise _)

  prepare-Keeps : (e : Engine) (table sql : Text) → Keeps P (on_db (prepare e table sql))
  unfolding prepare
  prepare-Keeps e table sql = Keeps-on_db λ w. ensures_bind (Keeps-gets _) λ old.
      ensures_bind (finalize_old-Keeps w table old) λ _.
        ensures_bind (ask-Keeps _ (f.framed.on_db w) _ _ refl)
          (λ reply. prepare_result-Keeps w table sql reply)

  insert_row-Keeps :
      (e : Engine) (table : Text) (values : Values) (replace : Bool)
      → Keeps P (insert_row e table values replace)
  unfolding insert_row new_statement
  insert_row-Keeps e table values replace = ensures_bind (Keeps-gets _) λ reuse.
      ensures_bind
        (Keeps-if reuse (Keeps-pure tt) (
          ensures_bind (column_loop-Keeps P f.framed (λ sql q. q.0) e table values true _ _) λ _.
            ensures_bind (prepare-Keeps e table _)
              λ _. Keeps-modify _ (λ w p. f.on_signature _ _ w p)))
        λ _. write_row-Keeps P f.framed e table values

  pub add_value_generic-Keeps :
      (e : Engine) (table : Text) (values : Values) (replace : Bool)
      → Keeps P (add_value_generic e table values replace)
  unfolding add_value_generic
  add_value_generic-Keeps e table values replace = record {
    at = λ w p. (guarded-Keeps w.flag _ (insert_row-Keeps e table values replace)).at w p;
  }

  pub query_gen-Keeps :
      (e : Engine) (q : Text) (values : List Var) (msec : ℕ) → Keeps P (query_gen e q values msec)
  unfolding query_gen
  query_gen-Keeps e q values msec = record {
    at = λ w p.
        (ensures_bind (may_time_out-Keeps P msec w.flag) λ _.
            ensures_bind (prepare-Keeps e [] q) λ _.
              ensures_bind (bind_loop-Keeps P f.framed e [] 1 values)
                λ _. Keeps-on_db (λ w. exec_prep-Keeps _ (f.framed.on_db w) e [] true msec)).at
          w p;
  }
