-- ===== src/SqliteWriter/CacheKept.antt =====
-- Whole writes and queries keep the cache of prepared statements in order.
use sqlitewrite.MiniSqlite.Frame.{exec_prep-Keeps}
use sqlitewrite.Value.{Var}
use sqlitewrite.SqliteWriter.Query.{query_gen}
use sqlitewrite.MiniSqlite.Lifetime.{Flag}
use sqlitewrite.Base.Exec.{◌>>◌}
use sqlitewrite.MiniSqlite.Prepare.{Compiled, IsPrepared, prepare_lem}
use sqlitewrite.MiniSqlite.Statement.{prepare, exec_prep}
use sqlitewrite.SqliteWriter.Frame.{
  ensures_on_db, write_row-Keeps, may_time_out-Keeps, bind_loop-Keeps, Keeps-on_db,
}
use sqlitewrite.Base.{Option, Bool, List, [], true, none, refl, ℕ}
use sqlitewrite.SqliteWriter.Writer.{Writer, on_db}
use sqlitewrite.SqliteWriter.Insert.{Values, add_value_generic, insert_row, guarded, bind_loop}
use sqlitewrite.MiniSqlite.Db.{Db}
use sqlitewrite.Base.Hoare.{
  Keeps, ensures_bind, ensures_weaken, Keeps-gets, Keeps-if, Ends, Keeps-pure, Keeps-raise,
}
use sqlitewrite.Text.{Text}
use sqlitewrite.Sqlite.{Stmt, Engine}
use sqlitewrite.SqliteWriter.Cache.{IsCached, IsCached-framed, new_statement-Ensures, Cached-update}

module _ (e : Engine) where
  -- A query's statement goes by the empty name.
  pub prepare_query-IsCached : (q : Text) → Keeps IsCached (on_db (prepare e [] q))
  prepare_query-IsCached q = ensures_on_db λ w h.
      ensures_weaken (λ db k. k) (λ _ db k. go w db h k) (λ db k. unnamed w db none h k)
        (prepare_lem [] w.db e q)
    where
      unnamed :
          (w : Writer) (db : Db) (p : Option Stmt)
          → IsCached w
          → IsPrepared [] w.db p db
          → IsCached (record w { db = db })
      unnamed w db p h k =
          Cached-update [] p w.db db w.lastsig w.lastsig w.lastreplace w.lastreplace h k
            (λ t ne. (refl, refl)) (λ ne. absurd (ne refl))

      go :
          (w : Writer) (db : Db)
          → IsCached w
          → Compiled [] w.db e q db
          → IsCached (record w { db = db })
      go w db h (Compiled.empty _ _ k) = unnamed w db none h k
      go w db h (Compiled.compiled _ k) = unnamed w db _ h k

  insert_row-IsCached :
      (table : Text) (values : Values) (replace : Bool)
      → Keeps IsCached (insert_row e table values replace)
  unfolding insert_row
  insert_row-IsCached table values replace = ensures_bind (Keeps-gets _) λ reuse.
      ensures_bind
        (Keeps-if reuse (Keeps-pure tt) (
          ensures_weaken (λ w p. p) (λ _ w p. p.0) (λ w p. p)
            (new_statement-Ensures e table values replace)))
        λ _. write_row-Keeps IsCached IsCached-framed e table values

  -- The cache stays in order, whether the row is written or an exception is thrown.
  pub add_value_generic-IsCached :
      (table : Text) (values : Values) (replace : Bool)
      → Keeps IsCached (add_value_generic e table values replace)
  unfolding add_value_generic
  add_value_generic-IsCached table values replace = record { at = λ w p. go w w.flag p }
    where
      go :
          (w : Writer) (flag : Flag)
          → IsCached w
          → Ends (λ _. IsCached) IsCached (guarded flag (insert_row e table values replace) w)
      go w Flag.read_only p = (Keeps-raise _).at w p
      go w Flag.no_flag p = (insert_row-IsCached table values replace).at w p
      go w Flag.no_transactions p = (insert_row-IsCached table values replace).at w p

  query_rest-IsCached :
      (values : List Var) (msec : ℕ)
      → Keeps IsCached (bind_loop e [] 1 values >> on_db (exec_prep e [] true msec))
  query_rest-IsCached values msec =
      ensures_bind (bind_loop-Keeps IsCached IsCached-framed e [] 1 values)
        (λ _. Keeps-on_db (λ w. exec_prep-Keeps _ (IsCached-framed.on_db w) e [] true msec))

  -- A query leaves the cache in order: its statement goes by the empty name.
  pub query_gen-IsCached :
      (q : Text) (values : List Var) (msec : ℕ) → Keeps IsCached (query_gen e q values msec)
  unfolding query_gen
  query_gen-IsCached q values msec = record {
    at = λ w p.
        (ensures_bind (may_time_out-Keeps IsCached msec w.flag)
            λ _. ensures_bind (prepare_query-IsCached q) λ _. query_rest-IsCached values msec).at
          w p;
  }
