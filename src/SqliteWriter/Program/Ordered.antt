-- ===== src/SqliteWriter/Program/Ordered.antt =====
-- The prepared statements and the known columns of a writer over its life.
use sqlitewrite.SqliteWriter.Program.Batched.{unwind-Ensures}
use sqlitewrite.SqliteWriter.Columns.{
  IsSortedAll, add_value_generic-IsSortedAll, query_gen-IsSortedAll, db_step,
}
use sqlitewrite.SqliteWriter.CacheKept.{add_value_generic-IsCached, query_gen-IsCached}
use sqlitewrite.SqliteWriter.Cache.{IsCached, IsCached-framed}
use sqlitewrite.MiniSqlite.Frame.{exec-Keeps, IsFramed, exec-Keeps_by}
use sqlitewrite.SqliteWriter.Frame.{ensures_on_db, Keeps-on_db}
use sqlitewrite.MiniSqlite.Db.{Db}
use sqlitewrite.SqliteWriter.Turn.{open_db-Keeps}
use sqlitewrite.SqliteWriter.Insert.{columns_of}
use sqlitewrite.SqliteWriter.Lifetime.{
  thread_round, construct, new_writer, constructor_body, start_batching,
}
use sqlitewrite.Base.{◌≡◌, [], eqb, ◌%◌, refl}
use sqlitewrite.Base.Exec.{Exec}
use sqlitewrite.Base.Hoare.{
  Ensures, Keeps, keeps_always, at_ok, ensures_bind, ensures_weaken, ensures_modify, ensures_pure,
  Keeps-if, Keeps-pure, Keeps-modify, Anything,
}
use sqlitewrite.Text.{Text, codes, text_dec}
use sqlitewrite.Text.Dict.{Dict, at, lookup}
use sqlitewrite.Sqlite.{Engine}
use sqlitewrite.MiniSqlite.Lifetime.{Flag, cycle, begin}
use sqlitewrite.SqliteWriter.Writer.{Writer, on_db}
use sqlitewrite.SqliteWriter.Program.{Step, Reach}

-- The cache and the known columns of a writer are in order.
pub record IsOrdered (w : Writer) : Type 0 where
  pub cached : IsCached w
  pub sorted : IsSortedAll w

module _ (e : Engine) where
  cycle-IsCached : Keeps IsCached (on_db (cycle e))
  unfolding cycle
  cycle-IsCached = Keeps-on_db λ w.
      ensures_bind (exec-Keeps_by _ (IsCached-framed.on_db w) e _ (λ db p. p)) (λ _. Keeps-pure tt)

  Step-IsOrdered : {w w' : Writer} → Step e w w' → IsOrdered w → IsOrdered w'
  unfolding thread_round
  Step-IsOrdered (Step.add_value w table values replace) p = record {
    cached =
        keeps_always IsCached _ _
          ((add_value_generic-IsCached e table values replace).at w p.cached);
    sorted =
        keeps_always IsSortedAll _ _
          ((add_value_generic-IsSortedAll e table values replace).at w p.sorted);
  }
  Step-IsOrdered (Step.query w q values msec) p = record {
    cached = keeps_always IsCached _ _ ((query_gen-IsCached e q values msec).at w p.cached);
    sorted = keeps_always IsSortedAll _ _ ((query_gen-IsSortedAll e q values msec).at w p.sorted);
  }
  Step-IsOrdered (Step.round w n runs returned) p = record {
    cached =
        keeps_always IsCached _ _
          ((Keeps-if (eqb (n % 20) 0) (cycle-IsCached) (Keeps-pure tt)).at w p.cached);
    sorted =
        keeps_always IsSortedAll _ _
          ((Keeps-if (eqb (n % 20) 0) (db_step e _) (Keeps-pure tt)).at w p.sorted);
  }

  -- No statement is prepared and no column known.
  abbrev IsBlank : Writer → Type 0
  IsBlank w = (w.db.stmts ≡ []) × (w.columns ≡ [])

  NoStmts-framed : IsFramed (λ db. db.stmts ≡ [])
  NoStmts-framed = record {
    on_call = λ c db q p. p;
    on_rows = λ rows db p. p;
    on_counters = λ a b c d db p. p;
  }

  IsBlank-step :
      {A : Type 0} (m : Exec Db A)
      → Keeps (λ db. db.stmts ≡ []) m
      → Ensures IsBlank (on_db m) (λ _. IsBlank) Anything
  IsBlank-step m h = ensures_on_db λ w (none_there, unknown).
      ensures_weaken (λ db at_start. rw at_start none_there) (λ _ db t. (t, unknown)) (λ db t. tt) h

  start_batching-IsBlank :
      (flag : Flag) → Ensures IsBlank (start_batching e flag) (λ _. IsBlank) Anything
  unfolding start_batching begin
  start_batching-IsBlank Flag.no_flag =
      ensures_bind
        (IsBlank-step _ (
          ensures_bind (Keeps-modify _ (λ db p. p)) (λ _.
            ensures_bind (exec-Keeps_by _ NoStmts-framed e _ (λ db p. p)) (λ _. Keeps-pure tt))))
        λ _. ensures_modify _ (λ w p. p)
  start_batching-IsBlank Flag.read_only = ensures_pure tt (λ w p. p)
  start_batching-IsBlank Flag.no_transactions = ensures_pure tt (λ w p. p)

  construct-IsBlank :
      (fname : Text) (meta : Dict (Dict Text)) (flag : Flag)
      → Ensures (λ w. w ≡ new_writer flag) (construct e fname meta flag) (λ _. IsBlank) Anything
  unfolding construct constructor_body codes text_dec
  construct-IsBlank fname meta flag =
      ensures_bind
        (ensures_weaken (λ w same. rw same (refl, refl)) (λ _ w p. p) (λ w p. p)
          (IsBlank-step _ (open_db-Keeps e _ NoStmts-framed fname flag)))
        λ _. unwind-Ensures e _ (
          ensures_bind (IsBlank-step _ (exec-Keeps _ NoStmts-framed e _ refl))
            λ _. ensures_bind (start_batching-IsBlank flag) (λ _. ensures_modify _ (λ w p. p)))

  IsBlank-IsOrdered : (w : Writer) → IsBlank w → IsOrdered w
  unfolding at lookup columns_of
  IsBlank-IsOrdered w (none_there, unknown) = record {
    cached = λ t s ne e. cc (rw none_there at e);
    sorted = record { sorted = λ t. rw unknown tt };
  }

  -- In every state that a writer can reach, each prepared statement of a named table is the insert
  -- statement of the signature remembered for it, and the known columns of each table are sorted.
  pub Reach-IsOrdered :
      (fname : Text) (meta : Dict (Dict Text)) (flag : Flag) {w : Writer}
      → Reach e fname meta flag w
      → IsOrdered w
  Reach-IsOrdered fname meta flag (Reach.start returned) =
      IsBlank-IsOrdered _
        (at_ok (new_writer flag) (construct-IsBlank fname meta flag) refl returned)
  Reach-IsOrdered fname meta flag (Reach.next r step) =
      Step-IsOrdered step (Reach-IsOrdered fname meta flag r)
