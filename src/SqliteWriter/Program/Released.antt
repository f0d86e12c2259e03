-- ===== src/SqliteWriter/Program/Released.antt =====
-- The prepared statements over the whole life of a writer.
use sqlitewrite.MiniSqlite.Owned.Closed.{destroy_db-released}
use sqlitewrite.SqliteWriter.Frame.{ensures_on_db_only}
use sqlitewrite.MiniSqlite.Owned.{new_db-OwnsAll}
use sqlitewrite.Base.Exec.{pure, ok}
use sqlitewrite.MiniSqlite.Alive.{alive}
use sqlitewrite.Text.Dict.{Dict}
use sqlitewrite.SqliteWriter.Program.Owned.{
  OwnsWriter, add_value_generic-OwnsWriter, query_gen-OwnsWriter, thread_round-OwnsWriter,
  construct-OwnsWriter,
}
use sqlitewrite.SqliteWriter.Program.{Step, Flag, Reach}
use sqlitewrite.Text.{Text}
use sqlitewrite.SqliteWriter.Lifetime.{destroy, thread_round, new_writer}
use sqlitewrite.SqliteWriter.Writer.{Writer}
use sqlitewrite.Base.{◌≡◌, ◌&&◌, Bool, ℕ, if◌then◌else◌, some, []}
use sqlitewrite.Base.Hoare.{
  Keeps, Ensures, keeps_always, at_ok, Keeps-if, Keeps-pure, ensures_bind, ensures_modify,
  ensures_gets, ensures_weaken, Anything,
}
use sqlitewrite.Sqlite.{Engine}

module _ (e : Engine) where
  Step-OwnsWriter : {w w' : Writer} → Step e w w' → OwnsWriter e w → OwnsWriter e w'
  Step-OwnsWriter (Step.add_value w table values replace) o =
      keeps_always (OwnsWriter e) _ _ ((add_value_generic-OwnsWriter e table values replace).at w o)
  Step-OwnsWriter (Step.query w q values msec) o =
      keeps_always (OwnsWriter e) _ _ ((query_gen-OwnsWriter e q values msec).at w o)
  Step-OwnsWriter (Step.round w n runs returned) o =
      keeps_always (OwnsWriter e) _ _ ((thread_round-OwnsWriter e n).at w o)

  Reach-OwnsWriter :
      (fname : Text) (meta : Dict (Dict Text)) (flag : Flag) {w : Writer}
      → Reach e fname meta flag w
      → OwnsWriter e w
  Reach-OwnsWriter fname meta flag (Reach.start h) =
      at_ok (new_writer flag) (construct-OwnsWriter e fname meta flag) (new_db-OwnsAll e) h
  Reach-OwnsWriter fname meta flag (Reach.next r taken) =
      Step-OwnsWriter taken (Reach-OwnsWriter fname meta flag r)

  last_round-OwnsWriter :
      (b : Bool) (n : ℕ) → Keeps (OwnsWriter e) (if b then thread_round e n else pure tt)
  last_round-OwnsWriter b n = Keeps-if b (thread_round-OwnsWriter e n) (Keeps-pure tt)

  destroy-Ensures :
      (in_round : Bool) (n : ℕ)
      → Ensures (OwnsWriter e) (destroy e in_round n) (λ _ w. alive e w.db.calls ≡ some []) Anything
  unfolding destroy
  destroy-Ensures in_round n =
      ensures_bind {R = λ _. OwnsWriter e} (ensures_modify _ (λ w o. o)) λ _.
        ensures_bind {R = λ _. OwnsWriter e} (ensures_gets _ (λ w o. o)) λ running.
          ensures_bind {R = λ _. OwnsWriter e}
            (ensures_weaken (λ w o. o) (λ _ w o. o) (λ w o. tt)
              (last_round-OwnsWriter (running && in_round) n))
            λ _.
              ensures_bind {R = λ _. OwnsWriter e} (ensures_modify _ (λ w o. o))
                λ _. ensures_on_db_only (destroy_db-released e)

  -- Over every sequence of writes, queries and rounds of the commit thread, with the exceptions
  -- that they throw, and the destructor, when it returns: each prepared statement is finalised
  -- exactly once, before the connection is closed, and none is used that is not alive.
  pub destroy-released :
      (fname : Text) (meta : Dict (Dict Text)) (flag : Flag) (in_round : Bool) (n : ℕ) (w : Writer)
      → Reach e fname meta flag w
      → (destroy e in_round n w).0 ≡ ok tt
      → alive e (destroy e in_round n w).1.db.calls ≡ some []
  destroy-released fname meta flag in_round n w r h =
      at_ok w (destroy-Ensures in_round n) (Reach-OwnsWriter fname meta flag r) h
