-- ===== src/TestRunner/OpenMini.antt =====
-- What the life of a connection within a test case keeps.
use sqlitewrite.Base.{false, refl}
use sqlitewrite.Base.Exec.{Exec, Result, err, ok}
use sqlitewrite.Base.Hoare.{Keeps, Ends, keeps_always}
use sqlitewrite.Base.Lists.{All}
use sqlitewrite.Text.{Text}
use sqlitewrite.Sqlite.{Engine}
use sqlitewrite.MiniSqlite.Db.{Db, new_db}
use sqlitewrite.MiniSqlite.Lifetime.{Flag}
use sqlitewrite.SqliteWriter.Turn.{InTurn, InTurn-framed, open_db-Keeps, destroy_db-InTurn}
use sqlitewrite.TestRunner.Scene.{
  World, Scene, engine_of, mini_opened, open_mini, close_mini, ms, with_mini, leave,
}
use sqlitewrite.TestRunner.Lasting.{IsClosed, Held, Holds, Lasts, survives}
use sqlitewrite.TestRunner.Scope.{left, Opened, Closes, scope-Lasts}

module _ (world : World) where
  mini_opened-Opened :
      (r : Result (Unit {0})) (db : Db) (s : Scene)
      → Holds Held.nothing s
      → Ends (λ _. InTurn false) (InTurn false) (r, db)
      → Opened Held.mini (mini_opened world r db s)
  mini_opened-Opened (ok u) db s p q = record { closed = p.closed; has = q }
  mini_opened-Opened (err x) db s p q = left db.calls s p.closed q.sent

  open_mini-Opened :
      (fname : Text) (s : Scene) → Holds Held.nothing s → Opened Held.mini (open_mini world fname s)
  unfolding open_mini
  open_mini-Opened fname s p = mini_opened-Opened _ _ s p (
      (open_db-Keeps (world.engine s.events) (InTurn false) (InTurn-framed false) fname
          Flag.no_flag).at
        new_db (record { sent = refl; flag = refl }))

  closed_mini :
      (r : Result (Unit {0})) (db : Db) (s : Scene)
      → All IsClosed s.events
      → Ends (λ _. InTurn false) (InTurn false) (r, db)
      → Closes (r, leave db.calls s)
  closed_mini (ok u) db s p q = left db.calls s p q.sent
  closed_mini (err x) db s p q = tt

  close_mini-Closes : (s : Scene) → Holds Held.mini s → Closes (close_mini world s)
  unfolding close_mini
  close_mini-Closes s p =
      closed_mini _ _ s p.closed ((destroy_db-InTurn (engine_of world s) false).at s.ms p.has)

  pub with_mini-Lasts :
      (fname : Text) (body : Exec Scene (Unit {0}))
      → Lasts Held.mini body
      → Lasts Held.nothing (with_mini world fname body)
  unfolding with_mini
  with_mini-Lasts fname body p =
      scope-Lasts Held.mini (close_mini world) close_mini-Closes (open_mini world fname) body
        (open_mini-Opened fname) p

  -- A call of the open connection.
  pub ms-Lasts :
      {A : Type 0} {m : Engine → Exec Db A}
      → ((e : Engine) → Keeps (InTurn false) (m e))
      → Lasts Held.mini (ms world m)
  unfolding ms
  ms-Lasts keeps = record {
    at = λ s p. survives (Holds Held.mini) _ _ (record {
      closed = p.closed;
      has = keeps_always (InTurn false) _ _ ((keeps (engine_of world s)).at s.ms p.has);
    });
  }
