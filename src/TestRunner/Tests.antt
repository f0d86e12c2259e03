-- ===== src/TestRunner/Tests.antt =====
-- The theorem on the test cases in a world whose SQLite reports no failure.
use sqlitewrite.Base.{[], true}
use sqlitewrite.Base.Lists.{All}
use sqlitewrite.MiniSqlite.Db.{new_db}
use sqlitewrite.MiniSqlite.Lifetime.{Flag}
use sqlitewrite.MiniSqlite.Tests.{quiet}
use sqlitewrite.SqliteWriter.Lifetime.{new_writer}
use sqlitewrite.JsonHelper.Tests.{trees}
use sqlitewrite.TestRunner.Scene.{World, Scene}
use sqlitewrite.TestRunner.Lasting.{IsClosed, Survives}
use sqlitewrite.TestRunner.Suite.{TestCase, run, run-IsClosed}

abbrev pub quiet_world : World
quiet_world = record {
  engine = λ events. quiet;
  rounds = λ h. 1;
  in_round = λ h. true;
  times = λ d n. d;
  show_double = λ d. [];
}

abbrev pub first_scene : Scene
first_scene = record {
  events = [];
  opened_after = [];
  sqw = new_writer Flag.no_flag;
  ms = new_db;
  round = 0;
  checks = [];
}

run-IsClosed_example :
    Survives (λ s. All IsClosed s.events) (run quiet_world trees TestCase.basic first_scene)
run-IsClosed_example = run-IsClosed quiet_world trees TestCase.basic first_scene tt
