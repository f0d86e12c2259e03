-- ===== src/Demo/Tests.antt =====
-- The theorems on demo.cc and pqdemo.cc at concrete inputs.
use sqlitewrite.TestRunner.Lasting.{IsClosed}
use sqlitewrite.MiniSqlite.Tests.{quiet-IsObliging}
use sqlitewrite.TestRunner.Tests.{quiet_world, first_scene}
use sqlitewrite.Demo.Rows.{demo_main, Exit}
use sqlitewrite.Demo.Finishes.{IsFriendly, demo_main-finishes}
use sqlitewrite.Base.{ℕ, ◌≡◌, ◌*◌, refl}
use sqlitewrite.Base.Exec.{ok}
use sqlitewrite.Base.Lists.{All}

abbrev product : ℕ → ℕ → ℕ
product d n = d * n

quiet_world-IsFriendly : IsFriendly quiet_world
quiet_world-IsFriendly = record {
  obliging = λ events. quiet-IsObliging;
  opens = λ events h fname flags. refl;
}

demo_main-finishes_example :
    ((demo_main quiet_world first_scene).0 ≡ ok Exit.finished)
    × All IsClosed ((demo_main quiet_world first_scene).1).events
demo_main-finishes_example = demo_main-finishes quiet_world quiet_world-IsFriendly first_scene tt
