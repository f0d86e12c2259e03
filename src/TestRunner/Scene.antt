-- ===== src/TestRunner/Scene.antt =====
-- What a test case works on: files, a writer or a connection, and assertions. The objects of a test
-- case live in nested scopes, so that at most one is open at a time.
use sqlitewrite.Base.{ℕ, ◌+◌, Bool, true, false, List, [], ◌∷◌, ◌++◌, if◌then◌else◌}
use sqlitewrite.Base.Exec.{
  Error, Result, ok, err, Exec, runtime_error, bad_variant_access, out_of_range, json_exception,
  assertion_failed, terminated, undefined, pure, raise, modify, ◌>>◌,
}
use sqlitewrite.Text.{Text, codes}
use sqlitewrite.Sqlite.{Engine, History}
use sqlitewrite.MiniSqlite.Db.{Db, new_db}
use sqlitewrite.MiniSqlite.Lifetime.{Flag, open_db, destroy_db}
use sqlitewrite.SqliteWriter.Writer.{Writer}
use sqlitewrite.SqliteWriter.Lifetime.{new_writer, commit_thread, destroy}

-- What the file system has seen: a removed file, or a connection with all calls of its life.
pub data Event : Type 0 where
  removed : Text → Event
  connection : History → Event

-- The surroundings: the engine that a connection meets after what happened before it was opened; how
-- many rounds of the commit thread come before the next call, and whether the thread is in a round
-- when it is told to stop; and the arithmetic on doubles, a product and the printed form.
pub record World : Type 0 where
  pub engine : List Event → Engine
  pub rounds : History → ℕ
  pub in_round : History → Bool
  pub times : ℕ → ℕ → ℕ
  pub show_double : ℕ → Text

-- `opened_after` is what had happened when the open object was constructed, `round` the number of
-- the next round of its thread. `checks` are the assertions made so far.
pub record Scene : Type 0 where
  pub events : List Event
  pub opened_after : List Event
  pub sqw : Writer
  pub ms : Db
  pub round : ℕ
  pub checks : List Bool

-- Whether `std::exception` catches it. The exception of a failed assertion is a type of its own.
abbrev pub is_exception : Error → Bool
is_exception (runtime_error what) = true
is_exception bad_variant_access = true
is_exception out_of_range = true
is_exception json_exception = true
is_exception assertion_failed = false
is_exception terminated = false
is_exception undefined = false

abbrev pub is_runtime_error : Error → Bool
is_runtime_error (runtime_error what) = true
is_runtime_error _ = false

-- An exception leaves a function that may not throw.
abbrev pub or_terminated : {A : Type 0} → Result A → Result A
or_terminated (ok a) = ok a
or_terminated (err x) = err terminated

unfoldable pub record_check : Bool → Exec Scene (Unit {0})
record_check b = modify (λ s. record s { checks = s.checks ++ (b ∷ []) })

unfoldable pub checked : Result Bool → Exec Scene (Unit {0})
unfolding record_check
checked (ok b) = record_check b
checked (err x) = if is_exception x then record_check false else raise x

-- `CHECK`: a false value and an exception are noted, and the test case goes on.
unfoldable pub check : Exec Scene Bool → Exec Scene (Unit {0})
unfolding checked
check m s = let (r, s') = m s in checked r s'

unfoldable pub required : Result Bool → Exec Scene (Unit {0})
unfolding record_check
required (ok b) = record_check b >> (if b then pure tt else raise assertion_failed)
required (err x) = if is_exception x then record_check false >> raise assertion_failed else raise x

-- `REQUIRE`: they end the test case.
unfoldable pub require : Exec Scene Bool → Exec Scene (Unit {0})
unfolding required
require m s = let (r, s') = m s in required r s'

unfoldable pub thrown : {A : Type 0} → (Error → Bool) → Result A → Exec Scene (Unit {0})
unfolding record_check
thrown catches (ok a) = record_check false >> raise assertion_failed
thrown catches (err x) =
    if catches x
    then record_check true
    else if is_exception x
    then record_check false >> raise assertion_failed
    else raise x

-- `REQUIRE_THROWS_AS`: no exception, or one of another type, ends the test case.
unfoldable pub require_throws_as :
    {A : Type 0} → (Error → Bool) → Exec Scene A → Exec Scene (Unit {0})
unfolding thrown
require_throws_as catches m s = let (r, s') = m s in thrown catches r s'

-- `REQUIRE_THROWS_AS(…, std::exception)`
abbrev pub require_throws : {A : Type 0} → Exec Scene A → Exec Scene (Unit {0})
require_throws m = require_throws_as is_exception m

-- `unlink`
unfoldable pub remove_file : Text → Exec Scene (Unit {0})
remove_file fname = modify (λ s. record s { events = s.events ++ (Event.removed fname ∷ []) })

-- `cleanup()`
unfoldable pub cleanup : Exec Scene (Unit {0})
unfolding remove_file
cleanup = do
  remove_file (codes "testrunner-example.sqlite3")
  remove_file (codes "testrunner-example.sqlite3-wal")
  remove_file (codes "testrunner-example.sqlite3-shm")

-- How a scope ends: with the body, unless the destructor throws.
abbrev pub scope_result : {A : Type 0} → Result A → Result (Unit {0}) → Result A
scope_result r (ok u) = r
scope_result r (err x) = err terminated

-- A scope whose object is destroyed however its body ends.
unfoldable pub scoped : {A : Type 0} → Exec Scene A → Exec Scene (Unit {0}) → Exec Scene A
scoped body close s = let (r, s') = body s in let (c, s'') = close s' in (scope_result r c, s'')

-- A connection has come to its end.
abbrev pub leave : History → Scene → Scene
leave calls s = record s { events = s.events ++ (Event.connection calls ∷ []) }

module _ (world : World) where
  abbrev pub engine_of : Scene → Engine
  engine_of s = world.engine s.opened_after

  abbrev pub writer_opened : Result (Unit {0}) → Writer → Exec Scene (Unit {0})
  writer_opened (ok u) w s = (ok tt, record s { opened_after = s.events; sqw = w; round = 0 })
  writer_opened (err x) w s = (err x, leave w.db.calls s)

  unfoldable pub open_writer : Flag → (Engine → Exec Writer (Unit {0})) → Exec Scene (Unit {0})
  open_writer flag constructor s =
      let (r, w) = constructor (world.engine s.events) (new_writer flag) in writer_opened r w s

  unfoldable pub close_writer : Exec Scene (Unit {0})
  close_writer s =
      let (r, w) = destroy (engine_of s) (world.in_round s.sqw.db.calls) s.round s.sqw in
      (r, leave w.db.calls s)

  -- The rounds of the commit thread before a call.
  unfoldable pub thread_turn : Exec Scene (Unit {0})
  thread_turn s =
      let n = if s.sqw.thread then world.rounds s.sqw.db.calls else 0 in
      let (r, w) = commit_thread (engine_of s) n s.round s.sqw in
      (or_terminated r, record s { sqw = w; round = s.round + n })

  -- A member function of the open writer.
  unfoldable pub call_sqw : {A : Type 0} → (Engine → Exec Writer A) → Exec Scene A
  call_sqw m s = let (r, w) = m (engine_of s) s.sqw in (r, record s { sqw = w })

  unfoldable pub sqw : {A : Type 0} → (Engine → Exec Writer A) → Exec Scene A
  unfolding thread_turn call_sqw
  sqw m = thread_turn >> call_sqw m

  -- `{ SQLiteWriter sqw(…); … }`
  unfoldable pub with_writer :
      Flag → (Engine → Exec Writer (Unit {0})) → Exec Scene (Unit {0}) → Exec Scene (Unit {0})
  unfolding open_writer close_writer scoped
  with_writer flag constructor body = open_writer flag constructor >> scoped body close_writer

  abbrev pub mini_opened : Result (Unit {0}) → Db → Exec Scene (Unit {0})
  mini_opened (ok u) db s = (ok tt, record s { opened_after = s.events; ms = db })
  mini_opened (err x) db s = (err x, leave db.calls s)

  unfoldable pub open_mini : Text → Exec Scene (Unit {0})
  open_mini fname s =
      let (r, db) = open_db (world.engine s.events) fname Flag.no_flag new_db in mini_opened r db s

  unfoldable pub close_mini : Exec Scene (Unit {0})
  close_mini s = let (r, db) = destroy_db (engine_of s) s.ms in (r, leave db.calls s)

  -- A member function of the open connection.
  unfoldable pub ms : {A : Type 0} → (Engine → Exec Db A) → Exec Scene A
  ms m s = let (r, db) = m (engine_of s) s.ms in (r, record s { ms = db })

  -- `{ MiniSQLite ms(…); … }`
  unfoldable pub with_mini : Text → Exec Scene (Unit {0}) → Exec Scene (Unit {0})
  unfolding open_mini close_mini scoped
  with_mini fname body = open_mini fname >> scoped body close_mini
