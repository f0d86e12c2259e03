-- ===== src/TestRunner/Basic.antt =====
-- testrunner.cc: writes to one table and to several, read back on another connection.
use sqlitewrite.Base.{[], ◌∷◌}
use sqlitewrite.Base.Exec.{Exec, ◌>>=◌, ◌>>◌}
use sqlitewrite.Text.{codes, text_eq}
use sqlitewrite.Value.{Var}
use sqlitewrite.MiniSqlite.Lifetime.{Flag}
use sqlitewrite.SqliteWriter.Lifetime.{construct}
use sqlitewrite.TestRunner.Scene.{World, Scene, check, cleanup, with_writer, with_mini}
use sqlitewrite.TestRunner.Access.{int, str, has_size, cell_is, add, add_to, exec}

module _ (world : World) where
  -- `TEST_CASE("basic test")`
  unfoldable pub basic_test : Exec Scene (Unit {0})
  basic_test = do
    cleanup
    with_writer world Flag.no_flag
        (λ e. construct e (codes "testrunner-example.sqlite3") [] Flag.no_flag)
        (do add world ((codes "pief", int 1) ∷ []))
    with_mini world (codes "testrunner-example.sqlite3") (do
      res ← exec world (codes "select pief from data")
      check (has_size res 1)
      check (cell_is res 0 0 (codes "1"))
      cleanup)

  -- `TEST_CASE("other table test")`
  unfoldable pub other_table_test : Exec Scene (Unit {0})
  other_table_test = do
    cleanup
    with_writer world Flag.no_flag
        (λ e. construct e (codes "testrunner-example.sqlite3") [] Flag.no_flag)
        (do add_to world (codes "metadata") ((codes "piefpaf", int 2) ∷ []))
    with_mini world (codes "testrunner-example.sqlite3") (do
      res ← exec world (codes "select piefpaf from metadata")
      check (has_size res 1)
      check (cell_is res 0 0 (codes "2"))
      cleanup)

  -- `TEST_CASE("test add columns")`
  unfoldable pub add_columns_test : Exec Scene (Unit {0})
  add_columns_test = do
    cleanup
    with_writer world Flag.no_flag
        (λ e. construct e (codes "testrunner-example.sqlite3") [] Flag.no_flag)
        (do
          add world ((codes "piefpaf", int 2) ∷ [])
          add world (
              (codes "piefpaf", int 3)
              ∷ (codes "poef", Var.double 4607272490792564818)
              ∷ (codes "poetput", str (codes "test"))
              ∷ [])
          add world ((codes "piefpaf", int 1) ∷ []))
    with_mini world (codes "testrunner-example.sqlite3") (do
      res ← exec world (codes "select sum(piefpaf), sum(poef) from data")
      check (has_size res 1)
      check (cell_is res 0 0 (codes "6"))
      check (cell_is res 0 1 (codes "1.02"))
      cleanup)

  -- `TEST_CASE("test multiple tables")`
  unfoldable pub multiple_tables_test : Exec Scene (Unit {0})
  multiple_tables_test = do
    cleanup
    with_writer world Flag.no_flag
        (λ e. construct e (codes "testrunner-example.sqlite3") [] Flag.no_flag)
        (do
          add world ((codes "piefpaf", int 2) ∷ [])
          add_to world (codes "metadata") ((codes "piefpaf", int 3) ∷ [])
          add world ((codes "poef", int 21) ∷ [])
          add_to world (codes "metadata") ((codes "poef", int 32) ∷ []))
    with_mini world (codes "testrunner-example.sqlite3") (do
      res ← exec world (codes "select sum(piefpaf), sum(poef) from data")
      check (has_size res 1)
      check (cell_is res 0 0 (codes "2"))
      check (cell_is res 0 1 (codes "21"))
      res' ← exec world (codes "select sum(piefpaf), sum(poef) from metadata")
      check (has_size res' 1)
      check (cell_is res' 0 0 (codes "3"))
      check (cell_is res' 0 1 (codes "32"))
      cleanup)
