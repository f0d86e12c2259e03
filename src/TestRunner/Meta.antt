-- ===== src/TestRunner/Meta.antt =====
-- testrunner.cc: metadata of columns.
use sqlitewrite.Base.{[], ◌∷◌}
use sqlitewrite.Base.Exec.{Exec, ◌>>=◌, ◌>>◌}
use sqlitewrite.Text.{codes, text_eq}
use sqlitewrite.MiniSqlite.Lifetime.{Flag}
use sqlitewrite.SqliteWriter.Lifetime.{construct, construct_data}
use sqlitewrite.TestRunner.Scene.{World, Scene, check, require, cleanup, with_writer}
use sqlitewrite.TestRunner.Access.{str, has_size, text_is, int_is, add, add_to, query, query_typed}

module _ (world : World) where
  -- `TEST_CASE("test meta")`
  unfoldable pub meta_test : Exec Scene (Unit {0})
  meta_test = do
    cleanup
    with_writer world Flag.no_flag
        (λ e.
          construct_data e (codes "testrunner-example.sqlite3")
            ((codes "piefpaf", codes "collate nocase") ∷ []))
        (do
          add world
              ((codes "piefpaf", str (codes "Guus")) ∷ (codes "poef", str (codes "guus")) ∷ []))
    with_writer world Flag.no_flag
        (λ e. construct e (codes "testrunner-example.sqlite3") [] Flag.no_flag)
        (do
          r1 ←
              query world (codes "select count(1) as c from data where piefpaf = ?")
                (str (codes "GUUS") ∷ [])
          check (has_size r1 1)
          check (text_is r1 0 (codes "c") (codes "1"))
          r2 ←
              query world (codes "select count(1) as c from data where poef = ?")
                (str (codes "GUUS") ∷ [])
          check (has_size r2 1)
          check (text_is r2 0 (codes "c") (codes "0"))
          cleanup)

  -- `TEST_CASE("test meta non-default table")`
  unfoldable pub meta_other_table_test : Exec Scene (Unit {0})
  meta_other_table_test = do
    cleanup
    with_writer world Flag.no_flag
        (λ e.
          construct e (codes "testrunner-example.sqlite3")
            ((codes "second", (codes "piefpaf", codes "collate nocase") ∷ []) ∷ []) Flag.no_flag)
        (do
          add_to world (codes "second")
              ((codes "piefpaf", str (codes "Guus")) ∷ (codes "poef", str (codes "guus")) ∷ [])
          add world (
              (codes "town", str (codes "Nootdorp"))
              ∷ (codes "city", str (codes "Pijnacker-Nootdorp"))
              ∷ []))
    with_writer world Flag.no_flag
        (λ e. construct e (codes "testrunner-example.sqlite3") [] Flag.no_flag)
        (do
          r1 ←
              query world (codes "select count(1) as c from second where piefpaf = ?")
                (str (codes "GUUS") ∷ [])
          check (has_size r1 1)
          check (text_is r1 0 (codes "c") (codes "1"))
          r2 ←
              query world (codes "select count(1) as c from second where poef = ?")
                (str (codes "GUUS") ∷ [])
          check (has_size r2 1)
          check (text_is r2 0 (codes "c") (codes "0"))
          r3 ←
              query_typed world (codes "select count(1) as c from data where city = ?")
                (str (codes "pijnacker-nootdorp") ∷ []) 0
          require (has_size r3 1)
          check (int_is r3 0 (codes "c") 0)
          r4 ←
              query_typed world (codes "select count(1) as c from data where city = ?")
                (str (codes "Pijnacker-Nootdorp") ∷ []) 0
          require (has_size r4 1)
          check (int_is r4 0 (codes "c") 1)
          cleanup)
