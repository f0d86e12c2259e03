-- ===== src/TestRunner/Errors.antt =====
-- testrunner.cc: writes that fail, and read-only writers.
use sqlitewrite.Text.Dict.{Dict}
use sqlitewrite.Base.{[], ◌∷◌}
use sqlitewrite.Base.Exec.{Exec, ◌>>=◌, ◌>>◌}
use sqlitewrite.Text.{Text, codes, text_eq}
use sqlitewrite.Value.{Var}
use sqlitewrite.MiniSqlite.Lifetime.{Flag}
use sqlitewrite.SqliteWriter.Lifetime.{construct, construct_data, construct_flag}
use sqlitewrite.TestRunner.Scene.{
  World, Scene, check, require, require_throws, cleanup, remove_file, with_writer,
}
use sqlitewrite.TestRunner.Access.{
  int, str, has_size, text_is, int_is, string_is, add, add_to, replace_in, query, query_typed,
}

module _ (world : World) where
  -- `TEST_CASE("deal with constraint error")`
  unfoldable pub constraint_test : Exec Scene (Unit {0})
  constraint_test = do
    cleanup
    with_writer world Flag.no_flag
        (λ e.
          construct_data e (codes "testrunner-example.sqlite3")
            ((codes "user", codes "UNIQUE") ∷ []))
        (do
          add world ((codes "user", str (codes "ahu")) ∷ (codes "test", int 1) ∷ [])
          require_throws
              (add world ((codes "user", str (codes "ahu")) ∷ (codes "test", int 2) ∷ []))
          add world ((codes "user", str (codes "ahu2")) ∷ (codes "test", int 1) ∷ [])
          add world ((codes "user", str (codes "ahu3")) ∷ (codes "test", int 1) ∷ [])
          cleanup)

  abbrev pub foreign_meta : Dict (Dict Text)
  foreign_meta =
      (codes "posts", (codes "id", codes "PRIMARY KEY NOT NULL") ∷ [])
      ∷ (
        codes "images",
        (codes "postid", codes "NOT NULL REFERENCES posts(id) ON DELETE CASCADE") ∷ [],
      )
      ∷ []

  -- `TEST_CASE("test foreign keys")`
  unfoldable pub foreign_keys_test : Exec Scene (Unit {0})
  foreign_keys_test = do
    cleanup
    with_writer world Flag.no_flag
        (λ e. construct e (codes "testrunner-example.sqlite3") foreign_meta Flag.no_flag)
        (do
          r1 ← query world (codes "PRAGMA foreign_keys") []
          check (has_size r1 1)
          check (text_is r1 0 (codes "foreign_keys") (codes "1"))
          add_to world (codes "posts")
              ((codes "id", str (codes "main")) ∷ (codes "name", str (codes "main album")) ∷ [])
          add_to world (codes "images")
              ((codes "id", str (codes "first")) ∷ (codes "postid", str (codes "main")) ∷ [])
          require_throws (add_to world (codes "images") ((codes "id", str (codes "second")) ∷ []))
          require_throws (
              add_to world (codes "images") (
                (codes "id", str (codes "second"))
                ∷ (codes "postid", str (codes "nosuchpost"))
                ∷ []))
          _ ← query world (codes "delete from posts where id=?") (str (codes "main") ∷ [])
          r2 ← query_typed world (codes "select count(1) as c from images") [] 0
          require (has_size r2 1)
          check (int_is r2 0 (codes "c") 0))

  -- `TEST_CASE("insert or replace")`
  unfoldable pub replace_test : Exec Scene (Unit {0})
  replace_test = do
    remove_file (codes "insertorreplace.sqlite3")
    with_writer world Flag.no_flag
        (λ e.
          construct e (codes "insertorreplace.sqlite3")
            ((codes "data", (codes "id", codes "PRIMARY KEY") ∷ []) ∷ []) Flag.no_flag)
        (do
          add world ((codes "id", int 1) ∷ (codes "user", str (codes "ahu")) ∷ [])
          require_throws (add world ((codes "id", int 1) ∷ (codes "user", str (codes "jhu")) ∷ []))
          r1 ← query_typed world (codes "select user from data where id=?") (int 1 ∷ []) 0
          check (has_size r1 1)
          replace_in world (codes "data")
              ((codes "id", int 1) ∷ (codes "user", str (codes "harry")) ∷ [])
          r2 ← query_typed world (codes "select user from data where id=?") (int 1 ∷ []) 0
          require (has_size r2 1)
          check (string_is r2 0 (codes "user") (codes "harry"))
          require_throws (add world ((codes "id", int 1) ∷ (codes "user", str (codes "jhu")) ∷ []))
          remove_file (codes "insertorreplace.sqlite3"))

  -- `TEST_CASE("readonly test")`
  unfoldable pub readonly_test : Exec Scene (Unit {0})
  readonly_test = do
    remove_file (codes "readonly-test.sqlite3")
    with_writer world Flag.no_flag
        (λ e. construct e (codes "readonly-test.sqlite3") [] Flag.no_flag)
        (do
          add world (
              (codes "some", str (codes "stuff"))
              ∷ (codes "val", Var.double 4653142004841054208)
              ∷ []))
    with_writer world Flag.read_only
        (λ e. construct_flag e (codes "readonly-test.sqlite3") Flag.read_only)
        (do
          r1 ← query_typed world (codes "select * from data where some='stuff'") [] 0
          require (has_size r1 1)
          require_throws (add world ((codes "some", str (codes "more")) ∷ []))
          r2 ← query_typed world (codes "select count(1) c from data") [] 0
          require (has_size r2 1)
          check (int_is r2 0 (codes "c") 1)
          require_throws
              (query world (codes "insert into data (some, val) values('blah', 123)") []))
    remove_file (codes "readonly-test.sqlite3")
