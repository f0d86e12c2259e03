-- ===== src/TestRunner/Values.antt =====
-- testrunner.cc: values of every kind, and rows that a vector holds.
use sqlitewrite.Base.{ℕ, List, [], ◌∷◌, ◌++◌}
use sqlitewrite.Base.Exec.{Exec, ◌>>=◌, ◌>>◌}
use sqlitewrite.Text.{Text, codes, text_eq}
use sqlitewrite.Value.{Var}
use sqlitewrite.MiniSqlite.Lifetime.{Flag}
use sqlitewrite.SqliteWriter.Insert.{Values}
use sqlitewrite.SqliteWriter.Lifetime.{construct}
use sqlitewrite.TestRunner.Scene.{World, Scene, check, cleanup, with_writer}
use sqlitewrite.TestRunner.Access.{
  int, str, out_at, string_is, blob_is, null_is, get_blob, down, add, query_typed, bytes_are,
  string_at_is,
}

module _ (world : World) where
  -- All bytes but 0, from the last to the first.
  unfoldable pub bit8_string : Text
  bit8_string = down 255 0

  -- `TEST_CASE("8 bit safe string")`
  unfoldable pub bit8_string_test : Exec Scene (Unit {0})
  bit8_string_test = do
    cleanup
    with_writer world Flag.no_flag
        (λ e. construct e (codes "testrunner-example.sqlite3") [] Flag.no_flag)
        (do add world ((codes "binarystring", str bit8_string) ∷ []))
    with_writer world Flag.no_flag
        (λ e. construct e (codes "testrunner-example.sqlite3") [] Flag.no_flag)
        (do
          r1 ← query_typed world (codes "select cast(binarystring as BLOB) as bstr from data") [] 0
          v ← out_at r1 0 (codes "bstr")
          t ← get_blob v
          check (bytes_are t bit8_string)
          r2 ← query_typed world (codes "select binarystring as bstr from data") [] 0
          check (string_at_is r2 0 (codes "bstr") bit8_string)
          cleanup)

  unfoldable pub bit8_blob : List ℕ
  bit8_blob = down 128 0 ++ down 127 128

  -- `TEST_CASE("blob test")`
  unfoldable pub blob_test : Exec Scene (Unit {0})
  blob_test = do
    cleanup
    with_writer world Flag.no_flag
        (λ e. construct e (codes "testrunner-example.sqlite3") [] Flag.no_flag)
        (do add world ((codes "binblob", Var.blob bit8_blob) ∷ []))
    with_writer world Flag.no_flag
        (λ e. construct e (codes "testrunner-example.sqlite3") [] Flag.no_flag)
        (do
          res ← query_typed world (codes "select binblob from data") [] 0
          check (blob_is res 0 (codes "binblob") bit8_blob)
          cleanup)

  -- `TEST_CASE("empty blob and string")`
  unfoldable pub empty_test : Exec Scene (Unit {0})
  empty_test = do
    cleanup
    with_writer world Flag.no_flag
        (λ e. construct e (codes "testrunner-example.sqlite3") [] Flag.no_flag)
        (do add world ((codes "vec", Var.blob []) ∷ (codes "str", str []) ∷ []))
    with_writer world Flag.no_flag
        (λ e. construct e (codes "testrunner-example.sqlite3") [] Flag.no_flag)
        (do
          res ← query_typed world (codes "select * from data") [] 0
          check (string_is res 0 (codes "str") [])
          check (blob_is res 0 (codes "vec") [])
          cleanup)

  abbrev pub before_change : Values
  before_change =
      ((codes "val", Var.double 4607182418800017408)
        ∷ (codes "temp", Var.double 4643512921809643110)
        ∷ (codes "pief", str (codes "poef"))
        ∷ [])

  abbrev pub after_change : Values
  after_change =
      ((codes "val", Var.double 4607182418800017408)
        ∷ (codes "temp", Var.double 4643512921809643110)
        ∷ (codes "pief", Var.null)
        ∷ (codes "teller", int 12)
        ∷ [])

  -- `TEST_CASE("vector form of addValue")`
  unfoldable pub vector_test : Exec Scene (Unit {0})
  vector_test = do
    cleanup
    with_writer world Flag.no_flag
        (λ e. construct e (codes "testrunner-example.sqlite3") [] Flag.no_flag)
        (do
          add world before_change
          add world after_change
          r1 ← query_typed world (codes "select * from data where pief='poef'") [] 0
          check (null_is r1 0 (codes "teller"))
          r2 ← query_typed world (codes "select * from data where teller=12") [] 0
          check (null_is r2 0 (codes "pief")))
