-- ===== src/TestRunner/Scale.antt =====
-- testrunner.cc: many rows, time limits, and a database in memory.
use sqlitewrite.Base.{ℕ, zero, suc, ◌+◌, [], ◌∷◌}
use sqlitewrite.Base.Int.{pos}
use sqlitewrite.Base.Exec.{Exec, pure, ◌>>=◌, ◌>>◌}
use sqlitewrite.Text.{Text, codes, text_eq}
use sqlitewrite.Text.Decimal.{to_string}
use sqlitewrite.Value.{Var}
use sqlitewrite.MiniSqlite.Lifetime.{Flag}
use sqlitewrite.SqliteWriter.Insert.{Values}
use sqlitewrite.SqliteWriter.Lifetime.{construct, construct_flag}
use sqlitewrite.TestRunner.Scene.{
  World, Scene, check, cleanup, with_writer, with_mini, require_throws_as, is_runtime_error,
}
use sqlitewrite.TestRunner.Access.{
  int, str, has_size, cell_is, out_at, add, add_to, query_typed, exec, get_int64, eqb_ℤ,
}

module _ (world : World) where
  -- The row of round `n`: a number, a double and a text.
  unfoldable pub scale_row : ℕ → Values
  scale_row n =
      (codes "piefpaf", int n)
      ∷ (codes "wuh", Var.double (world.times 4607182418800017408 n))
      ∷ (codes "wah", str (to_string n))
      ∷ []

  -- The loop that writes the row of each round to two tables, from round `n`.
  unfoldable pub scale_loop : Text → Text → ℕ → ℕ → Exec Scene (Unit {0})
  scale_loop one two zero n = pure tt
  scale_loop one two (suc rounds) n = do
    add_to world one (scale_row n)
    add_to world two (scale_row n)
    scale_loop one two rounds (n + 1)

  -- `TEST_CASE("test scale")`
  unfoldable pub scale_test : Exec Scene (Unit {0})
  scale_test = do
    cleanup
    with_writer world Flag.no_flag
        (λ e. construct e (codes "testrunner-example.sqlite3") [] Flag.no_flag)
        (do
          scale_loop (codes "data") (codes "metadata") 100000 0
          add world ((codes "poef", int 21) ∷ [])
          add_to world (codes "metadata") ((codes "poef", int 32) ∷ []))
    with_mini world (codes "testrunner-example.sqlite3") (do
      r1 ← exec world (codes "select count(1) from data")
      check (has_size r1 1)
      check (cell_is r1 0 0 (codes "100001"))
      r2 ← exec world (codes "select count(1) from metadata")
      check (has_size r2 1)
      check (cell_is r2 0 0 (codes "100001"))
      r3 ← exec world (codes "select count(poef) from metadata")
      check (has_size r3 1)
      check (cell_is r3 0 0 (codes "1"))
      r4 ← exec world (codes "select count(wah) from metadata")
      check (has_size r4 1)
      check (cell_is r4 0 0 (codes "100000"))
      cleanup)

  -- `TEST_CASE("test scale NoTransactions")`
  unfoldable pub scale_no_transactions_test : Exec Scene (Unit {0})
  scale_no_transactions_test = do
    cleanup
    with_writer world Flag.no_transactions
        (λ e. construct_flag e (codes "testrunner-example.sqlite3") Flag.no_transactions)
        (do
          scale_loop (codes "data") (codes "metadata") 1000 0
          add world ((codes "poef", int 21) ∷ [])
          add_to world (codes "metadata") ((codes "poef", int 32) ∷ []))
    with_mini world (codes "testrunner-example.sqlite3") (do
      r1 ← exec world (codes "select count(1) from data")
      check (has_size r1 1)
      check (cell_is r1 0 0 (codes "1001"))
      r2 ← exec world (codes "select count(1) from metadata")
      check (has_size r2 1)
      check (cell_is r2 0 0 (codes "1001"))
      r3 ← exec world (codes "select count(poef) from metadata")
      check (has_size r3 1)
      check (cell_is r3 0 0 (codes "1"))
      r4 ← exec world (codes "select count(wah) from metadata")
      check (has_size r4 1)
      check (cell_is r4 0 0 (codes "1000"))
      cleanup)

  -- `TEST_CASE("timeout test")`
  unfoldable pub timeout_test : Exec Scene (Unit {0})
  timeout_test = do
    cleanup
    with_writer world Flag.no_flag
        (λ e. construct e (codes "testrunner-example.sqlite3") [] Flag.no_flag)
        (do scale_loop (codes "one") (codes "two") 1000 0)
    with_writer world Flag.read_only
        (λ e. construct_flag e (codes "testrunner-example.sqlite3") Flag.read_only)
        (do
          res ← query_typed world (codes "select * from one") [] 1000
          check (has_size res 1000)
          require_throws_as is_runtime_error
              (query_typed world (codes "select * from one,two") [] 1234))

  -- `TEST_CASE("memory database")`
  unfoldable pub memory_test : Exec Scene (Unit {0})
  memory_test = do
    cleanup
    with_writer world Flag.no_flag
        (λ e. construct e (codes "testrunner-example.sqlite3") [] Flag.no_flag)
        (do
          add_to world (codes "testtabel") ((codes "id", int 234) ∷ [])
          r1 ← query_typed world (codes "select * from testtabel") [] 0
          check (has_size r1 1)
          v ← out_at r1 0 (codes "id")
          o ← get_int64 v
          check (pure (eqb_ℤ o (pos 234)))
          _ ← query_typed world (codes "ATTACH DATABASE ':memory:' AS aux1") [] 0
          add_to world (codes "aux1.testtabel") ((codes "id", int 1) ∷ [])
          r2 ← query_typed world (codes "select * from aux1.testtabel") [] 0
          check (has_size r2 1)
          v' ← out_at r2 0 (codes "id")
          o' ← get_int64 v'
          check (pure (eqb_ℤ o' (pos 1))))
