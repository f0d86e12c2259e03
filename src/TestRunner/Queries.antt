-- ===== src/TestRunner/Queries.antt =====
-- testrunner.cc: queries, with their results as texts and as typed values.
use sqlitewrite.Base.{[], ◌∷◌}
use sqlitewrite.Base.Int.{negsuc}
use sqlitewrite.Base.Exec.{Exec, ◌>>=◌, ◌>>◌}
use sqlitewrite.Text.{codes, text_eq}
use sqlitewrite.Value.{Var}
use sqlitewrite.MiniSqlite.Lifetime.{Flag}
use sqlitewrite.SqliteWriter.Lifetime.{construct}
use sqlitewrite.TestRunner.Scene.{World, Scene, check, cleanup, with_writer}
use sqlitewrite.TestRunner.Access.{
  int, str, has_size, text_is, int_is, double_is, string_is, null_is, add, add_to, query,
  query_typed,
}

module _ (world : World) where
  -- `TEST_CASE("test queries")`
  unfoldable pub queries_test : Exec Scene (Unit {0})
  queries_test = do
    cleanup
    with_writer world Flag.no_flag
        (λ e. construct e (codes "testrunner-example.sqlite3") [] Flag.no_flag)
        (do
          add world ((codes "piefpaf", int 2) ∷ [])
          add world ((codes "piefpaf", int 7) ∷ [])
          add_to world (codes "metadata") ((codes "piefpaf", int 3) ∷ [])
          add world ((codes "poef", int 21) ∷ [])
          add_to world (codes "metadata") ((codes "poef", int 32) ∷ [])
          add_to world (codes "metadata") ((codes "poef", Var.int32 (negsuc 0)) ∷ []))
    with_writer world Flag.no_flag
        (λ e. construct e (codes "testrunner-example.sqlite3") [] Flag.no_flag)
        (do
          r1 ← query world (codes "select * from data where piefpaf = ?") (int 2 ∷ [])
          check (has_size r1 1)
          check (text_is r1 0 (codes "piefpaf") (codes "2"))
          r2 ← query world (codes "select sum(piefpaf) as s from data") []
          check (has_size r2 1)
          check (text_is r2 0 (codes "s") (codes "9"))
          r3 ←
              query world (codes "select piefpaf from data where piefpaf NOT NULL order by piefpaf")
                []
          check (has_size r3 2)
          check (text_is r3 0 (codes "piefpaf") (codes "2"))
          check (text_is r3 1 (codes "piefpaf") (codes "7"))
          r4 ←
              query world (codes "select sum(poef) as s from metadata where poef > ?")
                (Var.int32 (negsuc 1) ∷ [])
          check (has_size r4 1)
          check (text_is r4 0 (codes "s") (codes "31"))
          r5 ←
              query world (codes "select sum(poef) as s from metadata where poef > ?")
                (Var.int32 (negsuc 0) ∷ [])
          check (has_size r5 1)
          check (text_is r5 0 (codes "s") (codes "32"))
          cleanup)

  -- `TEST_CASE("test queries typed")`
  unfoldable pub queries_typed_test : Exec Scene (Unit {0})
  queries_typed_test = do
    cleanup
    with_writer world Flag.no_flag
        (λ e. construct e (codes "testrunner-example.sqlite3") [] Flag.no_flag)
        (do
          add world ((codes "piefpaf", int 2) ∷ [])
          add world ((codes "piefpaf", int 7) ∷ [])
          add world ((codes "poef", int 21) ∷ [])
          add world ((codes "user", str (codes "ahu")) ∷ (codes "piefpaf", int 42) ∷ [])
          add world (
              (codes "temperature", Var.double 4625816062258262835) ∷ (codes "piefpaf", int 3) ∷ [])
          add_to world (codes "metadata") ((codes "poef", int 8) ∷ [])
          add_to world (codes "metadata") ((codes "poef", int 23) ∷ [])
          add_to world (codes "metadata") ((codes "poef", Var.int32 (negsuc 0)) ∷ [])
          add_to world (codes "metadata") ((codes "poef", Var.int32 (negsuc 1)) ∷ []))
    with_writer world Flag.no_flag
        (λ e. construct e (codes "testrunner-example.sqlite3") [] Flag.no_flag)
        (do
          r1 ← query_typed world (codes "select * from data where piefpaf = ?") (int 3 ∷ []) 0
          check (has_size r1 1)
          check (double_is r1 0 (codes "temperature") 4625816062258262835)
          check (int_is r1 0 (codes "piefpaf") 3)
          r2 ← query_typed world (codes "select sum(temperature) as s from data") [] 0
          check (double_is r2 0 (codes "s") 4625816062258262835)
          r3 ← query_typed world (codes "select user from data where piefpaf = ?") (int 42 ∷ []) 0
          check (string_is r3 0 (codes "user") (codes "ahu"))
          r4 ← query_typed world (codes "select * from data order by piefpaf") [] 0
          check (null_is r4 0 (codes "temperature"))
          r5 ←
              query_typed world
                (codes "select piefpaf from data where piefpaf NOT NULL order by piefpaf") [] 0
          check (has_size r5 4)
          check (int_is r5 0 (codes "piefpaf") 2)
          check (int_is r5 2 (codes "piefpaf") 7)
          r6 ←
              query_typed world (codes "select sum(poef) as s from metadata where poef > ?")
                (Var.int32 (negsuc 1) ∷ []) 0
          check (has_size r6 1)
          check (int_is r6 0 (codes "s") 30)
          r7 ←
              query_typed world (codes "select sum(poef) as s from metadata where poef > ?")
                (Var.int32 (negsuc 0) ∷ []) 0
          check (has_size r7 1)
          check (int_is r7 0 (codes "s") 31)
          cleanup)
