-- ===== src/Demo/Rows.antt =====
-- demo.cc: a million rows on an SQLite file, a row with another column, and one row more.
use sqlitewrite.Base.{ℕ, zero, suc, ◌+◌, [], ◌∷◌, if◌then◌else◌}
use sqlitewrite.Base.Exec.{Error, Result, ok, err, Exec, pure, ◌>>◌}
use sqlitewrite.Text.{codes}
use sqlitewrite.Value.{Var}
use sqlitewrite.MiniSqlite.Lifetime.{Flag}
use sqlitewrite.SqliteWriter.Insert.{Values}
use sqlitewrite.SqliteWriter.Lifetime.{construct}
use sqlitewrite.TestRunner.Scene.{World, Scene, is_exception, with_writer}
use sqlitewrite.TestRunner.Access.{int, str, add}

-- How `main` ends: with its last statement, or with an exception that it has printed.
pub data Exit : Type 0 where
  finished : Exit
  printed : Error → Exit

-- `catch (std::exception& e)`
abbrev pub caught : Result (Unit {0}) → Result Exit
caught (ok u) = ok Exit.finished
caught (err x) = if is_exception x then ok (Exit.printed x) else err x

unfoldable pub print_exception : Exec Scene (Unit {0}) → Exec Scene Exit
print_exception m s = let (r, s') = m s in (caught r, s')

module _ (world : World) where
  -- `{{"pief", n}, {"poef", 1.1234567890123*n}, {"paf", "bert"}}`
  unfoldable pub demo_row : ℕ → Values
  demo_row n =
      (codes "pief", int n)
      ∷ (codes "poef", Var.double (world.times 4607738418749009560 n))
      ∷ (codes "paf", str (codes "bert"))
      ∷ []

  -- The loop that writes `rounds` rows, from row `n` on.
  unfoldable pub demo_loop : ℕ → ℕ → Exec Scene (Unit {0})
  demo_loop zero n = pure tt
  demo_loop (suc rounds) n = do add world (demo_row n); demo_loop rounds (n + 1)

  unfoldable pub demo_body : Exec Scene (Unit {0})
  demo_body = do
    demo_loop 1000000 0
    add world ((codes "timestamp", int 1234567890) ∷ [])
    demo_loop 1 0

  unfoldable pub demo_main : Exec Scene Exit
  unfolding print_exception
  demo_main = print_exception (
      with_writer world Flag.no_flag (λ e. construct e (codes "example.sqlite3") [] Flag.no_flag)
        demo_body)
