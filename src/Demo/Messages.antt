-- ===== src/Demo/Messages.antt =====
-- pqdemo.cc: the messages that the program for PostgreSQL sends.
use sqlitewrite.TestRunner.Scene.{is_exception}
use sqlitewrite.Base.{ℕ, zero, suc, ◌+◌, ◌%◌, List, [], ◌∷◌, ◌++◌, eqb, if◌then◌else◌}
use sqlitewrite.Base.Int.{pos}
use sqlitewrite.Base.Exec.{Exec, pure, ◌>>◌, Result, ok, err}
use sqlitewrite.Text.{Text, codes}
use sqlitewrite.Text.Decimal.{to_string}
use sqlitewrite.PsqlWriter.Message.{Var}
use sqlitewrite.PsqlWriter.Pipe.{PsqlWriter, open_pipe, add_value_to, close_pipe}

-- `(n%2) ? false : true`, which becomes an `int32_t`
unfoldable pub is_even : ℕ → Var
is_even n = Var.int32 (pos (if eqb (n % 2) 0 then 1 else 0))

-- The six values of the first loop and of the third one, which differ in three names.
unfoldable pub sensor_values : Text → Text → Text → ℕ → List (Text × Var)
unfolding is_even
sensor_values one two three n =
    (one, Var.int32 (pos 1))
    ∷ (two, Var.int32 (pos 2))
    ∷ (three, Var.string (codes "bert"))
    ∷ (codes "temp", Var.double 4622945017495814144)
    ∷ (codes "n", Var.uint32 n)
    ∷ (codes "cool", is_even n)
    ∷ []

unfoldable pub first_values : ℕ → List (Text × Var)
unfolding sensor_values
first_values n = sensor_values (codes "test") (codes "value") (codes "name") n

unfoldable pub last_values : ℕ → List (Text × Var)
unfolding sensor_values
last_values n = sensor_values (codes "pief") (codes "poef") (codes "paf") n

module _ (times : ℕ → ℕ → ℕ) where
  -- The values of the second loop; `times` is the product of a double and a number.
  unfoldable pub vals_values : ℕ → List (Text × Var)
  vals_values n =
      (codes "joh", Var.double (times 4607632778762754458 n))
      ∷ (codes "wuh", Var.string (to_string n ++ codes "_uhuh"))
      ∷ []

  -- A loop over `n` that sends the values of each round.
  unfoldable pub send_loop : (ℕ → List (Text × Var)) → Text → ℕ → ℕ → Exec PsqlWriter (Unit {0})
  send_loop values table zero n = pure tt
  send_loop values table (suc rounds) n = do
    add_value_to (values n) table
    send_loop values table rounds (n + 1)

  -- The `try` block of `main`
  unfoldable pub pqdemo_body : Exec PsqlWriter (Unit {0})
  pqdemo_body = do
    open_pipe []
    add_value_to ((codes "test", Var.int32 (pos 0)) ∷ []) (codes "data")
    send_loop first_values (codes "data") 50000 0
    send_loop vals_values (codes "vals") 5000 0
    send_loop last_values (codes "data") 50000 0
    close_pipe

  -- What `main` returns: 1 after an exception that it has printed.
  abbrev pub exit_code : Result (Unit {0}) → Result ℕ
  exit_code (ok u) = ok 0
  exit_code (err x) = if is_exception x then ok 1 else err x

  -- `main`, by how the commit thread ends: its exception ends the process.
  unfoldable pub pqdemo_main : Result (Unit {0}) → Exec PsqlWriter ℕ
  unfolding pqdemo_body
  pqdemo_main (ok u) w = let (r, w') = pqdemo_body w in (exit_code r, w')
  pqdemo_main (err x) w = let (r, w') = pqdemo_body w in (err x, w')
