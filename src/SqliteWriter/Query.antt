-- ===== src/SqliteWriter/Query.antt =====
-- `query`, `queryT` and `queryGen`.
use sqlitewrite.Base.{ℕ, suc, true, List, [], ◌++◌, map, eqb, if◌then◌else◌}
use sqlitewrite.Base.Int.{ℤ, pos, negsuc}
use sqlitewrite.Base.Exec.{Exec, runtime_error, pure, raise, ◌>>=◌, ◌>>◌}
use sqlitewrite.Text.{Text, codes}
use sqlitewrite.Text.Dict.{Dict}
use sqlitewrite.Text.Decimal.{to_string}
use sqlitewrite.Value.{Var, OutVar}
use sqlitewrite.Sqlite.{Engine}
use sqlitewrite.MiniSqlite.Statement.{Row, prepare, exec_prep}
use sqlitewrite.MiniSqlite.Lifetime.{Flag}
use sqlitewrite.SqliteWriter.Writer.{Writer, on_db}
use sqlitewrite.SqliteWriter.Insert.{bind_loop}

-- `std::to_string` of a signed number
abbrev pub signed_to_string : ℤ → Text
signed_to_string (pos n) = to_string n
signed_to_string (negsuc n) = codes "-" ++ to_string (suc n)

unfoldable pub may_time_out : ℕ → Flag → Exec Writer (Unit {0})
may_time_out msec Flag.read_only = pure tt
may_time_out msec _ =
    if eqb msec 0
    then pure tt
    else raise (runtime_error (codes "Timeout only possible for read-only connections"))

module _ (e : Engine) where
  -- `queryGen`: the statement goes by the empty table name.
  unfoldable pub query_gen : Text → List Var → ℕ → Exec Writer (List Row)
  query_gen q values msec w =
      (do
        may_time_out msec w.flag
        on_db (prepare e [] q)
        bind_loop e [] 1 values
        on_db (exec_prep e [] true msec))
        w

  -- `queryT`
  unfoldable pub query_t : Text → List Var → ℕ → Exec Writer (List Row)
  query_t = query_gen

  -- `std::to_string(double)`, on the bits of the number, is the C++ library's.
  module _ (show_double : ℕ → Text) where
    unfoldable pub render : OutVar → Text
    render (OutVar.string s) = s
    render OutVar.null = []
    render (OutVar.blob b) = codes "<blob>"
    render (OutVar.double d) = show_double d
    render (OutVar.int64 z) = signed_to_string z

    unfoldable pub render_row : Row → Dict Text
    render_row = map (λ (name, v). (name, render v))

    unfoldable pub query : Text → List Var → Exec Writer (List (Dict Text))
    query q values = do res ← query_gen q values 0; pure (map render_row res)
