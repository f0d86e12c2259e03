-- ===== src/MiniPsql/Tests.antt =====
-- A server for tests, and the theorems on its connections at concrete inputs.
use sqlitewrite.MiniPsql.Rows.{get_rows, result_with, get_rows_lem}
use sqlitewrite.Base.{◌≡◌, [], ◌∷◌, eqb, ◌&&◌, ◌==◌, if◌then◌else◌, refl, ◌≢◌, List, arith}
use sqlitewrite.Text.{codes, text_eq, Text}
use sqlitewrite.MiniPsql.Db.{Server, Reply, new_db, rows_until_empty}
use sqlitewrite.MiniPsql.Statement.{params_of, bind_param}
use sqlitewrite.MiniPsql.Bound.{param_at, param_at-bind_param}

-- This server answers every call with one row.
abbrev pub one_row : Server
one_row = record { reply = λ h c. Reply.tuples ((codes "42" ∷ []) ∷ []) }

param_at-bind_param_example :
    param_at (params_of (codes "t") (bind_param (codes "t") 2 (codes "x") new_db).1) 1 ≡ (
      if codes "t" == codes "t" && eqb 1 1
      then codes "x"
      else param_at (params_of (codes "t") new_db) 1)
param_at-bind_param_example = param_at-bind_param (codes "t") 1 (codes "x") new_db (codes "t") 1

row_there : (codes "42" ∷ []) ≢ []
row_there e = cc

abbrev three_rows : List (List Text)
three_rows =
    (codes "a" ∷ codes "b" ∷ []) ∷ (codes "c" ∷ codes "d" ∷ []) ∷ (codes "e" ∷ codes "f" ∷ []) ∷ []

get_rows_lem_example : get_rows 4 (result_with 2 three_rows) ≡ rows_until_empty one_row three_rows
get_rows_lem_example = get_rows_lem one_row 2 three_rows 4 (refl, (refl, (refl, tt))) (omega arith)
