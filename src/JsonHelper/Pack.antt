-- ===== src/JsonHelper/Pack.antt =====
-- `packResultsJson` and `packResultsJsonStr`.
use sqlitewrite.Base.{Bool, Option, none, some, List, [], ◌∷◌, if◌then◌else◌}
use sqlitewrite.Text.{Text}
use sqlitewrite.Value.{OutVar}
use sqlitewrite.MiniSqlite.Statement.{Row}
use sqlitewrite.JsonHelper.Json.{Json}

module _ (j : Json) (fillnull : Bool) where
  open j use {Value}

  -- The value that a column is given; none where the visitor returns without an assignment.
  abbrev pub packed : OutVar → Option Value
  packed OutVar.null = if fillnull then some (j.of_string []) else none
  packed (OutVar.double d) = some (j.of_double d)
  packed (OutVar.int64 z) = some (j.of_int64 z)
  packed (OutVar.string s) = some (j.of_string s)
  packed (OutVar.blob b) = some (j.of_blob b)

  abbrev pub assign_some : Value → Text → Option Value → Value
  assign_some o name none = o
  assign_some o name (some v) = j.assign o name v

  -- The loop over the columns of a row.
  unfoldable pub pack_columns : Row → Value → Value
  pack_columns [] o = o
  pack_columns ((name, v) ∷ row) o = pack_columns row (assign_some o name (packed v))

  -- The loop over the rows.
  unfoldable pub pack_rows : List Row → Value → Value
  unfolding pack_columns
  pack_rows [] arr = arr
  pack_rows (row ∷ rows) arr = pack_rows rows (j.append arr (pack_columns row j.null))

  unfoldable pub pack_results_json : List Row → Value
  unfolding pack_rows
  pack_results_json result = pack_rows result j.array

  unfoldable pub pack_results_json_str : List Row → Text
  unfolding pack_results_json
  pack_results_json_str result = j.dump (pack_results_json result)
