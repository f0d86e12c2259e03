-- ===== src/MiniSqlite/RowValues.antt =====
-- The map that `execPrep` builds from the columns of a row.
use sqlitewrite.Base.{Option, some, List, [], ◌∷◌, ◌≡◌, if◌then◌else◌, ◌∙◌, ◌==◌, ap, refl}
use sqlitewrite.Text.{Text, text_eq}
use sqlitewrite.Text.Dict.{lookup, lookup-insert}
use sqlitewrite.Value.{OutVar}
use sqlitewrite.Sqlite.{Column}
use sqlitewrite.MiniSqlite.Statement.{read_columns, out_var, Row}

-- The value of the last column with the name, or else `o`.
abbrev pub last_named : Text → List Column → Option OutVar → Option OutVar
last_named name [] o = o
last_named name (c ∷ cs) o =
    last_named name cs (if name == c.name then some (out_var c.cell) else o)

-- A row maps a name to the value of the last column of that name; a name without a column keeps
-- what the map had for it.
pub lookup-read_columns :
    (name : Text) (cols : List Column) (row : Row)
    → lookup name (read_columns cols row) ≡ last_named name cols (lookup name row)
unfolding read_columns
lookup-read_columns name [] row = refl
lookup-read_columns name (c ∷ cs) row =
    lookup-read_columns name cs _
    ∙ ap (last_named name cs) (lookup-insert name c.name (out_var c.cell) row)
