-- ===== src/MiniSqlite/Names.antt =====
-- Names of tables: `schema.table`, or `table` alone.
use sqlitewrite.Base.{◌+◌, none, some, ◌++◌}
use sqlitewrite.Base.Lists.{take, drop}
use sqlitewrite.Text.{Text, codes, find}

-- `quoteTableName`
unfoldable pub quote_table_name : Text → Text
quote_table_name table = elim (find b'.' table) [
  | none ↦ codes "\"" ++ (table ++ codes "\"")
  | some pos ↦
      codes "\"" ++ (take pos table ++ (codes "\".\"" ++ (drop (pos + 1) table ++ codes "\"")))
]

-- The first lines of `getSchema`: the schema, `main` if none is given, and the table's own name.
unfoldable pub split_table_name : Text → Text × Text
split_table_name table = elim (find b'.' table) [
  | none ↦ (codes "main", table)
  | some pos ↦ (take pos table, drop (pos + 1) table)
]
