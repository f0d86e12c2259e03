-- ===== src/MiniPsql/Schema.antt =====
-- `getSchema`, `haveTable` and `addColumn` of `MiniPSQL`.
use sqlitewrite.Base.{Bool, true, false, List, [], ◌∷◌, ◌++◌}
use sqlitewrite.Base.Exec.{Exec, undefined, pure, raise, ◌>>=◌}
use sqlitewrite.Text.{Text, codes}
use sqlitewrite.Sort.{sort}
use sqlitewrite.MiniSqlite.Schema.{Columns, by_name, not_empty}
use sqlitewrite.MiniPsql.Db.{Db, Server, exec}

-- `ret.push_back({r[0], r[1]})` for each row.
unfoldable pub name_and_udt : List (List Text) → Exec Db Columns
name_and_udt [] = pure []
name_and_udt ((name ∷ type ∷ _) ∷ rest) = do cols ← name_and_udt rest; pure ((name, type) ∷ cols)
name_and_udt (_ ∷ rest) = raise undefined

-- The statement that `addColumn` executes, by whether the table is there.
unfoldable pub column_ddl : Bool → Text → Text → Text → Text
column_ddl false table name type =
    codes "create table if not exists "
    ++ (table ++ (codes " ( " ++ (name ++ (codes " " ++ (type ++ codes " )")))))
column_ddl true table name type =
    codes "ALTER table \""
    ++ (table ++ (codes "\" add column \"" ++ (name ++ (codes "\" " ++ type))))

module _ (s : Server) where
  unfoldable pub table_schema : Text → Exec Db Columns
  table_schema table = do
    rows ← exec s (
        codes "SELECT column_name, udt_name FROM information_schema.columns where table_name='"
        ++ (table ++ codes "'"))
    ret ← name_and_udt rows
    pure (sort by_name ret)

  unfoldable pub table_exists : Text → Exec Db Bool
  table_exists table = do cols ← table_schema table; pure (not_empty cols)

  unfoldable pub add_table_column : Text → Text → Text → Exec Db (Unit {0})
  add_table_column table name type = do
    there ← table_exists table
    _ ← exec s (column_ddl there table name type)
    pure tt
