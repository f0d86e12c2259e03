-- ===== src/MiniSqlite/Schema.antt =====
-- `getSchema`, `haveTable` and `addColumn` of `MiniSQLite`.
use sqlitewrite.Base.{Bool, true, false, not, ◌&&◌, ◌||◌, List, [], ◌∷◌, ◌++◌, if◌then◌else◌}
use sqlitewrite.Base.Exec.{Exec, undefined, pure, raise, ◌>>=◌}
use sqlitewrite.Text.{Text, codes}
use sqlitewrite.Text.Order.{text_lt}
use sqlitewrite.Sort.{sort}
use sqlitewrite.Sqlite.{Engine}
use sqlitewrite.MiniSqlite.Db.{Db, exec}
use sqlitewrite.MiniSqlite.Names.{quote_table_name, split_table_name}

-- The name and the type of each column.
abbrev pub Columns : Type 0
Columns = List (Text × Text)

-- The λ `a.first < b.first`
abbrev pub by_name : Text × Text → Text × Text → Bool
by_name (a, _) (b, _) = text_lt a b

-- `operator<` of `std::pair<std::string, std::string>`
abbrev pub pair_lt : Text × Text → Text × Text → Bool
pair_lt (a, s) (b, t) = text_lt a b || not (text_lt b a) && text_lt s t

-- `ret.push_back({r[1], r[2]})` for each row.
unfoldable pub name_and_type : List (List Text) → Exec Db Columns
name_and_type [] = pure []
name_and_type ((cid ∷ name ∷ type ∷ _) ∷ rest) = do
  cols ← name_and_type rest
  pure ((name, type) ∷ cols)
name_and_type (_ ∷ rest) = raise undefined

unfoldable pub schema_query : Text → Text
schema_query table =
    let (schema, tablename) = split_table_name table in
    codes "SELECT cid,name,type FROM pragma_table_xinfo('"
    ++ (tablename ++ (codes "', '" ++ (schema ++ codes "')")))

-- The statement that `addColumn` executes, by whether the table is there.
unfoldable pub ddl : Bool → Bool → Text → Text → Text → Text → Text
ddl strict false table name type meta =
    codes "create table if not exists "
    ++ (quote_table_name table
        ++ (codes " ( '"
            ++ (name
                ++ (codes "' "
                    ++ (type
                        ++ (codes " "
                            ++ (meta ++ (if strict then codes ") STRICT" else codes ")"))))))))
ddl strict true table name type meta =
    codes "ALTER table "
    ++ (quote_table_name table
        ++ (codes " add column \"" ++ (name ++ (codes "\" " ++ (type ++ (codes " " ++ meta))))))

abbrev pub not_empty {ℓ} : {A : Type ℓ} → List A → Bool
not_empty [] = false
not_empty (x ∷ xs) = true

module _ (e : Engine) where
  unfoldable pub get_schema : Text → Exec Db Columns
  get_schema table = do
    rows ← exec e (schema_query table)
    ret ← name_and_type rows
    pure (sort by_name ret)

  unfoldable pub have_table : Text → Exec Db Bool
  have_table table = do cols ← get_schema table; pure (not_empty cols)

  unfoldable pub add_column : Text → Text → Text → Text → Exec Db (Unit {0})
  add_column table name type meta = do
    there ← have_table table
    _ ← exec e (ddl e.strict_tables there table name type meta)
    pure tt
