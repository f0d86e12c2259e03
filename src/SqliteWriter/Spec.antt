-- ===== src/SqliteWriter/Spec.antt =====
-- The insert statement of a row, as a description that does not follow the loop of the code.
use sqlitewrite.MiniSqlite.QuotedNames.{enclosed}
use sqlitewrite.Base.{Bool, List, [], ◌∷◌, ◌++◌, map, false, true}
use sqlitewrite.Base.Lists.{length, replicate}
use sqlitewrite.Text.{Text, codes}
use sqlitewrite.SqliteWriter.Insert.{Values}

-- The texts with `", "` between them.
abbrev pub comma_separated : List Text → Text
comma_separated [] = []
comma_separated (x ∷ []) = x
comma_separated (x ∷ y ∷ xs) = x ++ (codes ", " ++ comma_separated (y ∷ xs))

abbrev pub quoted : Text → Text
quoted name = codes "'" ++ (name ++ codes "'")

abbrev pub names_of : Values → List Text
names_of = map (λ (name, _). name)

abbrev pub insert_into : Bool → Text
insert_into false = codes "insert into "
insert_into true = codes "insert or replace into "

-- `insert [or replace ]into T ('a', 'b') values (?, ?)`
abbrev pub insert_text : Text → Bool → List Text → Text
insert_text table replace names =
    insert_into replace
    ++ (enclosed table
        ++ (codes " ("
            ++ (comma_separated (map quoted names)
                ++ (codes ") values ("
                    ++ (comma_separated (replicate (length names) (codes "?")) ++ codes ")")))))
