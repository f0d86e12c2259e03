-- ===== src/MiniPsql/Frame.antt =====
-- What the schema queries and `addColumn` of `MiniPSQL` keep, since all they do is `exec`.
use sqlitewrite.Base.{◌≡◌, Bool, true, false, List, [], ◌∷◌, refl}
use sqlitewrite.Base.Hoare.{Ensures, ensures_bind, ensures_pure, ensures_raise}
use sqlitewrite.Text.{Text, codes, text_dec}
use sqlitewrite.MiniSqlite.Words.{Word, word_of_text}
use sqlitewrite.MiniPsql.Db.{Db, Server, exec}
use sqlitewrite.MiniPsql.Schema.{
  name_and_udt, column_ddl, table_schema, table_exists, add_table_column,
}

-- `P` is kept by every text but those of transactions; `E` holds where one of them throws.
module _ (s : Server) (P E : Db → Type 0) (throws : (db : Db) → P db → E db)
    (execs : (sql : Text) → word_of_text sql ≡ Word.other → Ensures P (exec s sql) (λ _. P) E) where
  name_and_udt-Ensures : (rows : List (List Text)) → Ensures P (name_and_udt rows) (λ _. P) E
  unfolding name_and_udt
  name_and_udt-Ensures [] = ensures_pure _ (λ db p. p)
  name_and_udt-Ensures ((name ∷ type ∷ cells) ∷ rest) =
      ensures_bind (name_and_udt-Ensures rest) (λ cols. ensures_pure _ (λ db p. p))
  name_and_udt-Ensures ((name ∷ []) ∷ rest) = ensures_raise _ throws
  name_and_udt-Ensures ([] ∷ rest) = ensures_raise _ throws

  pub table_schema-Ensures : (table : Text) → Ensures P (table_schema s table) (λ _. P) E
  unfolding table_schema codes text_dec
  table_schema-Ensures table =
      ensures_bind (execs _ refl)
        λ rows. ensures_bind (name_and_udt-Ensures rows) (λ cols. ensures_pure _ (λ db p. p))

  ddl-Ensures :
      (there : Bool) (table name type : Text)
      → Ensures P (exec s (column_ddl there table name type)) (λ _. P) E
  unfolding column_ddl codes text_dec
  ddl-Ensures true table name type = execs _ refl
  ddl-Ensures false table name type = execs _ refl

  pub add_table_column-Ensures :
      (table name type : Text) → Ensures P (add_table_column s table name type) (λ _. P) E
  unfolding add_table_column table_exists
  add_table_column-Ensures table name type =
      ensures_bind (ensures_bind (table_schema-Ensures table) (λ cols. ensures_pure _ (λ db p. p)))
        λ there. ensures_bind (ddl-Ensures there table name type) (λ _. ensures_pure tt (λ db p. p))
