-- ===== src/SqliteWriter/Returns.antt =====
-- When a write returns.
use sqlitewrite.Base.{ℕ, ◌≡◌, ◌≢◌, Bool, true, false, List, [], ◌∷◌, refl, ◌+◌}
use sqlitewrite.Base.Exec.{ok, Exec, ◌>>=◌, pure, Result, err}
use sqlitewrite.Base.Hoare.{
  Ends, ensures_bind, ensures_pure, ensures_modify, ensures_if, ensures_gets, Anything, Never,
  Returns, ends_returned,
}
use sqlitewrite.Text.{Text}
use sqlitewrite.Value.{Var}
use sqlitewrite.Sqlite.{Engine}
use sqlitewrite.MiniSqlite.Db.{Db}
use sqlitewrite.MiniSqlite.Lifetime.{Flag}
use sqlitewrite.MiniSqlite.Returns.{
  IsObliging, get_schema-Returns, add_column-Returns, bind_prep-Returns, prepare-Returns,
  exec_prep-Returns,
}
use sqlitewrite.MiniSqlite.Schema.{not_empty}
use sqlitewrite.SqliteWriter.Writer.{Writer, on_db}
use sqlitewrite.SqliteWriter.Insert.{
  Values, add_value_generic, insert_row, column_loop, ensure_column, create_column, have_column,
  load_columns, new_statement, bind_loop, write_row, guarded,
}

ends_on_db :
    {A : Type 0} (r : Result A) (db : Db) (w : Writer)
    → Ends (λ _. Anything) Never (r, db)
    → Ends (λ _. Anything) Never (r, w)
ends_on_db (ok a) db w h = tt
ends_on_db (err x) db w h = h

pub on_db-Returns : {A : Type 0} {m : Exec Db A} → Returns m → Returns (on_db m)
unfolding on_db
on_db-Returns {m = m} h = record { at = λ w p. ends_on_db _ _ _ (h.at w.db tt) }

pub then_ :
    {A B : Type 0} {m : Exec Writer A} {f : A → Exec Writer B}
    → Returns m
    → ((a : A) → Returns (f a))
    → Returns (m >>= f)
then_ h k = ensures_bind h k

pub pure-Returns : {A : Type 0} (a : A) → Returns {S = Writer} (pure a)
pure-Returns a = ensures_pure a (λ w p. p)

module _ (e : Engine) (o : IsObliging e) where
  have_column-Returns : (table name : Text) → Returns (have_column e table name)
  unfolding have_column load_columns
  have_column-Returns table name = then_ (ensures_gets _ (λ w p. p)) λ known.
      then_
        (ensures_if (not_empty known) (λ _. pure-Returns tt)
          (λ _.
            then_ (on_db-Returns (get_schema-Returns e o table))
              (λ cols. ensures_modify _ (λ w p. p))))
        λ _. then_ (ensures_gets _ (λ w p. p)) λ cols. pure-Returns _

  ensure_column-Returns : (table name : Text) (v : Var) → Returns (ensure_column e table name v)
  unfolding ensure_column create_column
  ensure_column-Returns table name v = then_ (have_column-Returns table name) λ there.
      ensures_if there (λ _. pure-Returns tt)
        λ _. then_ (ensures_gets _ (λ w p. p)) λ meta.
          then_ (on_db-Returns (add_column-Returns e o table name _ meta))
            (λ _. ensures_modify _ (λ w p. p))

  column_loop-Returns :
      (table : Text) (values : Values) (first : Bool) (q qmarks : Text)
      → Returns (column_loop e table values first q qmarks)
  unfolding column_loop
  column_loop-Returns table [] first q qmarks = pure-Returns _
  column_loop-Returns table ((name, v) ∷ values) first q qmarks =
      then_ (ensure_column-Returns table name v) (λ _. column_loop-Returns table values false _ _)

  bind_loop-Returns :
      (table : Text) (n : ℕ) (values : List Var) → Returns (bind_loop e table n values)
  unfolding bind_loop
  bind_loop-Returns table n [] = pure-Returns tt
  bind_loop-Returns table n (v ∷ values) =
      then_ (on_db-Returns (bind_prep-Returns e o table n _))
        (λ _. bind_loop-Returns table (n + 1) values)

  insert_row-Returns :
      (table : Text) (values : Values) (replace : Bool)
      → Returns (insert_row e table values replace)
  unfolding insert_row new_statement write_row
  insert_row-Returns table values replace = then_ (ensures_gets _ (λ w p. p)) λ reuse.
      then_
        (ensures_if reuse (λ _. pure-Returns tt)
          (λ _. then_ (column_loop-Returns table values true _ []) λ _.
            then_ (on_db-Returns (prepare-Returns e o table _)) (λ _. ensures_modify _ (λ w p. p))))
        λ _.
          then_ (bind_loop-Returns table 1 _)
            λ _. then_ (on_db-Returns (exec_prep-Returns e o table false 0)) (λ _. pure-Returns tt)

  -- On an engine on which nothing fails and each step ends its statement without a row, and which
  -- answers a schema query with rows of texts, a write to a writer that is not read-only returns,
  -- from every state of the writer and for every row.
  pub add_value_generic-returns :
      (table : Text) (values : Values) (replace : Bool) (w : Writer)
      → w.flag ≢ Flag.read_only
      → (add_value_generic e table values replace w).0 ≡ ok tt
  unfolding add_value_generic
  add_value_generic-returns table values replace w writable = go w.flag writable
    where
      go :
          (flag : Flag)
          → flag ≢ Flag.read_only
          → (guarded flag (insert_row e table values replace) w).0 ≡ ok tt
      go Flag.read_only no_ = absurd (no_ refl)
      go Flag.no_flag no_ = ends_returned _ _ ((insert_row-Returns table values replace).at w tt)
      go Flag.no_transactions no_ =
          ends_returned _ _ ((insert_row-Returns table values replace).at w tt)
