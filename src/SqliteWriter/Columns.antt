-- ===== src/SqliteWriter/Columns.antt =====
-- The known columns of each table stay sorted by name, so that the binary search for a column is
-- right.
use sqlitewrite.MiniSqlite.Known.{insert-AllSorted}
use sqlitewrite.SqliteWriter.Query.{query_gen}
use sqlitewrite.Value.{Var}
use sqlitewrite.Text.Dict.{insert}
use sqlitewrite.MiniSqlite.Db.{exec, Db}
use sqlitewrite.SqliteWriter.Frame.{ensures_on_db, guarded-Keeps, may_time_out-Keeps}
use sqlitewrite.Base.Exec.{Exec, ok}
use sqlitewrite.MiniSqlite.Sorted.{
  has_name, by_name-IsWeakOrder, search-eq-has_name, IsSorted-by_name, pair_lt-IsWeakOrder,
}
use sqlitewrite.Sort.Sorted.{IsSorted, sort-IsSorted}
use sqlitewrite.MiniSqlite.Schema.{
  get_schema, by_name, Columns, schema_query, name_and_type, not_empty, pair_lt,
}
use sqlitewrite.SqliteWriter.Insert.{
  have_column, load_columns, columns_of, add_value_generic, bind_loop, create_column, ensure_column,
  insert_row, column_loop, new_statement, Values, remember, write_row,
}
use sqlitewrite.Base.{ℕ, ◌≡◌, Bool, [], refl, List, ◌∷◌, ◌+◌, true, false}
use sqlitewrite.Base.Hoare.{
  Ensures, Keeps, ensures_bind, ends_always, Keeps-gets, Keeps-if, ensures_weaken, ensures_given,
  ensures_pure, Keeps-modify, Keeps-pure, ensures_gets, at_ok, Anything,
}
use sqlitewrite.Text.{Text}
use sqlitewrite.Sqlite.{Engine}
use sqlitewrite.SqliteWriter.Writer.{Writer, on_db}

-- Any function keeps a fact that does not speak of the state.
Keeps-fact : {S A F : Type 0} (m : Exec S A) → Keeps (λ _. F) m
Keeps-fact {F = F} m = record { at = λ s p. ends_always (λ _. F) (m s).0 (m s).1 p }

pub record IsSortedAll (w : Writer) : Type 0 where
  pub sorted : (t : Text) → IsSorted by_name (columns_of t w)

-- The columns do not depend on the database.
pub with_db : (w : Writer) (db : Db) → IsSortedAll w → IsSortedAll (record w { db = db })
unfolding columns_of
with_db w db h = record { sorted = h.sorted }

get_schema-IsSorted :
    (e : Engine) (table : Text)
    → Ensures Anything (get_schema e table) (λ cols _. IsSorted by_name cols) Anything
unfolding get_schema
get_schema-IsSorted e table = ensures_bind (Keeps-fact (exec e (schema_query table))) λ rows.
    ensures_bind (Keeps-fact (name_and_type rows))
      λ cols. ensures_pure _ (λ db _. sort-IsSorted by_name by_name-IsWeakOrder cols)

-- New columns for one table.
insert-IsSortedAll :
    (table : Text) (cols : Columns) (w : Writer)
    → IsSorted by_name cols
    → IsSortedAll w
    → IsSortedAll (record w { columns = insert table cols w.columns })
unfolding columns_of
insert-IsSortedAll table cols w s h = record {
  sorted = insert-AllSorted table cols w.columns s h.sorted;
}

pub remember-IsSortedAll :
    (table name : Text) (v : Var) (w : Writer)
    → IsSortedAll w
    → IsSortedAll (remember table name v w)
unfolding remember
remember-IsSortedAll table name v w h =
    insert-IsSortedAll table _ w (IsSorted-by_name _ (sort-IsSorted pair_lt pair_lt-IsWeakOrder _))
      h

module _ (e : Engine) where
  pub db_step : {A : Type 0} (m : Exec Db A) → Keeps IsSortedAll (on_db m)
  db_step m = ensures_on_db λ w h.
      ensures_weaken (λ db _. tt) (λ a db _. with_db w db h) (λ db _. with_db w db h) (Keeps-fact m)

  pub load_columns-IsSortedAll : (table : Text) → Keeps IsSortedAll (load_columns e table)
  unfolding load_columns
  load_columns-IsSortedAll table =
      ensures_bind {R = λ cols w. IsSorted by_name cols × IsSortedAll w}
        (ensures_on_db λ w h.
          ensures_weaken (λ db _. tt) (λ cols db s. (s, with_db w db h)) (λ db _. with_db w db h)
            (get_schema-IsSorted e table))
        λ cols. ensures_given λ s. Keeps-modify _ (λ w h. insert-IsSortedAll table cols w s h)

  pub have_column-IsSortedAll :
      (table name : Text)
      → Ensures IsSortedAll
          (have_column e table name)
          (λ b w. (b ≡ has_name name (columns_of table w)) × IsSortedAll w)
          IsSortedAll
  unfolding have_column
  have_column-IsSortedAll table name = ensures_bind (Keeps-gets _) λ known.
      ensures_bind (Keeps-if (not_empty known) (Keeps-pure tt) (load_columns-IsSortedAll table))
        λ _.
          ensures_bind {R = λ cols w. (cols ≡ columns_of table w) × IsSortedAll w}
            (ensures_gets _ (λ w h. (refl, h)))
            λ cols.
              ensures_pure _
                (λ w (same, h). (rw same (search-eq-has_name name _ (h.sorted table)), h))

  pub create_column-IsSortedAll :
      (table name : Text) (v : Var) → Keeps IsSortedAll (create_column e table name v)
  unfolding create_column
  create_column-IsSortedAll table name v = ensures_bind (Keeps-gets _) λ meta.
      ensures_bind (db_step _) λ _. Keeps-modify _ λ w h. remember-IsSortedAll table name v w h

  ensure_column-IsSortedAll :
      (table name : Text) (v : Var) → Keeps IsSortedAll (ensure_column e table name v)
  unfolding ensure_column
  ensure_column-IsSortedAll table name v =
      ensures_bind (have_column-IsSortedAll table name) λ there.
        ensures_weaken (λ w p. p.1) (λ _ w p. p) (λ w p. p)
          (Keeps-if there (Keeps-pure tt) (create_column-IsSortedAll table name v))

  column_loop-IsSortedAll :
      (table : Text) (values : Values) (first : Bool) (q qmarks : Text)
      → Keeps IsSortedAll (column_loop e table values first q qmarks)
  unfolding column_loop
  column_loop-IsSortedAll table [] first q qmarks = Keeps-pure _
  column_loop-IsSortedAll table ((name, v) ∷ values) first q qmarks =
      ensures_bind (ensure_column-IsSortedAll table name v)
        (λ _. column_loop-IsSortedAll table values false _ _)

  pub bind_loop-IsSortedAll :
      (table : Text) (n : ℕ) (vs : List Var) → Keeps IsSortedAll (bind_loop e table n vs)
  unfolding bind_loop
  bind_loop-IsSortedAll table n [] = Keeps-pure tt
  bind_loop-IsSortedAll table n (v ∷ vs) =
      ensures_bind (db_step _) (λ _. bind_loop-IsSortedAll table (n + 1) vs)

  insert_row-IsSortedAll :
      (table : Text) (values : Values) (replace : Bool)
      → Keeps IsSortedAll (insert_row e table values replace)
  unfolding insert_row new_statement write_row columns_of
  insert_row-IsSortedAll table values replace = ensures_bind (Keeps-gets _) λ reuse.
      ensures_bind
        (Keeps-if reuse (Keeps-pure tt) (
          ensures_bind (column_loop-IsSortedAll table values true _ _) (λ _.
            ensures_bind (db_step _) (λ _. Keeps-modify _ (λ w h. record { sorted = h.sorted })))))
        λ _.
          ensures_bind (bind_loop-IsSortedAll table 1 _)
            λ _. ensures_bind (db_step _) (λ _. Keeps-pure tt)

  pub add_value_generic-IsSortedAll :
      (table : Text) (values : Values) (replace : Bool)
      → Keeps IsSortedAll (add_value_generic e table values replace)
  unfolding add_value_generic
  add_value_generic-IsSortedAll table values replace = record {
    at = λ w p. (guarded-Keeps w.flag _ (insert_row-IsSortedAll table values replace)).at w p;
  }

  pub query_gen-IsSortedAll :
      (q : Text) (values : List Var) (msec : ℕ) → Keeps IsSortedAll (query_gen e q values msec)
  unfolding query_gen
  query_gen-IsSortedAll q values msec = record {
    at = λ w p.
        (ensures_bind (may_time_out-Keeps IsSortedAll msec w.flag) λ _.
            ensures_bind (db_step _)
              λ _. ensures_bind (bind_loop-IsSortedAll [] 1 values) (λ _. db_step _)).at
          w p;
  }

  -- Where the known columns are sorted, `haveColumn` returns true exactly for the names among the
  -- columns that are known of the table when it returns.
  pub have_column-eq-has_name :
      (table name : Text) (w : Writer) (b : Bool)
      → IsSortedAll w
      → (have_column e table name w).0 ≡ ok b
      → b ≡ has_name name (columns_of table (have_column e table name w).1)
  have_column-eq-has_name table name w b sorted h =
      (at_ok w (have_column-IsSortedAll table name) sorted h).0
