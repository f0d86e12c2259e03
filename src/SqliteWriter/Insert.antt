-- ===== src/SqliteWriter/Insert.antt =====
-- `haveColumn` and `addValueGeneric`, which all `addValue` and `addOrReplaceValue` overloads call.
use sqlitewrite.Base.{
  ℕ, ◌+◌, Bool, true, false, not, ◌&&◌, List, [], ◌∷◌, ◌++◌, map, ◌==◌, if◌then◌else◌,
}
use sqlitewrite.Base.Exec.{Exec, runtime_error, pure, raise, gets, modify, ◌>>=◌, ◌>>◌}
use sqlitewrite.Text.{Text, codes, text_eq}
use sqlitewrite.Text.Dict.{at, insert}
use sqlitewrite.Sort.{sort, binary_search}
use sqlitewrite.Value.{Var}
use sqlitewrite.Sqlite.{Engine}
use sqlitewrite.MiniSqlite.Names.{quote_table_name}
use sqlitewrite.MiniSqlite.Schema.{Columns, by_name, pair_lt, not_empty, get_schema, add_column}
use sqlitewrite.MiniSqlite.Statement.{Arg, is_prepared, bind_prep, prepare, exec_prep}
use sqlitewrite.MiniSqlite.Lifetime.{Flag}
use sqlitewrite.SqliteWriter.Writer.{Writer, on_db}

-- A row to be written: names with their values.
abbrev pub Values : Type 0
Values = List (Text × Var)

-- `d_columns[table]`, `d_lastsig[table]`, `d_lastreplace[table]` and `d_meta[table][name]`
unfoldable pub columns_of : Text → Writer → Columns
columns_of table w = at [] table w.columns

unfoldable pub lastsig_of : Text → Writer → List Text
lastsig_of table w = at [] table w.lastsig

unfoldable pub lastreplace_of : Text → Writer → Bool
lastreplace_of table w = at false table w.lastreplace

unfoldable pub meta_of : Text → Text → Writer → Text
meta_of table name w = at [] name (at [] table w.meta)

-- `std::equal` of the names of the row and the last signature.
unfoldable pub same_signature : Values → List Text → Bool
same_signature [] [] = true
same_signature [] (s ∷ sig) = false
same_signature (v ∷ values) [] = false
same_signature ((name, _) ∷ values) (s ∷ sig) = name == s && same_signature values sig

abbrev pub same_bool : Bool → Bool → Bool
same_bool true b = b
same_bool false b = not b

-- Whether the prepared statement of the table serves for this row.
unfoldable pub can_reuse : Text → Values → Bool → Writer → Bool
can_reuse table values replace w =
    is_prepared table w.db
    && (same_bool (lastreplace_of table w) replace && same_signature values (lastsig_of table w))

-- The type that a new column gets, from its first value.
abbrev pub column_type : Var → Text
column_type (Var.double _) = codes "REAL"
column_type (Var.string _) = codes "TEXT"
column_type (Var.blob _) = codes "BLOB"
column_type _ = codes "INT"

-- The overload of `bindPrep` that `std::visit` picks.
abbrev pub to_arg : Var → Arg
to_arg (Var.double d) = Arg.double d
to_arg (Var.int32 z) = Arg.int z
to_arg (Var.uint32 n) = Arg.uint32 n
to_arg (Var.int64 z) = Arg.long z
to_arg (Var.string s) = Arg.string s
to_arg (Var.blob b) = Arg.blob b
to_arg Var.null = Arg.null

-- The start of the query.
abbrev pub insert_head : Text → Bool → Text
insert_head table replace =
    codes "insert "
    ++ ((if replace then codes "or replace " else [])
        ++ (codes "into " ++ (quote_table_name table ++ codes " (")))

abbrev pub comma_unless : Bool → Text
comma_unless first = if first then [] else codes ", "

-- A column that was added is appended to the known ones, which are sorted again.
unfoldable pub remember : Text → Text → Var → Writer → Writer
remember table name v w = record w {
  columns =
      insert table (sort pair_lt (columns_of table w ++ ((name, column_type v) ∷ []))) w.columns;
}

-- The test for a read-only database in front of the locked part.
unfoldable pub guarded : Flag → Exec Writer (Unit {0}) → Exec Writer (Unit {0})
guarded Flag.read_only body =
    raise (runtime_error (codes "Attempting to write to a read-only database instance"))
guarded Flag.no_flag body = body
guarded Flag.no_transactions body = body

module _ (e : Engine) where
  unfoldable pub load_columns : Text → Exec Writer (Unit {0})
  load_columns table = do
    cols ← on_db (get_schema e table)
    modify (λ w. record w { columns = insert table cols w.columns })

  unfoldable pub have_column : Text → Text → Exec Writer Bool
  unfolding load_columns
  have_column table name = do
    known ← gets (columns_of table)
    if not_empty known then pure tt else load_columns table
    cols ← gets (columns_of table)
    pure (binary_search by_name cols (name, []))

  unfoldable pub create_column : Text → Text → Var → Exec Writer (Unit {0})
  create_column table name v = do
    meta ← gets (meta_of table name)
    on_db (add_column e table name (column_type v) meta)
    modify (remember table name v)

  unfoldable pub ensure_column : Text → Text → Var → Exec Writer (Unit {0})
  ensure_column table name v = do
    there ← have_column table name
    if there then pure tt else create_column table name v

  -- The loop that adds the missing columns and builds the query: `q` and `qmarks` so far.
  unfoldable pub column_loop : Text → Values → Bool → Text → Text → Exec Writer (Text × Text)
  column_loop table [] first q qmarks = pure (q, qmarks)
  column_loop table ((name, v) ∷ values) first q qmarks = do
    ensure_column table name v
    column_loop table values false (q ++ (comma_unless first ++ (codes "'" ++ (name ++ codes "'"))))
        (qmarks ++ (comma_unless first ++ codes "?"))

  unfoldable pub new_statement : Text → Values → Bool → Exec Writer (Unit {0})
  new_statement table values replace = do
    (q, qmarks) ← column_loop table values true (insert_head table replace) []
    on_db (prepare e table (q ++ (codes ") values (" ++ (qmarks ++ codes ")"))))
    modify (λ w. record w {
      lastsig = insert table (map (λ (name, _). name) values) w.lastsig;
      lastreplace = insert table replace w.lastreplace;
    })

  -- The loop over `std::visit`, from parameter `n`.
  unfoldable pub bind_loop : Text → ℕ → List Var → Exec Writer (Unit {0})
  bind_loop table n [] = pure tt
  bind_loop table n (v ∷ values) = do
    on_db (bind_prep e table n (to_arg v))
    bind_loop table (n + 1) values

  unfoldable pub write_row : Text → Values → Exec Writer (Unit {0})
  write_row table values = do
    bind_loop table 1 (map (λ (_, v). v) values)
    _ ← on_db (exec_prep e table false 0)
    pure tt

  -- The body under the lock.
  unfoldable pub insert_row : Text → Values → Bool → Exec Writer (Unit {0})
  insert_row table values replace = do
    reuse ← gets (can_reuse table values replace)
    if reuse then pure tt else new_statement table values replace
    write_row table values

  unfoldable pub add_value_generic : Text → Values → Bool → Exec Writer (Unit {0})
  unfolding guarded
  add_value_generic table values replace w = guarded w.flag (insert_row table values replace) w

  unfoldable pub add_value : Values → Text → Exec Writer (Unit {0})
  add_value values table = add_value_generic table values false

  unfoldable pub add_or_replace_value : Values → Text → Exec Writer (Unit {0})
  add_or_replace_value values table = add_value_generic table values true
