-- ===== src/SqliteWriter/Known.antt =====
-- After the loop of `addValueGeneric` over the columns, the columns of the row are known.
use sqlitewrite.MiniSqlite.Known.{Knows, Knows-nothing, with_column-has_name, with_column-Knows}
use mathlib.Core.Path.{subst}
use sqlitewrite.SqliteWriter.Columns.{remember-IsSortedAll, with_db}
use sqlitewrite.Base.{◌||◌, ◌==◌, ◌∙◌, sym}
use sqlitewrite.Base.{
  ◌≡◌, Bool, true, false, List, [], ◌∷◌, arith, refl, if◌then◌else◌, ◌||◌, sym, ◌==◌, ◌∙◌,
}
use sqlitewrite.Base.Exec.{Exec, ok, pure}
use sqlitewrite.Base.Hoare.{
  Ensures, ensures_bind, ensures_pure, ensures_gets, ensures_weaken, ensures_modify, at_ok,
  ensures_if, Anything, ends-Anything,
}
use sqlitewrite.Text.{Text, text_eq}
use sqlitewrite.Sqlite.{Engine}
use sqlitewrite.Value.{Var}
use sqlitewrite.MiniSqlite.Db.{Db}
use sqlitewrite.MiniSqlite.Schema.{Columns, not_empty}
use sqlitewrite.MiniSqlite.Sorted.{has_name, search-eq-has_name}
use sqlitewrite.SqliteWriter.Writer.{Writer, on_db}
use sqlitewrite.SqliteWriter.Insert.{
  Values, columns_of, column_type, remember, load_columns, have_column, create_column,
  ensure_column, column_loop,
}
use sqlitewrite.SqliteWriter.Spec.{names_of}
use sqlitewrite.SqliteWriter.Frame.{ensures_on_db}
use sqlitewrite.SqliteWriter.Columns.{IsSortedAll, load_columns-IsSortedAll}

abbrev pub Known : Text → List Text → Writer → Type 0
Known table ns w = IsSortedAll w × Knows (columns_of table w) ns

remembered_columns :
    (table name : Text) (v : Var) (w : Writer) (f : Text)
    → has_name f (columns_of table (remember table name v w))
      ≡ (has_name f (columns_of table w) || f == name)
unfolding remember columns_of
remembered_columns table name v w f = with_column-has_name table name (column_type v) w.columns f

remembered-Knows :
    (table name : Text) (v : Var) (w : Writer) (ns : List Text)
    → Knows (columns_of table w) ns
    → Knows (columns_of table (remember table name v w)) ns
unfolding remember columns_of
remembered-Knows table name v w ns = with_column-Knows table name (column_type v) w.columns ns

remembered-has_name :
    (table name : Text) (v : Var) (w : Writer)
    → has_name name (columns_of table (remember table name v w)) ≡ true
remembered-has_name table name v w = ground (arith, remembered_columns table name v w name)

module _ (e : Engine) (table : Text) where
  have_column-Known :
      (name : Text) (ns : List Text)
      → Ensures
          (Known table ns)
          (have_column e table name)
          (λ b w. (b ≡ has_name name (columns_of table w)) × Known table ns w)
          Anything
  unfolding have_column
  have_column-Known name ns =
      ensures_bind {R = λ known w. (known ≡ columns_of table w) × Known table ns w}
        (ensures_gets _ (λ w k. (refl, k)))
        λ known. ensures_bind {R = λ _. Known table ns} (loaded known) λ _.
          ensures_bind {R = λ cols w. (cols ≡ columns_of table w) × Known table ns w}
            (ensures_gets _ (λ w k. (refl, k)))
            λ cols.
              ensures_pure _
                (λ w (same, k). (rw same (search-eq-has_name name _ (k.0.sorted table)), k))
    where
      loaded :
          (known : Columns)
          → Ensures
              (λ w. (known ≡ columns_of table w) × Known table ns w)
              (if not_empty known then pure tt else load_columns e table)
              (λ _. Known table ns)
              Anything
      loaded [] = record {
        at = λ w (same, (sorted, k)).
            (ensures_weaken (λ w p. p)
                (λ _ w p. (p, Knows-nothing _ ns (subst (λ cols. Knows cols ns) (sym same) k)))
                (λ w p. tt) (load_columns-IsSortedAll e table)).at
              w sorted;
      }
      loaded (c ∷ cols) = ensures_pure tt (λ w (same, k). k)

  on_db-Known :
      {A : Type 0} (ns : List Text) (m : Exec Db A)
      → Ensures (Known table ns) (on_db m) (λ _. Known table ns) Anything
  unfolding columns_of
  on_db-Known ns m = ensures_on_db λ w (sorted, k). record {
    at = λ db p.
        ends-Anything (λ db'. Known table ns (record w { db = db' })) (m db).0 (m db).1
          (with_db w (m db).1 sorted, k);
  }

  create_column-Known :
      (name : Text) (v : Var) (ns : List Text)
      → Ensures
          (Known table ns)
          (create_column e table name v)
          (λ _. Known table (name ∷ ns))
          Anything
  unfolding create_column
  create_column-Known name v ns =
      ensures_bind {R = λ _. Known table ns} (ensures_gets _ (λ w k. k)) λ meta.
        ensures_bind {R = λ _. Known table ns} (on_db-Known ns _) λ _.
          ensures_modify _ (λ w (sorted, k). (
            remember-IsSortedAll table name v w sorted,
            (remembered-has_name table name v w, remembered-Knows table name v w ns k),
          ))

  ensure_column-Known :
      (name : Text) (v : Var) (ns : List Text)
      → Ensures
          (Known table ns)
          (ensure_column e table name v)
          (λ _. Known table (name ∷ ns))
          Anything
  unfolding ensure_column
  ensure_column-Known name v ns = ensures_bind (have_column-Known name ns) λ there.
      ensures_if there
        (λ yes_. ensures_pure tt (λ w (same, (sorted, k)). (sorted, (sym same ∙ yes_, k))))
        (λ no_.
          ensures_weaken (λ w (same, k). k) (λ _ w k. k) (λ w k. k) (create_column-Known name v ns))

  column_loop-Ensures :
      (values : Values) (first : Bool) (q qmarks : Text) (ns : List Text)
      → Ensures
          (Known table ns)
          (column_loop e table values first q qmarks)
          (λ _ w. Known table ns w × Knows (columns_of table w) (names_of values))
          Anything
  unfolding column_loop
  column_loop-Ensures [] first q qmarks ns = ensures_pure _ (λ w k. (k, tt))
  column_loop-Ensures ((name, v) ∷ values) first q qmarks ns =
      ensures_bind (ensure_column-Known name v ns) λ _.
        ensures_weaken (λ w k. k) (λ _ w ((sorted, (p, k)), h). ((sorted, k), (p, h))) (λ w k. k)
          (column_loop-Ensures values false _ _ (name ∷ ns))

  -- Where the known columns are sorted, and the loop that adds the missing columns and builds the
  -- insert statement returns, each name of the row is among the known columns of the table, and the
  -- known columns are sorted.
  pub column_loop-Known :
      (values : Values) (q qmarks : Text) (w : Writer) (out : Text × Text)
      → IsSortedAll w
      → (column_loop e table values true q qmarks w).0 ≡ ok out
      → Known table (names_of values) (column_loop e table values true q qmarks w).1
  column_loop-Known values q qmarks w out sorted h =
      let ((s, _), k) = at_ok w (column_loop-Ensures values true q qmarks []) (sorted, tt) h in
      (s, k)
