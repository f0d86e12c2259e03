-- ===== src/SqliteWriter/Frame.antt =====
-- What the steps of a write and of a query leave alone.
use sqlitewrite.MiniSqlite.Statement.{Arg, bind_prep}
use sqlitewrite.SqliteWriter.Query.{may_time_out}
use sqlitewrite.MiniSqlite.Lifetime.{Flag}
use sqlitewrite.Base.{ℕ, ◌+◌, ◌≡◌, refl, false, List, [], ◌∷◌, eqb}
use sqlitewrite.Base.Exec.{Result, ok, err, Exec}
use sqlitewrite.Base.Hoare.{
  Ends, Ensures, Keeps, Keeps-if, Keeps-pure, Keeps-gets, Keeps-modify, ensures_bind, Keeps-raise,
}
use sqlitewrite.Text.{Text}
use sqlitewrite.Text.Dict.{Dict}
use sqlitewrite.Sqlite.{Engine, Call}
use sqlitewrite.MiniSqlite.Words.{IsQuiet}
use sqlitewrite.Value.{Var}
use sqlitewrite.MiniSqlite.Db.{Db}
use sqlitewrite.MiniSqlite.Schema.{not_empty, Columns}
use sqlitewrite.MiniSqlite.Frame.{
  get_schema-Keeps, add_column-Keeps, bind_prep-Keeps, exec_prep-Keeps, IsFramedFor, AllowsExec,
}
use sqlitewrite.SqliteWriter.Writer.{Writer, on_db}
use sqlitewrite.SqliteWriter.Insert.{
  Values, have_column, create_column, column_type, to_arg, remember, ensure_column, bind_loop,
  write_row, guarded,
}

module _ {A : Type 0} (Q : A → Writer → Type 0) (E : Writer → Type 0) where
  ends_on_db :
      (w : Writer) (r : Result A) (db : Db)
      → Ends (λ a t. Q a (record w { db = t })) (λ t. E (record w { db = t })) (r, db)
      → Ends Q E (r, record w { db = db })
  ends_on_db w (ok a) db h = h
  ends_on_db w (err x) db h = h

-- A member function of the database, seen from the writer.
pub ensures_on_db :
    {A : Type 0} {Q : A → Writer → Type 0} {E : Writer → Type 0} {P : Writer → Type 0}
    {m : Exec Db A}
    → ((w : Writer)
        → P w
        → Ensures
            (λ db. db ≡ w.db)
            m
            (λ a db. Q a (record w { db = db }))
            (λ db. E (record w { db = db })))
    → Ensures P (on_db m) Q E
unfolding on_db
ensures_on_db {Q = Q} {E = E} {m = m} h = record {
  at = λ w p. ends_on_db Q E w (m w.db).0 (m w.db).1 ((h w p).at w.db refl);
}

-- A property of the database alone.
pub ensures_on_db_only :
    {A : Type 0} {P : Db → Type 0} {Q : A → Db → Type 0} {E : Db → Type 0} {m : Exec Db A}
    → Ensures P m Q E
    → Ensures (λ w. P w.db) (on_db m) (λ a w. Q a w.db) (λ w. E w.db)
unfolding on_db
ensures_on_db_only {Q = Q} {E = E} {m = m} h = record {
  at = λ w p. ends_on_db (λ a t. Q a t.db) (λ t. E t.db) w (m w.db).0 (m w.db).1 (h.at w.db p);
}

pub Keeps-on_db :
    {A : Type 0} {P : Writer → Type 0} {m : Exec Db A}
    → ((w : Writer) → Keeps (λ db. P (record w { db = db })) m)
    → Keeps P (on_db m)
unfolding on_db
Keeps-on_db {P = P} {m = m} h = record {
  at = λ w p. ends_on_db (λ _. P) P w (m w.db).0 (m w.db).1 ((h w).at w.db p);
}

pub guarded-Keeps :
    {P : Writer → Type 0} (flag : Flag) (m : Exec Writer (Unit {0}))
    → Keeps P m
    → Keeps P (guarded flag m)
unfolding guarded
guarded-Keeps Flag.read_only m h = Keeps-raise _
guarded-Keeps Flag.no_flag m h = h
guarded-Keeps Flag.no_transactions m h = h

pub may_time_out-Keeps :
    (P : Writer → Type 0) (msec : ℕ) (flag : Flag) → Keeps P (may_time_out msec flag)
unfolding may_time_out
may_time_out-Keeps P msec Flag.read_only = Keeps-pure tt
may_time_out-Keeps P msec Flag.no_flag = Keeps-if (eqb msec 0) (Keeps-pure tt) (Keeps-raise _)
may_time_out-Keeps P msec Flag.no_transactions =
    Keeps-if (eqb msec 0) (Keeps-pure tt) (Keeps-raise _)

-- Such a property of the writer, which new columns do not touch either.
pub record IsFramedWriterFor (Allowed : Call → Type 0) (P : Writer → Type 0) : Type 0 where
  pub on_db : (w : Writer) → IsFramedFor Allowed (λ db. P (record w { db = db }))
  pub on_columns : (columns : Dict Columns) (w : Writer) → P w → P (record w { columns = columns })

abbrev pub IsFramedWriter : (Writer → Type 0) → Type 0
IsFramedWriter P = IsFramedWriterFor IsQuiet P

module _ {Allowed : Call → Type 0} (P : Writer → Type 0) (f : IsFramedWriterFor Allowed P)
    (execs : AllowsExec Allowed) where
  have_column-Keeps : (e : Engine) (table name : Text) → Keeps P (have_column e table name)
  unfolding have_column
  have_column-Keeps e table name = ensures_bind (Keeps-gets _) λ known.
      ensures_bind
        (Keeps-if (not_empty known) (Keeps-pure tt) (
          ensures_bind
            (Keeps-on_db
              (λ w. get_schema-Keeps (λ db. P (record w { db = db })) (f.on_db w) execs e table))
            (λ cols. Keeps-modify _ (λ s p. f.on_columns _ s p))))
        λ _. ensures_bind (Keeps-gets _) λ cols. Keeps-pure _

  pub ensure_column-Keeps :
      (e : Engine) (table name : Text) (v : Var) → Keeps P (ensure_column e table name v)
  unfolding ensure_column create_column remember
  ensure_column-Keeps e table name v = ensures_bind (have_column-Keeps e table name) λ there.
      Keeps-if there (Keeps-pure tt) (
        ensures_bind (Keeps-gets _) λ meta.
          ensures_bind
            (Keeps-on_db (λ w.
              add_column-Keeps (λ db. P (record w { db = db })) (f.on_db w) execs e table name
                (column_type v) meta))
            λ _. Keeps-modify _ (λ s p. f.on_columns _ s p))

pub bind_loop-Keeps_by :
    (P : Writer → Type 0) (e : Engine) (table : Text)
    → ((n : ℕ) (v : Arg) → Keeps P (on_db (bind_prep e table n v)))
    → (n : ℕ) (values : List Var) → Keeps P (bind_loop e table n values)
unfolding bind_loop
bind_loop-Keeps_by P e table each n [] = Keeps-pure tt
bind_loop-Keeps_by P e table each n (v ∷ values) =
    ensures_bind (each n (to_arg v)) (λ _. bind_loop-Keeps_by P e table each (n + 1) values)

module _ (P : Writer → Type 0) (f : IsFramedWriter P) where
  pub bind_loop-Keeps :
      (e : Engine) (table : Text) (n : ℕ) (values : List Var) → Keeps P (bind_loop e table n values)
  bind_loop-Keeps e table = bind_loop-Keeps_by P e table λ n v.
      Keeps-on_db (λ w. bind_prep-Keeps (λ db. P (record w { db = db })) (f.on_db w) e table n v)

  pub write_row-Keeps :
      (e : Engine) (table : Text) (values : Values) → Keeps P (write_row e table values)
  unfolding write_row
  write_row-Keeps e table values = ensures_bind (bind_loop-Keeps e table 1 _) λ _.
      ensures_bind
        (Keeps-on_db
          (λ w. exec_prep-Keeps (λ db. P (record w { db = db })) (f.on_db w) e table false 0))
        λ _. Keeps-pure tt
