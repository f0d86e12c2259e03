-- ===== src/MiniSqlite/Frame.antt =====
-- What each operation leaves alone: a property of the statements and the transaction flag is kept by
-- whatever only makes calls, reads rows and counts.
use sqlitewrite.MiniSqlite.Words.{IsAside}
use sqlitewrite.MiniSqlite.Words.{IsQuiet, ddl-IsAside, schema_query-IsAside}
use sqlitewrite.Base.{ℕ, Bool, true, false, Option, none, some, List, [], ◌∷◌, eqb, ◌++◌, refl}
use sqlitewrite.Base.Exec.{Exec, modify, ◌>>◌}
use sqlitewrite.Base.Hoare.{
  ends_always, keeps_always, Keeps-if, Keeps, keeps_rules, Keeps-pure, Keeps-raise, Keeps-gets,
  Keeps-modify, ensures_bind,
}
use sqlitewrite.Text.{Text}
use sqlitewrite.Sqlite.{Stmt, Call, History, Engine, Steps, Status, Timespec, Binding}
use sqlitewrite.MiniSqlite.Db.{Db, send, ask, exec, push_row, push_rows, text_row}
use sqlitewrite.MiniSqlite.Schema.{get_schema, have_table, add_column, name_and_type}
use sqlitewrite.MiniSqlite.Statement.{
  Row, Arg, bind_prep, check_bind, sqlite_error, exec_prep, step_loop, after_loop, step_error,
  finally,
}
use sqlitewrite.MiniSqlite.Deadline.{deadline_start, deadline_stop}

module _ {A : Type 0} {P : Db → Type 0} where
  pub Keeps-finally :
      {m : Exec Db A} {cleanup : Exec Db (Unit {0})}
      → Keeps P m
      → Keeps P cleanup
      → Keeps P (finally m cleanup)
  unfolding finally
  Keeps-finally {m = m} {cleanup = c} h k = record {
    at = λ s p.
        let (r, s') = m s in
        ends_always P r _ (keeps_always P (c s').0 _ (k.at s' (keeps_always P r s' (h.at s p))));
  }

-- A property that survives the calls which are allowed, rows that are read, and counting.
pub record IsFramedFor (Allowed : Call → Type 0) (P : Db → Type 0) : Type 0 where
  pub on_call :
      (c : Call) (db : Db) → Allowed c → P db → P (record db { calls = db.calls ++ (c ∷ []) })
  pub on_rows : (rows : List (List Text)) (db : Db) → P db → P (record db { rows = rows })
  pub on_counters :
      (execs sorts fullscans autoindexes : ℕ) (db : Db)
      → P db
      → P (record db {
        execs = execs;
        sorts = sorts;
        fullscans = fullscans;
        autoindexes = autoindexes;
      })

-- All calls which leave transactions alone are allowed.
abbrev pub IsFramed : (Db → Type 0) → Type 0
IsFramed P = IsFramedFor IsQuiet P

-- The texts that the program executes for schemas, tables and columns are allowed.
abbrev pub AllowsExec : (Call → Type 0) → Type 0
AllowsExec Allowed = (sql : Text) → IsAside sql → Allowed (Call.exec sql)

-- What `execPrep` calls on its statement is allowed, and the time limit.
pub record AllowsUse (Allowed : Call → Type 0) (stmt : Option Stmt) : Type 0 where
  pub step : Allowed (Call.step stmt)
  pub reset : Allowed (Call.reset stmt)
  pub clear_bindings : Allowed (Call.clear_bindings stmt)
  pub stmt_status : (status : Status) → Allowed (Call.stmt_status stmt status)
  pub bind : (n : ℕ) (value : Binding) → Allowed (Call.bind stmt n value)

pub record AllowsTimer (Allowed : Call → Type 0) : Type 0 where
  pub progress_handler : (t : Timespec) → Allowed (Call.progress_handler t)
  pub remove_progress_handler : Allowed Call.remove_progress_handler

use_allowed : (stmt : Option Stmt) → AllowsUse IsQuiet stmt
use_allowed stmt = record {
  step = refl;
  reset = refl;
  clear_bindings = refl;
  stmt_status = λ status. refl;
  bind = λ n value. refl;
}

timer_allowed : AllowsTimer IsQuiet
timer_allowed = record { progress_handler = λ t. refl; remove_progress_handler = refl }

module _ {Allowed : Call → Type 0} (P : Db → Type 0) (f : IsFramedFor Allowed P) where
  pub send-Keeps : (c : Call) → Allowed c → Keeps P (send c)
  unfolding send
  send-Keeps c q = record { at = λ s p. f.on_call c s q p }

  pub ask-Keeps : {A : Type 0} (c : Call) (reply : History → A) → Allowed c → Keeps P (ask c reply)
  unfolding ask
  ask-Keeps c reply q = record { at = λ s p. f.on_call c s q p }

  push_row-Keeps : (o : Option (List Text)) → Keeps P (push_row o)
  unfolding push_row
  push_row-Keeps none = Keeps-raise _
  push_row-Keeps (some texts) = Keeps-modify _ (λ s p. f.on_rows _ s p)

  pub push_rows-Keeps : (rows : List (List (Option Text))) → Keeps P (push_rows rows)
  unfolding push_rows
  push_rows-Keeps [] = Keeps-pure tt
  push_rows-Keeps (r ∷ rest) =
      ensures_bind (push_row-Keeps (text_row r)) (λ _. push_rows-Keeps rest)

  pub exec-Keeps_by :
      (e : Engine) (sql : Text)
      → ((db : Db) → P db → P (record db { calls = db.calls ++ (Call.exec sql ∷ []) }))
      → Keeps P (exec e sql)
  unfolding exec ask
  exec-Keeps_by e sql move = ensures_bind (Keeps-modify _ (λ s p. f.on_rows [] s p)) λ _.
      ensures_bind (record { at = λ s p. move s p })
        λ reply.
          ensures_bind (push_rows-Keeps reply.rows)
            λ _. Keeps-if (eqb reply.rc 0) (Keeps-gets _) (Keeps-raise _)

  pub exec-Keeps : (e : Engine) (sql : Text) → Allowed (Call.exec sql) → Keeps P (exec e sql)
  exec-Keeps e sql q = exec-Keeps_by e sql (λ db p. f.on_call _ db q p)

  name_and_type-Keeps : (rows : List (List Text)) → Keeps P (name_and_type rows)
  unfolding name_and_type
  name_and_type-Keeps [] = Keeps-pure []
  name_and_type-Keeps ((cid ∷ name ∷ type ∷ more) ∷ rest) =
      search (keeps_rules, name_and_type-Keeps rest)
  name_and_type-Keeps (row ∷ rest) = Keeps-raise _

  module _ (execs : AllowsExec Allowed) where
    pub get_schema-Keeps : (e : Engine) (table : Text) → Keeps P (get_schema e table)
    unfolding get_schema
    get_schema-Keeps e table =
        ensures_bind (exec-Keeps e _ (execs _ (schema_query-IsAside table)))
          λ rows. ensures_bind (name_and_type-Keeps rows) (λ cols. Keeps-pure _)

    pub add_column-Keeps :
        (e : Engine) (table name type meta : Text) → Keeps P (add_column e table name type meta)
    unfolding add_column have_table
    add_column-Keeps e table name type meta =
        ensures_bind (ensures_bind (get_schema-Keeps e table) (λ cols. Keeps-pure _)) λ there.
          ensures_bind
            (exec-Keeps e _ (execs _ (ddl-IsAside e.strict_tables there table name type meta)))
            (λ _. Keeps-pure tt)

  module _ (e : Engine) (stmt : Option Stmt) (use_ : AllowsUse Allowed stmt) where
    step_error-Keeps : (rc : ℕ) → Keeps P (step_error e stmt rc)
    unfolding step_error sqlite_error
    step_error-Keeps rc =
        ensures_bind (send-Keeps _ use_.reset)
          λ _. ensures_bind (send-Keeps _ use_.clear_bindings) λ _. Keeps-raise _

    pub step_loop-Keeps :
        (collect : Bool) (steps : Steps) (rows : List Row)
        → Keeps P (step_loop e stmt collect steps rows)
    unfolding step_loop
    step_loop-Keeps collect Steps.done rows =
        ensures_bind (send-Keeps _ use_.step) (λ _. Keeps-pure _)
    step_loop-Keeps collect (Steps.failed rc) rows =
        ensures_bind (send-Keeps _ use_.step) (λ _. step_error-Keeps rc)
    step_loop-Keeps true (Steps.row cols rest) rows =
        ensures_bind (send-Keeps _ use_.step) (λ _. step_loop-Keeps true rest _)
    step_loop-Keeps false (Steps.row cols rest) rows =
        ensures_bind (send-Keeps _ use_.step) (λ _. step_error-Keeps 100)

    counted :
        (g : Db → Db)
        → ((s : Db) → P s → P (g s))
        → {m : Exec Db (List Row)} → Keeps P m
        → Keeps P (modify g >> m)
    counted g k h = ensures_bind (Keeps-modify g k) (λ _. h)

    pub after_loop-Keeps : (rows : List Row) → Keeps P (after_loop e stmt rows)
    unfolding after_loop sqlite_error
    after_loop-Keeps rows = ensures_bind (ask-Keeps _ _ (use_.stmt_status _)) λ _.
        counted _ (λ s p. f.on_counters _ _ _ _ s p)
          (ensures_bind (ask-Keeps _ _ (use_.stmt_status _)) λ _.
            counted _ (λ s p. f.on_counters _ _ _ _ s p)
              (ensures_bind (ask-Keeps _ _ (use_.stmt_status _)) λ _.
                counted _ (λ s p. f.on_counters _ _ _ _ s p)
                  (counted _ (λ s p. f.on_counters _ _ _ _ s p)
                    (ensures_bind (ask-Keeps _ _ use_.reset) λ rc.
                      Keeps-if (eqb rc 0)
                        (ensures_bind (send-Keeps _ use_.clear_bindings) (λ _. Keeps-pure _))
                        (Keeps-raise _)))))

  module _ (timer : AllowsTimer Allowed) where
    pub deadline_start-Keeps : (e : Engine) (msec : ℕ) → Keeps P (deadline_start e msec)
    unfolding deadline_start
    deadline_start-Keeps e msec =
        Keeps-if (eqb msec 0) (Keeps-pure tt)
          (record { at = λ s p. (send-Keeps _ (timer.progress_handler _)).at s p })

    pub deadline_stop-Keeps : (msec : ℕ) → Keeps P (deadline_stop msec)
    unfolding deadline_stop
    deadline_stop-Keeps msec =
        Keeps-if (eqb msec 0) (Keeps-pure tt) (send-Keeps _ timer.remove_progress_handler)

-- Where the use of every statement is allowed.
module _ {Allowed : Call → Type 0} (P : Db → Type 0) (f : IsFramedFor Allowed P)
    (uses : (stmt : Option Stmt) → AllowsUse Allowed stmt) (timer : AllowsTimer Allowed)
    (e : Engine) (table : Text) where
  pub bind_prep-Keeps_for : (n : ℕ) (v : Arg) → Keeps P (bind_prep e table n v)
  unfolding bind_prep check_bind
  bind_prep-Keeps_for n v =
      ensures_bind (Keeps-gets _)
        λ stmt. ensures_bind (ask-Keeps P f _ _ ((uses stmt).bind n _)) (λ rc. search keeps_rules)

  pub exec_prep-Keeps_for : (collect : Bool) (msec : ℕ) → Keeps P (exec_prep e table collect msec)
  unfolding exec_prep
  exec_prep-Keeps_for collect msec = ensures_bind (deadline_start-Keeps P f timer e msec) λ _.
      Keeps-finally
        (ensures_bind (Keeps-gets _) λ stmt. ensures_bind (Keeps-gets _) λ replies.
          ensures_bind (step_loop-Keeps P f e stmt (uses stmt) collect replies [])
            λ rows. after_loop-Keeps P f e stmt (uses stmt) rows)
        (deadline_stop-Keeps P f timer msec)

module _ (P : Db → Type 0) (f : IsFramed P) where
  pub bind_prep-Keeps :
      (e : Engine) (table : Text) (n : ℕ) (v : Arg) → Keeps P (bind_prep e table n v)
  bind_prep-Keeps = bind_prep-Keeps_for P f use_allowed timer_allowed

  pub exec_prep-Keeps :
      (e : Engine) (table : Text) (collect : Bool) (msec : ℕ)
      → Keeps P (exec_prep e table collect msec)
  exec_prep-Keeps = exec_prep-Keeps_for P f use_allowed timer_allowed
