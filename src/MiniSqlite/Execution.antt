-- ===== src/MiniSqlite/Execution.antt =====
-- An execution of a prepared statement that returns: its rows are those of the engine, and its calls
-- follow one another in one order.
use sqlitewrite.MiniSqlite.Deadline.{deadline_stop, deadline_start, time_to_die}
use sqlitewrite.Base.Hoare.{
  Ensures, ensures_bind, Ends, ensures_gets, ensures_given, ensures_weaken, Anything,
}
use sqlitewrite.MiniSqlite.Calls.{
  start_calls, complete, step_calls, At, closing_calls, stop_calls, row_of, recall, step_loop-At,
  after_loop-At,
}
use sqlitewrite.MiniSqlite.Statement.{exec_prep, Row, finally, step_loop, after_loop}
use sqlitewrite.Base.Exec.{Exec, Result, pure, ◌>>=◌, ok, gets, err}
use sqlitewrite.Base.{
  ℕ, ◌≡◌, Bool, false, List, Option, ◌++◌, map, none, some, [], append_assoc, Bool-cases, eqb, inl,
  sym, append-nil, inr, ap, ◌∷◌, ◌∙◌,
}
use sqlitewrite.MiniSqlite.Db.{Db, stmt_of, send}
use sqlitewrite.Sqlite.{Stmt, History, Engine, Column, Call}
use sqlitewrite.Text.{Text}
use sqlitewrite.Text.Dict.{Dict, at}

module _ {A : Type 0} (R Q : A → Db → Type 0) where
  ends_finally :
      (r : Result A) (db db' : Db)
      → Ends R Anything (r, db)
      → ((a : A) → R a db → Q a db')
      → Ends Q Anything (r, db')
  ends_finally (ok a) db db' h k = k a h
  ends_finally (err x) db db' h k = tt

  ensures_finally :
      {P : Db → Type 0} {m : Exec Db A} (c : Exec Db (Unit {0}))
      → Ensures P m R Anything
      → ((a : A) (db : Db) → R a db → Q a (c db).1)
      → Ensures P (finally m c) Q Anything
  unfolding finally
  ensures_finally {m = m} c h k = record {
    at = λ db p. ends_finally (m db).0 (m db).1 (c (m db).1).1 (h.at db p) (λ a. k a (m db).1);
  }

module _ (e : Engine) (table : Text) (stmts : Dict (Option Stmt)) where
  abbrev pub stmt : Option Stmt
  stmt = at none table stmts

  -- The calls of an execution that yields `rows`.
  abbrev pub exec_calls : History → ℕ → List (List Column) → History
  exec_calls calls msec rows =
      start_calls e calls msec ++ (step_calls stmt rows ++ (closing_calls stmt ++ stop_calls msec))

  pub record Completed (collect : Bool) (calls : History) (msec : ℕ) (out : List Row) (db : Db)
      : Type 0 where
    pub rows : List (List Column)
    pub ended : complete (e.steps (calls ++ start_calls e calls msec) stmt) ≡ some rows
    pub unread : collect ≡ false → rows ≡ []
    pub out_eq : out ≡ map row_of rows
    pub state : At stmts (calls ++ exec_calls calls msec rows) db

  deadline_start-At :
      (calls : History) (msec : ℕ)
      → Ensures
          (At stmts calls)
          (deadline_start e msec)
          (λ _. At stmts (calls ++ start_calls e calls msec))
          Anything
  unfolding deadline_start send pure
  deadline_start-At calls msec = elim (Bool-cases (eqb msec 0)) [
    | inl p ↦ rw p (record { at = λ db k. recall (sym (append-nil calls)) k })
    | inr p ↦ rw p (record {
      at = λ db k. record {
        stmts_eq = k.stmts_eq;
        calls_eq =
            ap (λ h. h ++ (Call.progress_handler (time_to_die (e.monotonic h) msec) ∷ []))
              k.calls_eq;
      };
    })
  ]

  deadline_stop-At :
      (calls : History) (msec : ℕ) (db : Db)
      → At stmts calls db
      → At stmts (calls ++ stop_calls msec) (deadline_stop msec db).1
  unfolding deadline_stop send pure
  deadline_stop-At calls msec db k = elim (Bool-cases (eqb msec 0)) [
    | inl p ↦ rw p (recall (sym (append-nil calls)) k)
    | inr p ↦ rw p (record {
      stmts_eq = k.stmts_eq;
      calls_eq = ap (λ h. h ++ (Call.remove_progress_handler ∷ [])) k.calls_eq;
    })
  ]

  -- What holds before the deadline is removed.
  abbrev Ran : Bool → History → ℕ → List Row → Db → Type 0
  Ran collect calls msec out db =
      (rows : List (List Column)) × (complete (e.steps (calls ++ start_calls e calls msec) stmt)
        ≡ some rows)
      × (collect ≡ false → rows ≡ [])
      × (out ≡ map row_of rows)
      × At stmts (calls ++ start_calls e calls msec ++ step_calls stmt rows ++ closing_calls stmt)
          db

  body-At :
      (calls : History) (collect : Bool) (msec : ℕ)
      → Ensures
          (At stmts (calls ++ start_calls e calls msec))
          (do
            p ← gets (stmt_of table)
            replies ← gets (λ db. e.steps db.calls p)
            rows ← step_loop e p collect replies []
            after_loop e p rows)
          (Ran collect calls msec)
          Anything
  unfolding stmt_of
  body-At calls collect msec =
      let c = calls ++ start_calls e calls msec in
      ensures_bind {R = λ p db. (p ≡ stmt) × At stmts c db}
        (ensures_gets _ (λ db k. (ap (at none table) k.stmts_eq, k)))
        λ p. ensures_given λ same. rw same (
          ensures_bind {R = λ r db. (r ≡ e.steps c stmt) × At stmts c db}
            (ensures_gets _ (λ db k. (ap (λ h. e.steps h stmt) k.calls_eq, k)))
            λ r. ensures_given λ told. rw told (
              ensures_bind (step_loop-At e table stmts c collect (e.steps c stmt) []) λ out.
                record {
                  at = λ db (rs, ended, unread, all, k).
                      (ensures_weaken (λ t h. h) (λ o t (q, h). (rs, ended, unread, q ∙ all, h))
                          (λ t h. h) (after_loop-At e table stmts _ out)).at
                        db k;
                }))

  pub exec_prep-At :
      (calls : History) (collect : Bool) (msec : ℕ)
      → Ensures
          (At stmts calls)
          (exec_prep e table collect msec)
          (Completed collect calls msec)
          Anything
  unfolding exec_prep
  exec_prep-At calls collect msec = ensures_bind (deadline_start-At calls msec) λ _.
      ensures_finally (Ran collect calls msec) (Completed collect calls msec) (deadline_stop msec)
        (body-At calls collect msec)
        λ out db (rs, ended, unread, all, k). record {
          rows = rs;
          ended = ended;
          unread = unread;
          out_eq = all;
          state = recall (simp append_assoc) (deadline_stop-At _ msec db k);
        }
