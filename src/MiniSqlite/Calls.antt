-- ===== src/MiniSqlite/Calls.antt =====
-- The calls that `bindPrep` and `execPrep` make when they return, and the rows that come back.
use sqlitewrite.MiniSqlite.Deadline.{time_to_die}
use sqlitewrite.MiniSqlite.Statement.{
  bind_prep, Row, check_bind, read_columns, Arg, binding, step_loop, after_loop, step_error,
  sqlite_error,
}
use sqlitewrite.Base.{
  ℕ, ◌≡◌, Bool, List, Option, none, some, [], ◌∷◌, ◌++◌, map, ap, eqb, if◌then◌else◌, false, sym,
  append-nil, ◌∙◌, append_assoc, refl, true,
}
use sqlitewrite.Base.Exec.{◌>>=◌, Exec, modify, ◌>>◌}
use sqlitewrite.Base.Hoare.{
  Ensures, ensures_bind, ensures_gets, ensures_given, ensures_if, ensures_pure, ensures_raise,
  ensures_weaken, ensures_modify, Anything,
}
use sqlitewrite.Text.{Text}
use sqlitewrite.Text.Dict.{Dict, at}
use sqlitewrite.Sqlite.{Stmt, Call, Column, Steps, Status, History, Engine}
use sqlitewrite.MiniSqlite.Db.{Db, send, ask, stmt_of}
use mathlib.Core.Option

-- The statements, the transaction flag and the calls made are known.
pub record At (stmts : Dict (Option Stmt)) (calls : History) (db : Db) : Type 0 where
  pub stmts_eq : db.stmts ≡ stmts
  pub calls_eq : db.calls ≡ calls

-- All rows of an execution that ends with SQLITE_DONE.
abbrev pub complete : Steps → Option (List (List Column))
complete Steps.done = some []
complete (Steps.failed rc) = none
complete (Steps.row cols rest) = Option.map (λ rs. cols ∷ rs) (complete rest)

abbrev pub row_of : List Column → Row
row_of cols = read_columns cols []

-- One `sqlite3_step` for each row, and one for the end.
abbrev pub step_calls : Option Stmt → List (List Column) → History
step_calls p [] = Call.step p ∷ []
step_calls p (r ∷ rs) = Call.step p ∷ step_calls p rs

abbrev pub closing_calls : Option Stmt → History
closing_calls p =
    Call.stmt_status p Status.fullscan_step
    ∷ Call.stmt_status p Status.sort
    ∷ Call.stmt_status p Status.autoindex
    ∷ Call.reset p
    ∷ Call.clear_bindings p
    ∷ []

abbrev pub start_calls : Engine → History → ℕ → History
start_calls e calls msec =
    if eqb msec 0 then [] else Call.progress_handler (time_to_die (e.monotonic calls) msec) ∷ []

abbrev pub stop_calls : ℕ → History
stop_calls msec = if eqb msec 0 then [] else Call.remove_progress_handler ∷ []

pub recall :
    {stmts : Dict (Option Stmt)} {h h' : History} {db : Db}
    → h ≡ h'
    → At stmts h db
    → At stmts h' db
recall e k = record { stmts_eq = k.stmts_eq; calls_eq = k.calls_eq ∙ e }

module _ (stmts : Dict (Option Stmt)) {E : Db → Type 0} where
  pub send-At :
      (calls : History) (c : Call)
      → Ensures (At stmts calls) (send c) (λ _. At stmts (calls ++ (c ∷ []))) E
  unfolding send
  send-At calls c = record {
    at = λ db k. record { stmts_eq = k.stmts_eq; calls_eq = ap (λ h. h ++ (c ∷ [])) k.calls_eq };
  }

  ask-At :
      {A : Type 0} (calls : History) (c : Call) (reply : History → A)
      → Ensures
          (At stmts calls)
          (ask c reply)
          (λ r db. (r ≡ reply calls) × At stmts (calls ++ (c ∷ [])) db)
          E
  unfolding ask
  ask-At calls c reply = record {
    at = λ db k. (
      ap reply k.calls_eq,
      record { stmts_eq = k.stmts_eq; calls_eq = ap (λ h. h ++ (c ∷ [])) k.calls_eq },
    );
  }

module _ (e : Engine) (table : Text) (stmts : Dict (Option Stmt)) where
  abbrev st : Option Stmt
  st = at none table stmts

  -- A value that is bound.
  pub bind_prep-At :
      (calls : History) (n : ℕ) (v : Arg)
      → Ensures
          (At stmts calls)
          (bind_prep e table n v)
          (λ _. At stmts (calls ++ (Call.bind st n (binding v) ∷ [])))
          Anything
  unfolding bind_prep stmt_of check_bind
  bind_prep-At calls n v =
      ensures_bind {R = λ p db. (p ≡ st) × At stmts calls db}
        (ensures_gets _ (λ db k. (ap (at none table) k.stmts_eq, k)))
        λ p. ensures_given λ same. rw same (
          ensures_bind (ask-At stmts calls _ _) λ rc. ensures_given λ _.
            ensures_if (eqb rc 0) (λ _. ensures_pure tt (λ db k. k))
              (λ _. ensures_raise _ (λ db k. tt)))

  -- Rows are only read where the caller asks for them.
  abbrev pub Delivered : Bool → Steps → List Row → List Row → Db → History → Type 0
  Delivered collect replies rows out db calls =
      (rs : List (List Column)) × (complete replies ≡ some rs)
      × (collect ≡ false → rs ≡ [])
      × (out ≡ rows ++ map row_of rs)
      × At stmts (calls ++ step_calls st rs) db

  step_error-At :
      (calls : History) (rc : ℕ) {Q : List Row → Db → Type 0}
      → Ensures (At stmts calls) (step_error e st rc) Q Anything
  unfolding step_error sqlite_error
  step_error-At calls rc =
      ensures_bind (send-At stmts calls _)
        λ _. ensures_bind (send-At stmts _ _) λ _. ensures_raise _ (λ db k. tt)

  pub step_loop-At :
      (calls : History) (collect : Bool) (replies : Steps) (rows : List Row)
      → Ensures
          (At stmts calls)
          (step_loop e st collect replies rows)
          (λ out db. Delivered collect replies rows out db calls)
          Anything
  unfolding step_loop
  step_loop-At calls collect Steps.done rows =
      ensures_bind (send-At stmts calls _)
        λ _. ensures_pure _ (λ db k. ([], refl, λ _. refl, sym (append-nil rows), k))
  step_loop-At calls collect (Steps.failed rc) rows =
      ensures_bind (send-At stmts calls _) (λ _. step_error-At _ rc)
  step_loop-At calls true (Steps.row cols rest) rows = ensures_bind (send-At stmts calls _) λ _.
      ensures_weaken (λ db k. k)
        (λ out db (rs, ended, none_read, same, k). (
          cols ∷ rs,
          ap (Option.map (λ rs. cols ∷ rs)) ended,
          λ p. cc,
          same ∙ append_assoc rows _ _,
          recall (append_assoc calls _ _) k,
        ))
        (λ db k. k) (step_loop-At (calls ++ (Call.step st ∷ [])) true rest _)
  step_loop-At calls false (Steps.row cols rest) rows =
      ensures_bind (send-At stmts calls _) (λ _. step_error-At _ 100)

  counter-At :
      (calls : History) (status : Status) (f : ℕ → Db → Db)
      → ((n : ℕ) (db : Db)
          → At stmts (calls ++ (Call.stmt_status st status ∷ [])) db
          → At stmts (calls ++ (Call.stmt_status st status ∷ [])) (f n db))
      → {B : Type 0} {Q : B → Db → Type 0} {rest : Exec Db B}
      → Ensures (At stmts (calls ++ (Call.stmt_status st status ∷ []))) rest Q Anything
      → Ensures
          (At stmts calls)
          (ask (Call.stmt_status st status) (λ h. e.stmt_status h st status) >>= λ n.
            modify (f n) >> rest)
          Q
          Anything
  counter-At calls status f keep h =
      ensures_bind (ask-At stmts calls _ _)
        λ n. ensures_given λ _. ensures_bind (ensures_modify _ (keep n)) (λ _. h)

  pub after_loop-At :
      (calls : History) (rows : List Row)
      → Ensures
          (At stmts calls)
          (after_loop e st rows)
          (λ out db. (out ≡ rows) × At stmts (calls ++ closing_calls st) db)
          Anything
  unfolding after_loop sqlite_error
  after_loop-At calls rows =
      let c₁ = calls ++ (Call.stmt_status st Status.fullscan_step ∷ []) in
      let c₂ = c₁ ++ (Call.stmt_status st Status.sort ∷ []) in
      let c₃ = c₂ ++ (Call.stmt_status st Status.autoindex ∷ []) in
      let c₄ = c₃ ++ (Call.reset st ∷ []) in
      let same : c₄ ++ (Call.clear_bindings st ∷ []) ≡ calls ++ closing_calls st =
        simp append_assoc in
      counter-At calls Status.fullscan_step _
        (λ n db k. record { stmts_eq = k.stmts_eq; calls_eq = k.calls_eq })
        (counter-At c₁ Status.sort _
          (λ n db k. record { stmts_eq = k.stmts_eq; calls_eq = k.calls_eq })
          (counter-At c₂ Status.autoindex _
            (λ n db k. record { stmts_eq = k.stmts_eq; calls_eq = k.calls_eq })
            (ensures_bind
              (ensures_modify _ (λ db k. record { stmts_eq = k.stmts_eq; calls_eq = k.calls_eq }))
              λ _. ensures_bind (ask-At stmts c₃ _ _) λ rc. ensures_given λ _.
                ensures_if (eqb rc 0)
                  (λ _.
                    ensures_bind (send-At stmts c₄ _)
                      λ _. ensures_pure _ (λ db k. (refl, recall same k)))
                  (λ _. ensures_raise _ (λ db k. tt)))))
