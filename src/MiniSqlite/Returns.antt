-- ===== src/MiniSqlite/Returns.antt =====
-- The functions of `MiniSQLite` throw only where the engine reports an error or hands over
-- something unexpected.
use sqlitewrite.Base.{ℕ, ◌≡◌, Bool, List, [], ◌∷◌, ◌++◌, Option, none, some, eqb}
use sqlitewrite.Base.Exec.{ok, ◌>>=◌, Result, gets, err, pure}
use sqlitewrite.Base.Hoare.{
  Ensures, ensures_bind, ensures_pure, ensures_modify, ensures_if, ensures_gets, ensures_given,
  Ends, Anything, Never, Returns,
}
use sqlitewrite.Base.Lists.{All}
use sqlitewrite.Text.{Text}
use sqlitewrite.Sqlite.{Stmt, Call, History, Engine, Steps, PrepareReply, Binding}
use sqlitewrite.MiniSqlite.Db.{Db, send, ask, stmt_of, exec, push_rows, push_row, text_row}
use sqlitewrite.MiniSqlite.Schema.{schema_query, name_and_type, get_schema, add_column, have_table}
use sqlitewrite.MiniSqlite.Deadline.{deadline_start}
use sqlitewrite.MiniSqlite.Statement.{
  exec_prep, step_loop, after_loop, Row, finally, Arg, bind_prep, check_bind, prepare,
  prepare_result, finalize_old, set_stmt,
}

-- Three texts at least.
abbrev pub IsWide : List Text → Type 0
IsWide (cid ∷ name ∷ type ∷ rest) = Unit
IsWide _ = ⊥

-- The row holds no null, and its texts satisfy `W`.
abbrev pub HasTexts : (List Text → Type 0) → List (Option Text) → Type 0
HasTexts W row = (texts : List Text) × (text_row row ≡ some texts) × W texts

-- An engine on which nothing fails: `SQLITE_OK` everywhere, each text compiles, each statement runs
-- to its end without a row, and the rows of a schema query have their columns, none of them null.
pub record IsObliging (e : Engine) : Type 0 where
  pub exec_ok : (h : History) (sql : Text) → (e.exec h sql).rc ≡ 0
  pub exec_texts : (h : History) (sql : Text) → All (HasTexts Anything) (e.exec h sql).rows
  pub schema_rows :
      (h : History) (table : Text) → All (HasTexts IsWide) (e.exec h (schema_query table)).rows
  pub compiles :
      (h : History) (sql : Text) → (a : ℕ) × (e.prepare_v2 h sql ≡ PrepareReply.prepared (some a))
  pub bind_ok : (h : History) (p : Option Stmt) (n : ℕ) (b : Binding) → e.bind h p n b ≡ 0
  pub ends : (h : History) (p : Option Stmt) → e.steps h p ≡ Steps.done
  pub reset_ok : (h : History) (p : Option Stmt) → e.reset h p ≡ 0

pub send-Returns : (c : Call) → Returns (send c)
unfolding send
send-Returns c = record { at = λ db p. tt }

-- The answer of a call is one that the engine gives.
pub ensures_ask :
    {A : Type 0} {P : Db → Type 0} {Q : A → Type 0} (c : Call) (reply : History → A)
    → ((h : History) → Q (reply h))
    → Ensures P (ask c reply) (λ a _. Q a) Never
unfolding ask
ensures_ask c reply h = record { at = λ db p. h db.calls }

module _ (W : List Text → Type 0) where
  push_rows-Keeps :
      (rows : List (List (Option Text)))
      → All (HasTexts W) rows
      → Ensures (λ db. All W db.rows) (push_rows rows) (λ _ db. All W db.rows) Never
  unfolding push_rows push_row
  push_rows-Keeps [] h = ensures_pure tt (λ db p. p)
  push_rows-Keeps (r ∷ rs) ((texts, same, w), h) =
      ensures_bind {R = λ _ db. All W db.rows}
        (rw same (ensures_modify _ (λ db p. All_snoc db.rows texts p w))) λ _. push_rows-Keeps rs h
    where
      All_snoc : (xs : List (List Text)) (t : List Text) → All W xs → W t → All W (xs ++ (t ∷ []))
      All_snoc [] t h w = (w, tt)
      All_snoc (x ∷ xs) t (p, h) w = (p, All_snoc xs t h w)

  pub exec-Returns :
      (e : Engine) (o : IsObliging e) (sql : Text)
      → ((h : History) → All (HasTexts W) (e.exec h sql).rows)
      → Ensures Anything (exec e sql) (λ rows _. All W rows) Never
  unfolding exec ask
  exec-Returns e o sql texts =
      ensures_bind {R = λ _ db. All W db.rows} (ensures_modify _ (λ db p. tt)) λ _.
        ensures_bind
          {R = λ reply db. ((reply.rc ≡ 0) × All (HasTexts W) reply.rows) × All W db.rows}
          (record { at = λ db p. ((o.exec_ok db.calls sql, texts db.calls), p) })
          λ reply. ensures_given λ (good, all).
            ensures_bind (push_rows-Keeps reply.rows all) λ _. rw good (ensures_gets _ (λ db p. p))

module _ (e : Engine) (o : IsObliging e) where
  name_and_type-Returns : (rows : List (List Text)) → All IsWide rows → Returns (name_and_type rows)
  unfolding name_and_type
  name_and_type-Returns [] h = ensures_pure _ (λ db p. p)
  name_and_type-Returns ((cid ∷ name ∷ type ∷ more) ∷ rest) (_, h) =
      ensures_bind (name_and_type-Returns rest h) λ cols. ensures_pure _ (λ db p. p)
  name_and_type-Returns ((cid ∷ name ∷ []) ∷ rest) (p, _) = absurd p
  name_and_type-Returns ((cid ∷ []) ∷ rest) (p, _) = absurd p
  name_and_type-Returns ([] ∷ rest) (p, _) = absurd p

  pub get_schema-Returns : (table : Text) → Returns (get_schema e table)
  unfolding get_schema
  get_schema-Returns table =
      ensures_bind (exec-Returns IsWide e o _ (λ h. o.schema_rows h table)) λ rows. record {
        at = λ db wide.
            (ensures_bind (name_and_type-Returns rows wide) λ _. ensures_pure _ (λ db p. p)).at db
              tt;
      }

  pub add_column-Returns :
      (table name type meta : Text) → Returns (add_column e table name type meta)
  unfolding add_column have_table
  add_column-Returns table name type meta =
      ensures_bind (ensures_bind (get_schema-Returns table) λ _. ensures_pure _ (λ db p. p))
        λ there.
          ensures_bind (exec-Returns Anything e o _ (λ h. o.exec_texts h _))
            λ _. ensures_pure _ (λ db p. tt)

  pub bind_prep-Returns : (table : Text) (n : ℕ) (a : Arg) → Returns (bind_prep e table n a)
  unfolding bind_prep check_bind pure
  bind_prep-Returns table n a =
      ensures_bind {R = λ _. Anything} (ensures_gets _ (λ db p. p)) λ stmt.
        ensures_bind (ensures_ask {Q = λ rc. rc ≡ 0} _ _ (λ h. o.bind_ok h stmt n _))
          λ rc. record { at = λ db good. rw good tt }

  pub prepare-Returns : (table sql : Text) → Returns (prepare e table sql)
  unfolding prepare set_stmt finalize_old prepare_result
  prepare-Returns table sql = ensures_bind {R = λ _. Anything} (ensures_gets _ (λ db p. p)) λ old.
      ensures_bind (finalize old) λ _.
        ensures_bind
          (ensures_ask {Q = λ reply. (a : ℕ) × (reply ≡ PrepareReply.prepared (some a))} _ _
            (λ h. o.compiles h sql))
          λ reply. record { at = λ db (a, same). rw same (prepared_ a db) }
    where
      set_ : (p : Option Stmt) → Returns (set_stmt table p)
      set_ p = ensures_modify _ (λ db p. p)

      prepared_ :
          (a : ℕ) (db : Db)
          → Ends
              (λ _. Anything)
              Never
              (prepare_result table sql (PrepareReply.prepared (some a)) db)
      prepared_ a db = (set_ (some (record { address = a; sql = sql }))).at db tt

      finalize : (old : Option Stmt) → Returns (finalize_old table old)
      finalize none = ensures_pure _ (λ db p. p)
      finalize (some old) = ensures_bind (send-Returns _) λ _. set_ none

  ends_finally :
      {A : Type 0} (r : Result A) (db db' : Db)
      → Ends (λ _. Anything) Never (r, db)
      → Ends (λ _. Anything) Never (r, db')
  ends_finally (ok a) db db' h = tt
  ends_finally (err x) db db' h = h

  after_loop-Returns : (p : Option Stmt) (rows : List Row) → Returns (after_loop e p rows)
  unfolding after_loop
  after_loop-Returns p rows = ensures_bind (asked _ _) λ n.
      ensures_bind {R = λ _. Anything} (ensures_modify _ (λ db p. p)) λ _.
        ensures_bind (asked _ _) λ n.
          ensures_bind {R = λ _. Anything} (ensures_modify _ (λ db p. p)) λ _.
            ensures_bind (asked _ _) λ n.
              ensures_bind {R = λ _. Anything} (ensures_modify _ (λ db p. p)) λ _.
                ensures_bind {R = λ _. Anything} (ensures_modify _ (λ db p. p)) λ _.
                  ensures_bind (ensures_ask {Q = λ rc. rc ≡ 0} _ _ (λ h. o.reset_ok h p)) λ rc.
                    record {
                      at = λ db good. rw good (
                          (ensures_bind {R = λ _. Anything} (send-Returns _)
                              (λ _. ensures_pure _ (λ db p. p))).at
                            db tt);
                    }
    where
      asked :
          (c : Call) (reply : History → ℕ) → Ensures Anything (ask c reply) (λ _. Anything) Never
      asked c reply = ensures_ask c reply (λ h. tt)

  run-Returns :
      (table : Text) (collect : Bool)
      → Returns (do
        stmt ← gets (stmt_of table)
        replies ← gets (λ db. e.steps db.calls stmt)
        rows ← step_loop e stmt collect replies []
        after_loop e stmt rows)
  unfolding step_loop
  run-Returns table collect = ensures_bind {R = λ _. Anything} (ensures_gets _ (λ db p. p)) λ stmt.
      ensures_bind {R = λ replies _. replies ≡ Steps.done}
        (ensures_gets _ (λ db p. o.ends db.calls stmt))
        λ replies.
          ensures_bind {R = λ _. Anything}
            (record {
              at = λ db done. rw done (
                  (ensures_bind {R = λ _. Anything} (send-Returns (Call.step stmt))
                      (λ _. ensures_pure {Q = λ _. Anything} {E = Never} [] (λ db p. p))).at
                    db tt);
            })
            λ rows. after_loop-Returns stmt rows

  pub exec_prep-Returns :
      (table : Text) (collect : Bool) (msec : ℕ) → Returns (exec_prep e table collect msec)
  unfolding exec_prep deadline_start finally send
  exec_prep-Returns table collect msec =
      ensures_bind {R = λ _. Anything}
        (ensures_if (eqb msec 0) (λ _. ensures_pure _ (λ db p. p))
          (λ _. record { at = λ db p. tt }))
        λ _. record { at = λ db p. ends_finally _ _ _ ((run-Returns table collect).at db p) }
