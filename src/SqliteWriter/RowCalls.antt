-- ===== src/SqliteWriter/RowCalls.antt =====
-- The calls that write one row, from its values and the statement of its table.
use sqlitewrite.Base.{ap}
use sqlitewrite.Base.Int.{pos}
use sqlitewrite.Sqlite.{Binding}
use sqlitewrite.MiniSqlite.Db.{Db}
use sqlitewrite.MiniSqlite.Execution.{exec_prep-At, Completed, exec_calls}
use sqlitewrite.SqliteWriter.Frame.{ensures_on_db_only}
use sqlitewrite.MiniSqlite.Statement.{binding, Row}
use sqlitewrite.MiniSqlite.Calls.{At, closing_calls, recall, bind_prep-At}
use sqlitewrite.SqliteWriter.Insert.{bind_loop, write_row, Values, to_arg}
use sqlitewrite.Base.{
  Option, ℕ, List, ◌∷◌, ◌++◌, none, map, sym, ◌+◌, append-nil, append_assoc, false, [], ◌≡◌, refl,
}
use sqlitewrite.Text.Dict.{Dict, at}
use sqlitewrite.Base.Hoare.{Ensures, ensures_bind, ensures_pure, ensures_weaken, Anything}
use sqlitewrite.Text.{Text}
use sqlitewrite.Sqlite.{Stmt, Engine, History, Call}
use sqlitewrite.Value.{Var}
use sqlitewrite.SqliteWriter.Writer.{Writer}

-- What SQLite is given for a value: an empty blob is a zeroblob of length 0, a 32-bit unsigned number
-- goes as a 64-bit one.
abbrev pub bound : Var → Binding
bound (Var.double d) = Binding.double d
bound (Var.int32 z) = Binding.int z
bound (Var.uint32 n) = Binding.int64 (pos n)
bound (Var.int64 z) = Binding.int64 z
bound (Var.string s) = Binding.text s
bound (Var.blob []) = Binding.zeroblob 0
bound (Var.blob (b ∷ bs)) = Binding.blob (b ∷ bs)
bound Var.null = Binding.null

binding-to_arg : (v : Var) → binding (to_arg v) ≡ bound v
binding-to_arg (Var.double d) = refl
binding-to_arg (Var.int32 z) = refl
binding-to_arg (Var.uint32 n) = refl
binding-to_arg (Var.int64 z) = refl
binding-to_arg (Var.string s) = refl
binding-to_arg (Var.blob []) = refl
binding-to_arg (Var.blob (b ∷ bs)) = refl
binding-to_arg Var.null = refl

-- The calls that bind the values to the parameters from `n` on, in order.
abbrev pub bind_calls : Option Stmt → ℕ → List Var → History
bind_calls p n [] = []
bind_calls p n (v ∷ vs) = Call.bind p n (bound v) ∷ bind_calls p (n + 1) vs

-- The calls that write one row with a statement: the values are bound, it is stepped once to its
-- end, the counters are read, and it is reset with its parameters cleared.
abbrev pub row_calls : Option Stmt → List Var → History
row_calls p vs = bind_calls p 1 vs ++ (Call.step p ∷ closing_calls p)

abbrev pub AtDb : Dict (Option Stmt) → History → Writer → Type 0
AtDb stmts calls w = At stmts calls w.db

module _ (e : Engine) (table : Text) (stmts : Dict (Option Stmt)) where
  pub bind_loop_at :
      (calls : History) (n : ℕ) (vs : List Var)
      → Ensures
          (AtDb stmts calls)
          (bind_loop e table n vs)
          (λ _. AtDb stmts (calls ++ bind_calls (at none table stmts) n vs))
          Anything
  unfolding bind_loop
  bind_loop_at calls n [] = ensures_pure tt (λ w k. recall (sym (append-nil calls)) k)
  bind_loop_at calls n (v ∷ vs) =
      let p = at none table stmts in
      let same : calls ++ (Call.bind p n (binding (to_arg v)) ∷ [])
          ≡ calls ++ (Call.bind p n (bound v) ∷ []) =
        ap (λ b. calls ++ (Call.bind p n b ∷ [])) (binding-to_arg v) in
      ensures_bind
        (ensures_weaken (λ w k. k) (λ _ w k. recall same k) (λ w k. k)
          (ensures_on_db_only (bind_prep-At e table stmts calls n (to_arg v))))
        λ _.
          ensures_weaken (λ w k. k) (λ _ w k. recall (append_assoc calls _ _) k) (λ w k. k)
            (bind_loop_at (calls ++ (Call.bind p n (bound v) ∷ [])) (n + 1) vs)

  written :
      (calls : History) (out : List Row) (db : Db)
      → Completed e table stmts false calls 0 out db
      → At stmts
          (calls ++ (Call.step (at none table stmts) ∷ closing_calls (at none table stmts)))
          db
  written calls out db c =
      let p = at none table stmts in
      let same : calls ++ exec_calls e table stmts calls 0 c.rows
          ≡ calls ++ (Call.step p ∷ closing_calls p) =
        rw (c.unread refl) refl in
      recall same c.state

  pub write_row_at :
      (calls : History) (values : Values)
      → Ensures
          (AtDb stmts calls)
          (write_row e table values)
          (λ _. AtDb stmts (calls ++ row_calls (at none table stmts) (map (λ (_, v). v) values)))
          Anything
  unfolding write_row
  write_row_at calls values =
      let bound = calls ++ bind_calls (at none table stmts) 1 (map (λ (_, v). v) values) in
      ensures_bind (bind_loop_at calls 1 (map (λ (_, v). v) values)) λ _.
        ensures_bind (ensures_on_db_only (exec_prep-At e table stmts bound false 0))
          λ out. ensures_pure tt λ w c. recall (append_assoc calls _ _) (written bound out w.db c)
